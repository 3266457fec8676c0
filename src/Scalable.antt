-- ===== src/Scalable.antt =====
-- internal/pkg/scalable: what the kinds of workloads share (util.go) and the four ways to scale
-- them, which the children model.
--
-- A wrapper such as `replicaScaledWorkload` embeds an interface value; it is a function of the
-- interface's operations on a type of resources here. A method that mutates its receiver returns
-- the new resource, and every one of them leaves the receiver as it was where it returns an error.
pub mod ReplicaScaled
pub mod SuspendScaled
pub mod ValueScaled
pub mod NodeSelectorScaled
pub mod Annotations
pub mod Restored
pub mod Resources
pub mod Filter
pub mod Kinds
pub mod Children
pub mod Comparing
use go_kube_downscaler.Prelude.{Bool, true, false, ◌&&◌, String, Option, none, some, ℤ, eqb_ℤ, not}
use go_kube_downscaler.Fault.{Fault, original_replicas_unset, Result, ok, err}
use go_kube_downscaler.Text.{Text, text_eq}
use go_kube_downscaler.Dict.{Dict, lookup, insert, delete}
use go_kube_downscaler.Replicas.{Replicas, absolute, percentage, boolean, string, to_text, set}
use go_kube_downscaler.Metrics.{SavedResources}

abbrev pub annotation_original_replicas : String
annotation_original_replicas = "downscaler/original-replicas"

-- The part of `scalableResource` that scaling uses.
pub record ScalableResource (R : Type 0) : Type 0 where
  pub get_annotations : R → Dict Text
  pub set_annotations : Dict Text → R → R

pub record ScalingSummary : Type 0 where
  pub saved_resources : Option SavedResources
  pub is_update_needed : Bool
  pub from : Option Replicas
  pub to : Option Replicas
  pub attribute : String

-- The zero value `var summary scalingSummary`.
abbrev pub no_summary : ScalingSummary
no_summary = record {
  saved_resources = none;
  is_update_needed = false;
  from = none;
  to = none;
  attribute = "";
}

abbrev bool_eq : Bool → Bool → Bool
bool_eq true b = b
bool_eq false b = not b

-- `==` on two interface values of `Replicas`: the same type, and the same value.
unfoldable pub replicas_eq : Replicas → Replicas → Bool
replicas_eq (absolute a) (absolute b) = eqb_ℤ a b
replicas_eq (percentage a) (percentage b) = eqb_ℤ a b
replicas_eq (boolean a) (boolean b) = bool_eq a b
replicas_eq (string s) (string t) = text_eq s t
replicas_eq _ _ = false

-- What `getOriginalReplicas` reads from the annotation's text.
unfoldable pub read_original : Option Text → Result Replicas
read_original none = err original_replicas_unset
read_original (some text) = set text

module _ {R : Type 0} (resource : ScalableResource R) where
  open resource use {get_annotations, set_annotations}

  unfoldable pub set_original_replicas : Replicas → R → R
  set_original_replicas count w =
      set_annotations (insert annotation_original_replicas (to_text count) (get_annotations w)) w

  unfoldable pub get_original_replicas : R → Result Replicas
  get_original_replicas w = read_original (lookup annotation_original_replicas (get_annotations w))

  unfoldable pub remove_original_replicas : R → R
  remove_original_replicas w =
      set_annotations (delete annotation_original_replicas (get_annotations w)) w

-- `errors.As(err, &originalReplicasUnsetErr)`.
unfoldable pub is_original_replicas_unset : Fault → Bool
is_original_replicas_unset original_replicas_unset = true
is_original_replicas_unset _ = false
