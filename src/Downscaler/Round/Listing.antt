-- ===== src/Downscaler/Round/Listing.antt =====
-- What holds of the workloads of a round in every order, and of all of them.
use mathlib.Core.List.{Permᴰ}
use go_kube_downscaler.Prelude.{
  ◌≡◌, refl, sym, ap, ◌∙◌, true, All, List, [], ◌∷◌, map, String, str_eq_refl, arith,
}
use go_kube_downscaler.Dict.{Dict}
use go_kube_downscaler.Metrics.{NamespaceMetricsHolder}
use go_kube_downscaler.Scalable.Filter.{Listed}
use go_kube_downscaler.Scalable.Filter.Accounting.{count_in}
use go_kube_downscaler.Scalable.Filter.Holders.{has}
use go_kube_downscaler.Downscaler.Namespaces.Marking.{member}

-- The workloads of a namespace are as many in every order.
pub count_in-reordered :
    {W : Type 0} (view : W → Listed) (k : String) {xs ys : List W}
    → Permᴰ xs ys
    → count_in view k xs ≡ count_in view k ys
count_in-reordered view k Permᴰ.nil = refl
count_in-reordered view k (Permᴰ.cons e d) = rw (e, count_in-reordered view k d) refl
count_in-reordered view k (Permᴰ.swap e f) = rw (e, f) (ground arith)
count_in-reordered view k (Permᴰ.trans d e) =
    count_in-reordered view k d ∙ count_in-reordered view k e

member_later :
    {R : Type 0} (f : R → String) (n : String) (ws : List R) (ns : List String)
    → All (λ w. member (f w) ns ≡ true) ws
    → All (λ w. member (f w) (n ∷ ns) ≡ true) ws
member_later f n [] ns h = tt
member_later f n (w ∷ ws) ns (h, hs) = (ground arith, member_later f n ws ns hs)

-- Every text of a list is a member of it.
pub member-map :
    {R : Type 0} (f : R → String) (ws : List R) → All (λ w. member (f w) (map f ws) ≡ true) ws
member-map f [] = tt
member-map f (w ∷ ws) =
    (rw (str_eq_refl (f w)) refl, member_later f (f w) ws (map f ws) (member-map f ws))

pub has_grown :
    {R : Type 0} (f : R → String) (ws : List R) (d d' : Dict NamespaceMetricsHolder)
    → ((k : String) → has k d ≡ true → has k d' ≡ true)
    → All (λ w. has (f w) d ≡ true) ws
    → All (λ w. has (f w) d' ≡ true) ws
has_grown f [] d d' g h = tt
has_grown f (w ∷ ws) d d' g (h, hs) = (g (f w) h, has_grown f ws d d' g hs)

pub has_renamed :
    {R : Type 0} (view : R → Listed) (f : R → String) (ws : List R)
    (d : Dict NamespaceMetricsHolder)
    → ((w : R) → (view w).namespace ≡ f w)
    → All (λ w. has (view w).namespace d ≡ true) ws
    → All (λ w. has (f w) d ≡ true) ws
has_renamed view f [] d same h = tt
has_renamed view f (w ∷ ws) d same (h, hs) =
    (ap (λ k. has k d) (sym (same w)) ∙ h, has_renamed view f ws d same hs)
