-- ===== src/Scalable/Children.antt =====
-- `GetChildren` of internal/pkg/scalable/cronjobs.go and advancedcronjobs.go: the objects that a
-- cron job has started, each of which a goroutine gets.
--
-- A goroutine appends its workload or its error when it is through. `finished` is the order in
-- which they are through, an order of the names of the active jobs.
pub mod Orders
use go_kube_downscaler.Prelude.{List, [], ◌∷◌, ◌++◌, String}
use go_kube_downscaler.Fault.{Fault, Result, ok, err, joined, quoted}
use go_kube_downscaler.Text.{Text}
use go_kube_downscaler.Scalable.Resources.Jobs.{Job}
use go_kube_downscaler.Scalable.Resources.BroadcastJobs.{BroadcastJob}
use go_kube_downscaler.Scalable.Resources.ImagePullJobs.{ImagePullJob}
use go_kube_downscaler.Scalable.Resources.AdvancedCronJobs.{
  AdvancedCronJob, Child, get_child_workload,
}

abbrev pub append : {R : Type 0} → Result R → List R × List Fault → List R × List Fault
append (ok w) (results, errors) = (w ∷ results, errors)
append (err e) (results, errors) = (results, e ∷ errors)

-- `errors.Join`: the messages, a line each.
abbrev pub lines : Fault → List Fault → Text
unfolding quoted
lines e [] = quoted e
lines e (f ∷ errors) = quoted e ++ (10 ∷ lines f errors)

abbrev pub joined_or : {R : Type 0} → List R × List Fault → Result (List R)
joined_or (results, []) = ok results
joined_or (results, e ∷ errors) = err (joined (lines e errors))

module _ {R : Type 0} (get : String → Result R) where
  unfoldable pub gather : List String → List R × List Fault
  gather [] = ([], [])
  gather (name ∷ finished) = append (get name) (gather finished)

  -- `cronJob.GetChildren`, where `get` gets a job by its name.
  unfoldable pub get_children : List String → Result (List R)
  unfolding gather
  get_children finished = joined_or (gather finished)

-- `advancedCronJob.GetChildren`.
unfoldable pub get_advanced_children :
    (String → Result BroadcastJob)
    → (String → Result ImagePullJob)
    → (String → Result Job)
    → AdvancedCronJob
    → List String
    → Result (List Child)
unfolding get_children get_child_workload
get_advanced_children get_broadcast_job get_image_pull_job get_job c finished =
    get_children (get_child_workload get_broadcast_job get_image_pull_job get_job c.template)
      finished
