-- ===== src/Controller/Lifecycle/Trim.antt =====
-- What a Sosreport's lists have in common before and after some nodes have left the running list
-- (controllers/sosreport_controller.go).
use sosreport_operator.Prelude.{String, ◌≡◌, refl, some, arith, Option-cases, inl, inr}
use sosreport_operator.GoMap.{GoMap, NodeSet, get, assign}
use sosreport_operator.GoMap.Sets.{holds-delete_in}
use sosreport_operator.GoMap.Entries.{get-or_made, has-delete_in}
use sosreport_operator.Api.{Sosreport}
use sosreport_operator.Controller.State.{SosreportReconciler}
use sosreport_operator.Controller.Schedule.{annotate, make_annotations}
use sosreport_operator.Controller.Track.{finish_node, init_maps}
use sosreport_operator.Controller.Lifecycle.{Trimmed}

pub Trimmed-refl : (v : String) (r : SosreportReconciler) → Trimmed v r r
Trimmed-refl v r = record {
  listed = refl;
  to_run = refl;
  running = refl;
  waits = λ k. refl;
  runs = λ k. ground arith;
}

pub made_uid : (s : Sosreport) → (make_annotations s).metadata.uid ≡ s.metadata.uid
unfolding make_annotations
made_uid s = refl

pub annotate_uid :
    (s s' : Sosreport) (k j : String) → annotate s k j ≡ some s' → s'.metadata.uid ≡ s.metadata.uid
unfolding annotate
annotate_uid s s' k j h = elim (Option-cases (assign s.metadata.annotations k j)) [
  | inl a ↦ ground (arith, a, h)
  | inr (m, a) ↦ ground (arith, a, h)
]

module _ (v : String) (r₀ : SosreportReconciler) where
  -- the lists as they are after some nodes have left
  abbrev Now : SosreportReconciler → Type 0
  Now r = Trimmed v r₀ r

  pub to_run_loaded :
      (r r' : SosreportReconciler) (m : GoMap NodeSet)
      → Now r
      → get m v ≡ get r.job_to_run_list v
      → Now r'
      → Now (record r' { job_to_run_list = m })
  to_run_loaded r r' m before same now = record {
    listed = now.listed;
    to_run = ground (arith, same, before.to_run);
    running = now.running;
    waits = λ k. ground (arith, same, before.waits k);
    runs = now.runs;
  }

  pub running_loaded :
      (r r' : SosreportReconciler) (m : GoMap NodeSet)
      → Now r
      → get m v ≡ get r.job_running_list v
      → Now r'
      → Now (record r' { job_running_list = m })
  running_loaded r r' m before same now = record {
    listed = now.listed;
    to_run = now.to_run;
    running = ground (arith, same, before.running);
    waits = now.waits;
    runs = λ k. ground (arith, same, before.runs k);
  }

  pub finish_node_now :
      (uid node : String) (r : SosreportReconciler) → Now r → Now (finish_node r uid node)
  unfolding finish_node
  finish_node_now uid node r now = record {
    listed = now.listed;
    to_run = now.to_run;
    running = ground (arith, has-delete_in r.job_running_list uid node v, now.running);
    waits = now.waits;
    runs = λ k. ground (arith, holds-delete_in r.job_running_list uid node v k, now.runs k);
  }

  init_maps_now : (r : SosreportReconciler) → Now r → Now (init_maps r)
  unfolding init_maps
  init_maps_now r now = record {
    listed = ground (arith, get-or_made r.run_list v, now.listed);
    to_run = ground (arith, get-or_made r.job_to_run_list v, now.to_run);
    running = ground (arith, get-or_made r.job_running_list v, now.running);
    waits = λ k. ground (arith, get-or_made r.job_to_run_list v, now.waits k);
    runs = λ k. ground (arith, get-or_made r.job_running_list v, now.runs k);
  }
