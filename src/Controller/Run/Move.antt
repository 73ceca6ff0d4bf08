-- ===== src/Controller/Run/Move.antt =====
-- The second half of runSosreportJobs of controllers/sosreport_controller.go: the nodes whose jobs
-- were started move from the list of jobs to run to the list of running jobs.
use sosreport_operator.Prelude.{
  ℕ, suc, ◌+◌, ◌≤◌, String, ◌≡◌, refl, not, ◌&&◌, ◌||◌, none, some, List, [], ◌∷◌, arith, ◌==◌,
  eq_iff, eq_refl, contains, length, Option-cases, inl, inr, if◌then◌else◌,
}
use sosreport_operator.GoMap.{
  GoMap, NodeSet, nil_map, made, get, assign, len, get_map, delete_in, assign_in,
}
use sosreport_operator.GoMap.Assoc.{find}
use sosreport_operator.GoMap.Laws.{get-assign, len-assign-le, len-delete-lt}
use sosreport_operator.GoMap.Sets.{
  holds, get_map-assign_in, get_map-delete_in, holds-delete_in, holds-assign_in,
}
use sosreport_operator.Controller.State.{SosreportReconciler}
use sosreport_operator.Controller.Run.{make_running, move_nodes}
use sosreport_operator.Controller.Run.Entries.{
  GoMap-cases, Known, Known-refl, Known-trans, move_nodes-Known, make_running-Known,
}

empty_nil : (k : String) → get {V = Unit {0}} nil_map k ≡ none
unfolding get find
empty_nil k = refl

empty_made : (k : String) → get {V = Unit {0}} (made []) k ≡ none
unfolding get find
empty_made k = refl

len_made : len {V = Unit {0}} (made []) ≡ 0
unfolding len
len_made = refl

-- one if the first of the started nodes was waiting
abbrev pub first_waits : SosreportReconciler → String → List String → ℕ
first_waits r uid [] = 0
first_waits r uid (n ∷ ns) = if holds r.job_to_run_list uid n then 1 else 0

-- From `r` to `r'` the started nodes of the Sosreport have gone from the one list to the other, and
-- no other entry of either list has changed; both maps have the Sosreports that they had.
pub record Moved (uid : String) (r r' : SosreportReconciler) (started : List String) : Type 0 where
  pub running :
      (v k : String)
      → holds r'.job_running_list v k
        ≡ (uid == v && contains k started || holds r.job_running_list v k)
  pub to_run :
      (v k : String)
      → holds r'.job_to_run_list v k
        ≡ (not (uid == v && contains k started) && holds r.job_to_run_list v k)
  pub size :
      len (get_map r'.job_running_list uid) ≤ len (get_map r.job_running_list uid) + length started
  pub shrinks :
      len (get_map r'.job_to_run_list uid) + first_waits r uid started
      ≤ len (get_map r.job_to_run_list uid)
  pub known : (v : String) → Known v r r'
  pub others :
      r' ≡ record r { job_running_list = r'.job_running_list; job_to_run_list = r'.job_to_run_list }

module _ (uid : String) where
  -- one node less on the list of jobs to run
  shrink :
      (m : GoMap NodeSet) (n : String) (a b : ℕ)
      → a + b ≤ len (get_map (delete_in m uid n) uid)
      → a + (if holds m uid n then 1 else 0) ≤ len (get_map m uid)
  shrink m n a b h =
      ground (arith, h, get_map-delete_in m uid n uid, len-delete-lt (get_map m uid) n, eq_refl uid)

  -- one more node on the running list
  grow :
      (a b : ℕ) (old : GoMap NodeSet) (n : String) (m : GoMap NodeSet)
      → a ≤ len (get_map m uid) + b
      → assign_in old uid n ≡ some m
      → a ≤ len (get_map old uid) + suc b
  grow a b old n m h e =
      let (names, f, g) = get_map-assign_in old uid n {m' = m} uid e in
      ground (arith, len-assign-le (get_map old uid) n tt f, g, eq_refl uid, h)

  pub move_nodes-Moved :
      (r : SosreportReconciler) (ns : List String) {r' : SosreportReconciler}
      → move_nodes r uid ns ≡ some r'
      → Moved uid r r' ns
  unfolding move_nodes
  move_nodes-Moved r [] {r'} h = record {
    running = λ v k. ground arith;
    to_run = λ v k. ground arith;
    size = ground arith;
    shrinks = ground arith;
    known = λ v. move_nodes-Known v uid r [] h;
    others = ground arith;
  }
  move_nodes-Moved r (n ∷ ns) {r'} h = elim (Option-cases (assign_in r.job_running_list uid n)) [
    | inl e ↦ absurd (ground (arith, e))
    | inr (m, e) ↦
        let next : SosreportReconciler = record r {
          job_running_list = m;
          job_to_run_list = delete_in r.job_to_run_list uid n;
        } in
        let ih = move_nodes-Moved next ns {r' = r'} (rw (e, move_nodes) at h) in
        record {
          running = λ v k.
              ground (arith, ih.running v k, holds-assign_in r.job_running_list uid n {m' = m} v k);
          to_run =
              λ v k. ground (arith, ih.to_run v k, holds-delete_in r.job_to_run_list uid n v k);
          size = grow _ _ r.job_running_list n m ih.size e;
          shrinks = shrink r.job_to_run_list n _ _ ih.shrinks;
          known = λ v. move_nodes-Known v uid r (n ∷ ns) h;
          others = ih.others;
        }
  ]

  pub make_running_same :
      (r : SosreportReconciler) {r' : SosreportReconciler}
      → make_running r uid ≡ some r'
      → Moved uid r r' []
  unfolding make_running
  make_running_same r {r'} h = elim (GoMap-cases (get_map r.job_running_list uid)) [
    | inr (l, e) ↦
        let same : r ≡ r' = ground (arith, e, h) in
        rw (← same) (record {
          running = λ v k. ground arith;
          to_run = λ v k. ground arith;
          size = ground arith;
          shrinks = omega arith;
          known = λ v. Known-refl v r;
          others = refl;
        })
    | inl e ↦ elim (Option-cases (assign r.job_running_list uid (made []))) [
      | inl f ↦ absurd (ground (arith, e, f, h))
      | inr (m, f) ↦
          let same : record r { job_running_list = m } ≡ r' = ground (arith, e, f, h) in
          rw (← same) (record {
            running = λ v k. ground (
              arith,
              e,
              eq_iff uid v,
              get-assign r.job_running_list uid (made []) v f,
              empty_nil k,
              empty_made k,
            );
            to_run = λ v k. ground arith;
            size =
                ground
                  (arith, eq_refl uid, get-assign r.job_running_list uid (made []) uid f, len_made);
            shrinks = omega arith;
            known = λ v. rw same (make_running-Known v uid r h);
            others = refl;
          })
    ]
  ]

shrinks_trans :
    {uid : String} {r r₁ r₂ : SosreportReconciler} {new : List String}
    → Moved uid r r₁ []
    → Moved uid r₁ r₂ new
    → len (get_map r₂.job_to_run_list uid) + first_waits r uid new
      ≤ len (get_map r.job_to_run_list uid)
shrinks_trans {new = []} a b = omega (arith, a.shrinks, b.shrinks)
shrinks_trans {uid} {new = n ∷ new} a b = ground (arith, a.shrinks, b.shrinks, a.to_run uid n)

-- first without, and then with nodes that are started
pub Moved-trans :
    {uid : String} {r r₁ r₂ : SosreportReconciler} {new : List String}
    → Moved uid r r₁ []
    → Moved uid r₁ r₂ new
    → Moved uid r r₂ new
Moved-trans a b = record {
  running = λ v k. ground (arith, a.running v k, b.running v k);
  to_run = λ v k. ground (arith, a.to_run v k, b.to_run v k);
  size = omega (arith, a.size, b.size);
  shrinks = shrinks_trans a b;
  known = λ v. Known-trans (a.known v) (b.known v);
  others = ground (arith, a.others, b.others);
}
