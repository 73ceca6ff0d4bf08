-- ===== src/Controller/Lifecycle/Steps.antt =====
-- How the phases of the nodes of a Sosreport change when some nodes leave its running list and some of
-- the waiting ones are started (controllers/sosreport_controller.go).
use sosreport_operator.Prelude.{
  String, ◌≡◌, ap, Bool, true, false, not, ◌&&◌, ◌||◌, List, arith, ◌==◌, ◌∙◌, All, contains_of_All,
  Bool-cases, inl, inr, eq_iff, contains, if◌then◌else◌,
}
use sosreport_operator.GoMap.{has}
use sosreport_operator.GoMap.Sets.{holds}
use sosreport_operator.Controller.State.{SosreportReconciler}
use sosreport_operator.Controller.Run.Effect.{Ran}
use sosreport_operator.Controller.Lifecycle.{
  Phase, waiting, running, over, phase, Advance, stay, Tracked, Trimmed,
}

-- From `r` to `r'` the Sosreport stays tracked, and each of its nodes goes at most one phase on.
pub record Advanced (v : String) (r r' : SosreportReconciler) : Type 0 where
  pub tracked : Tracked v r'
  pub advance : (k : String) → Advance (phase r v k) (phase r' v k)

-- a phase is read from the two lists
pub same_phase :
    (old now : SosreportReconciler) (uid k : String) {p : Phase}
    → holds now.job_to_run_list uid k ≡ holds old.job_to_run_list uid k
    → holds now.job_running_list uid k ≡ holds old.job_running_list uid k
    → Advance (phase now uid k) p
    → Advance (phase old uid k) p
same_phase old now uid k a b h = rw (← a, ← b) h

-- the booleans that a phase is read from
advance_of :
    (w r w' r' : Bool)
    → (w && r) ≡ false
    → (w' && r') ≡ false
    → (w' && not w) ≡ false
    → (r' && not (r || w)) ≡ false
    → (w && not w' && not r') ≡ false
    → Advance
        (if w then waiting else if r then running else over)
        (if w' then waiting else if r' then running else over)
advance_of true true w' r' a b c d f = absurd (cc)
advance_of false r true r' a b c d f = absurd (cc)
advance_of true false true r' a b c d f = stay waiting
advance_of true false false true a b c d f = Advance.start
advance_of true false false false a b c d f = absurd (cc)
advance_of false true false true a b c d f = stay running
advance_of false true false false a b c d f = Advance.finish
advance_of false false false false a b c d f = stay over
advance_of false false false true a b c d f = absurd (cc)

-- Some nodes have left the running list.
pub Trimmed-Advanced :
    (v : String) (r r' : SosreportReconciler) → Tracked v r → Trimmed v r r' → Advanced v r r'
Trimmed-Advanced v r r' known t = record {
  tracked = record {
    listed = t.listed ∙ known.listed;
    to_run = t.to_run ∙ known.to_run;
    running = t.running ∙ known.running;
    exclusive = λ k. ground (arith, t.waits k, t.runs k, known.exclusive k);
  };
  advance = λ k.
      advance_of _ _ _ _ (known.exclusive k)
        (ground (arith, t.waits k, t.runs k, known.exclusive k)) (ground (arith, t.waits k))
        (ground (arith, t.runs k)) (ground (arith, t.waits k));
}

-- a node that was started was waiting
started_waits :
    (v uid : String) (r : SosreportReconciler) (new : List String) (k : String)
    → All (λ n. holds r.job_to_run_list uid n ≡ true) new
    → (uid == v && contains k new && not (holds r.job_to_run_list v k)) ≡ false
started_waits v uid r new k all = elim (Bool-cases (uid == v)) [
  | inr e ↦ ground (arith, e)
  | inl e ↦ elim (Bool-cases (contains k new)) [
    | inr c ↦ ground (arith, e, c)
    | inl c ↦
        let same : uid ≡ v = (eq_iff uid v).0 e in
        let there = rw same at (contains_of_All (holds r.job_to_run_list uid) new k all c) in
        ground (arith, e, c, there)
  ]
]

-- the booleans of a node after some nodes have left the running list and those with `c` were started
started_node :
    (w r w₁ r₁ c w₂ r₂ : Bool)
    → (w && r) ≡ false
    → w₁ ≡ w
    → (r₁ && not r) ≡ false
    → (c && not w₁) ≡ false
    → w₂ ≡ (not c && w₁)
    → r₂ ≡ (c || r₁)
    → ((w₂ && r₂) ≡ false)
      × Advance
          (if w then waiting else if r then running else over)
          (if w₂ then waiting else if r₂ then running else over)
started_node w r w₁ r₁ c w₂ r₂ a b d f g h = (
  ground arith,
  advance_of w r w₂ r₂ a (ground arith) (ground arith) (ground arith) (ground arith),
)

-- The nodes of a Sosreport with no node on both lists, after some have left the running list, and then
-- some of the waiting ones were started.
pub Ran-phases :
    (v uid : String) (r r₁ r₂ : SosreportReconciler) (new : List String) (k : String)
    → (holds r.job_to_run_list v k && holds r.job_running_list v k) ≡ false
    → Trimmed v r r₁
    → Ran r₁ r₂ uid new
    → ((holds r₂.job_to_run_list v k && holds r₂.job_running_list v k) ≡ false)
      × Advance (phase r v k) (phase r₂ v k)
Ran-phases v uid r r₁ r₂ new k exclusive t ran =
    started_node (holds r.job_to_run_list v k) (holds r.job_running_list v k) _ _
      (uid == v && contains k new) (holds r₂.job_to_run_list v k) (holds r₂.job_running_list v k)
      exclusive (t.waits k) (t.runs k) (ground (arith, started_waits v uid r₁ new k ran.from))
      (ran.moved.to_run v k) (ran.moved.running v k)

pub Ran-Advanced :
    (v uid : String) (r r₁ r₂ : SosreportReconciler) (new : List String)
    → Tracked v r
    → Trimmed v r r₁
    → Ran r₁ r₂ uid new
    → Advanced v r r₂
Ran-Advanced v uid r r₁ r₂ new known t ran =
    let node = λ (k : String). Ran-phases v uid r r₁ r₂ new k (known.exclusive k) t ran in
    record {
      tracked = record {
        listed = ap (λ x. has x.run_list v) ran.moved.others ∙ t.listed ∙ known.listed;
        to_run = (ran.moved.known v).to_run (t.to_run ∙ known.to_run);
        running = (ran.moved.known v).running (t.running ∙ known.running);
        exclusive = λ k. (node k).0;
      };
      advance = λ k. (node k).1;
    }
