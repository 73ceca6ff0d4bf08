-- ===== src/Controller/Track/Cache.antt =====
-- What synchronizeJobRunningCache of controllers/sosreport_controller.go leaves of the entries that a
-- cache has.
use sosreport_operator.Prelude.{
  String, ◌≡◌, true, Option, none, some, arith, Bool-cases, Option-cases, inl, inr, eq_iff,
}
use sosreport_operator.GoMap.{GoMap, NodeSet, get, has, assign}
use sosreport_operator.GoMap.Laws.{get-assign}
use sosreport_operator.Json.{unmarshal}
use sosreport_operator.Controller.Track.{loaded, load_annotation, store_annotation}

-- What is loaded into a cache leaves alone the entries that were there.
pub load_kept :
    (cache : GoMap NodeSet) (uid : String) (annotation : Option String) (v : String)
    {m : GoMap NodeSet}
    → has cache v ≡ true
    → load_annotation cache uid annotation ≡ loaded (some m)
    → get m v ≡ get cache v
unfolding load_annotation store_annotation
load_kept cache uid none v there h = ground (arith, h)
load_kept cache uid (some json) v {m} there h = elim (Bool-cases (has cache uid)) [
  | inl a ↦ ground (arith, a, h)
  | inr a ↦ elim (Option-cases (unmarshal json)) [
    | inl b ↦ absurd (ground (arith, a, b, h))
    | inr (names, b) ↦
        let assigned : assign cache uid names ≡ some m = ground (arith, a, b, h) in
        ground (arith, get-assign cache uid names v assigned, there, a, eq_iff uid v)
  ]
]
