-- ===== src/Tests/Stored.antt =====
-- The life of a Sosreport in Reconcile of controllers/sosreport_controller.go, in a cluster that keeps
-- the Sosreport and the jobs that it is sent.
use mathlib.Core.List.Perm
use sosreport_operator.Prelude.{
  String, ◌≡◌, ◌≢◌, refl, true, none, some, List, [], ◌∷◌, arith, contains, map, count, ◌≤◌, false,
}
use sosreport_operator.GoMap.{made, get, has, entries}
use sosreport_operator.GoMap.Assoc.{find}
use sosreport_operator.Api.{Sosreport, Job}
use sosreport_operator.Env.{
  Env, ok, RangeIsPerm, UpdateKeepsIdentity, UpdateKeepsAnnotations, CreatesObjects,
}
use sosreport_operator.Controller.State.{State}
use sosreport_operator.Controller.Template.Total.{SoundTemplate}
use sosreport_operator.Controller.Template.Works.{WorkingTemplate}
use sosreport_operator.Controller.Track.Done.{IsEmpty}
use sosreport_operator.Controller.Reconcile.{reconcile}
use sosreport_operator.Controller.Lifecycle.Cluster.{Cooperative, Ended, asking}
use sosreport_operator.Controller.Lifecycle.Rounds.{Rounds, no_round, round, rest}
use sosreport_operator.Controller.Lifecycle.Whole.{second_call}
use sosreport_operator.Tests.{program, template, request, report, ready, fresh}

-- what the server keeps
record Server : Type 0 where
  report : Sosreport
  jobs : List Job

-- A cluster that keeps what it is sent and lists the jobs that were created; it answers all else as the
-- cluster of the other tests.
abbrev store : Env
store = record {
  World = Server;
  get_sosreport = λ name w. (ok w.report, w);
  get_config_map = λ name w. ((ready.get_config_map name []).0, w);
  get_secret = λ name w. ((ready.get_secret name []).0, w);
  list_nodes = λ selector w. ((ready.list_nodes selector []).0, w);
  list_jobs = λ namespace w. (ok w.jobs, w);
  update = λ s w. ((none, s), record w { report = s });
  update_status = λ s w. ((none, s), record w { report = s });
  create_pvc = λ pvc w. (none, w);
  create_job = λ job w. (none, record w { jobs = job ∷ w.jobs });
  event = λ s reason message w. w;
  now = λ w. ("20201126120000", w);
  range_order = λ A l w. (l, w);
  stat = λ dir w. (true, w);
  read_file = λ file w. (ok "kind: Job", w);
  yaml_to_json = ready.yaml_to_json;
  decode = ready.decode;
  parse_quantity = ready.parse_quantity;
  tolerates_taint = ready.tolerates_taint;
  set_controller_reference = ready.set_controller_reference;
}

-- All jobs have ended.
abbrev ended : Server → Server
ended w = record w {
  jobs =
      map {A = Job}
        (λ j. record j { conditions = record { type_ = "Complete"; status = "True" } ∷ [] }) w.jobs;
}

abbrev store_range : RangeIsPerm store
store_range = record { perm = λ A l w. Perm.refl l }

abbrev store_identity : UpdateKeepsIdentity store
store_identity = record { uid = λ s w. refl; name = λ s w. refl }

abbrev store_annotations : UpdateKeepsAnnotations store
store_annotations = record { annotations = λ s w. refl }

abbrev store_creates : CreatesObjects store
store_creates = record { pvc = λ p w. refl; job = λ j w. refl }

abbrev store_template : SoundTemplate store "sosreport.yaml"
store_template = record { sound = λ dir yaml json w read parsed. (_, [], refl) }

abbrev store_works : WorkingTemplate store "sosreport.yaml"
store_works = record {
  found = λ w. refl;
  file = λ w. ("kind: Job", "kind: Job", template, refl, refl, refl, (_, [], refl));
}

-- a Sosreport that the operator has not met, and the states after each call
abbrev unmet : State store
unmet = record { r = fresh; s = report; w = record { report = report; jobs = [] } }

abbrev begun : State store
begun = (reconcile store request unmet).1

abbrev launched : State store
launched = (second_call store request unmet begun.w).1

abbrev half : State store
half = (reconcile store request (record launched { w = ended launched.w })).1

abbrev whole : State store
whole = (reconcile store request (record half { w = ended half.w })).1

abbrev over : State store
over = (reconcile store request (record whole { w = ended whole.w })).1

named : some true ≢ none
named h = cc

-- any world of this cluster in which the Sosreport is not finished
unfoldable cooperates :
    (w : Server)
    → w.report.status.finished ≡ false
    → w.report.metadata.uid ≡ "u1"
    → count w.report.metadata.name ≤ 43
    → Cooperative store request "u1" 1 w
unfolding program
cooperates w unfinished own short = record {
  sosreport = w.report;
  after = w;
  found = refl;
  unfinished = unfinished;
  same_uid = own;
  short = short;
  number = "1";
  given = refl;
  reads = refl;
  quantity = "10Gi";
  parsed = refl;
}

unfoldable begun_helps : Cooperative store request "u1" 1 begun.w
unfolding program
begun_helps = cooperates begun.w refl refl (omega arith)

unfoldable launched_helps : Cooperative store request "u1" 1 (ended launched.w)
unfolding program
launched_helps = cooperates (ended launched.w) refl refl (omega arith)

unfoldable half_helps : Cooperative store request "u1" 1 (ended half.w)
unfolding program
half_helps = cooperates (ended half.w) refl refl (omega arith)

only_first :
    (k : String)
    → has {V = Unit {0}} (made (("node-a", tt) ∷ [])) k ≡ true
    → contains k ("node-a" ∷ []) ≡ true
unfolding get entries find
only_first k h = ground arith

only_second :
    (k : String)
    → has {V = Unit {0}} (made (("node-b", tt) ∷ [])) k ≡ true
    → contains k ("node-b" ∷ "node-a" ∷ []) ≡ true
unfolding get entries find
only_second k h = ground arith

launched-Ended :
    Ended store request "u1" launched.r
      (asking store request launched.r launched_helps.sosreport launched_helps.after)
unfolding program cooperates launched_helps
launched-Ended = record {
  jobs = (ended launched.w).jobs;
  listed = refl;
  controllers = ((named, tt), tt);
  ended = only_first;
}

half-Ended :
    Ended store request "u1" half.r
      (asking store request half.r half_helps.sosreport half_helps.after)
unfolding program cooperates half_helps
half-Ended = record {
  jobs = (ended half.w).jobs;
  listed = refl;
  controllers = ((named, tt), ((named, tt), tt));
  ended = only_second;
}

abbrev two_rounds : Rounds store request "u1" 1 launched 2 whole
two_rounds =
    round (round no_round (ended launched.w) launched_helps launched-Ended) (ended half.w)
      half_helps half-Ended

-- the server has the Sosreport with Finished
whole-stored : (ended whole.w).report.status.finished ≡ true
unfolding program
whole-stored = refl

whole_to_run : IsEmpty whole.r.job_to_run_list "u1"
unfolding program entries get find
whole_to_run k = refl

whole_running : IsEmpty whole.r.job_running_list "u1"
unfolding program entries get find
whole_running k = refl

-- two calls that start and end the jobs, and one that finds the Sosreport finished
abbrev three_rounds : Rounds store request "u1" 1 launched 3 over
three_rounds =
    rest two_rounds whole_to_run whole_running (ended whole.w) (ended whole.w).report
      (ended whole.w) refl whole-stored
