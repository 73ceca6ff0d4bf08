-- ===== src/Tests/States.antt =====
-- The states of the small cluster at which the properties are applied.
use sosreport_operator.Prelude.{refl, true, false, none, List, [], ◌∷◌, pos, negsuc}
use sosreport_operator.GoMap.{made}
use sosreport_operator.Api.{Sosreport, Job, JobCondition, OwnerReference}
use sosreport_operator.Env.{Env}
use sosreport_operator.Controller.State.{State}
use sosreport_operator.Controller.Run.{run_sosreport_jobs}
use sosreport_operator.Controller.Template.Total.{SoundTemplate}
use sosreport_operator.Env.{UpdateKeepsIdentity}
use sosreport_operator.Tests.{
  first_running, no_meta, request, report, template, cluster, fresh, ready,
}

abbrev pub annotated : Sosreport
annotated = record report { metadata = record (report.metadata) { annotations = made [] } }

-- two nodes wait, one job may run
abbrev pub waiting : State ready
waiting = record {
  r = record fresh {
    run_list = made (("u1", tt) ∷ []);
    job_to_run_list = made (("u1", made (("node-a", tt) ∷ ("node-b", tt) ∷ [])) ∷ []);
    job_running_list = made [];
    sosreport_concurrency = pos 1;
    pvc_capacity = "10Gi";
  };
  s = annotated;
  w = [];
}

abbrev pub ran : State ready
ran = (run_sosreport_jobs ready request waiting).1

abbrev pub stopped : State ready
stopped = record waiting { r = record (waiting.r) { sosreport_concurrency = negsuc 2 } }

abbrev pub unscheduled : State ready
unscheduled = record {
  r = record fresh { run_list = made []; job_to_run_list = made []; job_running_list = made [] };
  s = report;
  w = [];
}

abbrev pub running : State ready
running = record waiting {
  r = record (waiting.r) {
    job_to_run_list = made [];
    job_running_list = made (("u1", made (("node-a", tt) ∷ ("node-b", tt) ∷ [])) ∷ []);
  };
}

abbrev pub finished_report : Sosreport
finished_report = record report { status = record (report.status) { finished = true } }

abbrev pub over : Env
over = cluster finished_report [] true

abbrev pub over_state : State over
over_state = record { r = fresh; s = report; w = [] }

abbrev pub broken : Env
broken = cluster report [] false

abbrev pub broken_state : State broken
broken_state = record { r = unscheduled.r; s = report; w = [] }

abbrev pub conditions : List JobCondition
conditions =
    record { type_ = "Complete"; status = "False" }
    ∷ record { type_ = "Failed"; status = "True" }
    ∷ []

abbrev pub stray : OwnerReference
stray = record { kind = "CronJob"; uid = "u2"; controller = none }

abbrev pub stray_job : Job
stray_job = record template { metadata = record no_meta { owner_references = stray ∷ [] } }

abbrev pub unfit : State ready
unfit = record waiting { r = record (waiting.r) { pvc_capacity = "much" } }

-- a restarted operator finds the lists in the annotations
abbrev pub restarted : State ready
restarted = record {
  r = unscheduled.r;
  s = record report {
    metadata = record (report.metadata) {
      annotations =
          made
            (("job-to-run-list", "{\"node-b\":{}}") ∷ ("job-running-list", "{\"node-a\":{}}") ∷ []);
    };
  };
  w = [];
}

-- every file decodes to the template, which has a container
abbrev pub ready_template : SoundTemplate ready "sosreport.yaml"
ready_template = record { sound = λ dir yaml json w read parsed. (_, [], refl) }

-- one job runs, one node waits
abbrev pub started : State ready
started = record { r = first_running.r; s = report; w = [] }

abbrev pub ready_identity : UpdateKeepsIdentity ready
ready_identity = record { uid = λ s w. refl; name = λ s w. refl }
