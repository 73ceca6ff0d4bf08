-- ===== src/Env.antt =====
-- What the controller calls and this repository does not hold: the Kubernetes client, the event
-- recorder, the clock, the file system, YAML and object decoding, quantities, taints, owner
-- references, and the order in which a `range` visits a map. Each call reads and writes an unknown
-- world, in which other actors may have worked since the last call.
use mathlib.Core.List.{Perm}
use sosreport_operator.Prelude.{String, ◌≡◌, Bool, true, Option, none, some, List, [], ◌∷◌}
use sosreport_operator.Api.{
  OwnerReference, Taint, Toleration, Sosreport, Node, Configuration, Job, PersistentVolumeClaim,
  NamespacedName,
}
use sosreport_operator.GoMap.{StringMap}

-- an `error` that is not nil
abbrev pub Error : Type 0
Error = String

-- a value and an error, of which one is used
pub data Result (A : Type 0) : Type 0 where
  ok : A → Result A
  err : Error → Result A

-- what `UniversalDeserializer` gives: a Job, or an object of another type
pub data Object : Type 0 where
  job_object : Job → Object
  other_object : Object

pub record Env : Type 1 where
  pub World : Type 0
  -- `r.Get`
  pub get_sosreport : NamespacedName → World → Result Sosreport × World
  pub get_config_map : NamespacedName → World → Result Configuration × World
  pub get_secret : NamespacedName → World → Result Configuration × World
  -- `r.List`
  pub list_nodes : StringMap → World → Result (List Node) × World
  pub list_jobs : String → World → Result (List Job) × World
  -- `r.Update` and `r.Status().Update`, which write the server's answer into the object
  pub update : Sosreport → World → (Option Error × Sosreport) × World
  pub update_status : Sosreport → World → (Option Error × Sosreport) × World
  -- `r.Create`
  pub create_pvc : PersistentVolumeClaim → World → Option Error × World
  pub create_job : Job → World → Option Error × World
  -- `r.recorder.Event` on the Sosreport, with its reason and message
  pub event : Sosreport → String → String → World → World
  -- `time.Now().Format("20060102150405")`
  pub now : World → String × World
  -- the order in which `range` visits these entries this time
  pub range_order : (A : Type 0) → List A → World → List A × World
  -- whether `os.Stat` succeeds; `ioutil.ReadFile`
  pub stat : String → World → Bool × World
  pub read_file : String → World → Result String × World
  pub yaml_to_json : String → Result String
  pub decode : String → Result Object
  -- `resourcev1.ParseQuantity`, in its canonical form; `MustParse` panics at `none`
  pub parse_quantity : String → Option String
  pub tolerates_taint : Toleration → Taint → Bool
  -- the new owner references of an object that has the given ones
  pub set_controller_reference : Sosreport → List OwnerReference → Result (List OwnerReference)

-- A `range` visits every entry once.
pub record RangeIsPerm (e : Env) : Type 1 where
  pub perm : (A : Type 0) (l : List A) (w : e.World) → Perm (e.range_order A l w).0 l

-- The answer to an update describes the same object.
pub record UpdateKeepsIdentity (e : Env) : Type 0 where
  pub uid : (s : Sosreport) (w : e.World) → (e.update s w).0.1.metadata.uid ≡ s.metadata.uid
  pub name : (s : Sosreport) (w : e.World) → (e.update s w).0.1.metadata.name ≡ s.metadata.name

-- An object with no owner gets the Sosreport as its controller.
pub record SetsController (e : Env) : Type 0 where
  pub sets :
      (s : Sosreport)
      → e.set_controller_reference s []
        ≡ ok (record { kind = "Sosreport"; uid = s.metadata.uid; controller = some true } ∷ [])

-- The answer to an update has the annotations that were sent.
pub record UpdateKeepsAnnotations (e : Env) : Type 0 where
  pub annotations :
      (s : Sosreport) (w : e.World)
      → (e.update s w).0.1.metadata.annotations ≡ s.metadata.annotations

-- The server creates what it is asked to.
pub record CreatesObjects (e : Env) : Type 0 where
  pub pvc : (p : PersistentVolumeClaim) (w : e.World) → (e.create_pvc p w).0 ≡ none
  pub job : (j : Job) (w : e.World) → (e.create_job j w).0 ≡ none
