-- ===== src/Lib.antt =====
-- The sosreport operator: a Kubernetes operator that collects a sosreport from each selected node.
--
-- The program is one reconcile loop, controllers/sosreport_controller.go. main.go starts it, and
-- api/v1alpha1/sosreport_types.go declares the Sosreport resource that it reads and writes. A call of
-- Reconcile reads one Sosreport and its configuration. The first call for a Sosreport lists the
-- tolerated nodes and keeps their names in the list of jobs to run (jobToRunList); the later calls
-- retire the jobs that are done, start jobs on waiting nodes up to the concurrency, move their nodes to
-- the list of running jobs (jobRunningList), and set Finished when both lists are empty. Both lists are
-- kept in annotations of the Sosreport too, from which a restarted operator loads them.
--
-- The files and the code that they model:
-- - Api: api/v1alpha1/sosreport_types.go, and of the Kubernetes objects the fields that the controller
--   names.
-- - Env: what is outside the repository, as a record of calls: the Kubernetes client, the event
--   recorder, the clock, the file system, YAML and object decoding, quantities, taints, owner
--   references, and the order of a range over a map. A call reads and writes an unknown world. What the
--   code relies on are the records RangeIsPerm, UpdateKeepsIdentity, UpdateKeepsAnnotations,
--   SetsController and CreatesObjects.
-- - Exec: Go statements as functions from a state to an outcome, returned or panicked, and a state.
-- - GoMap, Strings, Json: Go's maps, and of its strings, strconv and encoding/json what the
--   controller calls. Json/Read reads a document with fuel, of which three steps for each character
--   and three more are given; that this is enough is shown for what Json/Write prints. Json/Write prints the sets of names, and Json/RoundTrip is about both.
-- - Controller/State: SosreportReconciler, the constants, the shared Sosreport object and the world.
-- - Controller/Config: setGlobalSosreportReconcilerConfiguration,
--   setDevelopmentSosreportReconcilerConfiguration, getEnvConfigurationFromConfigMapAndSecret,
--   getSosreportConfigMap and getSosreportSecret.
-- - Controller/Select: tolerates, objectGetController, isJobDone and getSosreportJobs.
-- - Controller/Update: update, updateStatus and refreshSosreport.
-- - Controller/Template: jobForSosreport, mapToEnvVarArr, labelsForSosreportJob, getTemplatesDir and
--   jobFromTemplate.
-- - Controller/Schedule: scheduleSosreportJobs.
-- - Controller/Track: init, synchronizeJobRunningCache, dequeueSosreportJobsDone,
--   synchronizeRunningStatus and isSosreportJobsDone.
-- - Controller/Run: runSosreportJobs.
-- - Controller/Reconcile: Reconcile.
-- - Controller/Lifecycle: the phases of a node, waiting, running and over, a call of Reconcile (Call),
--   the first call for a Sosreport (First), the second (Second), the calls up to the one that finishes
--   it and those after it (Rounds, Finish), all of them together (Whole), and a restart of the operator
--   (Reload, Resume). Controller/Lifecycle/Cluster says what the server does at one call for that, in
--   two records.
-- - Controller/Frame: which of these leave the reconciler and the Sosreport object alone; Frame/Log sets
--   beside the world of any cluster a log of the Jobs that the server has created.
-- - Main: the log level of main.go; Main/Manager: main and init of main.go, SetupWithManager, and the
--   API group of api/v1alpha1/groupversion_info.go with the types registered in
--   api/v1alpha1/sosreport_types.go, over the calls of other packages as a record Host.
-- - DeepCopy: the deep copies of api/v1alpha1/zz_generated.deepcopy.go, on a memory of cells at
--   addresses (DeepCopy/Memory), with the types as they stand in that memory. DeepCopy/Maps and
--   DeepCopy/Fields are about one map, slice or pointer, DeepCopy/Structs about the structs, and
--   DeepCopy/Objects about whole resources. The deep copies of ObjectMeta, ListMeta and Toleration are
--   a record Foreign, and what is documented of them the record Documented. The client libraries call this
--   code; in Controller a Sosreport is a value.
-- - Tests: a small cluster, a run from the first call to Finished on it, and the properties at concrete
--   inputs.
-- Each function stands under its Go name in snake case, with helpers for its loops and branches.
--
-- The concurrency is Go's 64-bit int with its wrap-around. Texts are lists of characters: names and
-- labels are ASCII, where a character is one byte. An inner map is changed in the map that holds it,
-- since no other variable of the controller keeps it across a change.
--
-- Not modelled: log messages, and the scripts of the container images. The result of Reconcile beside
-- its error is empty on every path and left out.
pub mod Prelude
pub mod GoMap
pub mod Exec
pub mod Api
pub mod Env
pub mod Json
pub mod Strings
pub mod Controller
pub mod Main
pub mod Tests
pub mod DeepCopy
