-- ===== src/Lib.antt =====
-- The K8Boss operator.
--
-- The operator watches three custom resources and makes a remote control plane agree with them.
-- Each reconciler reads an object from the Kubernetes API server, calls the control plane over HTTP
-- and writes what it learned into the object's status. A PlatformConfig holds the kill switch that
-- the two policy reconcilers ask before they call; a finalizer keeps a policy until the graph edges
-- that its reconciles opened are closed.
--
-- Parts, and the code that each is about:
--   Api            api/v1alpha1/*_types.go: the resources, field by field.
--   Backend        internal/backendclient/client.go. Errors has the two error types and their
--                  predicates, Parse has parseAPIError and truncate, Wire the bodies, Encode and
--                  Decode their json tags, Transport has New, NewUnconfigured and do, Calls the six
--                  exported methods. Answers relates a call's answer to the exchange behind it.
--   Kube           What is used of controller-runtime and apimachinery, as parameters, and Act, the
--                  actions of a reconciler. Its log holds every object that is read or written, with its
--                  spec and its whole status, and every spec that is sent.
--   Common         internal/controller/common.go: constants, setCondition, checkPauseGate. Evidence
--                  and Endings hold the vocabulary of the safety statements, Walk and Endings one
--                  rule for each way in which the code goes on.
--   Segmentation   internal/controller/segmentationpolicy_controller.go: reconcile, finalize,
--                  reconcile_error and not_ready are its methods; reconcile_live, reconcile_unpaused,
--                  push and reconcile_answer are the rest of Reconcile from each test or call on.
--   Runtime        internal/controller/runtimesecuritypolicy_controller.go, in the same way.
--   Platform       internal/controller/platformconfig_controller.go; Health is splitProviderHealth.
--   Preflight      internal/preflight/preflight.go.
--   Startup        cmd/main.go: what main makes of its settings. Manager has init, the flags and the
--                  calls of the manager, Sequence and Environment what the process does, RoundTrip what
--                  parseClusterID reads.
--   System         the three controllers on one cluster, as a step relation; KillSwitch is about it while
--                  the kill switch is on.
--   Setup          api/v1alpha1/groupversion_info.go, the init functions of the *_types.go files and
--                  SetupWithManager of the three reconcilers; Loops is about the watch of PlatformConfig.
--   DeepCopy       api/v1alpha1/zz_generated.deepcopy.go. Memory is the memory, Structs the resources as
--                  they lie in it, Copies has the DeepCopyInto functions, Objects DeepCopy and
--                  DeepCopyObject. Reads, Laws, Compose, Values and Parts say what a struct in memory
--                  stands for and when a copy is deep; Isolation puts them together.
--   Tests          runs on a small cluster, and one use of each theorem.
--
-- State. The outside (API server, control plane, network) is an unknown type W, and each call to it
-- is a function of W that a parameter gives. An action threads W and a log of every answer, newest
-- first; the code never reads the log. So what a reconcile may do, and after what, is a predicate
-- on the log.
--
-- Common.Edges, and Edges and Lifetime of the two policies, relate the unknown state to what it is
-- about: whether the object has its finalizer and whether the graph has open edges for it. A crash
-- of the operator is a state in which every later call fails, and other clients may act during any
-- call. Common.Willing is about the other extreme, where nothing fails, and Progress of the two
-- policies about a run there. Segmentation.Refused is about a run where the client has no settings,
-- and Startup.Unconfigured puts it together with main and the client. Platform.Stored relates the
-- state to status.providerHealth. Common.Told, Told and Failed of Segmentation, and Told and Refused
-- of Runtime follow an exchange that is no success into the status. The Stopped files relate the
-- unknown state to the kill switch and to the open edges of the whole graph. Common.Protocol is the
-- exchange of a Reconcile as a policy controller is to hold it, with no code in it: Writes says
-- what each write keeps, and the Sent files of the two policies what the sent spec is, field by
-- field; the Protocol files compare the code with it. Common.Steady, Next and the Again files are
-- about rounds of Reconcile in which every call is answered alike, the Same files about policies
-- with one body of the reconcile call.
--
-- Bounds and fuel. Every function is structural recursion. The only fuel is that of %d in
-- Prelude.Text: one more than the number, and a number has no more digits than that. Go's int and
-- int32 are copied and compared but never added, so no wrap-around arises; the bounds of 64 bits
-- stand where a number enters, in strconv.Atoi and json.Unmarshal. A generation is such a number
-- too. A delay is in seconds, and 0 is the empty ctrl.Result.
--
-- Parameters. Of apimachinery: SetStatusCondition, and the three functions on finalizers, with the
-- laws that they document. Of net/http: the round trip and the check of a URL. Of encoding/json:
-- the reading of a text as a value; how a value fills a struct is modelled. Of strconv: the text of
-- an error. ObjectMeta and ListMeta in memory and their deep copies are parameters too, and so are
-- flag.Parse, the answers of the manager and the watches of a controller. What the API server stores
-- after a write, its status subresource and the end of an object with its last finalizer included, is
-- a hypothesis of Common.Steady.
--
-- Not modelled: log lines, deadlines and contexts; transition times of conditions; the logger and its
-- flags; the Go tests, and the manifests and scripts of the deployment, which have no program logic.
-- Where byte 512 of a long error body falls inside a character, the code keeps the character's first
-- bytes, and the model leaves the character out.
pub mod Prelude
pub mod Api
pub mod Backend
pub mod Kube
pub mod Common
pub mod Segmentation
pub mod Runtime
pub mod Platform
pub mod Preflight
pub mod Startup
pub mod System
pub mod Setup
pub mod DeepCopy
pub mod Tests
