-- ===== src/Lib.antt =====
-- kube-awi, the Kubernetes operator that connects network domains through an AWI server.
--
-- The operator has four parts. The synchronizers (pkg/sync) copy what AWI reports of the clouds into
-- custom resources, once a minute. The two controllers (controllers) watch the connection objects:
-- they put a finalizer on a new one and ask AWI for its connection, and end that when the object is
-- deleted. The status watcher (pkg/connection_status) writes the statuses that AWI reports into the
-- connection objects. All three call the client of AWI (client) and the Kubernetes API server; the
-- kinds of objects are in api/awi/v1alpha1.
--
-- Files:
--   Base        shared names; Base/Dict is Go's map, Base/Text its ToLower and ToUpper,
--               Base/Separators texts around a separator, Base/Numbers a test of numbers.
--   Exec        a call that changes the world and returns a value, an error or a panic.
--   Pb          the messages of awi-grpc that the operator reads, by the schemas in config/crd/bases.
--   Api         api/awi/v1alpha1/*_types.go; Api/DeepCopy its zz_generated.deepcopy.go, over the
--               pointers and cells of Memory, with Kinds the methods of each kind and Separation
--               the theorems, which rest on Memory/Copies and Memory/Pointers.
--   Kube        the client of controller-runtime as an interface; Kube/Laws what pkg/sync relies on,
--               Kube/Keys functions of the keys of objects.
--   Awi         client/awi_client.go; Awi/Ids on connection IDs.
--   Sync        the body that five files of pkg/sync repeat, as `mirror`; Sync/Keyed, Creation and
--               Deletion have the lemmas on its loops, Mirror, Safety, Distinct, Repeat and Progress
--               its theorems, Calls the number of its calls, Names the names of objects of two clouds.
--               Sync/Kinds has the five Sync methods, Sync/NetworkDomains the sixth, and Sync/Syncers
--               pkg/sync/sync.go: Rounds on how often they run, Whole on what one round of all six
--               leaves, by the conditions of Cluster and Consistency; Sync/Frame has what each of
--               them leaves alone.
--   Controllers the part of Reconcile that both controllers share; Connection and AppConnection
--               are the two files of controllers. Protocol has what they rely on of the API server
--               and of AWI; Leaks, Success, Lifecycle, Frame and Twins the theorems on whole runs,
--               and Connection/Frame what such a run does to other connections.
--               Machine is the same `Reconcile` as a program counter that stops before each call,
--               with Removal, the calls that end a connection, and Connection/Calls and
--               AppConnection/Calls, what these are for the two kinds. System is the steps of a
--               controller: its queue, its runs, restarts, and what users and the rest of the
--               cluster do in between. System/Flights, Endings and Moves have the invariant on the
--               runs; Safety, Pending, Deletions and Completion what comes of it; Progress, Fresh and
--               Unblocked how a deletion can go on from any state. Connection/Interleaved and
--               AppConnection/Interleaved are the controllers in it.
--   Status      pkg/connection_status/status_watcher.go; Listed, Updates, Store, Shown and Passes
--               the theorems.
--   Main        main.go; Main/Runs how it starts and ends, Main/Loops its two goroutines. Exec/Process
--               is what it runs in, Awi/Dial how client/awi_client.go makes its client, and the files
--               called Calm follow panics.
--   Example     awi/example: the handlers and the start of the server, and the client.
--   Tests       servers in memory that satisfy the laws, and the theorems at concrete inputs.
--
-- A Go function that calls a server is an `Exec W`: a function from a world of an unknown type `W`
-- to a result and a new world. `if err != nil { return err }` is `>>=`, which stops at an error and
-- keeps the world it was met in. A nil pointer is `none`, and a write through one is `panic`. The
-- order in which `range` runs through a map is a parameter, of which the theorems ask only that it
-- permutes the map. The two endless loops take what `select` receives as a list of events. Where the
-- list ends before the context does, the loop waits in `select`, and what is said is what it has done
-- by then. So no bound or fuel is needed: every definition is by structural recursion.
--
-- The API server and AWI are no code of this repository, so they are parameters. What the
-- theorems ask of them is stated in the records `Kube.Laws.IsLawful`,
-- `Sync.Progress.IsResponsive`, `Controllers.Protocol.IsStore` and `IsUtil`,
-- `Controllers.Connection.Frame.IsApart`, `Controllers.System.Pending.IsPrompt`,
-- `Controllers.System.Progress.IsAnswering`, `Controllers.AppConnection.Calls.IsSteady`,
-- `Sync.Syncers.Cluster.IsCluster`, `Sync.Calls.IsCounted`, `Status.Store.IsWritable`,
-- `Kube.Calm.IsCalmK8s`, `Awi.Calm.IsCalmAwi` and the `IsAwi` of
-- `Controllers.Connection.Safety` and of `Controllers.AppConnection.Identity`, and the servers of
-- Tests satisfy these. What a run asks of the two calls of AWI follows from these and is in
-- `Controllers.Protocol.IsPeer`, in `Controllers.Frame.IsFramed` and, call by call, in
-- `Controllers.Removal.IsPartner`. In short: reads are up to date, a call that fails may still have
-- had its effect, and a deleted resource of the synchronizers has no finalizer. In
-- `Controllers.System` a call is one step, and others may act between any two; of
-- controller-runtime it has that a key is run by one worker at a time and put back in the queue
-- where its run ends in an error, and of AWI that the ID which it lists for an app connection
-- stands for that one at any time. Elsewhere no one else writes during a run.
--
-- Only Api/DeepCopy has a memory: cells that pointers and slices lead to, taken in turn and never
-- given back. What the `DeepCopyInto` of metav1 and of the messages do is asked in
-- `Memory.Copies.IsStable` and `IsDeep`. An array is taken there when its elements have been copied,
-- and not before. Everywhere else values are immutable.
--
-- Not modelled: log lines and deadlines; what the flag package, grpc and the manager of
-- controller-runtime do, which main.go calls; the registration with the scheme. The fields of
-- messages and metadata that the operator never uses are left out.
pub mod Base
pub mod Exec
pub mod Pb
pub mod Api
pub mod Kube
pub mod Memory
pub mod Awi
pub mod Sync
pub mod Controllers
pub mod Status
pub mod Main
pub mod Example
pub mod Tests
