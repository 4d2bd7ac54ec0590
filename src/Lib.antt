-- ===== src/Lib.antt =====
-- tinyFaaS-ext: a FaaS platform for a small cluster whose leader powers its worker nodes on and off
-- through relays. Paths are those of the repository.
--
-- The parts and how they interact. A request reaches the HTTP front end of the leader. It takes a
-- snapshot of the node registry, lets the scheduler choose a node, has the registry wake it if need
-- be (relay, health check, deployment of every function of the store), and calls the function: on
-- the leader through the reverse proxy, on a worker by forwarding. A controller loop powers idle
-- nodes off and takes dead ones back. The management service of a node creates and destroys the
-- containers and tells the reverse proxy, whose process keeps proxy, store and awake workers in step.
--
-- The files:
--   Node         tinyFaaS-ext/pkg/cluster/types.go: `Node`, `NodeStatus`.
--   Scheduler    tinyFaaS-ext/pkg/cluster/scheduler.go: `PickNode` with its four slots (`consider`,
--                `scan`, `choose`). Scheduler/Order is a plain order on nodes, Scheduler/Best
--                relates the two.
--   Config       tinyFaaS-ext/pkg/cluster/config.go: `ControllerConfig`. Config/Topology has
--                `ValidateNodes` and `LoadNodes`, Config/Topology/Valid the topologies it accepts,
--                Config/Env the settings of the environment and Config/Env/Limits their bounds.
--   Functions    tinyFaaS-ext/pkg/cluster/functions.go: `FunctionStore`.
--   Relay        tinyFaaS-ext/tinkerforgefunc/main.go: `TinkerforgeController` as a state with its
--                desired positions; `set_channel` is `setChannel`. Relay/Laws states what bricklets
--                promise, reads that lag behind a write included, Relay/Outlets what a switch does,
--                Relay/Alias which outlets two workers of an accepted topology can share.
--   Outside      the calls that the registry makes: `PowerController`, the HTTP clients, the clock.
--   Registry     tinyFaaS-ext/pkg/cluster/registry.go: the nodes, and the methods that are one
--                critical section. Registry/Wake has `ActivateNode` and `wakeNode`, Registry/Sweep
--                `RecoverDead`, `DeactivateNode`, `EnforceSleeping`, `PrewarmAll` and the
--                broadcasts. Registry/Sweep/Power and Registry/Wake/Power relate recorded sleep to
--                the relays. Registry/Threads has the interleavings of `ActivateNode`: a step
--                relation on a registry and its goroutines, one critical section to a step.
--   Controller   tinyFaaS-ext/pkg/cluster/controller.go: a round of the loop and its repetition.
--   Traffic      requests and the controller's loop at the same time: a step relation on a
--                registry, its requests (tinyFaaS-ext/pkg/http/http.go) and the loop
--                (tinyFaaS-ext/pkg/cluster/controller.go). Traffic/Loads counts the requests in
--                flight, Traffic/Cut has a node powered off under one.
--   Proxy        tinyFaaS-ext/pkg/rproxy/rproxy.go: `Add`, `Del`, `Call`, `GetFunctionLastUsed`.
--   Front        tinyFaaS-ext/pkg/http/http.go: the handler (`serve`), panics included.
--   Admin        tinyFaaS-ext/cmd/rproxy/main.go: the endpoints of the leader's process and the
--                start of the registry; Admin/Arguments has the reading of the arguments.
--   Wiring       tinyFaaS-ext/cmd/rproxy/main.go: the relay controller in the place of the
--                registry's `PowerController`; Relay/Off has what a switch-off leaves of the
--                relays.
--   Fronts       tinyFaaS-ext/pkg/coap/coap.go and tinyFaaS-ext/pkg/grpc/grpc.go: the front ends
--                that hand a message to `Call`.
--   Manager      tinyFaaS-ext/pkg/manager/manager.go: `createFunction` and `Delete`. Manager/Rounds
--                has `Wipe`, `Stop` and the idle teardown, Manager/Service `Upload`, `UrlUpload`,
--                `Logs`, `LogsFunction` and `Healthy`.
--   Docker       tinyFaaS-ext/pkg/docker/handler.go: `RemoveOrphans`, `Ping` and `Create`;
--                Docker/Run has `Start`, `Destroy` and `Logs`. Docker/Holdings states what the
--                engine promises about the containers, networks and images that there are;
--                Docker/Creation, Docker/Kept and Docker/RoundTrip follow them through the life of
--                a function, Docker/Orphans through the cleanup, and Docker/Waiting has the loop
--                that waits.
--   Api          tinyFaaS-ext/cmd/manager/main.go: the handlers and routes of the management
--                process. Api/Deployment relates the upload to `deployFunction` of the registry,
--                Api/Methods has what requests may change, Api/Ports the ports and the arguments
--                for the reverse proxy, and Api/Ports/Handover that they are read as they are
--                meant.
--   Verify       tinyFaaS-ext/cmd/verify-wiring/main.go: the check of one worker. Verify/Report has
--                the run over all workers and its verdicts, and parseBricklets;
--                Verify/Report/Backed has what its flags stand for, Verify/Report/Agreement what a
--                clean report means, Verify/Report/Deadline that a run ends, and Verify/Report/Off
--                which workers it leaves off.
--   Archive      tinyFaaS-ext/pkg/util/zip.go: `Unzip`; Archive/Inside says where it writes.
--   Base         shared names, Go's signed integers, maps as lists of entries, results, numbers as
--                text (Base/Decimal), and calls that change a state and may fail (Base/Io). Checks
--                holds sample clusters, tests and the theorems applied to them.
--
-- How it is modelled. A state is a record; an operation takes it, with the world `W` where it
-- calls outside, and returns what it makes of both. What a call changed before it failed stays
-- changed. Errors are constructors that carry the values the messages print; what is logged is
-- left out. A panic is a value of its own (`no_signal`, `aborted`, `nil_response`). Third-party
-- code, the network, the clock and the interfaces `PowerController` and `Backend` are records of
-- functions over any `W`: `Bricklets`, `Outside`, `Client`, `Host`, `Engine`, `Service`, `Bench`,
-- `Watts`, `Files`; `time.ParseDuration` is a function. Theorems that need their documented
-- behaviour take it as a hypothesis (`Physics`, `Deploys`, `Powers`, `Holdings`, `TakesEffect`,
-- `Lists`, `Clock`, `Beneath`). In `Physics`, a read of a relay that has been written to may tell
-- anything. `int` has 64 bits: loads wrap where they are raised; times are nanoseconds from the
-- zero time and `time.Since` saturates. A map is the list of its entries in the order of `range`,
-- so that what holds for each list holds for each order.
--
-- Bounds. `wait_for_node_ready` runs on `healthCheckAttempts`, the bound of its loop in the
-- source; `start_controller` takes the number of rounds, since its loop does not end; `ready_loop`
-- of the docker backend has fuel 10, one more than its health checks, `show_digits` has one more
-- than the number, and `watch` of the wiring check has 46, one more than its deadline has rounds.
-- All else is structural recursion.
--
-- Not modelled: JSON, the servers' plumbing, file contents, and the texts of log messages; the
-- copies of files; the signals, pipes and the unpacked binary of the management process; what the
-- wiring check prints. Outside Registry/Threads and Traffic, operations do not interleave, and the
-- goroutines of a deployment, a broadcast, a prewarming, and of the docker backend's `Start` and
-- `Destroy` run one after the other.
pub mod Base
pub mod Node
pub mod Scheduler
pub mod Config
pub mod Relay
pub mod Functions
pub mod Registry
pub mod Outside
pub mod Wiring
pub mod Proxy
pub mod Front
pub mod Fronts
pub mod Admin
pub mod Docker
pub mod Manager
pub mod Api
pub mod Controller
pub mod Traffic
pub mod Verify
pub mod Archive
pub mod Checks
