-- ===== src/Main.antt =====
-- main.go. The flags, the manager and the signals are controller-runtime's and Go's, and parameters.
pub mod Runs
pub mod Loops
use awi_catalyst_sdwan_opera.Base.{ℕ, String, Bool, false, List}
use awi_catalyst_sdwan_opera.Base.Text.{Unicode}
use awi_catalyst_sdwan_opera.Exec.{Exec}
use awi_catalyst_sdwan_opera.Exec.Process.{Command, Process, or_exit, must, run, go, ◌>>=◌, ◌>>◌}
use awi_catalyst_sdwan_opera.Api.{InterNetworkDomainConnection, InterNetworkDomainAppConnection}
use awi_catalyst_sdwan_opera.Kube.{K8sClient, Util}
use awi_catalyst_sdwan_opera.Awi.{AwiGrpcClient}
use awi_catalyst_sdwan_opera.Awi.Dial.{Grpc, new_client}
use awi_catalyst_sdwan_opera.Controllers.{Controller}
use awi_catalyst_sdwan_opera.Controllers.Connection
use awi_catalyst_sdwan_opera.Controllers.AppConnection
use awi_catalyst_sdwan_opera.Sync.Kinds.{Orders}
use awi_catalyst_sdwan_opera.Sync.Syncers.{Event, new_syncers, start_periodic_sync}
use awi_catalyst_sdwan_opera.Status.{watch_status_updates}

pub record Flags : Type 0 where
  pub metrics_addr : String
  pub probe_addr : String
  pub awi_catalyst_address : String
  pub enable_leader_election : Bool

abbrev pub default_flags : Flags
default_flags = record {
  metrics_addr = ":8080";
  probe_addr = ":8081";
  awi_catalyst_address = "localhost:50051";
  enable_leader_election = false;
}

-- `ctrl.Options`, less the scheme
pub record ManagerOptions : Type 0 where
  pub metrics_bind_address : String
  pub webhook_port : ℕ
  pub health_probe_bind_address : String
  pub leader_election : Bool
  pub leader_election_id : String

abbrev pub manager_options : Flags → ManagerOptions
manager_options flags = record {
  metrics_bind_address = flags.metrics_addr;
  webhook_port = 9443;
  health_probe_bind_address = flags.probe_addr;
  leader_election = flags.enable_leader_election;
  leader_election_id = "7aa1dec1.app-net-interface.io";
}

-- In seconds.
abbrev pub status_watch_interval : ℕ
status_watch_interval = 15

-- What main.go calls of Go and of controller-runtime, with managers, contexts and configurations of
-- types of theirs.
pub record Runtime (W Manager Context Config : Type 0) : Type 0 where
  pub add_client_go_to_scheme : Exec W (Unit {0})
  pub add_awi_to_scheme : Exec W (Unit {0})
  pub parse_flags : Flags → Command W Flags
  pub get_config_or_die : Command W Config
  pub new_manager : Config → ManagerOptions → Exec W Manager
  pub get_client : Manager → K8sClient W
  pub getenv : String → W → String
  pub complete_connection : Manager → Controller W InterNetworkDomainConnection → Exec W (Unit {0})
  pub complete_app_connection :
      Manager → Controller W InterNetworkDomainAppConnection → Exec W (Unit {0})
  pub add_healthz_check : Manager → String → Exec W (Unit {0})
  pub add_readyz_check : Manager → String → Exec W (Unit {0})
  pub setup_signal_handler : Command W Context
  pub start : Manager → Context → Exec W (Unit {0})

-- A call that `go` starts, with its arguments.
pub data Goroutine (W Context : Type 0) : Type 0 where
  periodic_sync : List (Exec W (Unit {0})) → Context → Goroutine W Context
  status_updates : Context → AwiGrpcClient W → K8sClient W → ℕ → Goroutine W Context

module _ {W Manager Context Config Conn : Type 0} (ctrl : Runtime W Manager Context Config)
    (grpc : Grpc W Conn) (connection_util : Util InterNetworkDomainConnection)
    (app_connection_util : Util InterNetworkDomainAppConnection) (u : Unicode)
    (orders : Orders) where
  abbrev pub App : Type 0 → Type 0
  App = Process W (Goroutine W Context)

  unfoldable pub init : App (Unit {0})
  init = run (must ctrl.add_client_go_to_scheme) >> run (must ctrl.add_awi_to_scheme)

  abbrev pub setup_connections : Manager → AwiGrpcClient W → Exec W (Unit {0})
  setup_connections mgr awi_client =
      Connection.setup_with_manager (ctrl.get_client mgr).connections connection_util awi_client
        ctrl.complete_connection mgr

  abbrev pub setup_app_connections : Manager → AwiGrpcClient W → Exec W (Unit {0})
  setup_app_connections mgr awi_client w =
      AppConnection.setup_with_manager (ctrl.get_client mgr).app_connections app_connection_util
        awi_client u (ctrl.getenv "CLUSTER_NAME" w) ctrl.complete_app_connection mgr w

  -- The rest of `main`, once the manager and the client are there.
  unfoldable pub serve : Manager → AwiGrpcClient W → App (Unit {0})
  unfolding new_syncers Connection.setup_with_manager AppConnection.setup_with_manager
  serve mgr awi_client = do
    run (or_exit (setup_connections mgr awi_client))
    run (or_exit (setup_app_connections mgr awi_client))
    run (or_exit (ctrl.add_healthz_check mgr "healthz"))
    run (or_exit (ctrl.add_readyz_check mgr "readyz"))
    signal_handler ← run ctrl.setup_signal_handler
    go (periodic_sync (new_syncers (ctrl.get_client mgr) awi_client u orders) signal_handler)
    go (status_updates signal_handler awi_client (ctrl.get_client mgr) status_watch_interval)
    run (or_exit (ctrl.start mgr signal_handler))

  unfoldable pub main : App (Unit {0})
  unfolding new_client serve
  main = do
    flags ← run (ctrl.parse_flags default_flags)
    config ← run ctrl.get_config_or_die
    mgr ← run (or_exit (ctrl.new_manager config (manager_options flags)))
    awi_client ← new_client grpc flags.awi_catalyst_address
    serve mgr awi_client

  -- Go runs `init` and then `main`.
  unfoldable pub program : App (Unit {0})
  unfolding init main
  program = init >> main

-- The call that a goroutine makes, given what its `select` receives in turn.
abbrev pub body :
    {W Context : Type 0} → (ℕ → String) → Goroutine W Context → List Event → Exec W (Unit {0})
body status_name (periodic_sync all_syncers ctx) = start_periodic_sync all_syncers
body status_name (status_updates ctx awi_client k8s_client interval) =
    watch_status_updates k8s_client awi_client status_name
