-- ===== src/Tests/StartUp.antt =====
-- The program where every call of its set-up succeeds, and where no AWI server answers.
use awi_catalyst_sdwan_opera.Base.{String, ◌≡◌, refl, List, [], ◌∷◌, ◌++◌}
use awi_catalyst_sdwan_opera.Exec.{Exec, ok, err, foreign}
use awi_catalyst_sdwan_opera.Exec.Process.{Ended, returned, exited}
use awi_catalyst_sdwan_opera.Exec.Calm.{pure-IsCalm, raise-IsCalm}
use awi_catalyst_sdwan_opera.Kube.{Client}
use awi_catalyst_sdwan_opera.Kube.Calm.{IsCalmClient, IsCalmK8s}
use awi_catalyst_sdwan_opera.Awi.Calm.{IsCalmAwi}
use awi_catalyst_sdwan_opera.Awi.Dial.{Grpc, new_client}
use awi_catalyst_sdwan_opera.Controllers.Connection
use awi_catalyst_sdwan_opera.Controllers.AppConnection
use awi_catalyst_sdwan_opera.Main.{
  default_flags, Runtime, Goroutine, body, init, serve, main, program,
}
use awi_catalyst_sdwan_opera.Sync.Syncers.{tick, done}
use awi_catalyst_sdwan_opera.Main.Loops.{Each, after, loops-rounds}
use awi_catalyst_sdwan_opera.Main.Runs.{Registered, SetUp, Outcome, loops, program-runs}
use awi_catalyst_sdwan_opera.Tests.Fixtures.{u, awi, k8s, orders}
use awi_catalyst_sdwan_opera.Tests.MemoryKind.{broken}
use awi_catalyst_sdwan_opera.Tests.MemoryConnections
use awi_catalyst_sdwan_opera.Tests.MemoryApps

-- The world is the list of the calls so far.
abbrev Calls : Type 0
Calls = List String

abbrev note : String → Exec Calls (Unit {0})
note call calls = (ok tt, calls ++ (call ∷ []))

abbrev ctrl : Runtime Calls (Unit {0}) (Unit {0}) (Unit {0})
ctrl = record {
  add_client_go_to_scheme = note "client-go";
  add_awi_to_scheme = note "awi";
  parse_flags = λ flags calls. (returned flags, calls);
  get_config_or_die = λ calls. (returned tt, calls);
  new_manager = λ config options. note "manager";
  get_client = λ mgr. k8s;
  getenv = λ name calls. "east";
  complete_connection = λ mgr controller. note "connections";
  complete_app_connection = λ mgr controller. note "app connections";
  add_healthz_check = λ mgr. note;
  add_readyz_check = λ mgr. note;
  setup_signal_handler = λ calls. (returned tt, calls);
  start = λ mgr ctx. note "start";
}

abbrev grpc : Grpc Calls (Unit {0})
grpc = record {
  dial = note;
  new_connection_controller_client = λ conn. awi.connection_controller_client;
  new_app_connection_controller_client = λ conn. awi.app_connection_controller_client;
  new_cloud_client = λ conn. awi.cloud_client;
}

abbrev unreachable : Grpc Calls (Unit {0})
unreachable = record grpc { dial = λ address calls. (err (foreign "no route"), calls) }

run : Grpc Calls (Unit {0}) → Ended (Unit {0}) × (Calls × List (Goroutine Calls (Unit {0})))
unfolding program init main serve new_client Connection.setup_with_manager
    AppConnection.setup_with_manager
run servers = program ctrl servers MemoryConnections.util MemoryApps.util u orders ([], [])

run-unreachable : run unreachable ≡ (exited 1, ("client-go" ∷ "awi" ∷ "manager" ∷ [], []))
unfolding run
run-unreachable = refl

program-runs_example :
    Outcome ctrl grpc MemoryConnections.util MemoryApps.util u orders [] (run grpc)
unfolding run
program-runs_example = program-runs ctrl grpc MemoryConnections.util MemoryApps.util u orders []

abbrev dialled : Calls
dialled = "client-go" ∷ "awi" ∷ "manager" ∷ "localhost:50051" ∷ []

abbrev ready : Calls
ready = dialled ++ ("connections" ∷ "app connections" ∷ "healthz" ∷ "readyz" ∷ [])

registered : Registered ctrl grpc MemoryConnections.util MemoryApps.util u orders tt awi dialled
unfolding Connection.setup_with_manager AppConnection.setup_with_manager
registered = record {
  signal_handler = tt;
  w₅ = dialled ++ ("connections" ∷ []);
  w₆ = dialled ++ ("connections" ∷ "app connections" ∷ []);
  w₇ = dialled ++ ("connections" ∷ "app connections" ∷ "healthz" ∷ []);
  w₈ = ready;
  w₉ = ready;
  connections_set_up = refl;
  app_connections_set_up = refl;
  healthz_checked = refl;
  readyz_checked = refl;
  signalled = refl;
}

set_up : SetUp ctrl grpc MemoryConnections.util MemoryApps.util u orders []
set_up = record {
  flags = default_flags;
  config = tt;
  mgr = tt;
  grpc_conn = tt;
  w_scheme = "client-go" ∷ [];
  w₀ = "client-go" ∷ "awi" ∷ [];
  w₁ = "client-go" ∷ "awi" ∷ [];
  w₂ = "client-go" ∷ "awi" ∷ [];
  w₃ = "client-go" ∷ "awi" ∷ "manager" ∷ [];
  w₄ = dialled;
  client_go_added = refl;
  awi_added = refl;
  parsed = refl;
  configured = refl;
  managed = refl;
  dialled = refl;
  registered = registered;
}

broken-IsCalmClient : {X : Type 0} → (let client : Client Calls X = broken in IsCalmClient client)
broken-IsCalmClient = record {
  list_in_calm = λ ns. raise-IsCalm (foreign "refused");
  list_all_calm = raise-IsCalm (foreign "refused");
  create_calm = λ x. raise-IsCalm (foreign "refused");
  update_status_calm = λ x. raise-IsCalm (foreign "refused");
  delete_calm = λ x. raise-IsCalm (foreign "refused");
}

k8s-IsCalmK8s : IsCalmK8s {W = Calls} k8s
k8s-IsCalmK8s = record {
  instances = broken-IsCalmClient;
  sites = broken-IsCalmClient;
  subnets = broken-IsCalmClient;
  vpcs = broken-IsCalmClient;
  vpns = broken-IsCalmClient;
  network_domains = broken-IsCalmClient;
  connections = broken-IsCalmClient;
  app_connections = broken-IsCalmClient;
}

awi-IsCalmAwi : IsCalmAwi {W = Calls} awi
awi-IsCalmAwi = record {
  connections_calm = pure-IsCalm [];
  app_connections_calm = pure-IsCalm [];
  vpcs_calm = λ provider. pure-IsCalm _;
  instances_calm = λ provider. pure-IsCalm _;
  sites_calm = pure-IsCalm _;
  subnets_calm = λ provider. pure-IsCalm _;
  vpns_calm = pure-IsCalm _;
}

loops-rounds_example :
    Each
      (λ loop.
        (v : Calls)
        → body (λ n. "UP") loop (tick ∷ done ∷ []) v
          ≡ (ok tt, after (λ n. "UP") loop (tick ∷ done ∷ []) v))
      (loops ctrl grpc MemoryConnections.util MemoryApps.util u orders tt awi registered)
unfolding set_up registered
loops-rounds_example =
    loops-rounds ctrl grpc MemoryConnections.util MemoryApps.util u orders (λ n. "UP") [] set_up
      k8s-IsCalmK8s awi-IsCalmAwi (tick ∷ done ∷ [])
