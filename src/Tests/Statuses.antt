-- ===== src/Tests/Statuses.antt =====
-- The periodic run, the status watcher and the source cluster at concrete inputs.
use awi_catalyst_sdwan_opera.Base.{
  ℕ, suc, zero, String, ◌≡◌, ◌↔◌, Option, some, none, List, [], ◌∷◌, arith,
}
use awi_catalyst_sdwan_opera.Base.Dict.{Dict, lookup}
use awi_catalyst_sdwan_opera.Exec.{Exec, ok, err, panic, foreign}
use awi_catalyst_sdwan_opera.Pb
use awi_catalyst_sdwan_opera.Pb.{get}
use awi_catalyst_sdwan_opera.Api.{InterNetworkDomainConnection, InterNetworkDomainAppConnection}
use awi_catalyst_sdwan_opera.Kube.{K8sClient}
use awi_catalyst_sdwan_opera.Awi.{get_connection_id, find_id}
use awi_catalyst_sdwan_opera.Sync.{new_metadata}
use awi_catalyst_sdwan_opera.Sync.Syncers.{tick, done, start_periodic_sync}
use awi_catalyst_sdwan_opera.Sync.Syncers.Rounds.{
  NoPanic, round, rounds, ticks, start_periodic_sync-rounds,
}
use awi_catalyst_sdwan_opera.Status.{matches_crd, check_connections, check_app_connections}
use awi_catalyst_sdwan_opera.Status.Updates.{
  first_match, refresh, refresh_app, stale, stale_app, write_all, check_connections-write_all,
  check_app_connections-write_all, find_id-first_match,
}
use awi_catalyst_sdwan_opera.Controllers.AppConnection.{fill_cluster}
use awi_catalyst_sdwan_opera.Controllers.AppConnection.Cluster.{LacksCluster, fill_cluster_panics}
use awi_catalyst_sdwan_opera.Tests.Fixtures.{u, awi, k8s}
use awi_catalyst_sdwan_opera.Tests.MemoryKind.{broken}

-- Two synchronizers that write down their runs; the first one fails.
abbrev failing : Exec (List String) (Unit {0})
failing w = (err (foreign "refused"), "failing" ∷ w)

abbrev working : Exec (List String) (Unit {0})
working w = (ok tt, "working" ∷ w)

abbrev both : List (Exec (List String) (Unit {0}))
both = failing ∷ working ∷ []

both-NoPanic : NoPanic both
both-NoPanic = ((λ w e. ground (arith, e)), ((λ w e. ground (arith, e)), tt))

start_periodic_sync-rounds_example :
    start_periodic_sync both (tick ∷ done ∷ tick ∷ []) []
    ≡ (ok tt, "working" ∷ "failing" ∷ "working" ∷ "failing" ∷ [])
unfolding round rounds ticks
start_periodic_sync-rounds_example =
    start_periodic_sync-rounds both (tick ∷ done ∷ tick ∷ []) [] both-NoPanic

abbrev status_name : ℕ → String
status_name zero = "FAILED"
status_name (suc n) = "SUCCESS"

abbrev watched_conn : InterNetworkDomainConnection
watched_conn = record {
  metadata = new_metadata "conn";
  spec = record { metadata = none; spec = none };
  status = record { state = ""; connection_id = "" };
}

-- AWI knows a connection between two ends with no ID.
abbrev known : Dict Pb.ConnectionInformation
known = (":", record { id = ":"; metadata = none; status = 1 }) ∷ []

-- A server that writes down the statuses it is given.
abbrev written : K8sClient (List InterNetworkDomainConnection)
written = record k8s { connections = record broken { update_status = λ x w. (ok x, x ∷ w) } }

abbrev updated_conn : InterNetworkDomainConnection
updated_conn = record watched_conn { status = record { state = "SUCCESS"; connection_id = ":" } }

check_connections-write_all_example :
    check_connections written awi status_name known (watched_conn ∷ []) []
    ≡ write_all written.connections (updated_conn ∷ []) []
unfolding stale refresh lookup get_connection_id
check_connections-write_all_example =
    check_connections-write_all written awi status_name known (watched_conn ∷ []) []

abbrev pod_to : Option Pb.EndpointSelector → Pb.AppConnection
pod_to selector = record {
  controller = "";
  metadata = some (record { name = "app"; labels = [] });
  network_domain_connection = none;
  from = some (record { endpoint = some (record { kind = "Pod"; selector = selector }) });
  to = none;
}

abbrev watched_app : InterNetworkDomainAppConnection
watched_app = record {
  metadata = new_metadata "app";
  spec = record { app_connection = pod_to none };
  status = "FAILED";
}

abbrev listed_apps : List Pb.AppConnectionInformation
listed_apps =
    record {
      id = "7";
      network_domain_connection_name = "";
      app_connection_config = some (pod_to none);
      status = 1;
    }
    ∷ []

abbrev apps_written : K8sClient (List InterNetworkDomainAppConnection)
apps_written = record k8s {
  app_connections = record broken { update_status = λ x w. (ok x, x ∷ w) };
}

check_app_connections-write_all_example :
    check_app_connections apps_written awi status_name listed_apps (watched_app ∷ []) []
    ≡ write_all apps_written.app_connections (record watched_app { status = "SUCCESS" } ∷ []) []
unfolding stale_app refresh_app first_match matches_crd
check_app_connections-write_all_example =
    check_app_connections-write_all apps_written awi status_name listed_apps (watched_app ∷ []) []

find_id-first_match_example : find_id watched_app.spec.app_connection listed_apps ≡ "7"
unfolding first_match matches_crd
find_id-first_match_example = find_id-first_match watched_app listed_apps

fill_cluster_panics_example : (fill_cluster u "east" (pod_to none) ≡ panic) ↔ (
    (from : Pb.Party) × (endpoint : Pb.Endpoint) × LacksCluster u (pod_to none) from endpoint
    × (endpoint.selector ≡ none))
fill_cluster_panics_example = fill_cluster_panics u "east" (pod_to none)
