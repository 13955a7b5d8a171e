-- ===== src/Tests/WatchedApps.antt =====
-- The status watcher beside an API server that stores the statuses of app connections.
use awi_catalyst_sdwan_opera.Base.{
  ℕ, zero, suc, String, refl, Option, none, some, [], ◌∷◌, if◌then◌else◌, arith,
}
use awi_catalyst_sdwan_opera.Exec.{ok}
use awi_catalyst_sdwan_opera.Pb
use awi_catalyst_sdwan_opera.Api.{InterNetworkDomainAppConnection}
use awi_catalyst_sdwan_opera.Kube.{NamespacedName, K8sClient}
use awi_catalyst_sdwan_opera.Kube.Keys.{same_key, same_key_iff, same_key_refl}
use awi_catalyst_sdwan_opera.Awi.{AwiGrpcClient}
use awi_catalyst_sdwan_opera.Status.{matches_crd, check_app_connections_statuses}
use awi_catalyst_sdwan_opera.Status.Updates.{first_match, refresh_app}
use awi_catalyst_sdwan_opera.Status.Store.{IsWritable, AllShown}
use awi_catalyst_sdwan_opera.Status.Shown.{app_key_of, check_app_connections_statuses-AllShown}
use awi_catalyst_sdwan_opera.Tests.Fixtures
use awi_catalyst_sdwan_opera.Tests.Apps.{app_conn}
use awi_catalyst_sdwan_opera.Tests.MemoryKind.{broken}

abbrev World : Type 0
World = NamespacedName → Option InterNetworkDomainAppConnection

abbrev listed : Pb.AppConnectionInformation
listed = record {
  id = "7";
  app_connection_config = some app_conn.spec.app_connection;
  network_domain_connection_name = "blue";
  status = 1;
}

abbrev status_name : ℕ → String
status_name zero = "FAILED"
status_name (suc n) = "SUCCESS"

abbrev awi : AwiGrpcClient World
awi = record Fixtures.awi {
  app_connection_controller_client = record Fixtures.awi.app_connection_controller_client {
    list_connected_apps = λ w. (ok (listed ∷ []), w);
  };
}

abbrev k8s : K8sClient World
k8s = record Fixtures.k8s {
  app_connections = record broken {
    list_all = λ w. (ok (app_conn ∷ []), w);
    update_status = λ x w. (ok x, λ k. if same_key k (app_key_of x) then some x else w k);
  };
}

abbrev before : World
before k = if same_key k (app_key_of app_conn) then some app_conn else none

writable : IsWritable app_key_of k8s.app_connections (λ w. w)
writable = record {
  accepted = λ w x. (
    (k8s.app_connections.update_status x w).1,
    refl,
    ground (arith, same_key_refl (app_key_of x)),
  );
  others = λ w x k h. ground (arith, h, same_key_iff k (app_key_of x));
}

after : World
unfolding check_app_connections_statuses
after = (check_app_connections_statuses k8s awi status_name before).1

check_app_connections_statuses-AllShown_example :
    AllShown app_key_of k8s.app_connections
      (λ w. w)
      after
      (record app_conn { status = "SUCCESS" } ∷ [])
unfolding after refresh_app first_match matches_crd
check_app_connections_statuses-AllShown_example =
    check_app_connections_statuses-AllShown k8s awi status_name (λ w. w) writable (listed ∷ [])
      (app_conn ∷ []) before before before refl refl (tt, tt) (refl, tt)
