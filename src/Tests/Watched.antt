-- ===== src/Tests/Watched.antt =====
-- The status watcher beside an API server that stores the statuses.
use awi_catalyst_sdwan_opera.Base.{
  ℕ, zero, suc, String, refl, Option, none, some, List, [], ◌∷◌, if◌then◌else◌, arith,
}
use awi_catalyst_sdwan_opera.Base.Dict.{lookup, insert}
use awi_catalyst_sdwan_opera.Exec.{ok}
use awi_catalyst_sdwan_opera.Pb
use awi_catalyst_sdwan_opera.Api.{InterNetworkDomainConnection}
use awi_catalyst_sdwan_opera.Kube.{NamespacedName, K8sClient}
use awi_catalyst_sdwan_opera.Awi.{AwiGrpcClient, get_connection_id}
use awi_catalyst_sdwan_opera.Sync.{new_metadata}
use awi_catalyst_sdwan_opera.Status.{connections_map, check_connections_statuses}
use awi_catalyst_sdwan_opera.Status.Updates.{refresh}
use awi_catalyst_sdwan_opera.Status.Store.{IsWritable, AllShown}
use awi_catalyst_sdwan_opera.Status.Shown.{key_of, check_connections_statuses-AllShown}
use awi_catalyst_sdwan_opera.Tests.Fixtures
use awi_catalyst_sdwan_opera.Tests.MemoryKind.{broken}
use awi_catalyst_sdwan_opera.Kube.Keys.{same_key, same_key_iff, same_key_refl}

abbrev World : Type 0
World = NamespacedName → Option InterNetworkDomainConnection

abbrev conn : InterNetworkDomainConnection
conn = record {
  metadata = new_metadata "conn";
  spec = record { metadata = none; spec = none };
  status = record { state = ""; connection_id = "" };
}

abbrev listed : List Pb.ConnectionInformation
listed =
    record { id = ":"; metadata = none; status = 0 }
    ∷ record { id = ":"; metadata = none; status = 1 }
    ∷ []

abbrev status_name : ℕ → String
status_name zero = "FAILED"
status_name (suc n) = "SUCCESS"

abbrev awi : AwiGrpcClient World
awi = record Fixtures.awi {
  connection_controller_client = record Fixtures.awi.connection_controller_client {
    list_connections = λ w. (ok listed, w);
  };
}

abbrev k8s : K8sClient World
k8s = record Fixtures.k8s {
  connections = record broken {
    list_all = λ w. (ok (conn ∷ []), w);
    update_status = λ x w. (ok x, λ k. if same_key k (key_of x) then some x else w k);
  };
}

abbrev before : World
before k = if same_key k (key_of conn) then some conn else none

writable : IsWritable key_of k8s.connections (λ w. w)
writable = record {
  accepted = λ w x.
      ((k8s.connections.update_status x w).1, refl, ground (arith, same_key_refl (key_of x)));
  others = λ w x k h. ground (arith, h, same_key_iff k (key_of x));
}

after : World
unfolding check_connections_statuses
after = (check_connections_statuses k8s awi status_name before).1

check_connections_statuses-AllShown_example :
    AllShown key_of k8s.connections
      (λ w. w)
      after
      (record conn { status = record { state = "SUCCESS"; connection_id = ":" } } ∷ [])
unfolding after refresh connections_map lookup insert get_connection_id
check_connections_statuses-AllShown_example =
    check_connections_statuses-AllShown k8s awi status_name (λ w. w) writable listed (conn ∷ [])
      before before before refl refl (tt, tt) (refl, tt)
