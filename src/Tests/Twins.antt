-- ===== src/Tests/Twins.antt =====
-- Two connection objects with the same ends, one of them under deletion.
use awi_catalyst_sdwan_opera.Base.{
  ◌≡◌, ◌≢◌, refl, false, none, some, ◌==◌, if◌then◌else◌, ap, arith, eq_iff,
}
use awi_catalyst_sdwan_opera.Api.{InterNetworkDomainConnection}
use awi_catalyst_sdwan_opera.Kube.{NamespacedName}
use awi_catalyst_sdwan_opera.Awi.{get_connection_id, disconnect_request}
use awi_catalyst_sdwan_opera.Controllers.{reconcile, no_requeue}
use awi_catalyst_sdwan_opera.Controllers.Connection.{my_finalizer_name, remove_connection}
use awi_catalyst_sdwan_opera.Controllers.Connection.Safety.{id_of, key_of, connection-IsPeer}
use awi_catalyst_sdwan_opera.Controllers.Twins.{twin_disconnected}
use awi_catalyst_sdwan_opera.Tests.Connections.{req, doomed_conn, remove, request}
use awi_catalyst_sdwan_opera.Tests.MemoryConnections.{
  World, util, view, client, awi, utils, awi-IsAwi, store,
}

abbrev twin : InterNetworkDomainConnection
twin = record doomed_conn {
  metadata = record doomed_conn.metadata { name = "twin"; deletion_timestamp = none };
}

abbrev twin_key : NamespacedName
twin_key = record { namespace = "default"; name = "twin" }

abbrev twins : World
twins = record {
  objects = λ k.
      if k.name == "conn" then some doomed_conn else if k.name == "twin" then some twin else none;
  conns = λ id. id == "vpc-111:10";
}

after : World
unfolding remove_connection get_connection_id disconnect_request reconcile
after = (reconcile client util my_finalizer_name remove request req twins).1

apart : twin_key ≢ req
apart e = ground (arith, ap (λ (k : NamespacedName). k.name) e, eq_iff "twin" "conn")

twin_disconnected_example :
    (view.stored after twin_key ≡ some twin) × (after.conns (id_of twin) ≡ false)
unfolding after remove_connection
twin_disconnected_example =
    twin_disconnected view client util my_finalizer_name id_of key_of remove request store utils
      (connection-IsPeer view client util awi store utils awi-IsAwi) req twin_key twins twins
      doomed_conn twin refl no_requeue after apart refl refl refl refl refl
