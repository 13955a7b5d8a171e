-- ===== src/Tests/MemoryConnections.antt =====
-- An AWI server for connections, as the set of their IDs, beside an API server for their objects.
use awi_catalyst_sdwan_opera.Base.{
  String, refl, Bool, false, ◌||◌, [], arith, ◌==◌, eq_iff, eq_refl, if◌then◌else◌,
}
use awi_catalyst_sdwan_opera.Exec.{foreign, ok, err}
use awi_catalyst_sdwan_opera.Api.{InterNetworkDomainConnection}
use awi_catalyst_sdwan_opera.Kube.{Client, Util}
use awi_catalyst_sdwan_opera.Awi.{AwiGrpcClient, get_connection_id}
use awi_catalyst_sdwan_opera.Controllers.Protocol.{View, IsStore, IsUtil}
use awi_catalyst_sdwan_opera.Controllers.Connection.{my_finalizer_name}
use awi_catalyst_sdwan_opera.Controllers.Connection.Calls.{removal}
use awi_catalyst_sdwan_opera.Controllers.Connection.Safety.{
  id_of, key_of, IsAwi, request_connection,
}
use awi_catalyst_sdwan_opera.Controllers.System.Pending.{IsPrompt}
use awi_catalyst_sdwan_opera.Controllers.System.Progress.{IsAnswering}
use awi_catalyst_sdwan_opera.Tests.MemoryObjects

abbrev pub World : Type 0
World = MemoryObjects.World InterNetworkDomainConnection (String → Bool)

abbrev pub util : Util InterNetworkDomainConnection
util = MemoryObjects.util

abbrev pub view : View World InterNetworkDomainConnection String
view = MemoryObjects.view (λ ids. ids)

abbrev pub client : Client World InterNetworkDomainConnection
client = MemoryObjects.client my_finalizer_name

pub utils : IsUtil view client util my_finalizer_name id_of key_of
utils = MemoryObjects.utils my_finalizer_name get_connection_id (λ ids. ids)

pub prompt : IsPrompt view client util my_finalizer_name
prompt = MemoryObjects.prompt my_finalizer_name (λ ids. ids)

pub store : IsStore view client util my_finalizer_name id_of key_of
store = MemoryObjects.store my_finalizer_name get_connection_id (λ ids. ids)

abbrev pub awi : AwiGrpcClient World
awi = record {
  connection_controller_client = record {
    connect =
        λ spec w. (ok tt, record w { conns = λ id. id == get_connection_id spec || w.conns id });
    disconnect = λ id w. (ok tt, record w { conns = λ j. if j == id then false else w.conns j });
    list_connections = λ w. (ok [], w);
  };
  app_connection_controller_client = record {
    connect_apps = λ conn w. (ok tt, w);
    disconnect_apps = λ id w. (ok tt, w);
    list_connected_apps = λ w. (ok [], w);
  };
  cloud_client = record {
    list_vpcs = λ provider w. (ok [], w);
    list_instances = λ provider w. (ok [], w);
    list_sites = λ w. (ok [], w);
    list_subnets = λ provider w. (ok [], w);
    list_vpns = λ w. (ok [], w);
  };
}

pub awi-IsAwi : IsAwi view awi
awi-IsAwi = record {
  connect_stored = λ w spec k. refl;
  connect_connected = λ w spec id c. ground (arith, c, eq_iff id (get_connection_id spec));
  connect_ok = λ w v spec h. cc (h, eq_refl (get_connection_id spec));
  disconnect_stored = λ w id k. refl;
  disconnect_connected = λ w id j c. ground (arith, c);
  disconnect_ok = λ w v id h. ground (arith, h, eq_refl id);
}

-- An AWI server that refuses to end a connection.
abbrev pub stubborn : AwiGrpcClient World
stubborn = record awi {
  connection_controller_client = record awi.connection_controller_client {
    disconnect = λ id w. (err (foreign "busy"), w);
  };
}

pub stubborn-IsAwi : IsAwi view stubborn
stubborn-IsAwi = record {
  connect_stored = λ w spec k. refl;
  connect_connected = λ w spec id c. ground (arith, c, eq_iff id (get_connection_id spec));
  connect_ok = λ w v spec h. cc (h, eq_refl (get_connection_id spec));
  disconnect_stored = λ w id k. refl;
  disconnect_connected = λ w id j c. c;
  disconnect_ok = λ w v id h. ground (arith, h);
}

pub answering :
    IsAnswering view client util my_finalizer_name id_of key_of
      (removal awi)
      (request_connection awi)
answering =
    MemoryObjects.answering my_finalizer_name (λ ids. ids) id_of (removal awi)
      (request_connection awi) (λ w x m planned. cc planned)
      (λ w number. (record w { conns = λ j. if j == number then false else w.conns j }, refl))
