-- ===== src/Controllers/Connection/Calls.antt =====
-- The removal of a connection is one call, for an ID that the client computes.
use awi_catalyst_sdwan_opera.Base.{String, ◌≡◌, refl}
use awi_catalyst_sdwan_opera.Exec.{map_err, errorf, map_err-eq-ok}
use awi_catalyst_sdwan_opera.Api.{InterNetworkDomainConnection}
use awi_catalyst_sdwan_opera.Kube.{Client, Util}
use awi_catalyst_sdwan_opera.Awi.{AwiGrpcClient, get_connection_id, disconnect_request}
use awi_catalyst_sdwan_opera.Controllers.Protocol.{View, IsStore, IsUtil}
use awi_catalyst_sdwan_opera.Controllers.Removal.{known, Removal, carry_out, perform, IsPartner}
use awi_catalyst_sdwan_opera.Controllers.Connection.{my_finalizer_name, remove_connection}
use awi_catalyst_sdwan_opera.Controllers.Connection.Safety.{
  id_of, key_of, IsAwi, request_connection, connection-IsPeer,
}

-- `removeConnection`, call by call
abbrev pub removal : {W : Type 0} → AwiGrpcClient W → Removal W InterNetworkDomainConnection
removal awi = record {
  plan = λ conn. known (get_connection_id conn.spec);
  tear = λ id.
      map_err (errorf "error recevived from disconnection request: %v")
        (awi.connection_controller_client.disconnect id);
}

module _ {W : Type 0} (client : Client W InterNetworkDomainConnection)
    (util : Util InterNetworkDomainConnection) (awi : AwiGrpcClient W) where
  -- The calls of the removal in a row are `removeConnection`.
  pub removal-performs :
      (conn : InterNetworkDomainConnection) (w : W)
      → perform (removal awi) conn w ≡ remove_connection client util awi conn w
  unfolding carry_out remove_connection disconnect_request
  removal-performs conn w = refl

module _ {W : Type 0} (view : View W InterNetworkDomainConnection String)
    (client : Client W InterNetworkDomainConnection) (util : Util InterNetworkDomainConnection)
    (awi : AwiGrpcClient W) (store : IsStore view client util my_finalizer_name id_of key_of)
    (utils : IsUtil view client util my_finalizer_name id_of key_of) (laws : IsAwi view awi) where
  pub connection-IsPartner : IsPartner view id_of (removal awi) (request_connection awi)
  connection-IsPartner =
      let peer = connection-IsPeer view client util awi store utils laws in
      record {
        request_stored = peer.request_stored;
        request_connected = peer.request_connected;
        search_stored = λ w x m k planned. cc planned;
        search_connected = λ w x m id planned. cc planned;
        search_none = λ w v x m number planned found empty. cc planned;
        tear_stored = λ w number k. laws.disconnect_stored w number k;
        tear_connected = λ w number id c. laws.disconnect_connected w number id c;
        tear_known = λ w v x number planned torn. laws.disconnect_ok w v (id_of x) (
            map_err-eq-ok (errorf "error recevived from disconnection request: %v")
              (awi.connection_controller_client.disconnect (id_of x)) w (cc (planned, torn)));
        tear_found = λ w v w' v' x m number planned found given torn. cc planned;
      }
