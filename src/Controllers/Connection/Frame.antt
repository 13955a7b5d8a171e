-- ===== src/Controllers/Connection/Frame.antt =====
-- The connection controller and the connections of other objects.
use awi_catalyst_sdwan_opera.Base.{String, ◌≡◌, ◌≢◌}
use awi_catalyst_sdwan_opera.Exec.{ok}
use awi_catalyst_sdwan_opera.Pb
use awi_catalyst_sdwan_opera.Api.{InterNetworkDomainConnection}
use awi_catalyst_sdwan_opera.Kube.{NamespacedName, Client, Util}
use awi_catalyst_sdwan_opera.Awi.{
  AwiGrpcClient, get_connection_id, connection_request, disconnect_request,
}
use awi_catalyst_sdwan_opera.Controllers.Protocol.{View, IsStore, IsUtil}
use awi_catalyst_sdwan_opera.Controllers.Frame.{IsFramed, reconcile_others}
use awi_catalyst_sdwan_opera.Controllers.Connection.{
  my_finalizer_name, remove_connection, reconcile,
}
use awi_catalyst_sdwan_opera.Controllers.Connection.Safety.{
  id_of, key_of, IsAwi, request_connection, connection-IsPeer,
}

module _ {W : Type 0} (view : View W InterNetworkDomainConnection String)
    (awi : AwiGrpcClient W) where
  open view use {connected}
  open awi use {connection_controller_client}

  -- AWI keeps its connections apart by their IDs, also where a call fails.
  pub record IsApart : Type 0 where
    pub connect_others :
        (w : W) (spec : Pb.ConnectionRequest) (id : String)
        → id ≢ get_connection_id spec
        → connected (connection_controller_client.connect spec w).1 id ≡ connected w id
    pub disconnect_others :
        (w : W) (ended id : String)
        → id ≢ ended
        → connected (connection_controller_client.disconnect ended w).1 id ≡ connected w id

module _ {W : Type 0} (view : View W InterNetworkDomainConnection String)
    (client : Client W InterNetworkDomainConnection) (util : Util InterNetworkDomainConnection)
    (awi : AwiGrpcClient W) (apart : IsApart view awi) where
  open view use {connected}

  connection-IsFramed :
      IsFramed view id_of (remove_connection client util awi) (request_connection awi)
  unfolding remove_connection disconnect_request connection_request
  connection-IsFramed = record {
    request_others = λ w x id other. apart.connect_others w x.spec id other;
    remove_others = λ w x id other. apart.disconnect_others w (id_of x) id other;
  }

  -- Where AWI names its connections as the client does and keeps them apart by their IDs, `Reconcile`
  -- of the connection controller, however it ends, neither makes nor ends a connection but the one
  -- between the ends of its object's spec, as the object is read.
  pub reconcile_spares :
      IsStore view client util my_finalizer_name id_of key_of
      → IsUtil view client util my_finalizer_name id_of key_of
      → IsAwi view awi
      → (req : NamespacedName) (w : W) (id : String)
      → ((x : InterNetworkDomainConnection) (v : W)
          → client.get req w ≡ (ok x, v)
          → id ≢ get_connection_id x.spec)
      → connected (reconcile client util awi req w).1 id ≡ connected w id
  unfolding reconcile
  reconcile_spares store utils laws req w id other =
      reconcile_others view client util my_finalizer_name id_of key_of
        (remove_connection client util awi) (request_connection awi) store utils
        (connection-IsPeer view client util awi store utils laws) connection-IsFramed req w id other
