-- ===== src/Controllers/Connection/Safety.antt =====
-- The connection controller against what it relies on of AWI.
use awi_catalyst_sdwan_opera.Base.{String, ◌≡◌, true, false, some, ◌⊎◌}
use awi_catalyst_sdwan_opera.Exec.{Exec, ok, errorf, map_err-eq-ok}
use awi_catalyst_sdwan_opera.Pb
use awi_catalyst_sdwan_opera.Api.{InterNetworkDomainConnection}
use awi_catalyst_sdwan_opera.Kube.{NamespacedName, Client, Util}
use awi_catalyst_sdwan_opera.Awi.{AwiGrpcClient, get_connection_id, connection_request}
use awi_catalyst_sdwan_opera.Controllers.Protocol.{View, IsStore, IsUtil, IsPeer, NoLeak}
use awi_catalyst_sdwan_opera.Controllers.Lifecycle.{Reach, Reach-NoLeak}
use awi_catalyst_sdwan_opera.Controllers.Connection.{my_finalizer_name, remove_connection}

-- The ID under which the client expects the connection of an object.
abbrev pub id_of : InterNetworkDomainConnection → String
id_of conn = get_connection_id conn.spec

abbrev pub key_of : InterNetworkDomainConnection → NamespacedName
key_of conn = record { namespace = conn.metadata.namespace; name = conn.metadata.name }

module _ {W : Type 0} (view : View W InterNetworkDomainConnection String)
    (awi : AwiGrpcClient W) where
  open view use {stored, connected}
  open awi use {connection_controller_client}

  -- AWI names a connection by its source and destination as the client does, and its calls touch no
  -- stored object.
  pub record IsAwi : Type 0 where
    pub connect_stored :
        (w : W) (spec : Pb.ConnectionRequest) (k : NamespacedName)
        → stored (connection_controller_client.connect spec w).1 k ≡ stored w k
    pub connect_connected :
        (w : W) (spec : Pb.ConnectionRequest) (id : String)
        → connected (connection_controller_client.connect spec w).1 id ≡ true
        → (connected w id ≡ true) ⊎ (id ≡ get_connection_id spec)
    pub connect_ok :
        (w v : W) (spec : Pb.ConnectionRequest)
        → connection_controller_client.connect spec w ≡ (ok tt, v)
        → connected v (get_connection_id spec) ≡ true
    pub disconnect_stored :
        (w : W) (id : String) (k : NamespacedName)
        → stored (connection_controller_client.disconnect id w).1 k ≡ stored w k
    pub disconnect_connected :
        (w : W) (id j : String)
        → connected (connection_controller_client.disconnect id w).1 j ≡ true
        → connected w j ≡ true
    pub disconnect_ok :
        (w v : W) (id : String)
        → connection_controller_client.disconnect id w ≡ (ok tt, v)
        → connected v id ≡ false

-- What `Reconcile` calls for an object that is not being deleted.
abbrev pub request_connection :
    {W : Type 0} → AwiGrpcClient W → InterNetworkDomainConnection → Exec W (Unit {0})
request_connection awi conn = connection_request awi (some conn.spec)

module _ {W : Type 0} (view : View W InterNetworkDomainConnection String)
    (client : Client W InterNetworkDomainConnection) (util : Util InterNetworkDomainConnection)
    (awi : AwiGrpcClient W) (store : IsStore view client util my_finalizer_name id_of key_of)
    (utils : IsUtil view client util my_finalizer_name id_of key_of) (laws : IsAwi view awi) where
  open view use {stored, connected}

  pub connection-IsPeer :
      IsPeer view client util my_finalizer_name id_of key_of
        (remove_connection client util awi)
        (request_connection awi)
  unfolding remove_connection connection_request
  connection-IsPeer = record {
    request_stored = λ w x k. laws.connect_stored w x.spec k;
    request_connected = λ w x id c. laws.connect_connected w x.spec id c;
    request_ok = λ w v x h. laws.connect_ok w v x.spec (
        map_err-eq-ok (errorf "error recevived from connection request: %v")
          (awi.connection_controller_client.connect x.spec) w h);
    remove_stored = λ w x k. laws.disconnect_stored w (id_of x) k;
    remove_connected = λ w x id c. laws.disconnect_connected w (id_of x) id c;
    remove_ok = λ w v x h. laws.disconnect_ok w v (id_of x) (
        map_err-eq-ok (errorf "error recevived from disconnection request: %v")
          (awi.connection_controller_client.disconnect (id_of x)) w h);
  }

  -- From a world in which every connection of AWI has a stored object of its ID that holds the
  -- finalizer, runs of `Reconcile`, whichever of their calls fail, and creations and deletions by the
  -- users lead to such worlds only. An edit of a spec is none of these steps.
  pub connections_never_leak :
      {w v : W}
      → Reach view client util my_finalizer_name id_of
          (remove_connection client util awi)
          (request_connection awi)
          w
          v
      → NoLeak view client util my_finalizer_name id_of key_of w
      → NoLeak view client util my_finalizer_name id_of key_of v
  connections_never_leak =
      Reach-NoLeak view client util my_finalizer_name id_of key_of
        (remove_connection client util awi) (request_connection awi) store utils connection-IsPeer
