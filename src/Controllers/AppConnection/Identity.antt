-- ===== src/Controllers/AppConnection/Identity.antt =====
-- How the code and AWI tell app connections apart.
use awi_catalyst_sdwan_opera.Base.{
  String, ◌≡◌, refl, Bool, true, false, ◌&&◌, ◌==◌, eq_refl, Option, some, List, [], ◌∷◌, ◌⊎◌,
  arith,
}
use awi_catalyst_sdwan_opera.Base.Text.{Unicode}
use awi_catalyst_sdwan_opera.Exec.{ok}
use awi_catalyst_sdwan_opera.Pb
use awi_catalyst_sdwan_opera.Api.{InterNetworkDomainAppConnection}
use awi_catalyst_sdwan_opera.Kube.{NamespacedName}
use awi_catalyst_sdwan_opera.Kube.Laws.{any}
use awi_catalyst_sdwan_opera.Awi.{AwiGrpcClient, match_name, metadata_name, matches, find_id}
use awi_catalyst_sdwan_opera.Controllers.Protocol.{View}
use awi_catalyst_sdwan_opera.Controllers.AppConnection.{
  set_match_cluster, fill_endpoint, fill_from, fill_cluster,
}

-- What the code tells app connections apart by: the network domain connection and the name.
pub record AppId : Type 0 where
  pub connection : String
  pub name : String

abbrev pub app_id : Option Pb.AppConnection → AppId
app_id conn = record { connection = match_name conn; name = metadata_name conn }

abbrev pub id_of : InterNetworkDomainAppConnection → AppId
id_of conn = app_id (some conn.spec.app_connection)

abbrev pub key_of : InterNetworkDomainAppConnection → NamespacedName
key_of conn = record { namespace = conn.metadata.namespace; name = conn.metadata.name }

-- AWI lists the app connection under this identity.
abbrev pub is_for : AppId → Pb.AppConnectionInformation → Bool
is_for id conn =
    (match_name conn.app_connection_config == id.connection)
    && (metadata_name conn.app_connection_config == id.name)

abbrev pub is_unnamed : Pb.AppConnectionInformation → Bool
is_unnamed conn = conn.id == ""

abbrev pub is_numbered : AppId → String → Pb.AppConnectionInformation → Bool
is_numbered id number conn = is_for id conn && (conn.id == number)

module _ {W : Type 0} (view : View W InterNetworkDomainAppConnection AppId)
    (awi : AwiGrpcClient W) where
  open view use {stored, connected}
  open awi use {app_connection_controller_client}

  -- AWI keeps one app connection for each identity, lists those that it has, each under an ID that
  -- is not empty, and ends one by the ID that it lists. Its calls touch no stored object.
  pub record IsAwi : Type 0 where
    pub connect_stored :
        (w : W) (conn : Pb.AppConnection) (k : NamespacedName)
        → stored (app_connection_controller_client.connect_apps conn w).1 k ≡ stored w k
    pub connect_connected :
        (w : W) (conn : Pb.AppConnection) (id : AppId)
        → connected (app_connection_controller_client.connect_apps conn w).1 id ≡ true
        → (connected w id ≡ true) ⊎ (id ≡ app_id (some conn))
    pub connect_ok :
        (w v : W) (conn : Pb.AppConnection)
        → app_connection_controller_client.connect_apps conn w ≡ (ok tt, v)
        → connected v (app_id (some conn)) ≡ true
    pub list_stored :
        (w : W) (k : NamespacedName)
        → stored (app_connection_controller_client.list_connected_apps w).1 k ≡ stored w k
    pub list_connected :
        (w : W) (id : AppId)
        → connected (app_connection_controller_client.list_connected_apps w).1 id ≡ connected w id
    pub listed :
        (w v : W) (l : List Pb.AppConnectionInformation) (id : AppId)
        → app_connection_controller_client.list_connected_apps w ≡ (ok l, v)
        → any (is_for id) l ≡ connected w id
    pub listed_named :
        (w v : W) (l : List Pb.AppConnectionInformation)
        → app_connection_controller_client.list_connected_apps w ≡ (ok l, v)
        → any is_unnamed l ≡ false
    pub disconnect_stored :
        (w : W) (number : String) (k : NamespacedName)
        → stored (app_connection_controller_client.disconnect_apps number w).1 k ≡ stored w k
    pub disconnect_connected :
        (w : W) (number : String) (id : AppId)
        → connected (app_connection_controller_client.disconnect_apps number w).1 id ≡ true
        → connected w id ≡ true
    pub disconnect_ok :
        (w v u : W) (l : List Pb.AppConnectionInformation) (number : String) (id : AppId)
        → app_connection_controller_client.list_connected_apps w ≡ (ok l, v)
        → any (is_numbered id number) l ≡ true
        → app_connection_controller_client.disconnect_apps number v ≡ (ok tt, u)
        → connected u id ≡ false

-- The search of the code by its result.
pub find_id-listed :
    (conn : Pb.AppConnection) (l : List Pb.AppConnectionInformation)
    → (find_id conn l == "") ≡ false
    → any (is_numbered (app_id (some conn)) (find_id conn l)) l ≡ true
unfolding find_id any matches
find_id-listed conn [] h = ground (arith, h)
find_id-listed conn (c ∷ l) h = ground (arith, h, find_id-listed conn l, eq_refl c.id)

pub find_id-unlisted :
    (conn : Pb.AppConnection) (l : List Pb.AppConnectionInformation)
    → any is_unnamed l ≡ false
    → (find_id conn l == "") ≡ true
    → any (is_for (app_id (some conn))) l ≡ false
unfolding find_id any matches
find_id-unlisted conn [] named h = refl
find_id-unlisted conn (c ∷ l) named h = ground (arith, named, h, find_id-unlisted conn l)

pub app_id-fill_cluster :
    (u : Unicode) (cluster_name : String) (conn filled : Pb.AppConnection)
    → fill_cluster u cluster_name conn ≡ ok filled
    → app_id (some filled) ≡ app_id (some conn)
unfolding fill_cluster fill_from fill_endpoint set_match_cluster
app_id-fill_cluster u cluster_name conn filled h = ground (arith, h)
