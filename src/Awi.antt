-- ===== src/Awi.antt =====
-- client/awi_client.go: the calls of the AWI server. The three generated clients are interfaces over
-- the world `W`; contexts, deadlines and log lines are left out, and a request message of one field
-- is that field.
pub mod Ids
pub mod Dial
pub mod Calm
use awi_catalyst_sdwan_opera.Base.{
  ℕ, String, ◌<>◌, Bool, ◌&&◌, ◌==◌, Option, none, some, List, [], ◌∷◌, if◌then◌else◌,
}
use awi_catalyst_sdwan_opera.Exec.{Exec, pure, raise, map_err, message, errorf, ◌>>=◌, ◌>>◌}
use awi_catalyst_sdwan_opera.Pb
use awi_catalyst_sdwan_opera.Pb.{get, get_message}

pub record ConnectionControllerClient (W : Type 0) : Type 0 where
  pub connect : Pb.ConnectionRequest → Exec W (Unit {0})
  pub disconnect : String → Exec W (Unit {0})
  pub list_connections : Exec W (List Pb.ConnectionInformation)

pub record AppConnectionControllerClient (W : Type 0) : Type 0 where
  pub connect_apps : Pb.AppConnection → Exec W (Unit {0})
  pub disconnect_apps : String → Exec W (Unit {0})
  pub list_connected_apps : Exec W (List Pb.AppConnectionInformation)

pub record CloudClient (W : Type 0) : Type 0 where
  pub list_vpcs : String → Exec W (List Pb.Vpc)
  pub list_instances : String → Exec W (List Pb.Instance)
  pub list_sites : Exec W (List Pb.SiteDetail)
  pub list_subnets : String → Exec W (List Pb.Subnet)
  pub list_vpns : Exec W (List Pb.Vpn)

pub record AwiGrpcClient (W : Type 0) : Type 0 where
  pub connection_controller_client : ConnectionControllerClient W
  pub app_connection_controller_client : AppConnectionControllerClient W
  pub cloud_client : CloudClient W

-- `GetNetworkDomain().GetSelector().GetMatchId().GetId()`
pub match_id : Option Pb.End → String
match_id end =
    get (λ (m : Pb.MatchId). m.id) ""
      (get_message (λ (s : Pb.Selector). s.match_id)
        (get_message (λ (n : Pb.NetworkDomain). n.selector)
          (get_message (λ (e : Pb.End). e.network_domain) end)))

pub source_id : Pb.ConnectionRequest → String
unfolding match_id
source_id conn_spec =
    match_id (get_message (λ (c : Pb.NetworkDomainConnectionConfig). c.source) conn_spec.spec)

pub destination_id : Pb.ConnectionRequest → String
unfolding match_id
destination_id conn_spec =
    match_id (get_message (λ (c : Pb.NetworkDomainConnectionConfig). c.destination) conn_spec.spec)

unfoldable pub get_connection_id : Pb.ConnectionRequest → String
unfolding source_id destination_id
get_connection_id conn_spec = source_id conn_spec <> (":" <> destination_id conn_spec)

-- `GetNetworkDomainConnection().GetSelector().GetMatchName()`
abbrev pub match_name : Option Pb.AppConnection → String
match_name conn =
    get (λ (s : Pb.ConnectionSelector). s.match_name) ""
      (get_message (λ (n : Pb.NetworkDomainConnection). n.selector)
        (get_message (λ (c : Pb.AppConnection). c.network_domain_connection) conn))

-- `GetMetadata().GetName()`
abbrev pub metadata_name : Option Pb.AppConnection → String
metadata_name conn =
    get (λ (m : Pb.Metadata). m.name) "" (get_message (λ (c : Pb.AppConnection). c.metadata) conn)

-- The test by which a listed app connection is taken for the one of a spec.
unfoldable pub matches : Pb.AppConnection → Pb.AppConnectionInformation → Bool
matches conn_spec conn =
    (match_name conn.app_connection_config == match_name (some conn_spec))
    && (metadata_name conn.app_connection_config == metadata_name (some conn_spec))

-- The loop of `AppDisconnectRequest`: the ID of the first match, "" where there is none.
unfoldable pub find_id : Pb.AppConnection → List Pb.AppConnectionInformation → String
find_id conn_spec [] = ""
find_id conn_spec (conn ∷ rest) = if matches conn_spec conn then conn.id else find_id conn_spec rest

module _ {W : Type 0} (awi : AwiGrpcClient W) where
  open awi use {connection_controller_client, app_connection_controller_client, cloud_client}

  unfoldable pub connection_request : Option Pb.ConnectionRequest → Exec W (Unit {0})
  connection_request none = raise (message "empty connection spec")
  connection_request (some conn_spec) =
      map_err (errorf "error recevived from connection request: %v")
        (connection_controller_client.connect conn_spec)

  unfoldable pub disconnect_request : Option Pb.ConnectionRequest → Exec W (Unit {0})
  disconnect_request none = raise (message "empty connection spec")
  disconnect_request (some conn_spec) =
      let conn_id = get_connection_id conn_spec in
      map_err (errorf "error recevived from disconnection request: %v")
        (connection_controller_client.disconnect conn_id)

  unfoldable pub app_connection_request : Option Pb.AppConnection → Exec W (Unit {0})
  app_connection_request none = raise (message "empty app connection spec")
  app_connection_request (some conn_spec) =
      map_err (errorf "error recevived from app connection request: %v")
        (app_connection_controller_client.connect_apps conn_spec)

  -- The rest of `AppDisconnectRequest`, from its test of the ID.
  unfoldable pub disconnect_id : String → Exec W (Unit {0})
  disconnect_id id =
      if id == ""
      then pure tt
      else map_err (errorf "error recevived from app disconnection request: %v")
          (app_connection_controller_client.disconnect_apps id)

  unfoldable pub app_disconnect_request : Option Pb.AppConnection → Exec W (Unit {0})
  unfolding find_id disconnect_id
  app_disconnect_request none = raise (message "empty app connection spec")
  app_disconnect_request (some conn_spec) = do
    connections ← app_connection_controller_client.list_connected_apps
    disconnect_id (find_id conn_spec connections)

  -- The list calls pass the error on.
  abbrev pub list_connections : Exec W (List Pb.ConnectionInformation)
  list_connections = connection_controller_client.list_connections

  abbrev pub list_app_connections : Exec W (List Pb.AppConnectionInformation)
  list_app_connections = app_connection_controller_client.list_connected_apps

  abbrev pub list_vpcs : String → Exec W (List Pb.Vpc)
  list_vpcs provider = cloud_client.list_vpcs provider

  abbrev pub list_instances : String → Exec W (List Pb.Instance)
  list_instances provider = cloud_client.list_instances provider

  abbrev pub list_sites : Exec W (List Pb.SiteDetail)
  list_sites = cloud_client.list_sites

  abbrev pub list_subnets : String → Exec W (List Pb.Subnet)
  list_subnets provider = cloud_client.list_subnets provider

  abbrev pub list_vpns : Exec W (List Pb.Vpn)
  list_vpns = cloud_client.list_vpns
