-- ===== src/Controllers/AppConnection.antt =====
-- controllers/internetworkdomainappconnection_controller.go
pub mod Cluster
pub mod Identity
pub mod Safety
pub mod Calls
pub mod Interleaved
use awi_catalyst_sdwan_opera.Base.{
  String, Bool, true, false, not, ◌&&◌, ◌==◌, Option, none, some, if◌then◌else◌,
}
use awi_catalyst_sdwan_opera.Base.Text.{Unicode, to_lower}
use awi_catalyst_sdwan_opera.Exec.{Exec, Result, ok, err, panic, ◌>>=◌}
use awi_catalyst_sdwan_opera.Pb
use awi_catalyst_sdwan_opera.Pb.{get, get_message}
use awi_catalyst_sdwan_opera.Api.{InterNetworkDomainAppConnection}
use awi_catalyst_sdwan_opera.Kube.{NamespacedName, Client, Util}
use awi_catalyst_sdwan_opera.Awi.{AwiGrpcClient, app_connection_request, app_disconnect_request}
use awi_catalyst_sdwan_opera.Controllers.{ReconcileResult, Controller}
use awi_catalyst_sdwan_opera.Controllers

abbrev pub my_finalizer_name : String
my_finalizer_name = "internetworkdomainappconnection.awi.app-net-interface.io/finalizer"

-- `GetSelector().GetMatchCluster().GetName()`
abbrev pub cluster_name_of : Pb.Endpoint → String
cluster_name_of endpoint =
    get (λ (c : Pb.MatchCluster). c.name) ""
      (get_message (λ (s : Pb.EndpointSelector). s.match_cluster) endpoint.selector)

-- `GetSelector().MatchCluster = …`, a write through a nil pointer where there is no selector
set_match_cluster : String → Option Pb.EndpointSelector → Result Pb.EndpointSelector
set_match_cluster cluster_name none = panic
set_match_cluster cluster_name (some selector) =
    ok (record selector { match_cluster = some (record { name = cluster_name }) })

abbrev with_selector :
    Pb.AppConnection → Pb.Party → Pb.Endpoint → Result Pb.EndpointSelector → Result Pb.AppConnection
with_selector conn from endpoint (ok selector) = ok (record conn {
  from = some (record from { endpoint = some (record endpoint { selector = some selector }) });
})
with_selector conn from endpoint (err e) = err e
with_selector conn from endpoint panic = panic

module _ (u : Unicode) (cluster_name : String) where
  -- The test and the write, at the source's endpoint.
  fill_endpoint : Pb.AppConnection → Pb.Party → Option Pb.Endpoint → Result Pb.AppConnection
  fill_endpoint conn from none = ok conn
  fill_endpoint conn from (some endpoint) =
      if (to_lower u endpoint.kind == "pod") && (cluster_name_of endpoint == "")
      then with_selector conn from endpoint (set_match_cluster cluster_name endpoint.selector)
      else ok conn

  fill_from : Pb.AppConnection → Option Pb.Party → Result Pb.AppConnection
  fill_from conn none = ok conn
  fill_from conn (some from) = fill_endpoint conn from from.endpoint

  -- "add information about source cluster if it's not provided"
  unfoldable pub fill_cluster : Pb.AppConnection → Result Pb.AppConnection
  unfolding fill_from fill_endpoint set_match_cluster
  fill_cluster conn = fill_from conn conn.from

module _ {W : Type 0} (client : Client W InterNetworkDomainAppConnection)
    (util : Util InterNetworkDomainAppConnection) (awi : AwiGrpcClient W) (u : Unicode)
    (cluster_name : String) where
  unfoldable pub remove_app_connection : InterNetworkDomainAppConnection → Exec W (Unit {0})
  unfolding app_disconnect_request
  remove_app_connection conn = app_disconnect_request awi (some conn.spec.app_connection)

  unfoldable pub request_app_connection : InterNetworkDomainAppConnection → Exec W (Unit {0})
  unfolding fill_cluster app_connection_request
  request_app_connection conn = do
    filled ← λ w. (fill_cluster u cluster_name conn.spec.app_connection, w)
    app_connection_request awi (some filled)

  unfoldable pub reconcile : NamespacedName → Exec W ReconcileResult
  unfolding Controllers.reconcile remove_app_connection request_app_connection
  reconcile =
      Controllers.reconcile client util my_finalizer_name remove_app_connection
        request_app_connection

  -- `predicate.Funcs` of `SetupWithManager`
  unfoldable pub update_func : InterNetworkDomainAppConnection → Bool
  update_func object_new = not (util.deletion_timestamp_is_zero object_new)

  unfoldable pub delete_func : InterNetworkDomainAppConnection → Bool
  delete_func object = false

  -- `complete` is the builder of controller-runtime, with `For` at the kind.
  unfoldable pub setup_with_manager :
      {M : Type 0}
      → (M → Controller W InterNetworkDomainAppConnection → Exec W (Unit {0}))
      → M
      → Exec W (Unit {0})
  unfolding reconcile update_func delete_func
  setup_with_manager complete mgr =
      complete mgr
        (record { reconcile = reconcile; update_func = update_func; delete_func = delete_func })
