-- ===== src/Controllers/Connection.antt =====
-- controllers/internetworkdomainconnection_controller.go
pub mod Safety
pub mod Frame
pub mod Calls
pub mod Interleaved
use awi_catalyst_sdwan_opera.Base.{String, Bool, true, false, not, Option, none, some}
use awi_catalyst_sdwan_opera.Exec.{Exec}
use awi_catalyst_sdwan_opera.Api.{InterNetworkDomainConnection}
use awi_catalyst_sdwan_opera.Kube.{NamespacedName, Client, Util}
use awi_catalyst_sdwan_opera.Awi.{AwiGrpcClient, connection_request, disconnect_request}
use awi_catalyst_sdwan_opera.Controllers.{ReconcileResult, Controller}
use awi_catalyst_sdwan_opera.Controllers

abbrev pub my_finalizer_name : String
my_finalizer_name = "internetworkdomainconnection.awi.app-net-interface.io/finalizer"

module _ {W : Type 0} (client : Client W InterNetworkDomainConnection)
    (util : Util InterNetworkDomainConnection) (awi : AwiGrpcClient W) where
  unfoldable pub remove_connection : InterNetworkDomainConnection → Exec W (Unit {0})
  unfolding disconnect_request
  remove_connection conn = disconnect_request awi (some conn.spec)

  unfoldable pub reconcile : NamespacedName → Exec W ReconcileResult
  unfolding Controllers.reconcile remove_connection connection_request
  reconcile =
      Controllers.reconcile client util my_finalizer_name remove_connection
        (λ conn. connection_request awi (some conn.spec))

  -- `predicate.Funcs` of `SetupWithManager`
  unfoldable pub update_func : InterNetworkDomainConnection → Bool
  update_func object_new = not (util.deletion_timestamp_is_zero object_new)

  unfoldable pub delete_func : InterNetworkDomainConnection → Bool
  delete_func object = false

  -- `complete` is the builder of controller-runtime, with `For` at the kind.
  unfoldable pub setup_with_manager :
      {M : Type 0}
      → (M → Controller W InterNetworkDomainConnection → Exec W (Unit {0}))
      → M
      → Exec W (Unit {0})
  unfolding reconcile update_func delete_func
  setup_with_manager complete mgr =
      complete mgr
        (record { reconcile = reconcile; update_func = update_func; delete_func = delete_func })
