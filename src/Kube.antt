-- ===== src/Kube.antt =====
-- The Kubernetes client of controller-runtime, which the operator calls: an interface over an
-- unknown world `W`, one `Client` for each kind of object.
pub mod Laws
pub mod Calm
pub mod Keys
use awi_catalyst_sdwan_opera.Base.{String, Bool, Option, List}
use awi_catalyst_sdwan_opera.Exec.{Exec, Error}
use awi_catalyst_sdwan_opera.Api

pub record NamespacedName : Type 0 where
  pub namespace : String
  pub name : String

-- `list_in` is `List` with `InNamespace`, `list_all` without. `update` and `update_status` return
-- the object as they leave it in their argument.
pub record Client (W X : Type 0) : Type 0 where
  pub list_in : String → Exec W (List X)
  pub list_all : Exec W (List X)
  pub get : NamespacedName → Exec W X
  pub create : X → Exec W (Unit {0})
  pub update : X → Exec W X
  pub update_status : X → Exec W X
  pub delete : X → Exec W (Unit {0})

-- `client.Client`, at the kinds that the operator uses.
pub record K8sClient (W : Type 0) : Type 0 where
  pub instances : Client W Api.Instance
  pub sites : Client W Api.Site
  pub subnets : Client W Api.Subnet
  pub vpcs : Client W Api.Vpc
  pub vpns : Client W Api.Vpn
  pub network_domains : Client W Api.NetworkDomain
  pub connections : Client W Api.InterNetworkDomainConnection
  pub app_connections : Client W Api.InterNetworkDomainAppConnection

-- What the reconcilers use of metav1, `client` and `controllerutil`, at one kind.
pub record Util (X : Type 0) : Type 0 where
  pub deletion_timestamp_is_zero : X → Bool
  pub contains_finalizer : X → String → Bool
  pub add_finalizer : X → String → X
  pub remove_finalizer : X → String → X
  pub ignore_not_found : Error → Option Error
