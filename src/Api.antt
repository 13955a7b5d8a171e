-- ===== src/Api.antt =====
-- The custom resources of api/awi/v1alpha1. `TypeMeta` and `ListMeta` are left out, so a list object
-- is the `List` of its items.
pub mod DeepCopy
use awi_catalyst_sdwan_opera.Base.{ℕ, String, Option, List}
use awi_catalyst_sdwan_opera.Base.Dict.{Dict}
use awi_catalyst_sdwan_opera.Pb

-- The fields of `metav1.ObjectMeta` that the operator uses. A nil label map is `none`; a time is in
-- seconds from Go's zero time.
pub record ObjectMeta : Type 0 where
  pub name : String
  pub namespace : String
  pub labels : Option (Dict String)
  pub finalizers : List String
  pub deletion_timestamp : Option ℕ

-- A kind with metadata and a spec and no status.
pub record Resource (Spec : Type 0) : Type 0 where
  pub metadata : ObjectMeta
  pub spec : Spec

abbrev pub Instance : Type 0
Instance = Resource Pb.Instance

abbrev pub Site : Type 0
Site = Resource Pb.SiteDetail

abbrev pub Subnet : Type 0
Subnet = Resource Pb.Subnet

abbrev pub Vpc : Type 0
Vpc = Resource Pb.Vpc

abbrev pub Vpn : Type 0
Vpn = Resource Pb.Vpn

abbrev pub NetworkDomain : Type 0
NetworkDomain = Resource Pb.NetworkDomainObject

pub record InterNetworkDomainConnectionStatus : Type 0 where
  pub state : String
  pub connection_id : String

-- A kind with metadata, a spec and a status.
pub record Tracked (Spec Status : Type 0) : Type 0 where
  pub metadata : ObjectMeta
  pub spec : Spec
  pub status : Status

abbrev pub InterNetworkDomainConnection : Type 0
InterNetworkDomainConnection = Tracked Pb.ConnectionRequest InterNetworkDomainConnectionStatus

pub record AppConnectionSpec : Type 0 where
  pub app_connection : Pb.AppConnection

abbrev pub InterNetworkDomainAppConnection : Type 0
InterNetworkDomainAppConnection = Tracked AppConnectionSpec String
