-- ===== src/Pb.antt =====
-- The messages of the awi-grpc package, with the fields that the operator reads, writes or keeps in
-- a custom resource (config/crd/bases has their schemas). A pointer is an `Option`, a generated
-- getter gives the zero value on nil.
use awi_catalyst_sdwan_opera.Base.{ℕ, String, Option, none, some}
use awi_catalyst_sdwan_opera.Base.Dict.{Dict}

-- `GetX()` of a message that may be nil, at a plain field and at a field that is a pointer.
abbrev pub get : {A B : Type 0} → (A → B) → B → Option A → B
get f zero_value none = zero_value
get f zero_value (some a) = f a

abbrev pub get_message : {A B : Type 0} → (A → Option B) → Option A → Option B
get_message f = get f none

pub record Vpc : Type 0 where
  pub account_name : String
  pub id : String
  pub labels : Dict String
  pub name : String
  pub provider : String
  pub region : String
  pub tag : String

pub record Vpn : Type 0 where
  pub id : String
  pub segment_id : String
  pub segment_name : String

pub record SiteDetail : Type 0 where
  pub id : String
  pub ip : String
  pub name : String
  pub site_id : String

pub record Subnet : Type 0 where
  pub cidr_block : String
  pub labels : Dict String
  pub name : String
  pub subnet_id : String
  pub vpc_id : String
  pub zone : String

pub record Instance : Type 0 where
  pub id : String
  pub labels : Dict String
  pub name : String
  pub private_ip : String
  pub public_ip : String
  pub state : String
  pub subnet_id : String
  pub vpc_id : String

pub record NetworkDomainObject : Type 0 where
  pub account_id : String
  pub id : String
  pub labels : Dict String
  pub name : String
  pub provider : String
  pub side_id : String
  pub kind : String

pub record MatchName : Type 0 where
  pub name : String

pub record MatchId : Type 0 where
  pub id : String

pub record Selector : Type 0 where
  pub match_id : Option MatchId
  pub match_name : Option MatchName
  pub match_labels : Dict String

pub record NetworkDomain : Type 0 where
  pub account_id : String
  pub selector : Option Selector

-- `Source` and `Destination` have the same fields.
pub record End : Type 0 where
  pub network_domain : Option NetworkDomain

pub record NetworkDomainConnectionConfig : Type 0 where
  pub source : Option End
  pub destination : Option End

pub record Metadata : Type 0 where
  pub name : String
  pub labels : Dict String

pub record ConnectionRequest : Type 0 where
  pub metadata : Option Metadata
  pub spec : Option NetworkDomainConnectionConfig

-- `status` is the int32 of the enum as its 32-bit pattern.
pub record ConnectionInformation : Type 0 where
  pub id : String
  pub metadata : Option Metadata
  pub status : ℕ

pub record MatchCluster : Type 0 where
  pub name : String

pub record EndpointSelector : Type 0 where
  pub match_cluster : Option MatchCluster
  pub match_labels : Dict String

pub record Endpoint : Type 0 where
  pub kind : String
  pub selector : Option EndpointSelector

-- `From` and `To`
pub record Party : Type 0 where
  pub endpoint : Option Endpoint

pub record ConnectionSelector : Type 0 where
  pub match_name : String

pub record NetworkDomainConnection : Type 0 where
  pub selector : Option ConnectionSelector

pub record AppConnection : Type 0 where
  pub controller : String
  pub metadata : Option Metadata
  pub network_domain_connection : Option NetworkDomainConnection
  pub from : Option Party
  pub to : Option Party

pub record AppConnectionInformation : Type 0 where
  pub id : String
  pub app_connection_config : Option AppConnection
  pub network_domain_connection_name : String
  pub status : ℕ
