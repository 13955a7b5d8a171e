-- ===== src/Sync/Kinds.antt =====
-- pkg/sync/*_sync.go: the five synchronizers that copy what AWI reports, and the names of the
-- objects that they make.
pub mod Clouds
pub mod Results
pub mod Success
use awi_catalyst_sdwan_opera.Base.{String, ◌<>◌, Option, none, List, [], ◌∷◌, ◌++◌, map}
use awi_catalyst_sdwan_opera.Base.Dict.{Dict}
use awi_catalyst_sdwan_opera.Base.Text.{Unicode, to_lower}
use awi_catalyst_sdwan_opera.Exec.{Exec, pure, ◌>>=◌}
use awi_catalyst_sdwan_opera.Pb
use awi_catalyst_sdwan_opera.Api
use awi_catalyst_sdwan_opera.Api.{Resource}
use awi_catalyst_sdwan_opera.Kube.{K8sClient}
use awi_catalyst_sdwan_opera.Awi.{
  AwiGrpcClient, list_vpcs, list_instances, list_sites, list_subnets, list_vpns,
}
use awi_catalyst_sdwan_opera.Sync.{supported_clouds, new_metadata, mirror}

pub record InstanceWithProvider : Type 0 where
  pub instance_message : Pb.Instance
  pub provider : String

pub record SubnetWithProvider : Type 0 where
  pub subnet : Pb.Subnet
  pub provider : String

module _ (u : Unicode) where
  unfoldable pub get_instance_crd_name : InstanceWithProvider → String
  get_instance_crd_name i = to_lower u i.provider <> "." <> i.instance_message.id

  unfoldable pub get_site_crd_name : Pb.SiteDetail → String
  get_site_crd_name site = to_lower u site.id

  unfoldable pub get_subnet_crd_name : SubnetWithProvider → String
  get_subnet_crd_name s = to_lower u s.provider <> "." <> s.subnet.subnet_id

  unfoldable pub get_vpc_crd_name : Pb.Vpc → String
  get_vpc_crd_name vpc = to_lower u vpc.provider <> "." <> vpc.id

unfoldable pub get_vpn_crd_name : Pb.Vpn → String
get_vpn_crd_name vpn = vpn.id

module _ (u : Unicode) where
  abbrev pub new_instance_crd : InstanceWithProvider → Api.Instance
  new_instance_crd i = record {
    metadata = new_metadata (get_instance_crd_name u i);
    spec = i.instance_message;
  }

  abbrev pub new_site_crd : Pb.SiteDetail → Api.Site
  new_site_crd site = record { metadata = new_metadata (get_site_crd_name u site); spec = site }

  abbrev pub new_subnet_crd : SubnetWithProvider → Api.Subnet
  new_subnet_crd s = record { metadata = new_metadata (get_subnet_crd_name u s); spec = s.subnet }

  abbrev pub new_vpc_crd : Pb.Vpc → Api.Vpc
  new_vpc_crd vpc = record { metadata = new_metadata (get_vpc_crd_name u vpc); spec = vpc }

abbrev pub new_vpn_crd : Pb.Vpn → Api.Vpn
new_vpn_crd vpn = record { metadata = new_metadata (get_vpn_crd_name vpn); spec = vpn }

-- The order in which `range` runs through a map of each kind.
pub record Orders : Type 0 where
  pub instances : Dict Api.Instance → List Api.Instance
  pub sites : Dict Api.Site → List Api.Site
  pub subnets : Dict Api.Subnet → List Api.Subnet
  pub vpcs : Dict Api.Vpc → List Api.Vpc
  pub vpns : Dict Api.Vpn → List Api.Vpn
  pub network_domains : Dict Api.NetworkDomain → List Api.NetworkDomain

module _ {W : Type 0} (awi : AwiGrpcClient W) where
  -- The loops over the clouds, from what is collected so far.
  unfoldable pub collect_instances :
      List String → List InstanceWithProvider → Exec W (List InstanceWithProvider)
  collect_instances [] existing = pure existing
  collect_instances (cloud ∷ clouds) existing = do
    cloud_instances ← list_instances awi cloud
    let found = map (λ i. record { instance_message = i; provider = cloud }) cloud_instances
    collect_instances clouds (existing ++ found)

  unfoldable pub collect_subnets :
      List String → List SubnetWithProvider → Exec W (List SubnetWithProvider)
  collect_subnets [] existing = pure existing
  collect_subnets (cloud ∷ clouds) existing = do
    cloud_subnets ← list_subnets awi cloud
    let found = map (λ s. record { subnet = s; provider = cloud }) cloud_subnets
    collect_subnets clouds (existing ++ found)

  unfoldable pub collect_vpcs : List String → List Pb.Vpc → Exec W (List Pb.Vpc)
  collect_vpcs [] existing = pure existing
  collect_vpcs (cloud ∷ clouds) existing = do
    cloud_vpcs ← list_vpcs awi cloud
    collect_vpcs clouds (existing ++ cloud_vpcs)

module _ {W : Type 0} (k8s : K8sClient W) (awi : AwiGrpcClient W) (u : Unicode)
    (orders : Orders) where
  unfoldable pub instance_sync : Exec W (Unit {0})
  instance_sync = do
    existing ← collect_instances awi supported_clouds []
    mirror k8s.instances orders.instances (get_instance_crd_name u) (new_instance_crd u) existing

  unfoldable pub site_sync : Exec W (Unit {0})
  site_sync = do
    existing ← list_sites awi
    mirror k8s.sites orders.sites (get_site_crd_name u) (new_site_crd u) existing

  unfoldable pub subnet_sync : Exec W (Unit {0})
  subnet_sync = do
    existing ← collect_subnets awi supported_clouds []
    mirror k8s.subnets orders.subnets (get_subnet_crd_name u) (new_subnet_crd u) existing

  unfoldable pub vpc_sync : Exec W (Unit {0})
  vpc_sync = do
    existing ← collect_vpcs awi supported_clouds []
    mirror k8s.vpcs orders.vpcs (get_vpc_crd_name u) (new_vpc_crd u) existing

  unfoldable pub vpn_sync : Exec W (Unit {0})
  vpn_sync = do
    existing ← list_vpns awi
    mirror k8s.vpns orders.vpns get_vpn_crd_name new_vpn_crd existing
