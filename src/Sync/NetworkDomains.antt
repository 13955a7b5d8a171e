-- ===== src/Sync/NetworkDomains.antt =====
-- pkg/sync/network_domain_sync.go: network domains from the VPC and VPN objects of the cluster.
pub mod Result
pub mod Safety
use awi_catalyst_sdwan_opera.Base.{
  String, ◌<>◌, Bool, false, not, ◌==◌, Option, none, some, List, [], ◌∷◌, if◌then◌else◌,
}
use awi_catalyst_sdwan_opera.Base.Dict.{Dict, lookup}
use awi_catalyst_sdwan_opera.Base.Text.{Unicode, to_lower, to_upper}
use awi_catalyst_sdwan_opera.Exec.{Exec, pure, ◌>>=◌, ◌>>◌}
use awi_catalyst_sdwan_opera.Pb.{get}
use awi_catalyst_sdwan_opera.Api
use awi_catalyst_sdwan_opera.Kube.{Client, K8sClient}
use awi_catalyst_sdwan_opera.Sync.{namespace, new_metadata, index_by_name, create_missing}

-- `Labels: map[string]string{"discovered": "yes"}`
abbrev pub discovered_label : Dict String
discovered_label = ("discovered", "yes") ∷ []

unfoldable pub get_vpn_network_domain_crd_name : Unicode → Api.Vpn → String
get_vpn_network_domain_crd_name u vpn = "vpn." <> to_lower u vpn.spec.id

module _ (u : Unicode) where
  unfoldable pub get_vpc_network_domain_crd_name : Api.Vpc → String
  get_vpc_network_domain_crd_name vpc =
      "vpc." <> to_lower u vpc.spec.provider <> "." <> vpc.spec.name <> "." <> vpc.spec.id

  abbrev pub vpc_network_domain : Api.Vpc → Api.NetworkDomain
  vpc_network_domain vpc = record {
    metadata = record (new_metadata (get_vpc_network_domain_crd_name vpc)) {
      labels = some discovered_label;
    };
    spec = record {
      account_id = "";
      id = vpc.spec.id;
      labels = [];
      name = vpc.spec.name;
      provider = to_upper u vpc.spec.provider;
      side_id = "";
      kind = "VPC";
    };
  }

  abbrev pub vpn_network_domain : Api.Vpn → Api.NetworkDomain
  vpn_network_domain vpn = record {
    metadata = record (new_metadata (get_vpn_network_domain_crd_name u vpn)) {
      labels = some discovered_label;
    };
    spec = record {
      account_id = "";
      id = vpn.spec.id;
      labels = [];
      name = vpn.spec.id;
      provider = "";
      side_id = "";
      kind = "VRF";
    };
  }

-- `GetLabels() != nil && GetLabels()["discovered"] != "yes"`
unfoldable pub is_skipped : Option (Dict String) → Bool
is_skipped none = false
is_skipped (some labels) = not (get (λ (v : String). v) "" (lookup "discovered" labels) == "yes")

module _ {W : Type 0} (client : Client W Api.NetworkDomain) where
  unfoldable pub delete_discovered : List Api.NetworkDomain → Exec W (Unit {0})
  delete_discovered [] = pure tt
  delete_discovered (nd ∷ crds) =
      let rest = delete_discovered crds in
      if is_skipped nd.metadata.labels then rest else client.delete nd >> rest

module _ {W : Type 0} (k8s : K8sClient W) (u : Unicode)
    (order : Dict Api.NetworkDomain → List Api.NetworkDomain) where
  unfoldable pub network_domain_sync : Exec W (Unit {0})
  unfolding index_by_name create_missing delete_discovered
  network_domain_sync = do
    vpc_list ← k8s.vpcs.list_in namespace
    vpn_list ← k8s.vpns.list_in namespace
    existing ← k8s.network_domains.list_in namespace
    unseen ←
        create_missing k8s.network_domains (get_vpc_network_domain_crd_name u)
          (vpc_network_domain u) vpc_list (index_by_name existing)
    stale ←
        create_missing k8s.network_domains (get_vpn_network_domain_crd_name u)
          (vpn_network_domain u) vpn_list unseen
    delete_discovered k8s.network_domains (order stale)
