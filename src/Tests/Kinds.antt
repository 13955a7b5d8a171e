-- ===== src/Tests/Kinds.antt =====
-- The five copying synchronizers, each in a cluster that keeps the objects of its kind.
use awi_catalyst_sdwan_opera.Base.{◌≡◌, refl, List, [], ◌∷◌, ◌++◌}
use awi_catalyst_sdwan_opera.Base.Dict.{lookup, insert, erase}
use awi_catalyst_sdwan_opera.Base.Text.{to_lower}
use awi_catalyst_sdwan_opera.Exec.{Result, ok}
use awi_catalyst_sdwan_opera.Pb
use awi_catalyst_sdwan_opera.Api
use awi_catalyst_sdwan_opera.Kube.{K8sClient}
use awi_catalyst_sdwan_opera.Kube.Laws.{find_named}
use awi_catalyst_sdwan_opera.Awi.{list_instances, list_sites, list_subnets, list_vpcs, list_vpns}
use awi_catalyst_sdwan_opera.Sync.{mirror}
use awi_catalyst_sdwan_opera.Sync.Kinds.{
  get_instance_crd_name, get_site_crd_name, get_subnet_crd_name, get_vpc_crd_name, get_vpn_crd_name,
  collect_instances, collect_subnets, collect_vpcs, new_instance_crd, new_site_crd, new_subnet_crd,
  new_vpc_crd, new_vpn_crd, instance_sync, site_sync, subnet_sync, vpc_sync, vpn_sync,
}
use awi_catalyst_sdwan_opera.Sync.Kinds.Clouds.{tag_instances, tag_subnets}
use awi_catalyst_sdwan_opera.Sync.Kinds.Results.{
  Mirrors, instance_sync-Mirrors, subnet_sync-Mirrors, site_sync-Mirrors, vpc_sync-Mirrors,
  vpn_sync-Mirrors,
}
use awi_catalyst_sdwan_opera.Tests.MemoryKind.{
  find, remove, memory, memory-IsLawful, values-IsOrder,
}
use awi_catalyst_sdwan_opera.Tests.Fixtures.{u, awi, k8s, orders, vpn, site, aws_instance}

abbrev vpns_kept : K8sClient (List Api.Vpn)
vpns_kept = record k8s { vpns = memory }

run_vpns : List Api.Vpn → Result (Unit {0}) × List Api.Vpn
unfolding vpn_sync mirror get_vpn_crd_name remove
run_vpns = vpn_sync vpns_kept awi u orders

vpns_before : List Api.Vpn
vpns_before = new_vpn_crd (vpn "99") ∷ []

vpns_after : List Api.Vpn
unfolding run_vpns vpns_before
vpns_after = (run_vpns vpns_before).1

ran_vpns : vpn_sync vpns_kept awi u orders vpns_before ≡ (ok tt, vpns_after)
unfolding vpns_after find_named lookup insert erase
ran_vpns = refl

vpn_sync-Mirrors_example :
    (existing : List Pb.Vpn) × (v : List Api.Vpn) × (list_vpns awi vpns_before ≡ (ok existing, v))
    × Mirrors find get_vpn_crd_name new_vpn_crd existing vpns_before vpns_after
vpn_sync-Mirrors_example =
    vpn_sync-Mirrors vpns_kept awi u orders find memory-IsLawful values-IsOrder (λ w n. refl)
      vpns_before vpns_after ran_vpns

abbrev sites_kept : K8sClient (List Api.Site)
sites_kept = record k8s { sites = memory }

run_sites : List Api.Site → Result (Unit {0}) × List Api.Site
unfolding site_sync mirror get_site_crd_name remove to_lower
run_sites = site_sync sites_kept awi u orders

sites_before : List Api.Site
unfolding get_site_crd_name to_lower
sites_before = new_site_crd u (site "Old") ∷ []

sites_after : List Api.Site
unfolding run_sites sites_before
sites_after = (run_sites sites_before).1

ran_sites : site_sync sites_kept awi u orders sites_before ≡ (ok tt, sites_after)
unfolding sites_after find_named lookup insert erase
ran_sites = refl

site_sync-Mirrors_example :
    (existing : List Pb.SiteDetail) × (v : List Api.Site) × (list_sites awi sites_before
      ≡ (ok existing, v))
    × Mirrors find (get_site_crd_name u) (new_site_crd u) existing sites_before sites_after
site_sync-Mirrors_example =
    site_sync-Mirrors sites_kept awi u orders find memory-IsLawful values-IsOrder (λ w n. refl)
      sites_before sites_after ran_sites

abbrev instances_kept : K8sClient (List Api.Instance)
instances_kept = record k8s { instances = memory }

run_instances : List Api.Instance → Result (Unit {0}) × List Api.Instance
unfolding instance_sync mirror get_instance_crd_name remove to_lower
run_instances = instance_sync instances_kept awi u orders

instances_before : List Api.Instance
unfolding get_instance_crd_name to_lower
instances_before =
    new_instance_crd u (record { instance_message = aws_instance; provider = "GCP" }) ∷ []

instances_after : List Api.Instance
unfolding run_instances instances_before
instances_after = (run_instances instances_before).1

ran_instances :
    instance_sync instances_kept awi u orders instances_before ≡ (ok tt, instances_after)
unfolding instances_after collect_instances find_named lookup insert erase
ran_instances = refl

instance_sync-Mirrors_example :
    (aws : List Pb.Instance) × (gcp : List Pb.Instance) × (w₁ : List Api.Instance) × (w₂ : List
      Api.Instance)
    × (list_instances awi "AWS" instances_before ≡ (ok aws, w₁))
    × (list_instances awi "GCP" w₁ ≡ (ok gcp, w₂))
    × Mirrors find
        (get_instance_crd_name u)
        (new_instance_crd u)
        (tag_instances "AWS" aws ++ tag_instances "GCP" gcp)
        instances_before
        instances_after
instance_sync-Mirrors_example =
    instance_sync-Mirrors instances_kept awi u orders find memory-IsLawful values-IsOrder
      (λ cloud w n. refl) instances_before instances_after ran_instances

abbrev subnets_kept : K8sClient (List Api.Subnet)
subnets_kept = record k8s { subnets = memory }

run_subnets : List Api.Subnet → Result (Unit {0}) × List Api.Subnet
unfolding subnet_sync mirror get_subnet_crd_name remove to_lower
run_subnets = subnet_sync subnets_kept awi u orders

subnets_after : List Api.Subnet
unfolding run_subnets
subnets_after = (run_subnets []).1

ran_subnets : subnet_sync subnets_kept awi u orders [] ≡ (ok tt, subnets_after)
unfolding subnets_after collect_subnets find_named lookup insert erase
ran_subnets = refl

subnet_sync-Mirrors_example :
    (aws : List Pb.Subnet) × (gcp : List Pb.Subnet) × (w₁ : List Api.Subnet) × (w₂ : List
      Api.Subnet)
    × (list_subnets awi "AWS" [] ≡ (ok aws, w₁))
    × (list_subnets awi "GCP" w₁ ≡ (ok gcp, w₂))
    × Mirrors find
        (get_subnet_crd_name u)
        (new_subnet_crd u)
        (tag_subnets "AWS" aws ++ tag_subnets "GCP" gcp)
        []
        subnets_after
subnet_sync-Mirrors_example =
    subnet_sync-Mirrors subnets_kept awi u orders find memory-IsLawful values-IsOrder
      (λ cloud w n. refl) [] subnets_after ran_subnets

abbrev vpcs_kept : K8sClient (List Api.Vpc)
vpcs_kept = record k8s { vpcs = memory }

run_vpcs : List Api.Vpc → Result (Unit {0}) × List Api.Vpc
unfolding vpc_sync mirror get_vpc_crd_name remove to_lower
run_vpcs = vpc_sync vpcs_kept awi u orders

vpcs_after : List Api.Vpc
unfolding run_vpcs
vpcs_after = (run_vpcs []).1

ran_vpcs : vpc_sync vpcs_kept awi u orders [] ≡ (ok tt, vpcs_after)
unfolding vpcs_after collect_vpcs find_named lookup insert erase
ran_vpcs = refl

vpc_sync-Mirrors_example :
    (aws : List Pb.Vpc) × (gcp : List Pb.Vpc) × (w₁ : List Api.Vpc) × (w₂ : List Api.Vpc)
    × (list_vpcs awi "AWS" [] ≡ (ok aws, w₁))
    × (list_vpcs awi "GCP" w₁ ≡ (ok gcp, w₂))
    × Mirrors find (get_vpc_crd_name u) (new_vpc_crd u) (aws ++ gcp) [] vpcs_after
vpc_sync-Mirrors_example =
    vpc_sync-Mirrors vpcs_kept awi u orders find memory-IsLawful values-IsOrder (λ cloud w n. refl)
      [] vpcs_after ran_vpcs
