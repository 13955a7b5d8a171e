-- ===== src/Tests/Clusters.antt =====
-- A whole round of the synchronizers, in a cluster that keeps VPCs, VPNs and network domains.
use awi_catalyst_sdwan_opera.Base.{
  ◌≡◌, refl, subst, map, Option, some, none, List, [], ◌∷◌, ◌++◌, String,
}
use awi_catalyst_sdwan_opera.Base.Dict.{lookup, insert, erase}
use awi_catalyst_sdwan_opera.Base.Text.{to_lower, to_upper}
use awi_catalyst_sdwan_opera.Exec.{Result, ok}
use awi_catalyst_sdwan_opera.Pb
use awi_catalyst_sdwan_opera.Api
use awi_catalyst_sdwan_opera.Kube.{K8sClient}
use awi_catalyst_sdwan_opera.Kube.Laws.{find_named}
use awi_catalyst_sdwan_opera.Awi.{list_vpcs, list_vpns}
use awi_catalyst_sdwan_opera.Sync.{values, mirror}
use awi_catalyst_sdwan_opera.Sync.Kinds.{
  get_vpc_crd_name, get_vpn_crd_name, new_vpc_crd, new_vpn_crd, instance_sync, site_sync,
  subnet_sync, vpc_sync, vpn_sync, collect_instances, collect_subnets, collect_vpcs,
}
use awi_catalyst_sdwan_opera.Sync.Kinds.Results.{Mirrors}
use awi_catalyst_sdwan_opera.Sync.NetworkDomains.{
  get_vpc_network_domain_crd_name, get_vpn_network_domain_crd_name, is_skipped, network_domain_sync,
}
use awi_catalyst_sdwan_opera.Sync.Syncers.{sync, new_syncers}
use awi_catalyst_sdwan_opera.Sync.Syncers.Consistency.{AreConsistent}
use awi_catalyst_sdwan_opera.Sync.Syncers.Cluster.{IsBystander, IsCluster, earlier_syncers}
use awi_catalyst_sdwan_opera.Sync.Syncers.Whole.{round-AreConsistent}
use awi_catalyst_sdwan_opera.Sync.Distinct.{IsDistinct}
use awi_catalyst_sdwan_opera.Sync.Syncers.Listed.{name_of}
use awi_catalyst_sdwan_opera.Tests.Domains.{domain}
use awi_catalyst_sdwan_opera.Tests.MemoryKind.{localize, find, remove, values-IsOrder}
use awi_catalyst_sdwan_opera.Tests.MemoryCluster.{
  unique, unique-IsDistinct, kept, kept-IsLawful, lifted, lifted-IsApart, lifted-IsLawful,
}
use awi_catalyst_sdwan_opera.Tests.Fixtures.{u, awi, k8s, orders, vpn}

record Cloud : Type 0 where
  vpcs : List Api.Vpc
  vpns : List Api.Vpn
  domains : List Api.NetworkDomain

abbrev put_vpcs : List Api.Vpc → Cloud → Cloud
put_vpcs l w = record w { vpcs = l }

abbrev put_vpns : List Api.Vpn → Cloud → Cloud
put_vpns l w = record w { vpns = l }

abbrev put_domains : List Api.NetworkDomain → Cloud → Cloud
put_domains l w = record w { domains = l }

abbrev cluster : K8sClient Cloud
cluster = record k8s {
  vpcs = lifted (λ w. w.vpcs) put_vpcs kept;
  vpns = lifted (λ w. w.vpns) put_vpns kept;
  network_domains = lifted (λ w. w.domains) put_domains kept;
}

abbrev find_vpc : Cloud → String → Option Api.Vpc
find_vpc w = find w.vpcs

abbrev find_vpn : Cloud → String → Option Api.Vpn
find_vpn w = find w.vpns

abbrev find_domain : Cloud → String → Option Api.NetworkDomain
find_domain w = find w.domains

bystander : {X : Type 0} (look : Cloud → String → Option X) → IsBystander cluster awi look
bystander look = record {
  instances_apart = record {
    list_apart = λ w n. refl;
    create_apart = λ x w n. refl;
    delete_apart = λ x w n. refl;
  };
  sites_apart = record {
    list_apart = λ w n. refl;
    create_apart = λ x w n. refl;
    delete_apart = λ x w n. refl;
  };
  subnets_apart = record {
    list_apart = λ w n. refl;
    create_apart = λ x w n. refl;
    delete_apart = λ x w n. refl;
  };
  awi_apart = record {
    instances_apart = λ cloud w n. refl;
    sites_apart = λ w n. refl;
    subnets_apart = λ cloud w n. refl;
    vpcs_apart = λ cloud w n. refl;
    vpns_apart = λ w n. refl;
  };
}

cluster-IsCluster : IsCluster cluster awi find_vpc find_vpn find_domain
cluster-IsCluster = record {
  vpcs_lawful = lifted-IsLawful (λ w. w.vpcs) put_vpcs (λ v w. refl) kept find kept-IsLawful;
  vpns_lawful = lifted-IsLawful (λ w. w.vpns) put_vpns (λ v w. refl) kept find kept-IsLawful;
  domains_lawful =
      lifted-IsLawful (λ w. w.domains) put_domains (λ v w. refl) kept find kept-IsLawful;
  vpcs_bystander = bystander find_vpc;
  vpns_bystander = bystander find_vpn;
  domains_bystander = bystander find_domain;
  vpcs_vpns = lifted-IsApart (λ w. w.vpns) put_vpns find_vpc kept (λ v w n. refl);
  vpcs_domains = lifted-IsApart (λ w. w.domains) put_domains find_vpc kept (λ v w n. refl);
  vpns_vpcs = lifted-IsApart (λ w. w.vpcs) put_vpcs find_vpn kept (λ v w n. refl);
  vpns_domains = lifted-IsApart (λ w. w.domains) put_domains find_vpn kept (λ v w n. refl);
  domains_vpcs = lifted-IsApart (λ w. w.vpcs) put_vpcs find_domain kept (λ v w n. refl);
  domains_vpns = lifted-IsApart (λ w. w.vpns) put_vpns find_domain kept (λ v w n. refl);
  vpcs_distinct =
      λ w v l h. subst (IsDistinct name_of) (cc h) (unique-IsDistinct (map localize w.vpcs));
  vpns_distinct =
      λ w v l h. subst (IsDistinct name_of) (cc h) (unique-IsDistinct (map localize w.vpns));
}

-- A VPC that is gone and its network domain, a VPN, and a domain that a user labelled.
abbrev before : Cloud
before = record {
  vpcs = [];
  vpns = new_vpn_crd (vpn "99") ∷ [];
  domains = domain "manual" (some (("team", "a") ∷ [])) ∷ domain "bare" none ∷ [];
}

-- The servers of the other kinds refuse every call, which does not stop the round.
earlier_ran : sync (earlier_syncers cluster awi u orders) before ≡ (ok tt, before)
unfolding sync instance_sync site_sync subnet_sync collect_instances collect_subnets mirror
earlier_ran = refl

run_vpcs : Cloud → Result (Unit {0}) × Cloud
unfolding vpc_sync mirror get_vpc_crd_name remove to_lower unique
run_vpcs = vpc_sync cluster awi u orders

after_vpcs : Cloud
unfolding run_vpcs
after_vpcs = (run_vpcs before).1

vpcs_ran : vpc_sync cluster awi u orders before ≡ (ok tt, after_vpcs)
unfolding after_vpcs collect_vpcs find_named lookup insert erase
vpcs_ran = refl

run_vpns : Cloud → Result (Unit {0}) × Cloud
unfolding vpn_sync mirror get_vpn_crd_name remove unique
run_vpns = vpn_sync cluster awi u orders

after_vpns : Cloud
unfolding run_vpns after_vpcs
after_vpns = (run_vpns after_vpcs).1

vpns_ran : vpn_sync cluster awi u orders after_vpcs ≡ (ok tt, after_vpns)
unfolding after_vpns find_named lookup insert erase collect_vpcs
vpns_ran = refl

run_domains : Cloud → Result (Unit {0}) × Cloud
unfolding network_domain_sync get_vpc_network_domain_crd_name get_vpn_network_domain_crd_name
    get_vpc_crd_name get_vpn_crd_name remove to_lower to_upper is_skipped unique
run_domains = network_domain_sync cluster u values

after : Cloud
unfolding run_domains after_vpns
after = (run_domains after_vpns).1

domains_ran : network_domain_sync cluster u values after_vpns ≡ (ok tt, after)
unfolding after find_named lookup insert erase collect_vpcs
domains_ran = refl

round-AreConsistent_example :
    (sync (new_syncers cluster awi u orders) before ≡ (ok tt, after))
    × (aws : List Pb.Vpc) × (gcp : List Pb.Vpc) × (v₁ : Cloud) × (v₂ : Cloud) × (reported : List
        Pb.Vpn)
    × (v₃ : Cloud) × (list_vpcs awi "AWS" before ≡ (ok aws, v₁))
    × (list_vpcs awi "GCP" v₁ ≡ (ok gcp, v₂))
    × (list_vpns awi after_vpcs ≡ (ok reported, v₃))
    × Mirrors find_vpc (get_vpc_crd_name u) (new_vpc_crd u) (aws ++ gcp) before after
    × Mirrors find_vpn get_vpn_crd_name new_vpn_crd reported before after
    × AreConsistent u (find_vpc after) (find_vpn after) (find_domain before) (find_domain after)
round-AreConsistent_example =
    round-AreConsistent cluster awi u orders find_vpc find_vpn find_domain cluster-IsCluster before
      before after_vpcs after_vpns after earlier_ran vpcs_ran vpns_ran domains_ran values-IsOrder
      values-IsOrder values-IsOrder
