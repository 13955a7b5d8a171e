-- ===== src/Tests/Domains.antt =====
-- The synchronizer of network domains, in a cluster that keeps them.
use awi_catalyst_sdwan_opera.Base.{String, ◌≡◌, refl, inl, Option, some, none, List, [], ◌∷◌}
use awi_catalyst_sdwan_opera.Base.Dict.{Dict, lookup, insert, erase}
use awi_catalyst_sdwan_opera.Base.Text.{to_lower, to_upper}
use awi_catalyst_sdwan_opera.Exec.{Result, ok}
use awi_catalyst_sdwan_opera.Api
use awi_catalyst_sdwan_opera.Kube.{K8sClient}
use awi_catalyst_sdwan_opera.Kube.Laws.{find_named}
use awi_catalyst_sdwan_opera.Sync.{values, new_metadata}
use awi_catalyst_sdwan_opera.Sync.Kinds.{
  new_vpc_crd, new_vpn_crd, get_vpc_crd_name, get_vpn_crd_name,
}
use awi_catalyst_sdwan_opera.Sync.NetworkDomains.{
  get_vpc_network_domain_crd_name, get_vpn_network_domain_crd_name, is_skipped, network_domain_sync,
}
use awi_catalyst_sdwan_opera.Sync.NetworkDomains.Result.{network_domain_sync-find}
use awi_catalyst_sdwan_opera.Sync.NetworkDomains.Safety.{network_domain_sync_keeps}
use awi_catalyst_sdwan_opera.Tests.MemoryKind.{
  broken, find, remove, memory, memory-IsLawful, values-IsOrder,
}
use awi_catalyst_sdwan_opera.Tests.Fixtures.{u, k8s, vpn, aws_vpc}

abbrev pub domain : String → Option (Dict String) → Api.NetworkDomain
domain name labels = record {
  metadata = record (new_metadata name) { labels = labels };
  spec = record {
    account_id = "";
    id = name;
    labels = [];
    name = name;
    provider = "";
    side_id = "";
    kind = "VRF";
  };
}

-- One domain that a user labelled, and one with no labels at all.
abbrev before : List Api.NetworkDomain
before = domain "manual" (some (("team", "a") ∷ [])) ∷ domain "bare" none ∷ []

abbrev vpc_objects : List Api.Vpc
vpc_objects = new_vpc_crd u aws_vpc ∷ []

abbrev vpn_objects : List Api.Vpn
vpn_objects = new_vpn_crd (vpn "10") ∷ []

abbrev domains_kept : K8sClient (List Api.NetworkDomain)
domains_kept = record k8s {
  vpcs = record broken { list_in = λ ns w. (ok vpc_objects, w) };
  vpns = record broken { list_in = λ ns w. (ok vpn_objects, w) };
  network_domains = memory;
}

run : List Api.NetworkDomain → Result (Unit {0}) × List Api.NetworkDomain
unfolding network_domain_sync get_vpc_network_domain_crd_name get_vpn_network_domain_crd_name
    get_vpc_crd_name get_vpn_crd_name remove to_lower to_upper is_skipped
run = network_domain_sync domains_kept u values

after : List Api.NetworkDomain
unfolding run
after = (run before).1

ran : network_domain_sync domains_kept u values before ≡ (ok tt, after)
unfolding after find_named lookup insert erase
ran = refl

-- The domain that carries no labels is taken for a discovered one.
network_domain_sync-find_example : find after "bare" ≡ none
unfolding after find_named is_skipped get_vpc_network_domain_crd_name
    get_vpn_network_domain_crd_name to_lower to_upper get_vpc_crd_name get_vpn_crd_name lookup
network_domain_sync-find_example =
    network_domain_sync-find domains_kept u values values-IsOrder find memory-IsLawful (λ w n. refl)
      (λ w n. refl) vpc_objects vpn_objects before before before after "bare" refl refl ran

-- The domain that a user labelled stays.
network_domain_sync_keeps_example :
    find (network_domain_sync domains_kept u values before).1 "manual"
    ≡ some (domain "manual" (some (("team", "a") ∷ [])))
unfolding find_named is_skipped lookup
network_domain_sync_keeps_example =
    network_domain_sync_keeps domains_kept u values values-IsOrder find memory-IsLawful
      (λ w n. refl) (λ w n. refl) vpc_objects vpn_objects before before before "manual"
      (domain "manual" (some (("team", "a") ∷ []))) refl refl refl (inl refl)
