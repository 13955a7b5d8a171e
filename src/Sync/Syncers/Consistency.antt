-- ===== src/Sync/Syncers/Consistency.antt =====
-- One round of all synchronizers: the network domains follow what AWI reports in that round.
use awi_catalyst_sdwan_opera.Base.{
  String, ◌≡◌, ◌≢◌, ◌∙◌, sym, ◌⊎◌, inl, inr, false, true, Bool-cases, Option, none, some,
  Option-cases, List, arith, refl,
}
use awi_catalyst_sdwan_opera.Base.Text.{Unicode}
use awi_catalyst_sdwan_opera.Api
use awi_catalyst_sdwan_opera.Api.{Resource}
use awi_catalyst_sdwan_opera.Kube.Laws.{find_named}
use awi_catalyst_sdwan_opera.Sync.Creation.{find_by}
use awi_catalyst_sdwan_opera.Sync.Distinct.{IsDistinct}
use awi_catalyst_sdwan_opera.Sync.NetworkDomains.{
  get_vpc_network_domain_crd_name, get_vpn_network_domain_crd_name, is_skipped,
}
use awi_catalyst_sdwan_opera.Sync.NetworkDomains.Result.{domain_after}
use awi_catalyst_sdwan_opera.Sync.Syncers.Listed.{name_of, find_named-find_by, find_by-find_named}

-- The stored object of a name, if there is one, has a network domain.
abbrev pub HasDomain :
    {S : Type 0}
    → (Resource S → String)
    → Option (Resource S)
    → (String → Option Api.NetworkDomain)
    → Type 0
HasDomain key none domains = Unit
HasDomain key (some x) domains = domains (key x) ≢ none

-- Some stored object stands for the network domain of the name `n`.
abbrev pub StandsFor :
    {S : Type 0} → (Resource S → String) → (String → Option (Resource S)) → String → Type 0
StandsFor {S} key objects n = (m : String) × (x : Resource S) × (objects m ≡ some x) × (key x ≡ n)

module _ (u : Unicode) (vpcs : String → Option Api.Vpc) (vpns : String → Option Api.Vpn) where
  -- A stored network domain carries a label map without `discovered: yes`, or a stored VPC or VPN
  -- stands for it.
  abbrev pub IsFounded : String → Option Api.NetworkDomain → Type 0
  IsFounded n none = Unit
  IsFounded n (some nd) =
      (is_skipped nd.metadata.labels ≡ true)
      ⊎ (StandsFor (get_vpc_network_domain_crd_name u) vpcs n
          ⊎ StandsFor (get_vpn_network_domain_crd_name u) vpns n)

-- What was stored under a name is still there if it carries a label map without `discovered: yes`.
abbrev pub IsSpared : Option Api.NetworkDomain → Option Api.NetworkDomain → Type 0
IsSpared none new = Unit
IsSpared (some nd) new = (is_skipped nd.metadata.labels ≡ false) ⊎ (new ≡ some nd)

-- The network domains of a cluster against its VPCs and VPNs, and against the domains before.
pub record AreConsistent (u : Unicode) (vpcs : String → Option Api.Vpc)
    (vpns : String → Option Api.Vpn) (old new : String → Option Api.NetworkDomain) : Type 0 where
  pub vpc_domains : (m : String) → HasDomain (get_vpc_network_domain_crd_name u) (vpcs m) new
  pub vpn_domains : (m : String) → HasDomain (get_vpn_network_domain_crd_name u) (vpns m) new
  pub founded : (n : String) → IsFounded u vpcs vpns n (new n)
  pub spared : (n : String) → IsSpared (old n) (new n)

module _ (u : Unicode) (vpcs : String → Option Api.Vpc) (vpns : String → Option Api.Vpn)
    (old new : String → Option Api.NetworkDomain) (vpc_list : List Api.Vpc)
    (vpn_list : List Api.Vpn)
    (after : (n : String)
      → new n
        ≡ domain_after u
            (find_by (get_vpc_network_domain_crd_name u) n vpc_list)
            (find_by (get_vpn_network_domain_crd_name u) n vpn_list)
            (old n))
    (vpcs_stored : (m : String) → find_named m vpc_list ≡ vpcs m)
    (vpns_stored : (m : String) → find_named m vpn_list ≡ vpns m)
    (vpcs_distinct : IsDistinct name_of vpc_list)
    (vpns_distinct : IsDistinct name_of vpn_list) where
  vpc-HasDomain :
      (m : String) (o : Option Api.Vpc)
      → vpcs m ≡ o
      → HasDomain (get_vpc_network_domain_crd_name u) o new
  vpc-HasDomain m none h = tt
  vpc-HasDomain m (some x) h = ground (
    arith,
    find_named-find_by (get_vpc_network_domain_crd_name u) m x vpc_list (vpcs_stored m ∙ h),
    after (get_vpc_network_domain_crd_name u x),
  )

  vpn-HasDomain :
      (m : String) (o : Option Api.Vpn)
      → vpns m ≡ o
      → HasDomain (get_vpn_network_domain_crd_name u) o new
  vpn-HasDomain m none h = tt
  vpn-HasDomain m (some x) h = ground (
    arith,
    find_named-find_by (get_vpn_network_domain_crd_name u) m x vpn_list (vpns_stored m ∙ h),
    after (get_vpn_network_domain_crd_name u x),
  )

  domain-IsFounded :
      (n : String) (o : Option Api.NetworkDomain) → new n ≡ o → IsFounded u vpcs vpns n o
  domain-IsFounded n none h = tt
  domain-IsFounded n (some nd) h =
      elim (Option-cases (find_by (get_vpc_network_domain_crd_name u) n vpc_list)) [
        | inr (x, found) ↦
            let (stored, named) =
              find_by-find_named (get_vpc_network_domain_crd_name u) n x vpc_list vpcs_distinct
                found in
            inr (inl (name_of x, x, sym (vpcs_stored (name_of x)) ∙ stored, named))
        | inl no_vpc ↦
            elim (Option-cases (find_by (get_vpn_network_domain_crd_name u) n vpn_list)) [
              | inr (x, found) ↦
                  let (stored, named) =
                    find_by-find_named (get_vpn_network_domain_crd_name u) n x vpn_list
                      vpns_distinct found in
                  inr (inr (name_of x, x, sym (vpns_stored (name_of x)) ∙ stored, named))
              | inl no_vpn ↦ inl (ground (arith, h, after n, no_vpc, no_vpn))
            ]
      ]

  domain-IsSpared : (n : String) (o : Option Api.NetworkDomain) → old n ≡ o → IsSpared o (new n)
  domain-IsSpared n none h = tt
  domain-IsSpared n (some nd) h = elim (Bool-cases (is_skipped nd.metadata.labels)) [
    | inr taken ↦ inl taken
    | inl skipped ↦ inr (ground (arith, after n))
  ]

  pub domains-AreConsistent : AreConsistent u vpcs vpns old new
  domains-AreConsistent = record {
    vpc_domains = λ m. vpc-HasDomain m (vpcs m) refl;
    vpn_domains = λ m. vpn-HasDomain m (vpns m) refl;
    founded = λ n. domain-IsFounded n (new n) refl;
    spared = λ n. domain-IsSpared n (old n) refl;
  }
