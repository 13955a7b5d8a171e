-- ===== src/Sync/NetworkDomains/Safety.antt =====
-- What the synchronizer of network domains leaves alone, also where it fails half-way.
use awi_catalyst_sdwan_opera.Base.{
  String, ◌≡◌, ◌≢◌, ◌∙◌, ◌⊎◌, inl, inr, false, true, Bool-cases, Option, none, some, List, [], ◌∷◌,
  arith,
}
use awi_catalyst_sdwan_opera.Base.Dict.{Dict}
use awi_catalyst_sdwan_opera.Base.Text.{Unicode}
use awi_catalyst_sdwan_opera.Exec.{ok, >>=-ind}
use awi_catalyst_sdwan_opera.Api
use awi_catalyst_sdwan_opera.Kube.{Client, K8sClient}
use awi_catalyst_sdwan_opera.Kube.Laws.{IsLawful, any, Preserves, preserved}
use awi_catalyst_sdwan_opera.Sync.{namespace, index_by_name, create_missing}
use awi_catalyst_sdwan_opera.Sync.Keyed.{index_by_name-IsKeyed, IsOrder, any-perm}
use awi_catalyst_sdwan_opera.Sync.Creation.{find_by, create_missing-find, create_missing-IsKeyed}
use awi_catalyst_sdwan_opera.Sync.Mirror.{stored_of_listed}
use awi_catalyst_sdwan_opera.Sync.Safety.{create_missing_keeps}
use awi_catalyst_sdwan_opera.Sync.NetworkDomains.{
  get_vpc_network_domain_crd_name, get_vpn_network_domain_crd_name, vpc_network_domain,
  vpn_network_domain, is_skipped, delete_discovered, network_domain_sync,
}
use awi_catalyst_sdwan_opera.Sync.NetworkDomains.Result.{
  is_stale, any-stale-values, vpc_IsBuild, vpn_IsBuild,
}

module _ {W : Type 0} (client : Client W Api.NetworkDomain)
    (find : W → String → Option Api.NetworkDomain) (lawful : IsLawful namespace client find) where
  -- The deletion loop touches no name of which its list has no stale object.
  delete_discovered_keeps :
      (xs : List Api.NetworkDomain) (w : W) (n : String) (y : Api.NetworkDomain)
      → find w n ≡ some y
      → any (is_stale n) xs ≡ false
      → find (delete_discovered client xs w).1 n ≡ some y
  unfolding delete_discovered any is_stale
  delete_discovered_keeps [] w n y h f = h
  delete_discovered_keeps (x ∷ xs) w n y h f = elim (Bool-cases (is_skipped x.metadata.labels)) [
    | inl skipped ↦
        rw (skipped, delete_discovered) (delete_discovered_keeps xs w n y h (ground arith))
    | inr taken ↦
        let kept : find (client.delete x w).1 n ≡ some y =
          lawful.delete_keeps x w n (ground arith) ∙ h in
        rw (taken, delete_discovered)
          (>>=-ind (λ v. find v n ≡ some y) (client.delete x) (λ _. delete_discovered client xs) w
            kept (λ a v e. delete_discovered_keeps xs v n y (cc (e, kept)) (ground arith)))
  ]

-- An object that the synchronizer is to leave: it carries a label map without `discovered: yes`, or
-- a VPC or a VPN of the cluster stands for it.
abbrev pub IsWanted : Unicode → List Api.Vpc → List Api.Vpn → String → Api.NetworkDomain → Type 0
IsWanted u vpcs vpns n nd =
    (is_skipped nd.metadata.labels ≡ true)
    ⊎ ((find_by (get_vpc_network_domain_crd_name u) n vpcs ≢ none)
        ⊎ (find_by (get_vpn_network_domain_crd_name u) n vpns ≢ none))

module _ {W : Type 0} (k8s : K8sClient W) (u : Unicode)
    (order : Dict Api.NetworkDomain → List Api.NetworkDomain) (orders : IsOrder order)
    (find : W → String → Option Api.NetworkDomain)
    (lawful : IsLawful namespace k8s.network_domains find)
    (vpcs_frame : Preserves find (k8s.vpcs.list_in namespace))
    (vpns_frame : Preserves find (k8s.vpns.list_in namespace)) where
  -- What the creation loops leave in the map has nothing of a wanted name that the last loop takes.
  none_stale :
      (l : List Api.NetworkDomain) (vpcs : List Api.Vpc) (vpns : List Api.Vpn)
      (m₁ m₂ : Dict Api.NetworkDomain) (w v u₁ u₂ : W) (n : String) (y : Api.NetworkDomain)
      → k8s.network_domains.list_in namespace w ≡ (ok l, v)
      → create_missing k8s.network_domains
          (get_vpc_network_domain_crd_name u)
          (vpc_network_domain u)
          vpcs
          (index_by_name l)
          v
        ≡ (ok m₁, u₁)
      → create_missing k8s.network_domains
          (get_vpn_network_domain_crd_name u)
          (vpn_network_domain u)
          vpns
          m₁
          u₁
        ≡ (ok m₂, u₂)
      → find v n ≡ some y
      → IsWanted u vpcs vpns n y
      → any (is_stale n) (order m₂) ≡ false
  none_stale l vpcs vpns m₁ m₂ w v u₁ u₂ n y listed created₁ created₂ h wanted =
      let client = k8s.network_domains in
      let keyed =
        create_missing-IsKeyed client _ (vpn_network_domain u) vpns m₁ m₂ u₁ u₂
          (create_missing-IsKeyed client _ (vpc_network_domain u) vpcs (index_by_name l) m₁ v u₁
            (index_by_name-IsKeyed l (lawful.list_local w v l listed)) created₁)
          created₂ in
      let stored = λ (k : String). stored_of_listed client find lawful l listed k in
      let first = λ (k : String).
        create_missing-find client find lawful _ (vpc_network_domain u) (vpc_IsBuild u) vpcs
          (index_by_name l) m₁ v u₁ k (λ j x e. stored j ∙ e) created₁ in
      let second =
        create_missing-find client find lawful _ (vpn_network_domain u) (vpn_IsBuild u) vpns m₁ m₂
          u₁ u₂ n (λ j x e. ground (arith, first j, e, stored j)) created₂ in
      ground (
        arith,
        wanted,
        h,
        first n,
        second,
        stored n,
        any-stale-values n m₂ keyed,
        any-perm (is_stale n) (orders m₂),
      )

  -- Where the lists of VPCs and VPNs answer and touch no network domain, a domain that carries a label
  -- map without `discovered: yes`, or that one of the listed objects stands for, is neither changed nor
  -- deleted, whether the synchronization succeeds or stops at an error.
  pub network_domain_sync_keeps :
      (vpcs : List Api.Vpc) (vpns : List Api.Vpn) (w w₁ w₂ : W) (n : String) (y : Api.NetworkDomain)
      → k8s.vpcs.list_in namespace w ≡ (ok vpcs, w₁)
      → k8s.vpns.list_in namespace w₁ ≡ (ok vpns, w₂)
      → find w n ≡ some y
      → IsWanted u vpcs vpns n y
      → find (network_domain_sync k8s u order w).1 n ≡ some y
  unfolding network_domain_sync
  network_domain_sync_keeps vpcs vpns w w₁ w₂ n y h₁ h₂ h wanted =
      let client = k8s.network_domains in
      let P = λ (v : W). find v n ≡ some y in
      let h₃ : find w₂ n ≡ some y =
        preserved find (k8s.vpns.list_in namespace) vpns_frame n h₂
        ∙ preserved find (k8s.vpcs.list_in namespace) vpcs_frame n h₁
        ∙ h in
      rw (h₁, h₂)
        (>>=-ind P (client.list_in namespace) _ w₂ (lawful.list_keeps w₂ n ∙ h₃) λ l v listed.
          let hv : find v n ≡ some y =
            preserved find (client.list_in namespace) lawful.list_keeps n listed ∙ h₃ in
          let vpc_key = get_vpc_network_domain_crd_name u in
          let vpn_key = get_vpn_network_domain_crd_name u in
          let create_vpcs =
            create_missing client vpc_key (vpc_network_domain u) vpcs (index_by_name l) in
          let kept₁ =
            create_missing_keeps client find lawful vpc_key (vpc_network_domain u) vpcs
              (index_by_name l) v n y hv in
          >>=-ind P create_vpcs _ v kept₁ λ m₁ u₁ created₁.
            let hu₁ : find u₁ n ≡ some y = cc (created₁, kept₁) in
            let create_vpns = create_missing client vpn_key (vpn_network_domain u) vpns m₁ in
            let kept₂ =
              create_missing_keeps client find lawful vpn_key (vpn_network_domain u) vpns m₁ u₁ n y
                hu₁ in
            >>=-ind P create_vpns _ u₁ kept₂ λ m₂ u₂ created₂.
              delete_discovered_keeps client find lawful (order m₂) u₂ n y (cc (created₂, kept₂))
                (none_stale l vpcs vpns m₁ m₂ w₂ v u₁ u₂ n y listed created₁ created₂ hv wanted))
