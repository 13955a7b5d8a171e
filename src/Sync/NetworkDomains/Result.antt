-- ===== src/Sync/NetworkDomains/Result.antt =====
-- What the synchronizer of network domains does to the stored objects.
use awi_catalyst_sdwan_opera.Base.{
  String, ◌≡◌, refl, ◌∙◌, Bool, false, not, ◌&&◌, ◌==◌, eq_iff, Option, none, some, List, [], ◌∷◌,
  or_else, Bool-cases, inl, inr, if◌then◌else◌, arith,
}
use awi_catalyst_sdwan_opera.Base.Dict.{Dict, lookup}
use awi_catalyst_sdwan_opera.Base.Text.{Unicode}
use awi_catalyst_sdwan_opera.Exec.{ok, >>=-eq-ok}
use awi_catalyst_sdwan_opera.Api
use awi_catalyst_sdwan_opera.Kube.{Client, K8sClient}
use awi_catalyst_sdwan_opera.Kube.Laws.{IsLawful, any, is_foreign, Preserves, preserved}
use awi_catalyst_sdwan_opera.Sync.{namespace, values, index_by_name, create_missing}
use awi_catalyst_sdwan_opera.Sync.Keyed.{
  IsKeyed, index_by_name-IsKeyed, any-foreign-values, IsOrder, any-perm,
}
use awi_catalyst_sdwan_opera.Sync.Creation.{
  find_by, IsBuild, create_missing-find, create_missing-IsKeyed,
}
use awi_catalyst_sdwan_opera.Sync.Mirror.{stored_of_listed}
use awi_catalyst_sdwan_opera.Sync.NetworkDomains.{
  get_vpc_network_domain_crd_name, get_vpn_network_domain_crd_name, vpc_network_domain,
  vpn_network_domain, is_skipped, delete_discovered, network_domain_sync,
}

-- An object of the name `n` that the deletion loop takes.
unfoldable pub is_stale : String → Api.NetworkDomain → Bool
is_stale n nd = (nd.metadata.name == n) && not (is_skipped nd.metadata.labels)

-- What is left of an object that no VPC and no VPN stands for.
abbrev pub unlisted : Option Api.NetworkDomain → Option Api.NetworkDomain
unlisted none = none
unlisted (some nd) = if is_skipped nd.metadata.labels then some nd else none

-- The stored object of a name after a synchronization, from the VPC and the VPN that stand for it.
abbrev pub domain_after :
    Unicode → Option Api.Vpc → Option Api.Vpn → Option Api.NetworkDomain → Option Api.NetworkDomain
domain_after u (some vpc) _ old = or_else old (some (vpc_network_domain u vpc))
domain_after u none (some vpn) old = or_else old (some (vpn_network_domain u vpn))
domain_after u none none old = unlisted old

pub any-stale-values :
    (n : String) (m : Dict Api.NetworkDomain)
    → IsKeyed m
    → any (is_stale n) (values m)
      ≡ elim (lookup n m) [ none ↦ false | some nd ↦ not (is_skipped nd.metadata.labels) ]
unfolding any lookup is_stale
any-stale-values n [] k = refl
any-stale-values n ((j, x) ∷ m) k = ground (arith, any-stale-values n m k.3, eq_iff j n)

module _ {W : Type 0} (client : Client W Api.NetworkDomain)
    (find : W → String → Option Api.NetworkDomain) (lawful : IsLawful namespace client find) where
  delete_discovered-find :
      (xs : List Api.NetworkDomain) (w w' : W) (n : String)
      → any (is_foreign namespace) xs ≡ false
      → delete_discovered client xs w ≡ (ok tt, w')
      → find w' n ≡ (if any (is_stale n) xs then none else find w n)
  unfolding delete_discovered any is_stale
  delete_discovered-find [] w w' n f h = ground arith
  delete_discovered-find (x ∷ xs) w w' n f h = elim (Bool-cases (is_skipped x.metadata.labels)) [
    | inl skipped ↦ ground (
      arith,
      delete_discovered-find xs w w' n (ground arith) (rw (skipped, delete_discovered) at h),
    )
    | inr taken ↦
        let (_, v, deleted, rest) =
          >>=-eq-ok (client.delete x) (λ _. delete_discovered client xs) w
            (rw (taken, delete_discovered) at h) in
        ground (
          arith,
          delete_discovered-find xs v w' n (ground arith) rest,
          lawful.delete_ok x w v n (ground (arith, eq_iff x.metadata.namespace namespace)) deleted,
        )
  ]

pub vpc_IsBuild : (u : Unicode) → IsBuild (get_vpc_network_domain_crd_name u) (vpc_network_domain u)
vpc_IsBuild u = record { named = λ r. refl; local = λ r. refl }

pub vpn_IsBuild : (u : Unicode) → IsBuild (get_vpn_network_domain_crd_name u) (vpn_network_domain u)
vpn_IsBuild u = record { named = λ r. refl; local = λ r. refl }

module _ {W : Type 0} (k8s : K8sClient W) (u : Unicode)
    (order : Dict Api.NetworkDomain → List Api.NetworkDomain) (orders : IsOrder order)
    (find : W → String → Option Api.NetworkDomain)
    (lawful : IsLawful namespace k8s.network_domains find)
    (vpcs_frame : Preserves find (k8s.vpcs.list_in namespace))
    (vpns_frame : Preserves find (k8s.vpns.list_in namespace)) where
  -- Where listing VPCs and VPNs touches no network domain, each VPC and each VPN of the cluster has its
  -- network domain after a successful synchronization, the stored one where there was one. Of the
  -- others, those that carry a label map without `discovered: yes` are left, and all else is gone.
  pub network_domain_sync-find :
      (vpcs : List Api.Vpc) (vpns : List Api.Vpn) (w w₁ w₂ w' : W) (n : String)
      → k8s.vpcs.list_in namespace w ≡ (ok vpcs, w₁)
      → k8s.vpns.list_in namespace w₁ ≡ (ok vpns, w₂)
      → network_domain_sync k8s u order w ≡ (ok tt, w')
      → find w' n
        ≡ domain_after u
            (find_by (get_vpc_network_domain_crd_name u) n vpcs)
            (find_by (get_vpn_network_domain_crd_name u) n vpns)
            (find w n)
  unfolding network_domain_sync
  network_domain_sync-find vpcs vpns w w₁ w₂ w' n h₁ h₂ h =
      let client = k8s.network_domains in
      let (l, v, listed, h₃) =
        >>=-eq-ok (k8s.network_domains.list_in namespace) _ w₂
          (rw (h₁, h₂, network_domain_sync) at h) in
      let (m₁, u₁, created₁, h₄) =
        >>=-eq-ok
          (create_missing client (get_vpc_network_domain_crd_name u) (vpc_network_domain u) vpcs
            (index_by_name l))
          _ v h₃ in
      let (m₂, u₂, created₂, deleted) =
        >>=-eq-ok
          (create_missing client (get_vpn_network_domain_crd_name u) (vpn_network_domain u) vpns m₁)
          _ u₁ h₄ in
      let keyed =
        create_missing-IsKeyed client _ (vpn_network_domain u) vpns m₁ m₂ u₁ u₂
          (create_missing-IsKeyed client _ (vpc_network_domain u) vpcs (index_by_name l) m₁ v u₁
            (index_by_name-IsKeyed l (lawful.list_local w₂ v l listed)) created₁)
          created₂ in
      let first = λ (k : String).
        create_missing-find client find lawful _ (vpc_network_domain u) (vpc_IsBuild u) vpcs
          (index_by_name l) m₁ v u₁ k (λ j x e. stored_of_listed client find lawful l listed j ∙ e)
          created₁ in
      let second =
        create_missing-find client find lawful _ (vpn_network_domain u) (vpn_IsBuild u) vpns m₁ m₂
          u₁ u₂ n
          (λ j x e. ground (arith, first j, e, stored_of_listed client find lawful l listed j))
          created₂ in
      ground (
        arith,
        first n,
        second,
        stored_of_listed client find lawful l listed n,
        preserved find (client.list_in namespace) lawful.list_keeps n listed,
        preserved find (k8s.vpcs.list_in namespace) vpcs_frame n h₁,
        preserved find (k8s.vpns.list_in namespace) vpns_frame n h₂,
        any-stale-values n m₂ keyed,
        any-perm (is_stale n) (orders m₂),
        delete_discovered-find client find lawful (order m₂) u₂ w' n
            (any-perm (is_foreign namespace) (orders m₂) ∙ any-foreign-values m₂ keyed) deleted,
      )
