-- ===== src/Sync/Syncers/Cluster.antt =====
-- The six synchronizers in a row, and a cluster that keeps their kinds apart.
use awi_catalyst_sdwan_opera.Base.{String, ◌≡◌, refl, ap, ◌∙◌, Option, List, [], ◌∷◌, ◌++◌}
use awi_catalyst_sdwan_opera.Base.Text.{Unicode}
use awi_catalyst_sdwan_opera.Exec.{Exec, ok, >>=-eq-ok}
use awi_catalyst_sdwan_opera.Api
use awi_catalyst_sdwan_opera.Kube.{K8sClient}
use awi_catalyst_sdwan_opera.Kube.Laws.{IsLawful, Preserves, >>=-Preserves}
use awi_catalyst_sdwan_opera.Awi.{AwiGrpcClient}
use awi_catalyst_sdwan_opera.Sync.{namespace}
use awi_catalyst_sdwan_opera.Sync.Distinct.{IsDistinct}
use awi_catalyst_sdwan_opera.Sync.Frame.{
  IsApart, IsApartAwi, instance_sync-Preserves, site_sync-Preserves, subnet_sync-Preserves,
}
use awi_catalyst_sdwan_opera.Sync.Kinds.{
  Orders, instance_sync, site_sync, subnet_sync, vpc_sync, vpn_sync,
}
use awi_catalyst_sdwan_opera.Sync.NetworkDomains.{network_domain_sync}
use awi_catalyst_sdwan_opera.Sync.Syncers.{run_syncer, sync, new_syncers}
use awi_catalyst_sdwan_opera.Sync.Syncers.Listed.{name_of}

module _ {W : Type 0} where
  sync-append :
      (ss ts : List (Exec W (Unit {0}))) (w v : W)
      → sync ss w ≡ (ok tt, v)
      → sync (ss ++ ts) w ≡ sync ts v
  unfolding sync run_syncer
  sync-append [] ts w v h = ap (sync ts) (ap (λ q. q.1) h)
  sync-append (s ∷ ss) ts w v h =
      let (_, w₁, ran, rest) = >>=-eq-ok (run_syncer s) (λ _. sync ss) w h in
      rw (ap (λ q. q.0) ran, ap (λ q. q.1) ran) (sync-append ss ts w₁ v rest)

  module _ {X : Type 0} (find : W → String → Option X) where
    abbrev AllPreserve : List (Exec W (Unit {0})) → Type 0
    AllPreserve [] = Unit
    AllPreserve (s ∷ ss) = Preserves find s × AllPreserve ss

    sync-Preserves : (ss : List (Exec W (Unit {0}))) → AllPreserve ss → Preserves find (sync ss)
    unfolding sync run_syncer
    sync-Preserves [] p = λ w n. refl
    sync-Preserves (s ∷ ss) p =
        >>=-Preserves find (run_syncer s) (λ _. sync ss) p.0 (λ _. sync-Preserves ss p.1)

module _ {W : Type 0} (k8s : K8sClient W) (awi : AwiGrpcClient W) where
  -- The kinds that no network domain is made of.
  pub record IsBystander {X : Type 0} (find : W → String → Option X) : Type 0 where
    pub instances_apart : IsApart find k8s.instances
    pub sites_apart : IsApart find k8s.sites
    pub subnets_apart : IsApart find k8s.subnets
    pub awi_apart : IsApartAwi find awi

  -- A cluster that keeps VPCs, VPNs and network domains apart from each other and from the rest.
  pub record IsCluster (vpcs : W → String → Option Api.Vpc) (vpns : W → String → Option Api.Vpn)
      (domains : W → String → Option Api.NetworkDomain) : Type 0 where
    pub vpcs_lawful : IsLawful namespace k8s.vpcs vpcs
    pub vpns_lawful : IsLawful namespace k8s.vpns vpns
    pub domains_lawful : IsLawful namespace k8s.network_domains domains
    pub vpcs_bystander : IsBystander vpcs
    pub vpns_bystander : IsBystander vpns
    pub domains_bystander : IsBystander domains
    pub vpcs_vpns : IsApart vpcs k8s.vpns
    pub vpcs_domains : IsApart vpcs k8s.network_domains
    pub vpns_vpcs : IsApart vpns k8s.vpcs
    pub vpns_domains : IsApart vpns k8s.network_domains
    pub domains_vpcs : IsApart domains k8s.vpcs
    pub domains_vpns : IsApart domains k8s.vpns
    -- A list answers, with no two objects of one name.
    pub vpcs_distinct :
        (w v : W) (l : List Api.Vpc)
        → k8s.vpcs.list_in namespace w ≡ (ok l, v)
        → IsDistinct name_of l
    pub vpns_distinct :
        (w v : W) (l : List Api.Vpn)
        → k8s.vpns.list_in namespace w ≡ (ok l, v)
        → IsDistinct name_of l

module _ {W : Type 0} (k8s : K8sClient W) (awi : AwiGrpcClient W) (u : Unicode)
    (orders : Orders) where
  -- The synchronizers that run before that of the VPCs.
  abbrev pub earlier_syncers : List (Exec W (Unit {0}))
  earlier_syncers =
      instance_sync k8s awi u orders
      ∷ site_sync k8s awi u orders
      ∷ subnet_sync k8s awi u orders
      ∷ []

  pub earlier-Preserves :
      {X : Type 0} (find : W → String → Option X)
      → IsBystander k8s awi find
      → Preserves find (sync earlier_syncers)
  earlier-Preserves find b = sync-Preserves find earlier_syncers (
    instance_sync-Preserves find k8s awi b.awi_apart u orders b.instances_apart,
    (
      site_sync-Preserves find k8s awi b.awi_apart u orders b.sites_apart,
      (subnet_sync-Preserves find k8s awi b.awi_apart u orders b.subnets_apart, tt),
    ),
  )

  pub round_runs :
      (w w₁ w₂ w₃ w' : W)
      → sync earlier_syncers w ≡ (ok tt, w₁)
      → vpc_sync k8s awi u orders w₁ ≡ (ok tt, w₂)
      → vpn_sync k8s awi u orders w₂ ≡ (ok tt, w₃)
      → network_domain_sync k8s u orders.network_domains w₃ ≡ (ok tt, w')
      → sync (new_syncers k8s awi u orders) w ≡ (ok tt, w')
  unfolding new_syncers sync run_syncer
  round_runs w w₁ w₂ w₃ w' h₁ h₂ h₃ h₄ =
      sync-append earlier_syncers
        (vpc_sync k8s awi u orders
          ∷ vpn_sync k8s awi u orders
          ∷ network_domain_sync k8s u orders.network_domains
          ∷ [])
        w w₁ h₁
      ∙ rw (h₂, h₃, h₄) refl
