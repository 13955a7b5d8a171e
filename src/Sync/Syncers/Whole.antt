-- ===== src/Sync/Syncers/Whole.antt =====
-- One whole round: the six synchronizers in a row, over one cluster.
use awi_catalyst_sdwan_opera.Base.{String, ◌≡◌, sym, ap, ◌∙◌, Option, List, ◌++◌}
use awi_catalyst_sdwan_opera.Base.Text.{Unicode}
use awi_catalyst_sdwan_opera.Exec.{Exec, ok, >>=-eq-ok}
use awi_catalyst_sdwan_opera.Pb
use awi_catalyst_sdwan_opera.Api
use awi_catalyst_sdwan_opera.Kube.{K8sClient}
use awi_catalyst_sdwan_opera.Kube.Laws.{Preserves, preserved}
use awi_catalyst_sdwan_opera.Awi.{AwiGrpcClient, list_vpcs, list_vpns}
use awi_catalyst_sdwan_opera.Sync.{namespace}
use awi_catalyst_sdwan_opera.Sync.Keyed.{IsOrder}
use awi_catalyst_sdwan_opera.Sync.Creation.{find_by}
use awi_catalyst_sdwan_opera.Sync.Mirror.{mirrored}
use awi_catalyst_sdwan_opera.Sync.Frame.{
  vpc_sync-Preserves, vpn_sync-Preserves, network_domain_sync-Preserves,
}
use awi_catalyst_sdwan_opera.Sync.Kinds.{
  Orders, get_vpc_crd_name, get_vpn_crd_name, new_vpc_crd, new_vpn_crd, vpc_sync, vpn_sync,
}
use awi_catalyst_sdwan_opera.Sync.Kinds.Results.{Mirrors, vpc_sync-Mirrors, vpn_sync-Mirrors}
use awi_catalyst_sdwan_opera.Sync.NetworkDomains.{network_domain_sync}
use awi_catalyst_sdwan_opera.Sync.NetworkDomains.Result.{network_domain_sync-find, domain_after}
use awi_catalyst_sdwan_opera.Sync.Syncers.{sync, new_syncers}
use awi_catalyst_sdwan_opera.Sync.Syncers.Cluster.{
  IsCluster, IsBystander, earlier_syncers, earlier-Preserves, round_runs,
}
use awi_catalyst_sdwan_opera.Sync.Syncers.Consistency.{AreConsistent, domains-AreConsistent}

module _ {W : Type 0} (k8s : K8sClient W) (awi : AwiGrpcClient W) (u : Unicode) (orders : Orders)
    (vpcs : W → String → Option Api.Vpc) (vpns : W → String → Option Api.Vpn)
    (domains : W → String → Option Api.NetworkDomain)
    (c : IsCluster k8s awi vpcs vpns domains) where
  abbrev domain_sync : Exec W (Unit {0})
  domain_sync = network_domain_sync k8s u orders.network_domains

  -- What the synchronizers of the other kinds leave of each kind.
  vpcs_left_by_vpns : Preserves vpcs (vpn_sync k8s awi u orders)
  vpcs_left_by_vpns =
      vpn_sync-Preserves vpcs k8s awi c.vpcs_bystander.awi_apart u orders c.vpcs_vpns

  vpcs_left_by_domains : Preserves vpcs domain_sync
  vpcs_left_by_domains =
      network_domain_sync-Preserves vpcs k8s u orders.network_domains c.vpcs_lawful.list_keeps
        c.vpcs_vpns.list_apart c.vpcs_domains

  vpns_left_by_vpcs : Preserves vpns (vpc_sync k8s awi u orders)
  vpns_left_by_vpcs =
      vpc_sync-Preserves vpns k8s awi c.vpns_bystander.awi_apart u orders c.vpns_vpcs

  vpns_left_by_domains : Preserves vpns domain_sync
  vpns_left_by_domains =
      network_domain_sync-Preserves vpns k8s u orders.network_domains c.vpns_vpcs.list_apart
        c.vpns_lawful.list_keeps c.vpns_domains

  domains_left_by_vpcs : Preserves domains (vpc_sync k8s awi u orders)
  domains_left_by_vpcs =
      vpc_sync-Preserves domains k8s awi c.domains_bystander.awi_apart u orders c.domains_vpcs

  domains_left_by_vpns : Preserves domains (vpn_sync k8s awi u orders)
  domains_left_by_vpns =
      vpn_sync-Preserves domains k8s awi c.domains_bystander.awi_apart u orders c.domains_vpns

  module _ (w w₁ w₂ w₃ w' : W) (h₁ : sync (earlier_syncers k8s awi u orders) w ≡ (ok tt, w₁))
      (h₂ : vpc_sync k8s awi u orders w₁ ≡ (ok tt, w₂))
      (h₃ : vpn_sync k8s awi u orders w₂ ≡ (ok tt, w₃)) (h₄ : domain_sync w₃ ≡ (ok tt, w')) where
    left_by_earlier :
        {X : Type 0} (find : W → String → Option X)
        → IsBystander k8s awi find
        → (n : String) → find w₁ n ≡ find w n
    left_by_earlier find b n =
        preserved find (sync (earlier_syncers k8s awi u orders))
          (earlier-Preserves k8s awi u orders find b) n h₁

    vpcs_after : (n : String) → vpcs w' n ≡ vpcs w₂ n
    vpcs_after n =
        preserved vpcs domain_sync vpcs_left_by_domains n h₄
        ∙ preserved vpcs (vpn_sync k8s awi u orders) vpcs_left_by_vpns n h₃

    vpns_after : (n : String) → vpns w' n ≡ vpns w₃ n
    vpns_after n = preserved vpns domain_sync vpns_left_by_domains n h₄

    vpns_before : (n : String) → vpns w₂ n ≡ vpns w n
    vpns_before n =
        preserved vpns (vpc_sync k8s awi u orders) vpns_left_by_vpcs n h₂
        ∙ left_by_earlier vpns c.vpns_bystander n

    domains_before : (n : String) → domains w₃ n ≡ domains w n
    domains_before n =
        preserved domains (vpn_sync k8s awi u orders) domains_left_by_vpns n h₃
        ∙ preserved domains (vpc_sync k8s awi u orders) domains_left_by_vpcs n h₂
        ∙ left_by_earlier domains c.domains_bystander n

    domains_after_round :
        IsOrder orders.network_domains
        → AreConsistent u (vpcs w') (vpns w') (domains w) (domains w')
    unfolding network_domain_sync
    domains_after_round order =
        let (vpc_list, x₁, vpcs_listed, k₁) = >>=-eq-ok (k8s.vpcs.list_in namespace) _ w₃ h₄ in
        let (vpn_list, x₂, vpns_listed, k₂) = >>=-eq-ok (k8s.vpns.list_in namespace) _ x₁ k₁ in
        domains-AreConsistent u (vpcs w') (vpns w') (domains w) (domains w') vpc_list vpn_list
          (λ n.
            network_domain_sync-find k8s u orders.network_domains order domains c.domains_lawful
              c.domains_vpcs.list_apart c.domains_vpns.list_apart vpc_list vpn_list w₃ x₁ x₂ w' n
              vpcs_listed vpns_listed h₄
            ∙ ap (domain_after u (find_by _ n vpc_list) (find_by _ n vpn_list)) (domains_before n))
          (λ m.
            c.vpcs_lawful.list_ok w₃ x₁ vpc_list m vpcs_listed
            ∙ sym (preserved vpcs domain_sync vpcs_left_by_domains m h₄))
          (λ m.
            c.vpns_lawful.list_ok x₁ x₂ vpn_list m vpns_listed
            ∙ preserved vpns (k8s.vpcs.list_in namespace) c.vpns_vpcs.list_apart m vpcs_listed
            ∙ sym (vpns_after m))
          (c.vpcs_distinct w₃ x₁ vpc_list vpcs_listed) (c.vpns_distinct x₁ x₂ vpn_list vpns_listed)

    -- In a cluster that keeps the kinds apart and lists no two objects of one name: where the
    -- synchronizers of VPCs, VPNs and network domains succeed in a round, and none before them panics, the
    -- round ends with the VPCs and the VPNs that AWI reported in it, and with network domains that fit
    -- them. Each VPC and VPN object has its domain; each domain that is there carries a label map
    -- without `discovered: yes` or has such an object; and no domain that carried such a label map was
    -- changed or deleted.
    pub round-AreConsistent :
        IsOrder orders.vpcs
        → IsOrder orders.vpns
        → IsOrder orders.network_domains
        → (sync (new_syncers k8s awi u orders) w ≡ (ok tt, w'))
          × (aws : List Pb.Vpc) × (gcp : List Pb.Vpc) × (v₁ : W) × (v₂ : W) × (reported : List
              Pb.Vpn)
          × (v₃ : W) × (list_vpcs awi "AWS" w₁ ≡ (ok aws, v₁))
          × (list_vpcs awi "GCP" v₁ ≡ (ok gcp, v₂))
          × (list_vpns awi w₂ ≡ (ok reported, v₃))
          × Mirrors vpcs (get_vpc_crd_name u) (new_vpc_crd u) (aws ++ gcp) w w'
          × Mirrors vpns get_vpn_crd_name new_vpn_crd reported w w'
          × AreConsistent u (vpcs w') (vpns w') (domains w) (domains w')
    round-AreConsistent vpc_order vpn_order domain_order =
        let (aws, gcp, v₁, v₂, from_aws, from_gcp, vpc_mirror) =
          vpc_sync-Mirrors k8s awi u orders vpcs c.vpcs_lawful vpc_order
            c.vpcs_bystander.awi_apart.vpcs_apart w₁ w₂ h₂ in
        let (reported, v₃, listed, vpn_mirror) =
          vpn_sync-Mirrors k8s awi u orders vpns c.vpns_lawful vpn_order
            c.vpns_bystander.awi_apart.vpns_apart w₂ w₃ h₃ in
        (
          round_runs k8s awi u orders w w₁ w₂ w₃ w' h₁ h₂ h₃ h₄,
          aws,
          gcp,
          v₁,
          v₂,
          reported,
          v₃,
          from_aws,
          from_gcp,
          listed,
          λ n.
              vpcs_after n
              ∙ vpc_mirror n
              ∙ ap (mirrored (new_vpc_crd u) (find_by (get_vpc_crd_name u) n (aws ++ gcp)))
                  (left_by_earlier vpcs c.vpcs_bystander n),
          λ n.
              vpns_after n
              ∙ vpn_mirror n
              ∙ ap (mirrored new_vpn_crd (find_by get_vpn_crd_name n reported)) (vpns_before n),
          domains_after_round domain_order,
        )
