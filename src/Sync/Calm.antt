-- ===== src/Sync/Calm.antt =====
-- The synchronizers do not panic.
use awi_catalyst_sdwan_opera.Base.{String, Bool-cases, inl, inr, Option-cases, List, [], ◌∷◌}
use awi_catalyst_sdwan_opera.Base.Dict.{Dict, lookup, erase}
use awi_catalyst_sdwan_opera.Base.Text.{Unicode}
use awi_catalyst_sdwan_opera.Exec.Calm.{IsCalm, pure-IsCalm, >>=-IsCalm, >>-IsCalm}
use awi_catalyst_sdwan_opera.Pb
use awi_catalyst_sdwan_opera.Api
use awi_catalyst_sdwan_opera.Api.{Resource}
use awi_catalyst_sdwan_opera.Kube.{Client, K8sClient}
use awi_catalyst_sdwan_opera.Kube.Calm.{IsCalmClient, IsCalmK8s}
use awi_catalyst_sdwan_opera.Awi.{
  AwiGrpcClient, list_vpcs, list_instances, list_sites, list_subnets, list_vpns,
}
use awi_catalyst_sdwan_opera.Awi.Calm.{IsCalmAwi}
use awi_catalyst_sdwan_opera.Sync.{namespace, supported_clouds, create_missing, delete_all, mirror}
use awi_catalyst_sdwan_opera.Sync.Kinds.{
  Orders, InstanceWithProvider, SubnetWithProvider, collect_instances, collect_subnets,
  collect_vpcs, instance_sync, site_sync, subnet_sync, vpc_sync, vpn_sync,
}
use awi_catalyst_sdwan_opera.Sync.NetworkDomains.{
  is_skipped, delete_discovered, network_domain_sync,
}
use awi_catalyst_sdwan_opera.Sync.Syncers.{new_syncers}
use awi_catalyst_sdwan_opera.Sync.Syncers.Rounds.{NoPanic}

module _ {W S R : Type 0} (client : Client W (Resource S)) (calm : IsCalmClient client)
    (key : R → String) (build : R → Resource S) where
  pub create_missing-IsCalm :
      (rs : List R) (crds : Dict (Resource S)) → IsCalm (create_missing client key build rs crds)
  unfolding create_missing
  create_missing-IsCalm [] crds = pure-IsCalm crds
  create_missing-IsCalm (r ∷ rs) crds = elim (Option-cases (lookup (key r) crds)) [
    | inl absent ↦
        rw (absent, create_missing)
          (>>-IsCalm (client.create (build r)) (create_missing client key build rs crds)
            (calm.create_calm (build r)) (create_missing-IsCalm rs crds))
    | inr (x, present) ↦
        rw (present, create_missing) (create_missing-IsCalm rs (erase (key r) crds))
  ]

  delete_all-IsCalm : (xs : List (Resource S)) → IsCalm (delete_all client xs)
  unfolding delete_all
  delete_all-IsCalm [] = pure-IsCalm tt
  delete_all-IsCalm (x ∷ xs) =
      >>-IsCalm (client.delete x) (delete_all client xs) (calm.delete_calm x) (delete_all-IsCalm xs)

  mirror-IsCalm :
      (order : Dict (Resource S) → List (Resource S)) (rs : List R)
      → IsCalm (mirror client order key build rs)
  unfolding mirror
  mirror-IsCalm order rs =
      >>=-IsCalm (client.list_in namespace) _ (calm.list_in_calm namespace) λ items.
        >>=-IsCalm (create_missing client key build rs _) _ (create_missing-IsCalm rs _)
          λ crds. delete_all-IsCalm (order crds)

delete_discovered-IsCalm :
    {W : Type 0} (client : Client W Api.NetworkDomain) (calm : IsCalmClient client)
    (xs : List Api.NetworkDomain)
    → IsCalm (delete_discovered client xs)
unfolding delete_discovered
delete_discovered-IsCalm client calm [] = pure-IsCalm tt
delete_discovered-IsCalm client calm (nd ∷ xs) = elim (Bool-cases (is_skipped nd.metadata.labels)) [
  | inl skipped ↦ rw (skipped, delete_discovered) (delete_discovered-IsCalm client calm xs)
  | inr found ↦
      rw (found, delete_discovered)
        (>>-IsCalm (client.delete nd) (delete_discovered client xs) (calm.delete_calm nd)
          (delete_discovered-IsCalm client calm xs))
]

module _ {W : Type 0} (awi : AwiGrpcClient W) (calm : IsCalmAwi awi) where
  collect_instances-IsCalm :
      (clouds : List String) (xs : List InstanceWithProvider)
      → IsCalm (collect_instances awi clouds xs)
  unfolding collect_instances
  collect_instances-IsCalm [] xs = pure-IsCalm xs
  collect_instances-IsCalm (c ∷ cs) xs =
      >>=-IsCalm (list_instances awi c) _ (calm.instances_calm c)
        λ found. collect_instances-IsCalm cs _

  collect_subnets-IsCalm :
      (clouds : List String) (xs : List SubnetWithProvider) → IsCalm (collect_subnets awi clouds xs)
  unfolding collect_subnets
  collect_subnets-IsCalm [] xs = pure-IsCalm xs
  collect_subnets-IsCalm (c ∷ cs) xs =
      >>=-IsCalm (list_subnets awi c) _ (calm.subnets_calm c) λ found. collect_subnets-IsCalm cs _

  collect_vpcs-IsCalm :
      (clouds : List String) (xs : List Pb.Vpc) → IsCalm (collect_vpcs awi clouds xs)
  unfolding collect_vpcs
  collect_vpcs-IsCalm [] xs = pure-IsCalm xs
  collect_vpcs-IsCalm (c ∷ cs) xs =
      >>=-IsCalm (list_vpcs awi c) _ (calm.vpcs_calm c) λ found. collect_vpcs-IsCalm cs _

module _ {W : Type 0} (k8s : K8sClient W) (awi : AwiGrpcClient W) (u : Unicode) (orders : Orders)
    (kube_calm : IsCalmK8s k8s) (calm : IsCalmAwi awi) where
  network_domain_sync-IsCalm : IsCalm (network_domain_sync k8s u orders.network_domains)
  unfolding network_domain_sync
  network_domain_sync-IsCalm =
      let nds = k8s.network_domains in
      >>=-IsCalm (k8s.vpcs.list_in namespace) _ (kube_calm.vpcs.list_in_calm namespace) λ vpcs.
        >>=-IsCalm (k8s.vpns.list_in namespace) _ (kube_calm.vpns.list_in_calm namespace) λ vpns.
          >>=-IsCalm (nds.list_in namespace) _ (kube_calm.network_domains.list_in_calm namespace)
            λ existing.
              >>=-IsCalm (create_missing nds _ _ vpcs _) _
                (create_missing-IsCalm nds kube_calm.network_domains _ _ vpcs _)
                λ unseen.
                  >>=-IsCalm (create_missing nds _ _ vpns unseen) _
                    (create_missing-IsCalm nds kube_calm.network_domains _ _ vpns unseen)
                    λ stale.
                      delete_discovered-IsCalm nds kube_calm.network_domains
                        (orders.network_domains stale)

  pub new_syncers-NoPanic : NoPanic (new_syncers k8s awi u orders)
  unfolding new_syncers instance_sync site_sync subnet_sync vpc_sync vpn_sync
  new_syncers-NoPanic =
      let instances =
        >>=-IsCalm (collect_instances awi supported_clouds []) _
          (collect_instances-IsCalm awi calm supported_clouds [])
          (mirror-IsCalm k8s.instances kube_calm.instances _ _ orders.instances) in
      let sites =
        >>=-IsCalm (list_sites awi) _ calm.sites_calm
          (mirror-IsCalm k8s.sites kube_calm.sites _ _ orders.sites) in
      let subnets =
        >>=-IsCalm (collect_subnets awi supported_clouds []) _
          (collect_subnets-IsCalm awi calm supported_clouds [])
          (mirror-IsCalm k8s.subnets kube_calm.subnets _ _ orders.subnets) in
      let vpcs =
        >>=-IsCalm (collect_vpcs awi supported_clouds []) _
          (collect_vpcs-IsCalm awi calm supported_clouds [])
          (mirror-IsCalm k8s.vpcs kube_calm.vpcs _ _ orders.vpcs) in
      let vpns =
        >>=-IsCalm (list_vpns awi) _ calm.vpns_calm
          (mirror-IsCalm k8s.vpns kube_calm.vpns _ _ orders.vpns) in
      (instances, (sites, (subnets, (vpcs, (vpns, (network_domain_sync-IsCalm, tt))))))
