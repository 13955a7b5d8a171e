-- ===== src/Sync/Frame.antt =====
-- What the synchronizers of some kinds leave of the objects of another kind, whatever they return.
use awi_catalyst_sdwan_opera.Base.{
  String, refl, Option, List, [], ◌∷◌, Option-cases, Bool-cases, inl, inr,
}
use awi_catalyst_sdwan_opera.Base.Dict.{Dict, lookup, erase}
use awi_catalyst_sdwan_opera.Base.Text.{Unicode}
use awi_catalyst_sdwan_opera.Api
use awi_catalyst_sdwan_opera.Api.{Resource}
use awi_catalyst_sdwan_opera.Kube.{Client, K8sClient}
use awi_catalyst_sdwan_opera.Kube.Laws.{Preserves, >>=-Preserves}
use awi_catalyst_sdwan_opera.Awi.{
  AwiGrpcClient, list_vpcs, list_instances, list_sites, list_subnets, list_vpns,
}
use awi_catalyst_sdwan_opera.Sync.{
  namespace, supported_clouds, index_by_name, create_missing, delete_all, mirror,
}
use awi_catalyst_sdwan_opera.Sync.Kinds.{
  Orders, instance_sync, site_sync, subnet_sync, vpc_sync, vpn_sync,
}
use awi_catalyst_sdwan_opera.Sync.Kinds.Clouds.{
  collect_instances-Preserves, collect_subnets-Preserves, collect_vpcs-Preserves,
}
use awi_catalyst_sdwan_opera.Sync.NetworkDomains.{
  get_vpc_network_domain_crd_name, get_vpn_network_domain_crd_name, vpc_network_domain,
  vpn_network_domain, is_skipped, delete_discovered, network_domain_sync,
}

-- The calls of the client touch nothing of what `find` shows.
pub record IsApart {W S X : Type 0} (find : W → String → Option X) (client : Client W (Resource S))
    : Type 0 where
  pub list_apart : Preserves find (client.list_in namespace)
  pub create_apart : (x : Resource S) → Preserves find (client.create x)
  pub delete_apart : (x : Resource S) → Preserves find (client.delete x)

-- Nor do the list calls of AWI.
pub record IsApartAwi {W X : Type 0} (find : W → String → Option X) (awi : AwiGrpcClient W)
    : Type 0 where
  pub instances_apart : (cloud : String) → Preserves find (list_instances awi cloud)
  pub sites_apart : Preserves find (list_sites awi)
  pub subnets_apart : (cloud : String) → Preserves find (list_subnets awi cloud)
  pub vpcs_apart : (cloud : String) → Preserves find (list_vpcs awi cloud)
  pub vpns_apart : Preserves find (list_vpns awi)

module _ {W S X : Type 0} (find : W → String → Option X) (client : Client W (Resource S))
    (apart : IsApart find client) where
  delete_all-Preserves : (xs : List (Resource S)) → Preserves find (delete_all client xs)
  unfolding delete_all
  delete_all-Preserves [] = λ w n. refl
  delete_all-Preserves (x ∷ xs) =
      >>=-Preserves find (client.delete x) (λ _. delete_all client xs) (apart.delete_apart x)
        (λ _. delete_all-Preserves xs)

  module _ {R : Type 0} (key : R → String) (build : R → Resource S) where
    create_missing-Preserves :
        (rs : List R) (crds : Dict (Resource S))
        → Preserves find (create_missing client key build rs crds)
    unfolding create_missing
    create_missing-Preserves [] crds = λ w n. refl
    create_missing-Preserves (r ∷ rs) crds = elim (Option-cases (lookup (key r) crds)) [
      | inl absent ↦
          rw (absent, create_missing)
            (>>=-Preserves find (client.create (build r))
              (λ _. create_missing client key build rs crds) (apart.create_apart (build r))
              (λ _. create_missing-Preserves rs crds))
      | inr (x, present) ↦
          rw (present, create_missing) (create_missing-Preserves rs (erase (key r) crds))
    ]

    mirror-Preserves :
        (order : Dict (Resource S) → List (Resource S)) (rs : List R)
        → Preserves find (mirror client order key build rs)
    unfolding mirror
    mirror-Preserves order rs =
        >>=-Preserves find (client.list_in namespace) _ apart.list_apart λ items.
          >>=-Preserves find (create_missing client key build rs (index_by_name items)) _
            (create_missing-Preserves rs (index_by_name items))
            λ crds. delete_all-Preserves (order crds)

delete_discovered-Preserves :
    {W X : Type 0} (find : W → String → Option X) (client : Client W Api.NetworkDomain)
    (apart : IsApart find client) (xs : List Api.NetworkDomain)
    → Preserves find (delete_discovered client xs)
unfolding delete_discovered
delete_discovered-Preserves find client apart [] = λ w n. refl
delete_discovered-Preserves find client apart (x ∷ xs) =
    elim (Bool-cases (is_skipped x.metadata.labels)) [
      | inl skipped ↦
          rw (skipped, delete_discovered) (delete_discovered-Preserves find client apart xs)
      | inr taken ↦
          rw (taken, delete_discovered)
            (>>=-Preserves find (client.delete x) (λ _. delete_discovered client xs)
              (apart.delete_apart x) (λ _. delete_discovered-Preserves find client apart xs))
    ]

module _ {W X : Type 0} (find : W → String → Option X) (k8s : K8sClient W) (awi : AwiGrpcClient W)
    (calls : IsApartAwi find awi) (u : Unicode) (orders : Orders) where
  pub instance_sync-Preserves :
      IsApart find k8s.instances → Preserves find (instance_sync k8s awi u orders)
  unfolding instance_sync
  instance_sync-Preserves apart =
      >>=-Preserves find _ _
        (collect_instances-Preserves find awi calls.instances_apart supported_clouds [])
        (mirror-Preserves find k8s.instances apart _ _ orders.instances)

  pub site_sync-Preserves : IsApart find k8s.sites → Preserves find (site_sync k8s awi u orders)
  unfolding site_sync
  site_sync-Preserves apart =
      >>=-Preserves find _ _ calls.sites_apart
        (mirror-Preserves find k8s.sites apart _ _ orders.sites)

  pub subnet_sync-Preserves :
      IsApart find k8s.subnets → Preserves find (subnet_sync k8s awi u orders)
  unfolding subnet_sync
  subnet_sync-Preserves apart =
      >>=-Preserves find _ _
        (collect_subnets-Preserves find awi calls.subnets_apart supported_clouds [])
        (mirror-Preserves find k8s.subnets apart _ _ orders.subnets)

  pub vpc_sync-Preserves : IsApart find k8s.vpcs → Preserves find (vpc_sync k8s awi u orders)
  unfolding vpc_sync
  vpc_sync-Preserves apart =
      >>=-Preserves find _ _ (collect_vpcs-Preserves find awi calls.vpcs_apart supported_clouds [])
        (mirror-Preserves find k8s.vpcs apart _ _ orders.vpcs)

  pub vpn_sync-Preserves : IsApart find k8s.vpns → Preserves find (vpn_sync k8s awi u orders)
  unfolding vpn_sync
  vpn_sync-Preserves apart =
      >>=-Preserves find _ _ calls.vpns_apart (mirror-Preserves find k8s.vpns apart _ _ orders.vpns)

module _ {W X : Type 0} (find : W → String → Option X) (k8s : K8sClient W) (u : Unicode)
    (order : Dict Api.NetworkDomain → List Api.NetworkDomain)
    (vpcs_frame : Preserves find (k8s.vpcs.list_in namespace))
    (vpns_frame : Preserves find (k8s.vpns.list_in namespace)) where
  pub network_domain_sync-Preserves :
      IsApart find k8s.network_domains → Preserves find (network_domain_sync k8s u order)
  unfolding network_domain_sync
  network_domain_sync-Preserves apart =
      let client = k8s.network_domains in
      >>=-Preserves find (k8s.vpcs.list_in namespace) _ vpcs_frame λ vpc_list.
        >>=-Preserves find (k8s.vpns.list_in namespace) _ vpns_frame λ vpn_list.
          >>=-Preserves find (client.list_in namespace) _ apart.list_apart λ existing.
            >>=-Preserves find
              (create_missing client (get_vpc_network_domain_crd_name u) (vpc_network_domain u)
                vpc_list (index_by_name existing))
              _ (create_missing-Preserves find client apart _ _ vpc_list (index_by_name existing))
              λ unseen.
                >>=-Preserves find
                  (create_missing client (get_vpn_network_domain_crd_name u) (vpn_network_domain u)
                    vpn_list unseen)
                  _ (create_missing-Preserves find client apart _ _ vpn_list unseen)
                  λ stale. delete_discovered-Preserves find client apart (order stale)
