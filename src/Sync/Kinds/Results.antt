-- ===== src/Sync/Kinds/Results.antt =====
-- What the five copying synchronizers do to the stored objects of their kind.
use awi_catalyst_sdwan_opera.Base.{String, ◌≡◌, refl, ap, subst, ◌∙◌, Option, List, [], ◌++◌}
use awi_catalyst_sdwan_opera.Base.Dict.{Dict}
use awi_catalyst_sdwan_opera.Base.Text.{Unicode}
use awi_catalyst_sdwan_opera.Exec.{Exec, ok, ◌>>=◌, >>=-eq-ok}
use awi_catalyst_sdwan_opera.Pb
use awi_catalyst_sdwan_opera.Api
use awi_catalyst_sdwan_opera.Api.{Resource}
use awi_catalyst_sdwan_opera.Kube.{Client, K8sClient}
use awi_catalyst_sdwan_opera.Kube.Laws.{IsLawful, Preserves, preserved}
use awi_catalyst_sdwan_opera.Awi.{
  AwiGrpcClient, list_vpcs, list_instances, list_sites, list_subnets, list_vpns,
}
use awi_catalyst_sdwan_opera.Sync.{namespace, supported_clouds, mirror}
use awi_catalyst_sdwan_opera.Sync.Keyed.{IsOrder}
use awi_catalyst_sdwan_opera.Sync.Kinds.Clouds.{
  collect_instances-Preserves, collect_subnets-Preserves, collect_vpcs-Preserves,
  collect_instances-eq-ok, collect_subnets-eq-ok, collect_vpcs-eq-ok, tag_instances, tag_subnets,
}
use awi_catalyst_sdwan_opera.Sync.Creation.{find_by, IsBuild}
use awi_catalyst_sdwan_opera.Sync.Mirror.{mirrored, mirror-find}
use awi_catalyst_sdwan_opera.Sync.Kinds.{
  Orders, get_instance_crd_name, get_site_crd_name, get_subnet_crd_name, get_vpc_crd_name,
  get_vpn_crd_name, new_instance_crd, new_site_crd, new_subnet_crd, new_vpc_crd, new_vpn_crd,
  collect_instances, collect_subnets, collect_vpcs, instance_sync, site_sync, subnet_sync, vpc_sync,
  vpn_sync,
}

-- After `w'` the kind has exactly the objects of the resources `rs`, the old ones where there were.
abbrev pub Mirrors :
    {W S R : Type 0}
    → (W → String → Option (Resource S))
    → (R → String)
    → (R → Resource S)
    → List R
    → W
    → W
    → Type 0
Mirrors find key build rs w w' =
    (n : String) → find w' n ≡ mirrored build (find_by key n rs) (find w n)

module _ {W S R : Type 0} (client : Client W (Resource S)) (find : W → String → Option (Resource S))
    (lawful : IsLawful namespace client find) (order : Dict (Resource S) → List (Resource S))
    (orders : IsOrder order) (key : R → String) (build : R → Resource S)
    (builds : IsBuild key build) where
  fetch_mirror-Mirrors :
      (fetch : Exec W (List R)) (w w' : W)
      → Preserves find fetch
      → (fetch >>= mirror client order key build) w ≡ (ok tt, w')
      → (rs : List R) × (v : W) × (fetch w ≡ (ok rs, v)) × Mirrors find key build rs w w'
  fetch_mirror-Mirrors fetch w w' frame h =
      let (rs, v, fetched, mirroring) = >>=-eq-ok fetch (mirror client order key build) w h in
      (
        rs,
        v,
        fetched,
        λ n.
            mirror-find client find lawful order orders key build builds rs v w' n mirroring
            ∙ ap (mirrored build (find_by key n rs)) (preserved find fetch frame n fetched),
      )

module _ {W : Type 0} (k8s : K8sClient W) (awi : AwiGrpcClient W) (u : Unicode)
    (orders : Orders) where
  -- Where AWI's list calls touch no object of the kind, a successful synchronization has listed
  -- the instances of AWS and then of GCP. It leaves exactly their objects, the old ones unchanged
  -- where there were.
  pub instance_sync-Mirrors :
      (find : W → String → Option Api.Instance)
      → IsLawful namespace k8s.instances find
      → IsOrder orders.instances
      → ((cloud : String) → Preserves find (list_instances awi cloud))
      → (w w' : W) → instance_sync k8s awi u orders w ≡ (ok tt, w')
      → (aws : List Pb.Instance) × (gcp : List Pb.Instance) × (w₁ : W) × (w₂ : W) × (list_instances
            awi "AWS" w
          ≡ (ok aws, w₁))
        × (list_instances awi "GCP" w₁ ≡ (ok gcp, w₂))
        × Mirrors find
            (get_instance_crd_name u)
            (new_instance_crd u)
            (tag_instances "AWS" aws ++ tag_instances "GCP" gcp)
            w
            w'
  unfolding instance_sync
  instance_sync-Mirrors find lawful ordered frame w w' h =
      let (existing, v, fetched, mirrors) =
        fetch_mirror-Mirrors k8s.instances find lawful orders.instances ordered
          (get_instance_crd_name u) (new_instance_crd u)
          (record { named = λ r. refl; local = λ r. refl })
          (collect_instances awi supported_clouds []) w w'
          (collect_instances-Preserves find awi frame supported_clouds []) h in
      let (aws, gcp, w₁, from_aws, from_gcp, e) =
        collect_instances-eq-ok awi w v existing fetched in
      (
        aws,
        gcp,
        w₁,
        v,
        from_aws,
        from_gcp,
        subst (λ rs. Mirrors find (get_instance_crd_name u) (new_instance_crd u) rs w w') e mirrors,
      )

  -- Where AWI's list calls touch no object of the kind, a successful synchronization has listed
  -- the subnets of AWS and then of GCP. It leaves exactly their objects, the old ones unchanged
  -- where there were.
  pub subnet_sync-Mirrors :
      (find : W → String → Option Api.Subnet)
      → IsLawful namespace k8s.subnets find
      → IsOrder orders.subnets
      → ((cloud : String) → Preserves find (list_subnets awi cloud))
      → (w w' : W) → subnet_sync k8s awi u orders w ≡ (ok tt, w')
      → (aws : List Pb.Subnet) × (gcp : List Pb.Subnet) × (w₁ : W) × (w₂ : W) × (list_subnets awi
            "AWS" w
          ≡ (ok aws, w₁))
        × (list_subnets awi "GCP" w₁ ≡ (ok gcp, w₂))
        × Mirrors find
            (get_subnet_crd_name u)
            (new_subnet_crd u)
            (tag_subnets "AWS" aws ++ tag_subnets "GCP" gcp)
            w
            w'
  unfolding subnet_sync
  subnet_sync-Mirrors find lawful ordered frame w w' h =
      let (existing, v, fetched, mirrors) =
        fetch_mirror-Mirrors k8s.subnets find lawful orders.subnets ordered (get_subnet_crd_name u)
          (new_subnet_crd u) (record { named = λ r. refl; local = λ r. refl })
          (collect_subnets awi supported_clouds []) w w'
          (collect_subnets-Preserves find awi frame supported_clouds []) h in
      let (aws, gcp, w₁, from_aws, from_gcp, e) = collect_subnets-eq-ok awi w v existing fetched in
      (
        aws,
        gcp,
        w₁,
        v,
        from_aws,
        from_gcp,
        subst (λ rs. Mirrors find (get_subnet_crd_name u) (new_subnet_crd u) rs w w') e mirrors,
      )

  -- Where AWI's list calls touch no object of the kind, a successful synchronization has listed
  -- the VPCs of AWS and then of GCP. It leaves exactly their objects, the old ones unchanged
  -- where there were.
  pub vpc_sync-Mirrors :
      (find : W → String → Option Api.Vpc)
      → IsLawful namespace k8s.vpcs find
      → IsOrder orders.vpcs
      → ((cloud : String) → Preserves find (list_vpcs awi cloud))
      → (w w' : W) → vpc_sync k8s awi u orders w ≡ (ok tt, w')
      → (aws : List Pb.Vpc) × (gcp : List Pb.Vpc) × (w₁ : W) × (w₂ : W) × (list_vpcs awi "AWS" w
          ≡ (ok aws, w₁))
        × (list_vpcs awi "GCP" w₁ ≡ (ok gcp, w₂))
        × Mirrors find (get_vpc_crd_name u) (new_vpc_crd u) (aws ++ gcp) w w'
  unfolding vpc_sync
  vpc_sync-Mirrors find lawful ordered frame w w' h =
      let (existing, v, fetched, mirrors) =
        fetch_mirror-Mirrors k8s.vpcs find lawful orders.vpcs ordered (get_vpc_crd_name u)
          (new_vpc_crd u) (record { named = λ r. refl; local = λ r. refl })
          (collect_vpcs awi supported_clouds []) w w'
          (collect_vpcs-Preserves find awi frame supported_clouds []) h in
      let (aws, gcp, w₁, from_aws, from_gcp, e) = collect_vpcs-eq-ok awi w v existing fetched in
      (
        aws,
        gcp,
        w₁,
        v,
        from_aws,
        from_gcp,
        subst (λ rs. Mirrors find (get_vpc_crd_name u) (new_vpc_crd u) rs w w') e mirrors,
      )

  -- Where AWI's list calls touch no object of the kind, a successful synchronization has listed
  -- the sites. It leaves exactly their objects, the old ones unchanged where there were.
  pub site_sync-Mirrors :
      (find : W → String → Option Api.Site)
      → IsLawful namespace k8s.sites find
      → IsOrder orders.sites
      → Preserves find (list_sites awi)
      → (w w' : W) → site_sync k8s awi u orders w ≡ (ok tt, w')
      → (existing : List Pb.SiteDetail) × (v : W) × (list_sites awi w ≡ (ok existing, v))
        × Mirrors find (get_site_crd_name u) (new_site_crd u) existing w w'
  unfolding site_sync
  site_sync-Mirrors find lawful ordered frame w w' h =
      fetch_mirror-Mirrors k8s.sites find lawful orders.sites ordered (get_site_crd_name u)
        (new_site_crd u) (record { named = λ r. refl; local = λ r. refl }) (list_sites awi) w w'
        frame h

  -- Where AWI's list calls touch no object of the kind, a successful synchronization has listed
  -- the VPNs. It leaves exactly their objects, the old ones unchanged where there were.
  pub vpn_sync-Mirrors :
      (find : W → String → Option Api.Vpn)
      → IsLawful namespace k8s.vpns find
      → IsOrder orders.vpns
      → Preserves find (list_vpns awi)
      → (w w' : W) → vpn_sync k8s awi u orders w ≡ (ok tt, w')
      → (existing : List Pb.Vpn) × (v : W) × (list_vpns awi w ≡ (ok existing, v))
        × Mirrors find (get_vpn_crd_name) (new_vpn_crd) existing w w'
  unfolding vpn_sync
  vpn_sync-Mirrors find lawful ordered frame w w' h =
      fetch_mirror-Mirrors k8s.vpns find lawful orders.vpns ordered (get_vpn_crd_name) (new_vpn_crd)
        (record { named = λ r. refl; local = λ r. refl }) (list_vpns awi) w w' frame h
