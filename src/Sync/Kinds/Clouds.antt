-- ===== src/Sync/Kinds/Clouds.antt =====
-- What the loops over the clouds collect.
use awi_catalyst_sdwan_opera.Base.{String, ◌≡◌, refl, Option, List, [], ◌∷◌, ◌++◌, map, arith}
use awi_catalyst_sdwan_opera.Exec.{ok, >>=-eq-ok}
use awi_catalyst_sdwan_opera.Pb
use awi_catalyst_sdwan_opera.Kube.Laws.{Preserves, >>=-Preserves}
use awi_catalyst_sdwan_opera.Awi.{AwiGrpcClient, list_vpcs, list_instances, list_subnets}
use awi_catalyst_sdwan_opera.Sync.{supported_clouds}
use awi_catalyst_sdwan_opera.Sync.Kinds.{
  InstanceWithProvider, SubnetWithProvider, collect_instances, collect_subnets, collect_vpcs,
}

-- The loops over the clouds change nothing that the list calls do not change.
module _ {W X : Type 0} (find : W → String → Option X) (awi : AwiGrpcClient W) where
  pub collect_instances-Preserves :
      ((cloud : String) → Preserves find (list_instances awi cloud))
      → (clouds : List String) (existing : List InstanceWithProvider)
      → Preserves find (collect_instances awi clouds existing)
  unfolding collect_instances
  collect_instances-Preserves p [] existing = λ w n. refl
  collect_instances-Preserves p (cloud ∷ clouds) existing =
      >>=-Preserves find (list_instances awi cloud) _ (p cloud)
        (λ found. collect_instances-Preserves p clouds _)

  pub collect_subnets-Preserves :
      ((cloud : String) → Preserves find (list_subnets awi cloud))
      → (clouds : List String) (existing : List SubnetWithProvider)
      → Preserves find (collect_subnets awi clouds existing)
  unfolding collect_subnets
  collect_subnets-Preserves p [] existing = λ w n. refl
  collect_subnets-Preserves p (cloud ∷ clouds) existing =
      >>=-Preserves find (list_subnets awi cloud) _ (p cloud)
        (λ found. collect_subnets-Preserves p clouds _)

  pub collect_vpcs-Preserves :
      ((cloud : String) → Preserves find (list_vpcs awi cloud))
      → (clouds : List String) (existing : List Pb.Vpc)
      → Preserves find (collect_vpcs awi clouds existing)
  unfolding collect_vpcs
  collect_vpcs-Preserves p [] existing = λ w n. refl
  collect_vpcs-Preserves p (cloud ∷ clouds) existing =
      >>=-Preserves find (list_vpcs awi cloud) _ (p cloud)
        (λ found. collect_vpcs-Preserves p clouds _)

-- What the clouds reported, each resource with its cloud.
abbrev pub tag_instances : String → List Pb.Instance → List InstanceWithProvider
tag_instances cloud = map (λ i. record { instance_message = i; provider = cloud })

abbrev pub tag_subnets : String → List Pb.Subnet → List SubnetWithProvider
tag_subnets cloud = map (λ s. record { subnet = s; provider = cloud })

module _ {W : Type 0} (awi : AwiGrpcClient W) where
  pub collect_instances-eq-ok :
      (w v : W) (existing : List InstanceWithProvider)
      → collect_instances awi supported_clouds [] w ≡ (ok existing, v)
      → (aws : List Pb.Instance) × (gcp : List Pb.Instance) × (w₁ : W) × (list_instances awi "AWS" w
          ≡ (ok aws, w₁))
        × (list_instances awi "GCP" w₁ ≡ (ok gcp, v))
        × (existing ≡ tag_instances "AWS" aws ++ tag_instances "GCP" gcp)
  unfolding collect_instances
  collect_instances-eq-ok w v existing h =
      let (aws, w₁, from_aws, h₁) = >>=-eq-ok (list_instances awi "AWS") _ w h in
      let (gcp, w₂, from_gcp, h₂) = >>=-eq-ok (list_instances awi "GCP") _ w₁ h₁ in
      (aws, gcp, w₁, from_aws, ground (arith, from_gcp, h₂), ground (arith, h₂))

  pub collect_subnets-eq-ok :
      (w v : W) (existing : List SubnetWithProvider)
      → collect_subnets awi supported_clouds [] w ≡ (ok existing, v)
      → (aws : List Pb.Subnet) × (gcp : List Pb.Subnet) × (w₁ : W) × (list_subnets awi "AWS" w
          ≡ (ok aws, w₁))
        × (list_subnets awi "GCP" w₁ ≡ (ok gcp, v))
        × (existing ≡ tag_subnets "AWS" aws ++ tag_subnets "GCP" gcp)
  unfolding collect_subnets
  collect_subnets-eq-ok w v existing h =
      let (aws, w₁, from_aws, h₁) = >>=-eq-ok (list_subnets awi "AWS") _ w h in
      let (gcp, w₂, from_gcp, h₂) = >>=-eq-ok (list_subnets awi "GCP") _ w₁ h₁ in
      (aws, gcp, w₁, from_aws, ground (arith, from_gcp, h₂), ground (arith, h₂))

  pub collect_vpcs-eq-ok :
      (w v : W) (existing : List Pb.Vpc)
      → collect_vpcs awi supported_clouds [] w ≡ (ok existing, v)
      → (aws : List Pb.Vpc) × (gcp : List Pb.Vpc) × (w₁ : W) × (list_vpcs awi "AWS" w
          ≡ (ok aws, w₁))
        × (list_vpcs awi "GCP" w₁ ≡ (ok gcp, v))
        × (existing ≡ aws ++ gcp)
  unfolding collect_vpcs
  collect_vpcs-eq-ok w v existing h =
      let (aws, w₁, from_aws, h₁) = >>=-eq-ok (list_vpcs awi "AWS") _ w h in
      let (gcp, w₂, from_gcp, h₂) = >>=-eq-ok (list_vpcs awi "GCP") _ w₁ h₁ in
      (aws, gcp, w₁, from_aws, ground (arith, from_gcp, h₂), ground (arith, h₂))
