-- ===== src/Sync/Kinds/Success.antt =====
-- Where the synchronizers of instances and subnets succeed.
use awi_catalyst_sdwan_opera.Base.{
  String, ◌≡◌, ◌≢◌, refl, sym, ◌∙◌, subst, Option, List, ◌++◌, arith, eq_iff,
}
use awi_catalyst_sdwan_opera.Base.Separators.{Lacks}
use awi_catalyst_sdwan_opera.Base.Text.{Unicode, to_lower}
use awi_catalyst_sdwan_opera.Exec.{ok}
use awi_catalyst_sdwan_opera.Pb
use awi_catalyst_sdwan_opera.Api
use awi_catalyst_sdwan_opera.Kube.{K8sClient}
use awi_catalyst_sdwan_opera.Kube.Laws.{IsLawful}
use awi_catalyst_sdwan_opera.Awi.{AwiGrpcClient, list_instances, list_subnets}
use awi_catalyst_sdwan_opera.Sync.{namespace}
use awi_catalyst_sdwan_opera.Sync.Keyed.{IsOrder}
use awi_catalyst_sdwan_opera.Sync.Distinct.{IsDistinct}
use awi_catalyst_sdwan_opera.Sync.Names.{tagged-IsDistinct, clouds-IsDistinct}
use awi_catalyst_sdwan_opera.Sync.Progress.{IsResponsive, mirror_succeeds}
use awi_catalyst_sdwan_opera.Sync.Kinds.{
  Orders, InstanceWithProvider, SubnetWithProvider, get_instance_crd_name, get_subnet_crd_name,
  new_instance_crd, new_subnet_crd, collect_instances, collect_subnets, instance_sync, subnet_sync,
}
use awi_catalyst_sdwan_opera.Sync.Kinds.Clouds.{tag_instances, tag_subnets}

abbrev pub instance_id : Pb.Instance → String
instance_id i = i.id

abbrev pub subnet_id : Pb.Subnet → String
subnet_id s = s.subnet_id

-- A resource with the cloud that it was listed for.
abbrev instance_of : String → Pb.Instance → InstanceWithProvider
instance_of cloud i = record { instance_message = i; provider = cloud }

abbrev subnet_of : String → Pb.Subnet → SubnetWithProvider
subnet_of cloud s = record { subnet = s; provider = cloud }

module _ (u : Unicode) where
  lower_aws : to_lower u "AWS" ≡ "aws"
  unfolding to_lower
  lower_aws = refl

  lower_gcp : to_lower u "GCP" ≡ "gcp"
  unfolding to_lower
  lower_gcp = refl

  plain_aws : Lacks "." (to_lower u "AWS")
  plain_aws =
      let plain : Lacks "." "aws" = (omega arith, (omega arith, (omega arith, tt))) in
      subst (Lacks ".") (sym lower_aws) plain

  plain_gcp : Lacks "." (to_lower u "GCP")
  plain_gcp =
      let plain : Lacks "." "gcp" = (omega arith, (omega arith, (omega arith, tt))) in
      subst (Lacks ".") (sym lower_gcp) plain

  apart : to_lower u "AWS" ≢ to_lower u "GCP"
  apart h =
      let e : "aws" ≡ "gcp" = sym lower_aws ∙ h ∙ lower_gcp in ground (arith, e, eq_iff "aws" "gcp")

  instances-IsDistinct :
      (aws gcp : List Pb.Instance)
      → IsDistinct instance_id aws
      → IsDistinct instance_id gcp
      → IsDistinct (get_instance_crd_name u) (tag_instances "AWS" aws ++ tag_instances "GCP" gcp)
  unfolding get_instance_crd_name
  instances-IsDistinct aws gcp d d' =
      clouds-IsDistinct u instance_id instance_of (get_instance_crd_name u) (λ c r. refl) "AWS"
        plain_aws "GCP" plain_gcp apart aws gcp d
        (tagged-IsDistinct u instance_id instance_of (get_instance_crd_name u) (λ c r. refl) "GCP"
          plain_gcp gcp d')

  subnets-IsDistinct :
      (aws gcp : List Pb.Subnet)
      → IsDistinct subnet_id aws
      → IsDistinct subnet_id gcp
      → IsDistinct (get_subnet_crd_name u) (tag_subnets "AWS" aws ++ tag_subnets "GCP" gcp)
  unfolding get_subnet_crd_name
  subnets-IsDistinct aws gcp d d' =
      clouds-IsDistinct u subnet_id subnet_of (get_subnet_crd_name u) (λ c r. refl) "AWS" plain_aws
        "GCP" plain_gcp apart aws gcp d
        (tagged-IsDistinct u subnet_id subnet_of (get_subnet_crd_name u) (λ c r. refl) "GCP"
          plain_gcp gcp d')

module _ {W : Type 0} (k8s : K8sClient W) (awi : AwiGrpcClient W) (u : Unicode) (orders : Orders)
    (w v : W) where
  -- Where the API server refuses no call but the creation of an object under a name that is taken and
  -- the deletion of one that is not stored, and AWI answers for both clouds, with no two instances of
  -- a cloud under one ID, the synchronizer of instances succeeds: an AWS and a GCP instance of the
  -- same ID do not get in each other's way.
  pub instance_sync_succeeds :
      (find : W → String → Option Api.Instance)
      → IsLawful namespace k8s.instances find
      → IsResponsive k8s.instances find
      → IsOrder orders.instances
      → (w₁ : W) (aws gcp : List Pb.Instance) → list_instances awi "AWS" w ≡ (ok aws, w₁)
      → list_instances awi "GCP" w₁ ≡ (ok gcp, v)
      → IsDistinct instance_id aws
      → IsDistinct instance_id gcp
      → (v' : W) × (instance_sync k8s awi u orders w ≡ (ok tt, v'))
  unfolding instance_sync collect_instances
  instance_sync_succeeds find lawful responsive ordered w₁ aws gcp from_aws from_gcp d d' =
      let (v', e) =
        mirror_succeeds k8s.instances find lawful responsive (get_instance_crd_name u)
          (new_instance_crd u) (record { named = λ r. refl; local = λ r. refl }) orders.instances
          ordered (tag_instances "AWS" aws ++ tag_instances "GCP" gcp) v
          (instances-IsDistinct u aws gcp d d') in
      (v', rw (from_aws, from_gcp) e)

  -- The same for subnets.
  pub subnet_sync_succeeds :
      (find : W → String → Option Api.Subnet)
      → IsLawful namespace k8s.subnets find
      → IsResponsive k8s.subnets find
      → IsOrder orders.subnets
      → (w₁ : W) (aws gcp : List Pb.Subnet) → list_subnets awi "AWS" w ≡ (ok aws, w₁)
      → list_subnets awi "GCP" w₁ ≡ (ok gcp, v)
      → IsDistinct subnet_id aws
      → IsDistinct subnet_id gcp
      → (v' : W) × (subnet_sync k8s awi u orders w ≡ (ok tt, v'))
  unfolding subnet_sync collect_subnets
  subnet_sync_succeeds find lawful responsive ordered w₁ aws gcp from_aws from_gcp d d' =
      let (v', e) =
        mirror_succeeds k8s.subnets find lawful responsive (get_subnet_crd_name u)
          (new_subnet_crd u) (record { named = λ r. refl; local = λ r. refl }) orders.subnets
          ordered (tag_subnets "AWS" aws ++ tag_subnets "GCP" gcp) v
          (subnets-IsDistinct u aws gcp d d') in
      (v', rw (from_aws, from_gcp) e)
