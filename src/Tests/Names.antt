-- ===== src/Tests/Names.antt =====
-- An instance of AWS and one of GCP under the same ID.
use awi_catalyst_sdwan_opera.Base.{◌≡◌, refl, [], ◌∷◌, List}
use awi_catalyst_sdwan_opera.Exec.{ok}
use awi_catalyst_sdwan_opera.Api
use awi_catalyst_sdwan_opera.Kube.{K8sClient}
use awi_catalyst_sdwan_opera.Awi.{AwiGrpcClient}
use awi_catalyst_sdwan_opera.Sync.Kinds.{instance_sync}
use awi_catalyst_sdwan_opera.Sync.Kinds.Success.{instance_sync_succeeds}
use awi_catalyst_sdwan_opera.Tests.Fixtures
use awi_catalyst_sdwan_opera.Tests.Fixtures.{u, orders, aws_instance}
use awi_catalyst_sdwan_opera.Tests.MemoryKind.{
  find, memory, memory-IsLawful, memory-IsResponsive, values-IsOrder,
}

abbrev instances_kept : K8sClient (List Api.Instance)
instances_kept = record Fixtures.k8s { instances = memory }

-- Both clouds report the instance.
abbrev awi : AwiGrpcClient (List Api.Instance)
awi = record Fixtures.awi {
  cloud_client = record Fixtures.awi.cloud_client {
    list_instances = λ provider w. (ok (aws_instance ∷ []), w);
  };
}

instance_sync_succeeds_example :
    (v : List Api.Instance) × (instance_sync instances_kept awi u orders [] ≡ (ok tt, v))
instance_sync_succeeds_example =
    instance_sync_succeeds instances_kept awi u orders [] [] find memory-IsLawful
      memory-IsResponsive values-IsOrder [] (aws_instance ∷ []) (aws_instance ∷ []) refl refl
      (refl, tt) (refl, tt)
