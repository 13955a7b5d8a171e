-- ===== src/Awi/Calm.antt =====
-- An AWI server whose list calls do not panic.
use awi_catalyst_sdwan_opera.Base.{String}
use awi_catalyst_sdwan_opera.Exec.Calm.{IsCalm}
use awi_catalyst_sdwan_opera.Awi.{
  AwiGrpcClient, list_connections, list_app_connections, list_vpcs, list_instances, list_sites,
  list_subnets, list_vpns,
}

pub record IsCalmAwi {W : Type 0} (awi : AwiGrpcClient W) : Type 0 where
  pub connections_calm : IsCalm (list_connections awi)
  pub app_connections_calm : IsCalm (list_app_connections awi)
  pub vpcs_calm : (provider : String) → IsCalm (list_vpcs awi provider)
  pub instances_calm : (provider : String) → IsCalm (list_instances awi provider)
  pub sites_calm : IsCalm (list_sites awi)
  pub subnets_calm : (provider : String) → IsCalm (list_subnets awi provider)
  pub vpns_calm : IsCalm (list_vpns awi)
