-- ===== src/Kube/Calm.antt =====
-- Servers whose calls do not panic.
use awi_catalyst_sdwan_opera.Base.{String}
use awi_catalyst_sdwan_opera.Exec.Calm.{IsCalm}
use awi_catalyst_sdwan_opera.Kube.{Client, K8sClient}

pub record IsCalmClient {W X : Type 0} (client : Client W X) : Type 0 where
  pub list_in_calm : (ns : String) → IsCalm (client.list_in ns)
  pub list_all_calm : IsCalm client.list_all
  pub create_calm : (x : X) → IsCalm (client.create x)
  pub update_status_calm : (x : X) → IsCalm (client.update_status x)
  pub delete_calm : (x : X) → IsCalm (client.delete x)

pub record IsCalmK8s {W : Type 0} (k8s : K8sClient W) : Type 0 where
  pub instances : IsCalmClient k8s.instances
  pub sites : IsCalmClient k8s.sites
  pub subnets : IsCalmClient k8s.subnets
  pub vpcs : IsCalmClient k8s.vpcs
  pub vpns : IsCalmClient k8s.vpns
  pub network_domains : IsCalmClient k8s.network_domains
  pub connections : IsCalmClient k8s.connections
  pub app_connections : IsCalmClient k8s.app_connections
