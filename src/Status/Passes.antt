-- ===== src/Status/Passes.antt =====
-- How often and in which order the status watcher makes its two checks.
use awi_catalyst_sdwan_opera.Base.{ℕ, zero, suc, String, ◌≡◌, refl, List, [], ◌∷◌}
use awi_catalyst_sdwan_opera.Exec.{ok}
use awi_catalyst_sdwan_opera.Kube.{K8sClient}
use awi_catalyst_sdwan_opera.Kube.Calm.{IsCalmK8s}
use awi_catalyst_sdwan_opera.Awi.{AwiGrpcClient}
use awi_catalyst_sdwan_opera.Awi.Calm.{IsCalmAwi}
use awi_catalyst_sdwan_opera.Sync.Syncers.{Event, tick, done}
use awi_catalyst_sdwan_opera.Sync.Syncers.Rounds.{ticks}
use awi_catalyst_sdwan_opera.Status.{
  check_connections_statuses, check_app_connections_statuses, watch_loop, watch_status_updates,
}
use awi_catalyst_sdwan_opera.Status.Calm.{
  check_connections_statuses-Returns, check_app_connections_statuses-Returns,
}

module _ {W : Type 0} (k8s : K8sClient W) (awi : AwiGrpcClient W) (status_name : ℕ → String) where
  -- The world after `n` passes, each of which checks the connections and then the app connections.
  unfoldable pub passes : ℕ → W → W
  passes zero w = w
  passes (suc n) w =
      let checked = (check_connections_statuses k8s awi status_name w).1 in
      passes n (check_app_connections_statuses k8s awi status_name checked).1

  module _ (kube_calm : IsCalmK8s k8s) (calm : IsCalmAwi awi) where
    watch_loop-passes :
        (events : List Event) (w : W)
        → watch_loop k8s awi status_name events w ≡ (ok tt, passes (ticks events) w)
    unfolding watch_loop passes ticks
    watch_loop-passes [] w = refl
    watch_loop-passes (tick ∷ events) w =
        let checked = (check_connections_statuses k8s awi status_name w).1 in
        rw
          (
            check_connections_statuses-Returns k8s awi status_name kube_calm calm w,
            check_app_connections_statuses-Returns k8s awi status_name kube_calm calm checked,
          )
          (watch_loop-passes events (check_app_connections_statuses k8s awi status_name checked).1)
    watch_loop-passes (done ∷ events) w = refl

    pub watch_status_updates-passes :
        (events : List Event) (w : W)
        → watch_status_updates k8s awi status_name events w ≡ (ok tt, passes (suc (ticks events)) w)
    unfolding watch_status_updates passes
    watch_status_updates-passes events w =
        let checked = (check_connections_statuses k8s awi status_name w).1 in
        rw
          (
            check_connections_statuses-Returns k8s awi status_name kube_calm calm w,
            check_app_connections_statuses-Returns k8s awi status_name kube_calm calm checked,
          )
          (watch_loop-passes events (check_app_connections_statuses k8s awi status_name checked).1)
