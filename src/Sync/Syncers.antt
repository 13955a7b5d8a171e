-- ===== src/Sync/Syncers.antt =====
-- pkg/sync/sync.go: the six synchronizers in a row, and their periodic run. Log lines are left out.
pub mod Rounds
pub mod Listed
pub mod Consistency
pub mod Cluster
pub mod Whole
use awi_catalyst_sdwan_opera.Base.{List, [], ◌∷◌}
use awi_catalyst_sdwan_opera.Base.Text.{Unicode}
use awi_catalyst_sdwan_opera.Exec.{Exec, Result, ok, err, panic, pure, ◌>>=◌, ◌>>◌}
use awi_catalyst_sdwan_opera.Kube.{K8sClient}
use awi_catalyst_sdwan_opera.Awi.{AwiGrpcClient}
use awi_catalyst_sdwan_opera.Sync.Kinds.{
  Orders, instance_sync, site_sync, subnet_sync, vpc_sync, vpn_sync,
}
use awi_catalyst_sdwan_opera.Sync.NetworkDomains.{network_domain_sync}

-- What `select` receives: the ticker's time, or the end of the context.
pub data Event : Type 0 where
  tick done : Event

-- An error is logged, and the loop goes on.
abbrev log_error : Result (Unit {0}) → Result (Unit {0})
log_error (ok _) = ok tt
log_error (err _) = ok tt
log_error panic = panic

module _ {W : Type 0} where
  unfoldable pub run_syncer : Exec W (Unit {0}) → Exec W (Unit {0})
  run_syncer syncer w = let (r, w') = syncer w in (log_error r, w')

  -- `Syncers.Sync`
  unfoldable pub sync : List (Exec W (Unit {0})) → Exec W (Unit {0})
  unfolding run_syncer
  sync [] = pure tt
  sync (syncer ∷ all_syncers) = run_syncer syncer >> sync all_syncers

  loop : List (Exec W (Unit {0})) → List Event → Exec W (Unit {0})
  loop all_syncers [] = pure tt
  loop all_syncers (tick ∷ events) = sync all_syncers >> loop all_syncers events
  loop all_syncers (done ∷ events) = pure tt

  -- `StartPeriodicSync`, given what `select` receives in turn.
  unfoldable pub start_periodic_sync : List (Exec W (Unit {0})) → List Event → Exec W (Unit {0})
  unfolding loop sync
  start_periodic_sync all_syncers events = sync all_syncers >> loop all_syncers events

module _ {W : Type 0} (k8s : K8sClient W) (awi : AwiGrpcClient W) (u : Unicode)
    (orders : Orders) where
  -- `NewSyncers`
  unfoldable pub new_syncers : List (Exec W (Unit {0}))
  new_syncers =
      instance_sync k8s awi u orders
      ∷ site_sync k8s awi u orders
      ∷ subnet_sync k8s awi u orders
      ∷ vpc_sync k8s awi u orders
      ∷ vpn_sync k8s awi u orders
      ∷ network_domain_sync k8s u orders.network_domains
      ∷ []
