-- ===== src/Controllers.antt =====
-- controllers/: the part of `Reconcile` that both controllers share, over the objects of one kind.
-- Log lines are left out.
pub mod Connection
pub mod AppConnection
pub mod Protocol
pub mod Leaks
pub mod Success
pub mod Lifecycle
pub mod Frame
pub mod Twins
pub mod Removal
pub mod Machine
pub mod System
use awi_catalyst_sdwan_opera.Base.{
  ℕ, String, Bool, true, false, not, Option, none, some, if◌then◌else◌,
}
use awi_catalyst_sdwan_opera.Exec.{Exec, Error, Result, ok, err, panic, pure, ◌>>=◌, ◌>>◌}
use awi_catalyst_sdwan_opera.Kube.{NamespacedName, Client, Util}

-- `ctrl.Result`
pub record ReconcileResult : Type 0 where
  pub requeue : Bool
  pub requeue_after : ℕ

-- What a reconciler hands to `ctrl.NewControllerManagedBy`: itself and its event filter. An event
-- that the filter has no function for, such as a creation, passes.
pub record Controller (W X : Type 0) : Type 0 where
  pub reconcile : NamespacedName → Exec W ReconcileResult
  pub update_func : X → Bool
  pub delete_func : X → Bool

-- `ctrl.Result{}`
abbrev pub no_requeue : ReconcileResult
no_requeue = record { requeue = false; requeue_after = 0 }

-- `return ctrl.Result{}, err` for an error that may be nil
abbrev return_error : Option Error → Result ReconcileResult
return_error none = ok no_requeue
return_error (some e) = err e

-- `finalizer` is the name of the controller's finalizer; `remove` tears the connection of an object
-- down, and `request` asks AWI for it.
module _ {W X : Type 0} (client : Client W X) (util : Util X) (finalizer : String)
    (remove request : X → Exec W (Unit {0})) where
  -- The branch of an object that is not being deleted, up to the request.
  unfoldable pub add_missing_finalizer : X → Exec W X
  add_missing_finalizer conn =
      if util.contains_finalizer conn finalizer
      then pure conn
      else client.update (util.add_finalizer conn finalizer)

  -- The branch of an object under deletion.
  unfoldable pub finalize : X → Exec W ReconcileResult
  finalize conn =
      if util.contains_finalizer conn finalizer
      then (do remove conn; client.update (util.remove_finalizer conn finalizer); pure no_requeue)
      else pure no_requeue

  unfoldable pub handle : X → Exec W ReconcileResult
  unfolding add_missing_finalizer finalize
  handle conn =
      if util.deletion_timestamp_is_zero conn
      then (do conn' ← add_missing_finalizer conn; request conn'; pure no_requeue)
      else finalize conn

  abbrev after_get : Result X → Exec W ReconcileResult
  after_get (ok conn) w = handle conn w
  after_get (err e) w = (return_error (util.ignore_not_found e), w)
  after_get panic w = (panic, w)

  unfoldable pub reconcile : NamespacedName → Exec W ReconcileResult
  unfolding handle
  reconcile req w = let (r, w') = client.get req w in after_get r w'
