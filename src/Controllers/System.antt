-- ===== src/Controllers/System.antt =====
-- A controller at work: runs of `Reconcile` that are interleaved, call by call, with each other and
-- with what the users and the rest of the cluster do. controller-runtime gives each key to one
-- worker at a time, keeps the keys that wait in a queue, and puts a key back after an error.
pub mod Flights
pub mod Endings
pub mod Moves
pub mod Safety
pub mod Pending
pub mod Deletions
pub mod Completion
pub mod Progress
pub mod Fresh
pub mod Unblocked
use awi_catalyst_sdwan_opera.Base.{String, ◌≡◌, ◌≢◌, Bool, true, false, ◌||◌, Option, none, some}
use awi_catalyst_sdwan_opera.Exec.{Exec, Result, ok, err, panic}
use awi_catalyst_sdwan_opera.Kube.{NamespacedName, Client, Util}
use awi_catalyst_sdwan_opera.Kube.Keys.{set_key}
use awi_catalyst_sdwan_opera.Controllers.{ReconcileResult}
use awi_catalyst_sdwan_opera.Controllers.Machine.{Pc, fetching, done, advance}
use awi_catalyst_sdwan_opera.Controllers.Removal.{Removal, perform}
use awi_catalyst_sdwan_opera.Controllers.Protocol.{View}
use awi_catalyst_sdwan_opera.Controllers.Lifecycle.{Only}

pub record System (W X : Type 0) : Type 0 where
  pub world : W
  pub queue : NamespacedName → Bool
  pub worker : NamespacedName → Option (Pc X)

-- A key is put back after an error, and where the result asks for it.
abbrev pub needs_retry : Result ReconcileResult → Bool
needs_retry (ok res) = res.requeue
needs_retry (err _) = true
needs_retry panic = true

module _ {W X I : Type 0} (view : View W X I) (client : Client W X) (util : Util X)
    (finalizer : String) (id_of : X → I) (remove : Removal W X) (request : X → Exec W (Unit {0}))
    (update_func delete_func : X → Bool) where
  open view use {stored, connected}

  pub data Step (s : System W X) : System W X → Type 0 where
    started :
        (k : NamespacedName)
        → s.queue k ≡ true
        → s.worker k ≡ none
        → Step s (record s {
          queue = set_key k false s.queue;
          worker = set_key k (some (fetching k)) s.worker;
        })
    -- One call of one run.
    advanced :
        (k : NamespacedName) (p : Pc X)
        → s.worker k ≡ some p
        → Step s (
            let (p', w) = advance client util finalizer remove request p s.world in
            record s { world = w; worker = set_key k (some p') s.worker })
    finished :
        (k : NamespacedName) (res : Result ReconcileResult)
        → s.worker k ≡ some (done res)
        → res ≢ panic
        → Step s (record s {
          queue = set_key k (needs_retry res || s.queue k) s.queue;
          worker = set_key k none s.worker;
        })
    -- The operator may stop at any time, after a panic too. It starts with an event for each object.
    restarted : Step s (record s { queue = λ _. true; worker = λ _. none })
    -- A user's object has no finalizer of the operator. There is no filter on its event.
    created :
        (k : NamespacedName) (x : X) (w : W)
        → stored s.world k ≡ none
        → stored w k ≡ some x
        → util.contains_finalizer x finalizer ≡ false
        → Only view client util finalizer id_of (perform remove) request k s.world w
        → Step s (record s { world = w; queue = set_key k true s.queue })
    -- Only an object with no finalizer goes away.
    deleted :
        (k : NamespacedName) (x : X) (w : W)
        → stored s.world k ≡ some x
        → util.contains_finalizer x finalizer ≡ false
        → stored w k ≡ none
        → Only view client util finalizer id_of (perform remove) request k s.world w
        → Step s (record s { world = w; queue = set_key k (delete_func x || s.queue k) s.queue })
    -- A write of anything but the ends and the finalizer, such as a status or the deletion's mark,
    -- which is never taken back.
    changed :
        (k : NamespacedName) (x y : X) (w : W)
        → stored s.world k ≡ some x
        → stored w k ≡ some y
        → util.contains_finalizer y finalizer ≡ util.contains_finalizer x finalizer
        → id_of y ≡ id_of x
        → (util.deletion_timestamp_is_zero x ≡ false → util.deletion_timestamp_is_zero y ≡ false)
        → Only view client util finalizer id_of (perform remove) request k s.world w
        → Step s (record s { world = w; queue = set_key k (update_func y || s.queue k) s.queue })
    -- What touches neither the objects of the kind nor a connection.
    elsewhere :
        (w : W)
        → ((k : NamespacedName) → stored w k ≡ stored s.world k)
        → ((id : I) → connected w id ≡ connected s.world id)
        → Step s (record s { world = w })

  pub data Reach (s : System W X) : System W X → Type 0 where
    here : Reach s s
    next : {t u : System W X} → Reach s t → Step t u → Reach s u
