-- ===== src/Controllers/System/Fresh.antt =====
-- A run that reads its object afresh completes the deletion.
use awi_catalyst_sdwan_opera.Base.{
  String, ◌≡◌, refl, sym, ap, ◌∙◌, Bool, true, false, ◌||◌, none, some, ◌⊎◌, arith,
}
use awi_catalyst_sdwan_opera.Exec.{Exec, Result, ok, err, panic}
use awi_catalyst_sdwan_opera.Kube.{NamespacedName, Client, Util}
use awi_catalyst_sdwan_opera.Kube.Keys.{set_key-same}
use awi_catalyst_sdwan_opera.Controllers.{ReconcileResult}
use awi_catalyst_sdwan_opera.Controllers.Machine.{Pc, fetching, removing, done, dispatch, advance}
use awi_catalyst_sdwan_opera.Controllers.Removal.{Removal, IsPartner}
use awi_catalyst_sdwan_opera.Controllers.Protocol.{View, IsStore, IsUtil}
use awi_catalyst_sdwan_opera.Controllers.System.{
  System, Step, started, finished, restarted, needs_retry,
}
use awi_catalyst_sdwan_opera.Controllers.System.Progress.{
  IsAnswering, CanRelease, call_step, first_step, releasing_completes, removing_step,
}

module _ {W X I : Type 0} (view : View W X I) (client : Client W X) (util : Util X)
    (finalizer : String) (id_of : X → I) (key_of : X → NamespacedName) (remove : Removal W X)
    (request : X → Exec W (Unit {0})) (store : IsStore view client util finalizer id_of key_of)
    (utils : IsUtil view client util finalizer id_of key_of)
    (peer : IsPartner view id_of remove request)
    (answering : IsAnswering view client util finalizer id_of key_of remove request)
    (update_func delete_func : X → Bool) where
  open view use {stored}

  abbrev Releasable : System W X → NamespacedName → Type 0
  Releasable =
      CanRelease view client util finalizer id_of key_of remove request update_func delete_func

  abbrev then_call :
      (s : System W X) (k : NamespacedName) (p p' : Pc X) (w : W)
      → s.worker k ≡ some p
      → advance client util finalizer remove request p s.world ≡ (p', w)
      → ((t : System W X)
          → t.world ≡ w
          → t.worker k ≡ some p'
          → t.queue k ≡ s.queue k
          → Releasable t k)
      → Releasable s k
  then_call =
      call_step view client util finalizer id_of key_of remove request update_func delete_func

  removing_completes :
      (s : System W X) (k : NamespacedName) (x : X)
      → s.worker k ≡ some (removing x)
      → stored s.world k ≡ some x
      → Releasable s k
  removing_completes s k x e sx =
      removing_step view client util finalizer id_of key_of remove request store utils peer
        answering update_func delete_func s k x e
        λ t tp kept.
          let same : stored t.world k ≡ some x = kept ∙ sx in
          let (y, u, released) = answering.release_answers t.world k x same in
          releasing_completes view client util finalizer id_of key_of remove request store utils
            peer answering update_func delete_func t k x y u tp (store.stored_key t.world k x same)
            released

  module _ (k : NamespacedName) (x : X) (deleting : util.deletion_timestamp_is_zero x ≡ false)
      (held : util.contains_finalizer x finalizer ≡ true) where
    pub fetching_completes :
        (s : System W X)
        → s.worker k ≡ some (fetching k)
        → stored s.world k ≡ some x
        → Releasable s k
    unfolding advance dispatch
    fetching_completes s e sx =
        let (v, got) = answering.get_answers s.world k x sx in
        then_call s k (fetching k) (removing x) v e (rw (got, deleting, held) refl) λ t tw tp tq.
          removing_completes t k x tp (
            ap (λ w. stored w k) tw
            ∙ sym (ap (λ q. stored q.1 k) got)
            ∙ store.get_stored s.world k k
            ∙ sx)

    abbrev first :
        {s t : System W X}
        → Step view client util finalizer id_of remove request update_func delete_func s t
        → Releasable t k
        → Releasable s k
    first =
        first_step view client util finalizer id_of key_of remove request update_func delete_func k

    pub start_completes :
        (s : System W X)
        → s.queue k ≡ true
        → s.worker k ≡ none
        → stored s.world k ≡ some x
        → Releasable s k
    start_completes s q idle sx =
        first (started k q idle)
          (fetching_completes _ (set_key-same k (some (fetching k)) s.worker) sx)

    pub done_completes :
        (s : System W X) (res : Result ReconcileResult)
        → s.worker k ≡ some (done res)
        → (s.queue k ≡ true) ⊎ (needs_retry res ≡ true)
        → stored s.world k ≡ some x
        → Releasable s k
    done_completes s (ok r) e waits sx = first (finished k (ok r) e (λ p. ground (arith, p))) (
        start_completes _ (set_key-same k (r.requeue || s.queue k) s.queue ∙ ground (arith, waits))
          (set_key-same k none s.worker) sx)
    done_completes s (err er) e waits sx =
        first (finished k (err er) e (λ p. ground (arith, p)))
          (start_completes _ (set_key-same k true s.queue) (set_key-same k none s.worker) sx)
    done_completes s panic e waits sx = first restarted (start_completes _ refl refl sx)
