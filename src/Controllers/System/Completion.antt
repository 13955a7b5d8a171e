-- ===== src/Controllers/System/Completion.antt =====
-- No deletion is forgotten, in whichever order the calls come.
use awi_catalyst_sdwan_opera.Base.{
  String, ◌≡◌, ◌≢◌, refl, sym, subst, Bool, true, false, ◌||◌, Option, none, some, ◌⊎◌, inl, inr,
  arith,
}
use awi_catalyst_sdwan_opera.Exec.{Exec, Result, ok, err, panic}
use awi_catalyst_sdwan_opera.Kube.{NamespacedName, Client, Util}
use awi_catalyst_sdwan_opera.Kube.Keys.{set_key, set_key-same, set_key-other}
use awi_catalyst_sdwan_opera.Controllers.{ReconcileResult}
use awi_catalyst_sdwan_opera.Controllers.Machine.{Pc, fetching, done, advance}
use awi_catalyst_sdwan_opera.Controllers.Removal.{Removal, IsPartner}
use awi_catalyst_sdwan_opera.Controllers.Protocol.{View, IsStore, IsUtil, NoLeak}
use awi_catalyst_sdwan_opera.Controllers.System.{
  System, Step, started, advanced, finished, restarted, created, deleted, changed, elsewhere, Reach,
  here, next, needs_retry,
}
use awi_catalyst_sdwan_opera.Controllers.System.Flights.{InFlight}
use awi_catalyst_sdwan_opera.Controllers.System.Safety.{Safe, Step-Safe, start-Safe}
use awi_catalyst_sdwan_opera.Controllers.System.Pending.{
  Busy, IsPrompt, Due, Pending, move-Pending, Due-agree,
}
use awi_catalyst_sdwan_opera.Controllers.System.Deletions.{advance-Due, advance_others}

module _ {W X I : Type 0} (view : View W X I) (client : Client W X) (util : Util X)
    (finalizer : String) (id_of : X → I) (key_of : X → NamespacedName) (remove : Removal W X)
    (request : X → Exec W (Unit {0})) (store : IsStore view client util finalizer id_of key_of)
    (utils : IsUtil view client util finalizer id_of key_of)
    (peer : IsPartner view id_of remove request) (prompt : IsPrompt view client util finalizer)
    (update_func delete_func : X → Bool)
    (passes : (x : X) → util.deletion_timestamp_is_zero x ≡ false → update_func x ≡ true) where
  open view use {stored, connected}

  abbrev DueAt : W → Bool → Option (Pc X) → NamespacedName → Type 0
  DueAt = Due view client util finalizer

  finished-Due :
      (w : W) (k : NamespacedName) (queued : Bool) (res : Result ReconcileResult)
      → res ≢ panic
      → DueAt w queued (some (done res)) k
      → DueAt w (needs_retry res || queued) none k
  finished-Due w k queued (ok res) other due z s deleting held = elim (due z s deleting held) [
    | inl waits ↦ inl (ground (arith, waits))
    | inr busy ↦ absurd busy
  ]
  finished-Due w k queued (err _) other due z s deleting held = inl refl
  finished-Due w k queued panic other due z s deleting held = absurd (other refl)

  -- At the key of a step, by the new entries of the queue and of the worker.
  set-Due :
      (w : W) (k : NamespacedName) (queued : Bool) (p : Option (Pc X))
      (queue : NamespacedName → Bool) (worker : NamespacedName → Option (Pc X))
      → DueAt w queued p k
      → DueAt w (set_key k queued queue k) (set_key k p worker k) k
  set-Due w k queued p queue worker due =
      subst (λ q. DueAt w q (set_key k p worker k) k) (sym (set_key-same k queued queue))
        (subst (λ o. DueAt w queued o k) (sym (set_key-same k p worker)) due)

  queue-Due :
      (w : W) (k : NamespacedName) (queued : Bool) (p : Option (Pc X))
      (queue : NamespacedName → Bool)
      → DueAt w queued p k
      → DueAt w (set_key k queued queue k) p k
  queue-Due w k queued p queue due =
      subst (λ q. DueAt w q p k) (sym (set_key-same k queued queue)) due

  Step-Pending :
      {s t : System W X}
      → Step view client util finalizer id_of remove request update_func delete_func s t
      → Safe view client util finalizer id_of key_of remove request store utils peer update_func
          delete_func s
      → Pending view client util finalizer s
      → Pending view client util finalizer t
  Step-Pending {s} (started k q idle) safe pending =
      move-Pending view client util finalizer s _ k (λ j _. refl)
        (λ j e. set_key-other j k false s.queue e)
        (λ j e. set_key-other j k (some (fetching k)) s.worker e)
        (set-Due s.world k false (some (fetching k)) s.queue s.worker
          (λ z sz deleting held. inr tt))
        pending
  Step-Pending {s} (advanced k p e) safe pending =
      let flight =
        subst (InFlight view util finalizer id_of key_of remove s.world k) e (safe.flights k) in
      let due = subst (λ o. DueAt s.world (s.queue k) o k) e (pending k) in
      let next_pc = (advance client util finalizer remove request p s.world).0 in
      let w = (advance client util finalizer remove request p s.world).1 in
      move-Pending view client util finalizer s _ k
        (λ j other.
          advance_others view client util finalizer id_of key_of remove request store utils peer
            prompt s.world k j p flight other)
        (λ j _. refl) (λ j other. set_key-other j k (some next_pc) s.worker other)
        (subst (λ o. DueAt w (s.queue k) o k) (sym (set_key-same k (some next_pc) s.worker))
          (advance-Due view client util finalizer id_of key_of remove request store utils peer
            prompt s.world k (s.queue k) p flight due))
        pending
  Step-Pending {s} (finished k res e other) safe pending =
      move-Pending view client util finalizer s _ k (λ j _. refl)
        (λ j far. set_key-other j k (needs_retry res || s.queue k) s.queue far)
        (λ j far. set_key-other j k none s.worker far)
        (set-Due s.world k (needs_retry res || s.queue k) none s.queue s.worker (
          finished-Due s.world k (s.queue k) res other
            (subst (λ o. DueAt s.world (s.queue k) o k) e (pending k))))
        pending
  Step-Pending {s} restarted safe pending = λ k z sz deleting held. inl refl
  Step-Pending {s} (created k x v free new bare only) safe pending =
      move-Pending view client util finalizer s _ k only.others
        (λ j far. set_key-other j k true s.queue far) (λ j _. refl)
        (queue-Due v k true (s.worker k) s.queue (λ z sz deleting held. inl refl)) pending
  Step-Pending {s} (deleted k x v old bare gone only) safe pending =
      move-Pending view client util finalizer s _ k only.others
        (λ j far. set_key-other j k (delete_func x || s.queue k) s.queue far) (λ j _. refl)
        (λ z sz deleting held. cc (gone, sz)) pending
  Step-Pending {s} (changed k x y v old new same_held same_id _ only) safe pending =
      move-Pending view client util finalizer s _ k only.others
        (λ j far. set_key-other j k (update_func y || s.queue k) s.queue far) (λ j _. refl)
        (queue-Due v k (update_func y || s.queue k) (s.worker k) s.queue (λ z sz deleting held.
          let y_deleting : util.deletion_timestamp_is_zero y ≡ false = cc (new, sz, deleting) in
          inl (rw (passes y y_deleting))))
        pending
  Step-Pending {s} (elsewhere v same_stored same_connected) safe pending = λ k.
      Due-agree view client util finalizer s.world v (s.queue k) (s.worker k) k (same_stored k)
        (pending k)

  pub Reach-Pending :
      {s t : System W X}
      → Reach view client util finalizer id_of remove request update_func delete_func s t
      → Safe view client util finalizer id_of key_of remove request store utils peer update_func
          delete_func s
      → Pending view client util finalizer s
      → Safe view client util finalizer id_of key_of remove request store utils peer update_func
          delete_func t
        × Pending view client util finalizer t
  Reach-Pending here safe pending = (safe, pending)
  Reach-Pending (next r st) safe pending =
      let (safe', pending') = Reach-Pending r safe pending in
      (
        Step-Safe view client util finalizer id_of key_of remove request store utils peer
            update_func delete_func st safe',
        Step-Pending st safe' pending',
      )

  -- From a start with no run under way, every key in the queue and no connection without its object,
  -- an object under deletion that holds the finalizer is never forgotten: its key waits in the queue, or
  -- a run is under way that will read it, end its connection or take the finalizer off, or that has
  -- failed and is going to be repeated. This is so with calls that fail, restarts, and any order of the
  -- calls and of what the users do, where updates of objects under deletion pass the event filter.
  pub deletions_complete :
      {s t : System W X}
      → Reach view client util finalizer id_of remove request update_func delete_func s t
      → ((k : NamespacedName) → s.worker k ≡ none)
      → ((k : NamespacedName) → s.queue k ≡ true)
      → NoLeak view client util finalizer id_of key_of s.world
      → (k : NamespacedName) (x : X) → stored t.world k ≡ some x
      → util.deletion_timestamp_is_zero x ≡ false
      → util.contains_finalizer x finalizer ≡ true
      → (t.queue k ≡ true) ⊎ Busy (t.worker k)
  deletions_complete {s} r idle queued safe k x sx deleting held =
      let start =
        start-Safe view client util finalizer id_of key_of remove request store utils peer
          update_func delete_func s idle safe in
      (Reach-Pending r start (λ j z sz _ _. inl (queued j))).1 k x sx deleting held
