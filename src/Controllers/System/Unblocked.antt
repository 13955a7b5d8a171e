-- ===== src/Controllers/System/Unblocked.antt =====
-- A run that has read an older state of its object does not block the deletion.
use awi_catalyst_sdwan_opera.Base.{
  String, ◌≡◌, refl, sym, ap, ◌∙◌, subst, Bool, true, false, Option, none, some, ◌⊎◌, inl, inr,
}
use awi_catalyst_sdwan_opera.Exec.{Exec, Result, ok, err, panic}
use awi_catalyst_sdwan_opera.Kube.{NamespacedName, Client, Util}
use awi_catalyst_sdwan_opera.Controllers.{ReconcileResult, no_requeue}
use awi_catalyst_sdwan_opera.Controllers.Machine.{
  Pc, fetching, registering, requesting, removing, ending, releasing, done, follow, advance,
}
use awi_catalyst_sdwan_opera.Controllers.Removal.{Removal, IsPartner}
use awi_catalyst_sdwan_opera.Controllers.Protocol.{View, IsStore, IsUtil, NoLeak}
use awi_catalyst_sdwan_opera.Controllers.System.{System, Reach, here, needs_retry}
use awi_catalyst_sdwan_opera.Controllers.System.Flights.{InFlight}
use awi_catalyst_sdwan_opera.Controllers.System.Safety.{start-Safe}
use awi_catalyst_sdwan_opera.Controllers.System.Pending.{Busy, IsPrompt}
use awi_catalyst_sdwan_opera.Controllers.System.Completion.{Reach-Pending}
use awi_catalyst_sdwan_opera.Controllers.System.Progress.{
  IsFree, IsAnswering, CanRelease, call_step, releasing_completes, ending_step, removing_step,
}
use awi_catalyst_sdwan_opera.Controllers.System.Fresh.{
  fetching_completes, start_completes, done_completes,
}

module _ {W X I : Type 0} (view : View W X I) (client : Client W X) (util : Util X)
    (finalizer : String) (id_of : X → I) (key_of : X → NamespacedName) (remove : Removal W X)
    (request : X → Exec W (Unit {0})) (store : IsStore view client util finalizer id_of key_of)
    (utils : IsUtil view client util finalizer id_of key_of)
    (peer : IsPartner view id_of remove request)
    (answering : IsAnswering view client util finalizer id_of key_of remove request)
    (update_func delete_func : X → Bool) where
  open view use {stored}

  abbrev Releasable : System W X → NamespacedName → Type 0
  Releasable =
      CanRelease view client util finalizer id_of key_of remove request update_func delete_func

  abbrev then_call :
      (s : System W X) (k : NamespacedName) (p p' : Pc X) (w : W)
      → s.worker k ≡ some p
      → advance client util finalizer remove request p s.world ≡ (p', w)
      → ((t : System W X)
          → t.world ≡ w
          → t.worker k ≡ some p'
          → t.queue k ≡ s.queue k
          → Releasable t k)
      → Releasable s k
  then_call =
      call_step view client util finalizer id_of key_of remove request update_func delete_func

  module _ (k : NamespacedName) (x : X) (deleting : util.deletion_timestamp_is_zero x ≡ false)
      (held : util.contains_finalizer x finalizer ≡ true) where
    abbrev done_here :
        (s : System W X) (res : Result ReconcileResult)
        → s.worker k ≡ some (done res)
        → (s.queue k ≡ true) ⊎ (needs_retry res ≡ true)
        → stored s.world k ≡ some x
        → Releasable s k
    done_here =
        done_completes view client util finalizer id_of key_of remove request store utils peer
          answering update_func delete_func k x deleting held

    abbrev following : {A : Type 0} → (A → Pc X) → Result A → Pc X
    following = follow client util finalizer remove request

    -- A run that has read an older state of the object.
    after_release :
        (s : System W X) (x' : X) (r : Result X) (v : W)
        → s.worker k ≡ some (releasing x')
        → key_of x' ≡ k
        → client.update (util.remove_finalizer x' finalizer) s.world ≡ (r, v)
        → stored v k ≡ some x
        → Releasable s k
    unfolding advance
    after_release s x' (ok y) v e at_key h sx =
        releasing_completes view client util finalizer id_of key_of remove request store utils peer
          answering update_func delete_func s k x' y v e at_key h
    after_release s x' (err er) v e at_key h sx =
        then_call s k (releasing x') (done (err er)) v e (rw h refl)
          λ t tw tp tq. done_here t (err er) tp (inr refl) (ap (λ w. stored w k) tw ∙ sx)
    after_release s x' panic v e at_key h sx =
        then_call s k (releasing x') (done panic) v e (rw h refl)
          λ t tw tp tq. done_here t panic tp (inr refl) (ap (λ w. stored w k) tw ∙ sx)

    releasing_goes_on :
        (s : System W X) (x' : X)
        → s.worker k ≡ some (releasing x')
        → key_of x' ≡ k
        → stored s.world k ≡ some x
        → Releasable s k
    unfolding advance
    releasing_goes_on s x' e at_key sx =
        let r = client.update (util.remove_finalizer x' finalizer) s.world in
        elim (answering.release_any s.world x') [
          | inl same ↦
              after_release s x' r.0 r.1 e at_key refl
                (subst (λ j. stored r.1 j ≡ stored s.world j) at_key same ∙ sx)
          | inr free ↦ then_call s k (releasing x') _ r.1 e refl λ t tw tp tq. (
            t,
            here,
            subst (IsFree util finalizer) (ap (stored r.1) at_key ∙ ap (λ w. stored w k) (sym tw))
                free,
          )
        ]

    removing_goes_on :
        (s : System W X) (x' : X)
        → s.worker k ≡ some (removing x')
        → key_of x' ≡ k
        → stored s.world k ≡ some x
        → Releasable s k
    removing_goes_on s x' e at_key sx =
        removing_step view client util finalizer id_of key_of remove request store utils peer
          answering update_func delete_func s k x' e
          λ t tp kept. releasing_goes_on t x' tp at_key (kept ∙ sx)

    ending_goes_on :
        (s : System W X) (x' : X) (number : String)
        → s.worker k ≡ some (ending x' number)
        → key_of x' ≡ k
        → stored s.world k ≡ some x
        → Releasable s k
    ending_goes_on s x' number e at_key sx =
        ending_step view client util finalizer id_of key_of remove request store utils peer
          answering update_func delete_func s k x' number e
          λ t tp kept. releasing_goes_on t x' tp at_key (kept ∙ sx)

    after_request :
        (s : System W X) (r : Result (Unit {0}))
        → s.worker k ≡ some (following (λ _. done (ok no_requeue)) r)
        → s.queue k ≡ true
        → stored s.world k ≡ some x
        → Releasable s k
    after_request s (ok _) e q sx = done_here s (ok no_requeue) e (inl q) sx
    after_request s (err er) e q sx = done_here s (err er) e (inl q) sx
    after_request s panic e q sx = done_here s panic e (inl q) sx

    requesting_goes_on :
        (s : System W X) (x' : X)
        → s.worker k ≡ some (requesting x')
        → s.queue k ≡ true
        → stored s.world k ≡ some x
        → Releasable s k
    unfolding advance
    requesting_goes_on s x' e q sx =
        let r = request x' s.world in
        then_call s k (requesting x') _ r.1 e refl λ t tw tp tq.
          after_request t r.0 tp (tq ∙ q)
            (ap (λ w. stored w k) tw ∙ peer.request_stored s.world x' k ∙ sx)

    go_on :
        (s : System W X) (p : Option (Pc X))
        → s.worker k ≡ p
        → InFlight view util finalizer id_of key_of remove s.world k p
        → (s.queue k ≡ true) ⊎ Busy p
        → stored s.world k ≡ some x
        → Releasable s k
    go_on s none e flight (inl q) sx =
        start_completes view client util finalizer id_of key_of remove request store utils peer
          answering update_func delete_func k x deleting held s q e sx
    go_on s none e flight (inr busy) sx = absurd busy
    go_on s (some (fetching req)) e flight waits sx =
        fetching_completes view client util finalizer id_of key_of remove request store utils peer
          answering update_func delete_func k x deleting held s
          (e ∙ ap (λ q. some (fetching q)) flight) sx
    go_on s (some (registering x')) e flight waits sx = cc (flight.1 x sx, held)
    go_on s (some (requesting x')) e flight (inl q) sx = requesting_goes_on s x' e q sx
    go_on s (some (requesting x')) e flight (inr busy) sx = absurd busy
    go_on s (some (removing x')) e flight waits sx = removing_goes_on s x' e flight.0 sx
    go_on s (some (ending x' number)) e flight waits sx = ending_goes_on s x' number e flight.0 sx
    go_on s (some (releasing x')) e flight waits sx = releasing_goes_on s x' e flight sx
    go_on s (some (done res)) e flight (inl q) sx = done_here s res e (inl q) sx
    go_on s (some (done (ok r))) e flight (inr busy) sx = absurd busy
    go_on s (some (done (err er))) e flight (inr busy) sx = done_here s (err er) e (inr refl) sx
    go_on s (some (done panic)) e flight (inr busy) sx = done_here s panic e (inr refl) sx

    module _ (prompt : IsPrompt view client util finalizer)
        (passes : (x : X) → util.deletion_timestamp_is_zero x ≡ false → update_func x ≡ true) where
      -- From a start with no run under way, every key in the queue and no connection without its object,
      -- the interleaved runs never get to a state in which the deletion of an object that holds the
      -- finalizer is stuck: where the servers answer, further steps lead to a state in which the
      -- object is gone or does not hold the finalizer.
      pub deletions_unblocked :
          {s t : System W X}
          → Reach view client util finalizer id_of remove request update_func delete_func s t
          → ((k : NamespacedName) → s.worker k ≡ none)
          → ((k : NamespacedName) → s.queue k ≡ true)
          → NoLeak view client util finalizer id_of key_of s.world
          → stored t.world k ≡ some x
          → Releasable t k
      deletions_unblocked {s} {t} r idle queued safe sx =
          let start =
            start-Safe view client util finalizer id_of key_of remove request store utils peer
              update_func delete_func s idle safe in
          let (safe', pending) =
            Reach-Pending view client util finalizer id_of key_of remove request store utils peer
              prompt update_func delete_func passes r start (λ j z sz _ _. inl (queued j)) in
          go_on t (t.worker k) refl (safe'.flights k) (pending k x sx deleting held) sx
