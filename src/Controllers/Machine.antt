-- ===== src/Controllers/Machine.antt =====
-- `Reconcile` one call at a time: where a run stands, with the variable that is live there.
use awi_catalyst_sdwan_opera.Base.{
  ℕ, zero, suc, String, ◌==◌, ◌≡◌, refl, if◌then◌else◌, Bool-cases, inl, inr,
}
use awi_catalyst_sdwan_opera.Exec.{Exec, Result, ok, err, panic, pure, continue, ◌>>=◌, ◌>>◌}
use awi_catalyst_sdwan_opera.Kube.{NamespacedName, Client, Util}
use awi_catalyst_sdwan_opera.Controllers.Removal.{Plan, known, search, Removal, carry_out, perform}
use awi_catalyst_sdwan_opera.Controllers.{
  ReconcileResult, no_requeue, return_error, add_missing_finalizer, finalize, handle, after_get,
  reconcile,
}

pub data Pc (X : Type 0) : Type 0 where
  fetching : NamespacedName → Pc X  -- before `Get`
  registering : X → Pc X  -- before the `Update` that adds the finalizer
  requesting : X → Pc X  -- before the request to AWI
  removing : X → Pc X  -- before the first call of the removal from AWI
  ending : X → String → Pc X  -- before the call that ends the connection of the ID that was found
  releasing : X → Pc X  -- before the `Update` that takes the finalizer off
  done : Result ReconcileResult → Pc X

module _ {W X : Type 0} (client : Client W X) (util : Util X) (finalizer : String)
    (remove : Removal W X) (request : X → Exec W (Unit {0})) where
  -- The tests between `Get` and the next call.
  unfoldable pub dispatch : X → Pc X
  dispatch conn =
      if util.deletion_timestamp_is_zero conn
      then if util.contains_finalizer conn finalizer then requesting conn else registering conn
      else if util.contains_finalizer conn finalizer
      then removing conn
      else done (ok no_requeue)

  abbrev pub fetched : Result X → Pc X
  fetched (ok conn) = dispatch conn
  fetched (err e) = done (return_error (util.ignore_not_found e))
  fetched panic = done panic

  -- `if err != nil { return ctrl.Result{}, err }` after a call, and where the run goes on.
  abbrev pub follow : {A : Type 0} → (A → Pc X) → Result A → Pc X
  follow next (ok a) = next a
  follow next (err e) = done (err e)
  follow next panic = done panic

  abbrev call : {A : Type 0} → Exec W A → (Result A → Pc X) → W → Pc X × W
  call m next w = let (r, w') = m w in (next r, w')

  -- The test of the ID that a search gave.
  abbrev pub after_search : X → String → Pc X
  after_search conn id = if id == "" then releasing conn else ending conn id

  -- The first call of a removal.
  abbrev pub enter : X → Plan W → W → Pc X × W
  enter conn (known id) = call (remove.tear id) (follow (λ _. releasing conn))
  enter conn (search m) = call m (follow (after_search conn))

  unfoldable pub advance : Pc X → W → Pc X × W
  unfolding dispatch
  advance (fetching req) = call (client.get req) fetched
  advance (registering conn) =
      call (client.update (util.add_finalizer conn finalizer)) (follow requesting)
  advance (requesting conn) = call (request conn) (follow (λ _. done (ok no_requeue)))
  advance (removing conn) = enter conn (remove.plan conn)
  advance (ending conn id) = call (remove.tear id) (follow (λ _. releasing conn))
  advance (releasing conn) =
      call (client.update (util.remove_finalizer conn finalizer))
        (follow (λ _. done (ok no_requeue)))
  advance (done res) = λ w. (done res, w)

  unfoldable pub run : ℕ → Pc X → W → Pc X × W
  run zero p w = (p, w)
  run (suc n) p w = let (p', w') = advance p w in run n p' w'

  run_done : (n : ℕ) (res : Result ReconcileResult) (w : W) → run n (done res) w ≡ (done res, w)
  unfolding run advance
  run_done zero res w = refl
  run_done (suc n) res w = run_done n res w

  -- The end of a run, from a call that has its result and its world.
  abbrev ending_at : Result ReconcileResult × W → Pc X × W
  ending_at r = (done r.0, r.1)

  follow_last :
      {A : Type 0} (n : ℕ) (r : Result A) (v : W)
      → run n (follow (λ _. done (ok no_requeue)) r) v
        ≡ ending_at (continue r (λ _. pure no_requeue) v)
  follow_last n (ok _) v = run_done n (ok no_requeue) v
  follow_last n (err e) v = run_done n (err e) v
  follow_last n panic v = run_done n panic v

  run-requesting :
      (n : ℕ) (x : X) (w : W)
      → run (suc n) (requesting x) w ≡ ending_at ((request x >> pure no_requeue) w)
  unfolding run advance
  run-requesting n x w = follow_last n (request x w).0 (request x w).1

  run-releasing :
      (n : ℕ) (x : X) (w : W)
      → run (suc n) (releasing x) w
        ≡ ending_at ((client.update (util.remove_finalizer x finalizer) >>= λ _. pure no_requeue) w)
  unfolding run advance
  run-releasing n x w =
      let released = client.update (util.remove_finalizer x finalizer) w in
      follow_last n released.0 released.1

  after_register :
      (n : ℕ) (r : Result X) (v : W)
      → run (suc n) (follow requesting r) v
        ≡ ending_at (continue r (λ y. request y >> pure no_requeue) v)
  after_register n (ok y) v = run-requesting n y v
  after_register n (err e) v = run_done (suc n) (err e) v
  after_register n panic v = run_done (suc n) panic v

  abbrev release : X → Exec W ReconcileResult
  release x = client.update (util.remove_finalizer x finalizer) >>= λ _. pure no_requeue

  after_tear :
      (n : ℕ) (x : X) (r : Result (Unit {0})) (v : W)
      → run (suc n) (follow (λ _. releasing x) r) v ≡ ending_at (continue r (λ _. release x) v)
  after_tear n x (ok _) v = run-releasing n x v
  after_tear n x (err e) v = run_done (suc n) (err e) v
  after_tear n x panic v = run_done (suc n) panic v

  -- From the test of the ID that a search gave.
  after_found :
      (n : ℕ) (x : X) (r : Result String) (v : W)
      → run (suc (suc n)) (follow (after_search x) r) v
        ≡ ending_at
            ((continue r (λ id. if id == "" then pure tt else remove.tear id) >>= λ _. release x) v)
  unfolding run advance
  after_found n x (ok id) v = elim (Bool-cases (id == "")) [
    | inl empty ↦ rw empty (run-releasing (suc n) x v)
    | inr given ↦ rw given (after_tear n x (remove.tear id v).0 (remove.tear id v).1)
  ]
  after_found n x (err e) v = run_done (suc (suc n)) (err e) v
  after_found n x panic v = run_done (suc (suc n)) panic v

  run-enter :
      (n : ℕ) (x : X) (p : Plan W) (w : W)
      → (let (pc, v) = enter x p w in run (suc (suc n)) pc v)
        ≡ ending_at ((carry_out remove.tear p >>= λ _. release x) w)
  unfolding carry_out
  run-enter n x (known id) w = after_tear (suc n) x (remove.tear id w).0 (remove.tear id w).1
  run-enter n x (search m) w = after_found n x (m w).0 (m w).1

  run-dispatch :
      (n : ℕ) (x : X) (w : W)
      → run (suc (suc (suc n))) (dispatch x) w
        ≡ ending_at (handle client util finalizer (perform remove) request x w)
  unfolding run advance dispatch handle add_missing_finalizer finalize
  run-dispatch n x w = elim (Bool-cases (util.deletion_timestamp_is_zero x)) [
    | inl live ↦ elim (Bool-cases (util.contains_finalizer x finalizer)) [
      | inl held ↦
          rw (live, held, dispatch, handle, add_missing_finalizer)
            (run-requesting (suc (suc n)) x w)
      | inr bare ↦
          let registered = client.update (util.add_finalizer x finalizer) w in
          rw (live, bare, dispatch, handle, add_missing_finalizer)
            (after_register (suc n) registered.0 registered.1)
    ]
    | inr deleted ↦ elim (Bool-cases (util.contains_finalizer x finalizer)) [
      | inl held ↦ rw (deleted, held, dispatch, handle, finalize) (run-enter n x (remove.plan x) w)
      | inr bare ↦
          rw (deleted, bare, dispatch, handle, finalize)
            (run_done (suc (suc (suc n))) (ok no_requeue) w)
    ]
  ]

  after_fetch :
      (n : ℕ) (r : Result X) (v : W)
      → run (suc (suc (suc n))) (fetched r) v
        ≡ ending_at (after_get client util finalizer (perform remove) request r v)
  after_fetch n (ok x) v = run-dispatch n x v
  after_fetch n (err e) v = run_done (suc (suc (suc n))) (return_error (util.ignore_not_found e)) v
  after_fetch n panic v = run_done (suc (suc (suc n))) panic v

  -- Four calls end every run, with the result and the world of a `Reconcile` that makes the calls of a
  -- removal in a row.
  pub run-eq-reconcile :
      (req : NamespacedName) (w : W) (n : ℕ)
      → run (suc (suc (suc (suc n)))) (fetching req) w ≡ (
          let (res, v) = reconcile client util finalizer (perform remove) request req w in
          (done res, v))
  unfolding run advance reconcile
  run-eq-reconcile req w n = after_fetch n (client.get req w).0 (client.get req w).1
