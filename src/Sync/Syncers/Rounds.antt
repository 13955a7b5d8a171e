-- ===== src/Sync/Syncers/Rounds.antt =====
-- How often and in which order the synchronizers run.
use awi_catalyst_sdwan_opera.Base.{ℕ, zero, suc, ◌≡◌, ◌≢◌, refl, List, [], ◌∷◌}
use awi_catalyst_sdwan_opera.Exec.{Exec, Result, ok, err, panic}
use awi_catalyst_sdwan_opera.Sync.Syncers.{
  Event, tick, done, log_error, sync, loop, start_periodic_sync,
}

log_error-ok : (r : Result (Unit {0})) → r ≢ panic → log_error r ≡ ok tt
log_error-ok (ok _) h = refl
log_error-ok (err _) h = refl
log_error-ok panic h = absurd (h refl)

module _ {W : Type 0} where
  -- No synchronizer of the list panics, in any world.
  abbrev pub NoPanic : List (Exec W (Unit {0})) → Type 0
  NoPanic [] = Unit
  NoPanic (s ∷ ss) = ((w : W) → (s w).0 ≢ panic) × NoPanic ss

  -- The world after one run of each, from the left, whatever each returned.
  unfoldable pub round : List (Exec W (Unit {0})) → W → W
  round [] w = w
  round (s ∷ ss) w = round ss (s w).1

  unfoldable pub rounds : ℕ → List (Exec W (Unit {0})) → W → W
  rounds zero ss w = w
  rounds (suc n) ss w = rounds n ss (round ss w)

  -- Where no synchronizer panics, one round runs each once and in the order of the list: an error of
  -- one neither stops the others nor shows in the result.
  pub sync-round :
      (ss : List (Exec W (Unit {0}))) (w : W) → NoPanic ss → sync ss w ≡ (ok tt, round ss w)
  unfolding sync round
  sync-round [] w h = refl
  sync-round (s ∷ ss) w h = rw (log_error-ok (s w).0 (h.0 w)) (sync-round ss (s w).1 h.1)

-- The ticks before the context ends.
unfoldable pub ticks : List Event → ℕ
ticks [] = 0
ticks (tick ∷ events) = suc (ticks events)
ticks (done ∷ events) = 0

module _ {W : Type 0} where
  loop-rounds :
      (ss : List (Exec W (Unit {0}))) (events : List Event) (w : W)
      → NoPanic ss
      → loop ss events w ≡ (ok tt, rounds (ticks events) ss w)
  unfolding loop rounds ticks
  loop-rounds ss [] w h = refl
  loop-rounds ss (tick ∷ events) w h = rw (sync-round ss w h) (loop-rounds ss events (round ss w) h)
  loop-rounds ss (done ∷ events) w h = refl

  -- Where no synchronizer panics, the periodic run makes one round at once and one more for each tick
  -- before the context ends, and none after that.
  pub start_periodic_sync-rounds :
      (ss : List (Exec W (Unit {0}))) (events : List Event) (w : W)
      → NoPanic ss
      → start_periodic_sync ss events w ≡ (ok tt, rounds (suc (ticks events)) ss w)
  unfolding start_periodic_sync rounds
  start_periodic_sync-rounds ss events w h =
      rw (sync-round ss w h) (loop-rounds ss events (round ss w) h)
