-- ===== src/Exec/Process.antt =====
-- The main function of a program: it may end the process, and start goroutines.
use awi_catalyst_sdwan_opera.Base.{ℕ, ◌≡◌, refl, ap, arith, List, [], ◌∷◌, ◌++◌}
use awi_catalyst_sdwan_opera.Exec.{Exec, Result, ok, err, panic}

-- A value, `os.Exit` with its code, or a panic.
pub data Ended (A : Type 0) : Type 0 where
  returned : A → Ended A
  exited : ℕ → Ended A
  panicked : Ended A

-- A call that may end the process, such as `flag.Parse`.
abbrev pub Command : Type 0 → Type 0 → Type 0
Command W A = W → Ended A × W

-- A run over a world, and the goroutines that it has started.
abbrev pub Process : Type 0 → Type 0 → Type 0 → Type 0
Process W G A = W × List G → Ended A × (W × List G)

-- `if err != nil { os.Exit(1) }`
abbrev pub ended : {A : Type 0} → Result A → Ended A
ended (ok a) = returned a
ended (err e) = exited 1
ended panic = panicked

-- `utilruntime.Must`
abbrev pub insisted : {A : Type 0} → Result A → Ended A
insisted (ok a) = returned a
insisted (err e) = panicked
insisted panic = panicked

module _ {W A : Type 0} where
  abbrev pub or_exit : Exec W A → Command W A
  or_exit m w = let (r, v) = m w in (ended r, v)

  abbrev pub must : Exec W A → Command W A
  must m w = let (r, v) = m w in (insisted r, v)

module _ {W G : Type 0} where
  abbrev pub run : {A : Type 0} → Command W A → Process W G A
  run m (w, gs) = let (e, v) = m w in (e, (v, gs))

  abbrev pub go : G → Process W G (Unit {0})
  go g (w, gs) = (returned tt, (w, gs ++ (g ∷ [])))

  abbrev pub return : {A : Type 0} → A → Process W G A
  return a s = (returned a, s)

  abbrev pub resume : {A B : Type 0} → Ended A → (A → Process W G B) → Process W G B
  resume (returned a) f s = f a s
  resume (exited n) f s = (exited n, s)
  resume panicked f s = (panicked, s)

  infixl 5 ◌>>=◌ ◌>>◌
  abbrev pub ◌>>=◌ : {A B : Type 0} → Process W G A → (A → Process W G B) → Process W G B
  ◌>>=◌ m f s = let (e, s') = m s in resume e f s'

  abbrev pub ◌>>◌ : {A B : Type 0} → Process W G A → Process W G B → Process W G B
  m >> n = m >>= λ _. n

  resume_assoc :
      {A B C : Type 0} (e : Ended A) (f : A → Process W G B) (g : B → Process W G C)
      (s : W × List G)
      → (let (e', s') = resume e f s in resume e' g s') ≡ resume e (λ a. f a >>= g) s
  resume_assoc (returned a) f g s = refl
  resume_assoc (exited n) f g s = refl
  resume_assoc panicked f g s = refl

  pub >>=_assoc :
      {A B C : Type 0} (m : Process W G A) (f : A → Process W G B) (g : B → Process W G C)
      (s : W × List G)
      → ((m >>= f) >>= g) s ≡ (m >>= λ a. f a >>= g) s
  >>=_assoc m f g s = resume_assoc (m s).0 f g (m s).1

-- The process has ended before its main function returned.
abbrev pub IsFailure : {A : Type 0} → Ended A → Type 0
IsFailure (returned _) = ⊥
IsFailure (exited _) = Unit
IsFailure panicked = Unit

-- A step of a run that does not start goroutines: it fails, or the rest runs in the world it left.
module _ {W G A B : Type 0} (P : Ended B × (W × List G) → Type 0) (gs : List G)
    (failed : (e : Ended B) (v : W) → IsFailure e → P (e, (v, gs))) where
  resume-ind :
      (e : Ended A) (f : A → Process W G B) (v : W)
      → ((a : A) → e ≡ returned a → P (f a (v, gs)))
      → P (resume e f (v, gs))
  resume-ind (returned a) f v k = k a refl
  resume-ind (exited n) f v k = failed (exited n) v tt
  resume-ind panicked f v k = failed panicked v tt

  pub run-ind :
      (m : Command W A) (f : A → Process W G B) (w : W)
      → ((a : A) (v : W) → m w ≡ (returned a, v) → P (f a (v, gs)))
      → P ((run m >>= f) (w, gs))
  run-ind m f w k = resume-ind (m w).0 f (m w).1 (λ a h. k a (m w).1 (cc h))

ended-eq-returned : {A : Type 0} (r : Result A) {a : A} → ended r ≡ returned a → r ≡ ok a
ended-eq-returned (ok a) h = ground (arith, h)
ended-eq-returned (err e) h = ground (arith, h)
ended-eq-returned panic h = ground (arith, h)

pub or_exit-eq-returned :
    {W A : Type 0} (m : Exec W A) (w : W) {v : W} {a : A}
    → or_exit m w ≡ (returned a, v)
    → m w ≡ (ok a, v)
or_exit-eq-returned m w h = cc (ended-eq-returned (m w).0 (ap (λ q. q.0) h), ap (λ q. q.1) h)

insisted-eq-returned : {A : Type 0} (r : Result A) {a : A} → insisted r ≡ returned a → r ≡ ok a
insisted-eq-returned (ok a) h = ground (arith, h)
insisted-eq-returned (err e) h = ground (arith, h)
insisted-eq-returned panic h = ground (arith, h)

pub must-eq-returned :
    {W A : Type 0} (m : Exec W A) (w : W) {v : W} {a : A}
    → must m w ≡ (returned a, v)
    → m w ≡ (ok a, v)
must-eq-returned m w h = cc (insisted-eq-returned (m w).0 (ap (λ q. q.0) h), ap (λ q. q.1) h)
