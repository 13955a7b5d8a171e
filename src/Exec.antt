-- ===== src/Exec.antt =====
-- Go functions that change the outside world and return an error, or panic.
pub mod Process
pub mod Calm
use awi_catalyst_sdwan_opera.Base.{String, ◌≡◌, refl, ap, subst, arith}

-- `foreign`: an error that a library returned. `message` and `errorf` are `fmt.Errorf` without and
-- with a `%v`, which keeps the text of the inner error and not its identity.
pub data Error : Type 0 where
  foreign : String → Error
  message : String → Error
  errorf : String → Error → Error

-- `(value, nil)`, `(_, err)` or a panic
pub data Result {ℓ} (A : Type ℓ) : Type ℓ where
  ok : A → Result A
  err : Error → Result A
  panic : Result A

-- `W` is the world: the Kubernetes API server and the AWI server.
abbrev pub Exec : Type 0 → Type 0 → Type 0
Exec W A = W → Result A × W

-- `if err != nil { return f(err) }`
abbrev map_err' : {A : Type 0} → (Error → Error) → Result A → Result A
map_err' f (ok a) = ok a
map_err' f (err e) = err (f e)
map_err' f panic = panic

module _ {W A : Type 0} where
  abbrev pub pure : A → Exec W A
  pure a w = (ok a, w)

  abbrev pub raise : Error → Exec W A
  raise e w = (err e, w)

  abbrev pub map_err : (Error → Error) → Exec W A → Exec W A
  map_err f m w = let (r, w') = m w in (map_err' f r, w')

map_err'-eq-ok :
    {A : Type 0} (f : Error → Error) (r : Result A) {a : A} → map_err' f r ≡ ok a → r ≡ ok a
map_err'-eq-ok f (ok a) h = h
map_err'-eq-ok f (err e) h = ground arith
map_err'-eq-ok f panic h = ground arith

pub map_err-eq-ok :
    {W A : Type 0} (f : Error → Error) (m : Exec W A) (w : W) {v : W} {a : A}
    → map_err f m w ≡ (ok a, v)
    → m w ≡ (ok a, v)
map_err-eq-ok f m w h = cc (map_err'-eq-ok f (m w).0 (ap (λ q. q.0) h), ap (λ q. q.1) h)

module _ {W A B : Type 0} where
  abbrev pub continue : Result A → (A → Exec W B) → Exec W B
  continue (ok a) f w = f a w
  continue (err e) f w = (err e, w)
  continue panic f w = (panic, w)

  infixl 5 ◌>>=◌ ◌>>◌
  abbrev pub ◌>>=◌ : Exec W A → (A → Exec W B) → Exec W B
  ◌>>=◌ m f w = let (r, w') = m w in continue r f w'

  abbrev pub ◌>>◌ : Exec W A → Exec W B → Exec W B
  m >> n = m >>= λ _. n

  continue-eq-ok :
      (r : Result A) (f : A → Exec W B) (v : W) {b : B} {w' : W}
      → continue r f v ≡ (ok b, w')
      → (a : A) × (r ≡ ok a) × (f a v ≡ (ok b, w'))
  continue-eq-ok (ok a) f v h = (a, refl, h)
  continue-eq-ok (err e) f v h = ground arith
  continue-eq-ok panic f v h = ground arith

  continue_congr :
      (r : Result A) (f g : A → Exec W B) (v : W)
      → ((a : A) (u : W) → f a u ≡ g a u)
      → continue r f v ≡ continue r g v
  continue_congr (ok a) f g v h = h a v
  continue_congr (err e) f g v h = refl
  continue_congr panic f g v h = refl

  pub >>=_congr :
      (m : Exec W A) (f g : A → Exec W B) (w : W)
      → ((a : A) (u : W) → f a u ≡ g a u)
      → (m >>= f) w ≡ (m >>= g) w
  >>=_congr m f g w h = continue_congr (m w).0 f g (m w).1 h

  -- What a successful run of `m` and then `f` did.
  pub >>=-eq-ok :
      (m : Exec W A) (f : A → Exec W B) (w : W) {b : B} {w' : W}
      → (m >>= f) w ≡ (ok b, w')
      → (a : A) × (v : W) × (m w ≡ (ok a, v)) × (f a v ≡ (ok b, w'))
  >>=-eq-ok m f w h =
      let (a, e, k) = continue-eq-ok (m w).0 f (m w).1 h in
      (a, (m w).1, ap (λ r. (r, (m w).1)) e, k)

-- What holds of the world after `m` holds of the world that a run of `m` is known to have left.
pub at_result :
    {W A : Type 0} (P : W → Type 0) (m : Exec W A) {w v : W} {r : Result A}
    → m w ≡ (r, v)
    → P (m w).1
    → P v
at_result P m e h = subst P (ap (λ q. q.1) e) h

module _ {W A B : Type 0} (P : W → Type 0) where
  continue-ind :
      (r : Result A) (f : A → Exec W B) (v : W)
      → P v
      → ((a : A) → r ≡ ok a → P (f a v).1)
      → P (continue r f v).1
  continue-ind (ok a) f v h k = k a refl
  continue-ind (err e) f v h k = h
  continue-ind panic f v h k = h

  -- To show `P` after `m` and then `f`: it holds after `m`, and after `f` where `m` succeeded.
  pub >>=-ind :
      (m : Exec W A) (f : A → Exec W B) (w : W)
      → P (m w).1
      → ((a : A) (v : W) → m w ≡ (ok a, v) → P (f a v).1)
      → P ((m >>= f) w).1
  >>=-ind m f w h k =
      continue-ind (m w).0 f (m w).1 h (λ a e. k a (m w).1 (ap (λ r. (r, (m w).1)) e))
