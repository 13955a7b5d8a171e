-- ===== src/Exec/Calm.antt =====
-- Calls that do not panic.
use awi_catalyst_sdwan_opera.Base.{◌≢◌, refl, arith}
use awi_catalyst_sdwan_opera.Exec.{
  Exec, Error, Result, ok, err, panic, pure, raise, continue, ◌>>=◌, ◌>>◌,
}

abbrev pub IsCalm : {W A : Type 0} → Exec W A → Type 0
IsCalm {W} m = (w : W) → (m w).0 ≢ panic

ok_calm : {A : Type 0} (a : A) → ok a ≢ panic
ok_calm a h = ground (arith, h)

err_calm : {A : Type 0} (e : Error) → (let r : Result A = err e in r ≢ panic)
err_calm e h = ground (arith, h)

pub pure-IsCalm : {W A : Type 0} (a : A) → (let m : Exec W A = pure a in IsCalm m)
pure-IsCalm a w = ok_calm a

pub raise-IsCalm : {W A : Type 0} (e : Error) → (let m : Exec W A = raise e in IsCalm m)
raise-IsCalm e w = err_calm e

module _ {W A B : Type 0} where
  continue_calm :
      (r : Result A) (f : A → Exec W B) (v : W)
      → r ≢ panic
      → ((a : A) → IsCalm (f a))
      → (continue r f v).0 ≢ panic
  continue_calm (ok a) f v h k = k a v
  continue_calm (err e) f v h k = err_calm e
  continue_calm panic f v h k = absurd (h refl)

  pub >>=-IsCalm :
      (m : Exec W A) (f : A → Exec W B) → IsCalm m → ((a : A) → IsCalm (f a)) → IsCalm (m >>= f)
  >>=-IsCalm m f h k w = continue_calm (m w).0 f (m w).1 (h w) k

  pub >>-IsCalm : (m : Exec W A) (n : Exec W B) → IsCalm m → IsCalm n → IsCalm (m >> n)
  >>-IsCalm m n h k = >>=-IsCalm m (λ _. n) h (λ _. k)
