-- ===== src/Base/Dict.antt =====
-- Go's `map[string]V` as an association list in which a write replaces the entry of its key.
use Prim.Native.String.{String}
use mathlib.Core.Path.{◌≡◌, refl}
use mathlib.Core.Option.{Option, none, some}
use mathlib.Core.List.{List, [], ◌∷◌}
use native.Mathlib.Omega.{arith}
use text.Mathlib.Text.{◌==◌}
use text.Mathlib.TextEquality.{eq_iff}
use awi_catalyst_sdwan_opera.Base.Tests.{if◌then◌else◌}

abbrev pub Dict {ℓ} : Type ℓ → Type ℓ
Dict V = List (String × V)

module _ {ℓ} {V : Type ℓ} where
  unfoldable pub lookup : String → Dict V → Option V
  lookup wanted [] = none
  lookup wanted ((key, value) ∷ entries) =
      if key == wanted then some value else lookup wanted entries

  -- `delete(m, k)`
  unfoldable pub erase : String → Dict V → Dict V
  erase gone [] = []
  erase gone ((key, value) ∷ entries) =
      let kept = erase gone entries in if key == gone then kept else (key, value) ∷ kept

  -- `m[k] = v`
  unfoldable pub insert : String → V → Dict V → Dict V
  insert written new [] = (written, new) ∷ []
  insert written new ((key, value) ∷ entries) =
      if key == written then (written, new) ∷ entries else (key, value) ∷ insert written new entries

  pub lookup-erase :
      (gone wanted : String) (entries : Dict V)
      → lookup wanted (erase gone entries)
        ≡ (if gone == wanted then none else lookup wanted entries)
  unfolding lookup erase
  lookup-erase gone wanted [] = ground arith
  lookup-erase gone wanted ((key, value) ∷ entries) = ground (
    arith,
    eq_iff gone wanted,
    eq_iff key gone,
    eq_iff key wanted,
    lookup-erase gone wanted entries,
  )

  pub lookup-insert :
      (written wanted : String) (new : V) (entries : Dict V)
      → lookup wanted (insert written new entries)
        ≡ (if written == wanted then some new else lookup wanted entries)
  unfolding lookup insert
  lookup-insert written wanted new [] = refl
  lookup-insert written wanted new ((key, value) ∷ entries) = ground (
    arith,
    eq_iff key wanted,
    eq_iff written wanted,
    eq_iff key written,
    lookup-insert written wanted new entries,
  )
