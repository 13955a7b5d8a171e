-- ===== src/Base/Text.antt =====
-- What the code uses of Go's `strings` package.
use Prim.Native.Nat.{compare, Ordering}
use Prim.Native.Char.{Char, code}
use Prim.Native.String.{String}
use mathlib.Core.Bool.{Bool, true, false}
use awi_catalyst_sdwan_opera.Base.Tests.{if◌then◌else◌}

-- The case tables of package `unicode`, read only outside ASCII.
pub record Unicode : Type 0 where
  pub lower : Char → Char
  pub upper : Char → Char

abbrev is_ascii : Char → Bool
is_ascii c = elim (compare (code c) 128) [ Ordering.lt ↦ true | _ ↦ false ]

abbrev same : Char → Char → Bool
same c d = elim (compare (code c) (code d)) [ Ordering.eq ↦ true | _ ↦ false ]

-- The character of `to` at the first place where `from` has `c`, and `c` where there is none.
translate : String → String → Char → Char
translate (String.◌∷◌ x from) (String.◌∷◌ y to) c = if same c x then y else translate from to c
translate _ _ c = c

abbrev small : String
small = "abcdefghijklmnopqrstuvwxyz"

abbrev capital : String
capital = "ABCDEFGHIJKLMNOPQRSTUVWXYZ"

map_chars : (Char → Char) → String → String
map_chars f String.[] = String.[]
map_chars f (String.◌∷◌ c s) = String.◌∷◌ (f c) (map_chars f s)

-- `strings.ToLower`
unfoldable pub to_lower : Unicode → String → String
unfolding translate map_chars
to_lower u = map_chars (λ c. if is_ascii c then translate capital small c else u.lower c)

-- `strings.ToUpper`
unfoldable pub to_upper : Unicode → String → String
unfolding translate map_chars
to_upper u = map_chars (λ c. if is_ascii c then translate small capital c else u.upper c)
