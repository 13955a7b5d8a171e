-- ===== src/Base/Separators.antt =====
-- Texts that are put together around a separator.
use Prim.Native.Char.{Char, code}
use Prim.Native.String.{String, ◌++◌ as ◌<>◌}
use mathlib.Core.Path.{◌≡◌, refl, sym, ap, ap₂, ◌∙◌}
use mathlib.Core.Logic.{◌≢◌}
use text.Mathlib.TextLemmas.{nil-append, cons-append, head-eq_of_cons-eq, tail-eq_of_cons-eq}

-- The text does not contain the character.
abbrev pub Lacks : Char → String → Type 0
Lacks sep String.[] = Unit
Lacks sep (String.◌∷◌ c s) = (code c ≢ code sep) × Lacks sep s

module _ (sep : Char) where
  abbrev joined : String → String → String
  joined a b = a <> String.◌∷◌ sep b

  -- What comes before the first separator, and what comes after it, are read back.
  pub split_joined :
      (a b c d : String)
      → Lacks sep a
      → Lacks sep c
      → a <> String.◌∷◌ sep b ≡ c <> String.◌∷◌ sep d
      → (a ≡ c) × (b ≡ d)
  split_joined String.[] b String.[] d fa fc h =
      (refl, tail-eq_of_cons-eq (sym (nil-append _) ∙ h ∙ nil-append _))
  split_joined String.[] b (String.◌∷◌ y c) d fa fc h =
      let e = sym (nil-append _) ∙ h ∙ cons-append y c (String.◌∷◌ sep d) in
      absurd (fc.0 (ap code (sym (head-eq_of_cons-eq e))))
  split_joined (String.◌∷◌ x a) b String.[] d fa fc h =
      let e = sym (cons-append x a (String.◌∷◌ sep b)) ∙ h ∙ nil-append _ in
      absurd (fa.0 (ap code (head-eq_of_cons-eq e)))
  split_joined (String.◌∷◌ x a) b (String.◌∷◌ y c) d fa fc h =
      let e = sym (cons-append x a (String.◌∷◌ sep b)) ∙ h ∙ cons-append y c (String.◌∷◌ sep d) in
      let (p, q) = split_joined a b c d fa.1 fc.1 (tail-eq_of_cons-eq e) in
      (ap₂ String.◌∷◌ (head-eq_of_cons-eq e) p, q)

  -- A separator written as a text of one character.
  pub join_eq : (a b : String) → a <> (String.◌∷◌ sep String.[] <> b) ≡ a <> String.◌∷◌ sep b
  join_eq a b = ap (λ t. a <> t) (cons-append sep String.[] b ∙ ap (String.◌∷◌ sep) (nil-append b))

  pub split_at :
      (a b c d : String)
      → Lacks sep a
      → Lacks sep c
      → a <> (String.◌∷◌ sep String.[] <> b) ≡ c <> (String.◌∷◌ sep String.[] <> d)
      → (a ≡ c) × (b ≡ d)
  split_at a b c d fa fc h = split_joined a b c d fa fc (sym (join_eq a b) ∙ h ∙ join_eq c d)
