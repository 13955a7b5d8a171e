-- ===== src/Sync/Keyed.antt =====
-- The maps of custom resources by name, and the lists read off them.
use mathlib.Core.Bool.{Bool-discrete}
use mathlib.Core.HLevel.{hedberg}
use mathlib.Core.Logic.{∥∥₁_elim}
use mathlib.Core.List.{Perm, Permᴰ}
use awi_catalyst_sdwan_opera.Base.{
  String, ◌≡◌, refl, ◌∙◌, Bool, false, ◌||◌, none, List, [], ◌∷◌, arith, ◌==◌, eq_iff, or_else,
  is_some,
}
use awi_catalyst_sdwan_opera.Base.Dict.{Dict, lookup, insert, erase, lookup-insert, lookup-erase}
use awi_catalyst_sdwan_opera.Api.{Resource}
use awi_catalyst_sdwan_opera.Kube.Laws.{any, find_named, is_foreign}
use awi_catalyst_sdwan_opera.Sync.{namespace, values, index_from, index_by_name}

module _ {S : Type 0} where
  lookup-index_from :
      (n : String) (crds : Dict (Resource S)) (l : List (Resource S))
      → lookup n (index_from crds l) ≡ or_else (find_named n l) (lookup n crds)
  unfolding index_from find_named
  lookup-index_from n crds [] = refl
  lookup-index_from n crds (x ∷ l) = ground (
    arith,
    lookup-index_from n (insert x.metadata.name x crds) l,
    lookup-insert x.metadata.name n x crds,
  )

  -- Each entry stands under the name of its object, which is in the namespace, and no name has two.
  abbrev pub IsKeyed : Dict (Resource S) → Type 0
  IsKeyed [] = Unit
  IsKeyed ((k, x) ∷ m) =
      (x.metadata.name ≡ k) × (is_foreign namespace x ≡ false) × (lookup k m ≡ none) × IsKeyed m

  insert-IsKeyed :
      (x : Resource S) (m : Dict (Resource S))
      → is_foreign namespace x ≡ false
      → IsKeyed m
      → IsKeyed (insert x.metadata.name x m)
  unfolding insert lookup
  insert-IsKeyed x [] h k = (refl, h, refl, tt)
  insert-IsKeyed x ((j, y) ∷ m) h k = ground (
    arith,
    insert-IsKeyed x m h k.3,
    lookup-insert x.metadata.name j x m,
    eq_iff j x.metadata.name,
    eq_iff x.metadata.name j,
  )

  pub erase-IsKeyed : (n : String) (m : Dict (Resource S)) → IsKeyed m → IsKeyed (erase n m)
  unfolding erase
  erase-IsKeyed n [] k = tt
  erase-IsKeyed n ((j, y) ∷ m) k = ground (arith, erase-IsKeyed n m k.3, lookup-erase n j m)

  index_from-IsKeyed :
      (m : Dict (Resource S)) (l : List (Resource S))
      → any (is_foreign namespace) l ≡ false
      → IsKeyed m
      → IsKeyed (index_from m l)
  unfolding index_from any
  index_from-IsKeyed m [] h k = k
  index_from-IsKeyed m (x ∷ l) h k =
      index_from-IsKeyed (insert x.metadata.name x m) l (ground arith)
        (insert-IsKeyed x m (ground arith) k)

  pub lookup-index_by_name :
      (n : String) (l : List (Resource S)) → lookup n (index_by_name l) ≡ find_named n l
  unfolding index_by_name lookup
  lookup-index_by_name n l = ground (arith, lookup-index_from n [] l)

  pub index_by_name-IsKeyed :
      (l : List (Resource S)) → any (is_foreign namespace) l ≡ false → IsKeyed (index_by_name l)
  unfolding index_by_name
  index_by_name-IsKeyed l h = index_from-IsKeyed [] l h tt

  pub any-named-values :
      (n : String) (m : Dict (Resource S))
      → IsKeyed m
      → any (λ (x : Resource S). x.metadata.name == n) (values m) ≡ is_some (lookup n m)
  unfolding any lookup
  any-named-values n [] k = refl
  any-named-values n ((j, x) ∷ m) k = ground (arith, any-named-values n m k.3)

  pub any-foreign-values :
      (m : Dict (Resource S)) → IsKeyed m → any (is_foreign namespace) (values m) ≡ false
  unfolding any
  any-foreign-values [] k = refl
  any-foreign-values ((j, x) ∷ m) k = ground (arith, any-foreign-values m k.3)

-- `range` runs through every entry of a map once, in an order of its own.
abbrev pub IsOrder : {V : Type 0} → (Dict V → List V) → Type 0
IsOrder {V} order = (m : Dict V) → Perm (order m) (values m)

any-permᴰ : {A : Type 0} (p : A → Bool) {xs ys : List A} → Permᴰ xs ys → any p xs ≡ any p ys
unfolding any
any-permᴰ p Permᴰ.nil = refl
any-permᴰ p (Permᴰ.cons e h) = ground (arith, any-permᴰ p h)
any-permᴰ p (Permᴰ.swap e f) = ground arith
any-permᴰ p (Permᴰ.trans h k) = any-permᴰ p h ∙ any-permᴰ p k

pub any-perm : {A : Type 0} (p : A → Bool) {xs ys : List A} → Perm xs ys → any p xs ≡ any p ys
any-perm p h = ∥∥₁_elim h (hedberg Bool-discrete _ _) (any-permᴰ p)

-- Two objects of the list have one name.
unfoldable pub clashes : {S : Type 0} → List (Resource S) → Bool
clashes [] = false
clashes (x ∷ xs) = any (λ y. y.metadata.name == x.metadata.name) xs || clashes xs

clashes-permᴰ : {S : Type 0} {xs ys : List (Resource S)} → Permᴰ xs ys → clashes xs ≡ clashes ys
unfolding clashes any
clashes-permᴰ Permᴰ.nil = refl
clashes-permᴰ (Permᴰ.cons {a = x} e h) =
    let named = any-permᴰ (λ z. z.metadata.name == x.metadata.name) h in
    ground (arith, clashes-permᴰ h, named, e)
clashes-permᴰ (Permᴰ.swap {a = x} {b = y} e f) =
    ground
      (arith, e, f, eq_iff x.metadata.name y.metadata.name, eq_iff y.metadata.name x.metadata.name)
clashes-permᴰ (Permᴰ.trans h k) = clashes-permᴰ h ∙ clashes-permᴰ k

pub clashes-perm : {S : Type 0} {xs ys : List (Resource S)} → Perm xs ys → clashes xs ≡ clashes ys
clashes-perm h = ∥∥₁_elim h (hedberg Bool-discrete _ _) clashes-permᴰ

pub clashes-values : {S : Type 0} (m : Dict (Resource S)) → IsKeyed m → clashes (values m) ≡ false
unfolding clashes
clashes-values [] k = refl
clashes-values ((j, x) ∷ m) k =
    ground (arith, clashes-values m k.3, any-named-values x.metadata.name m k.3)
