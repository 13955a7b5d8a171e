-- ===== src/Sync/Calls.antt =====
-- How many calls of the API server a synchronization makes.
use mathlib.Core.HLevel.{hedberg}
use mathlib.Core.Logic.{∥∥₁_elim}
use mathlib.Core.List.{Perm, Permᴰ}
use native.Mathlib.Decide.{ℕ_discrete}
use awi_catalyst_sdwan_opera.Base.{
  ℕ, suc, ◌+◌, ◌≤◌, String, ◌≡◌, refl, ap, ◌∙◌, List, [], ◌∷◌, arith, Option-cases, inl, inr,
}
use awi_catalyst_sdwan_opera.Base.Dict.{Dict, lookup, insert, erase}
use awi_catalyst_sdwan_opera.Exec.{ok, >>=-ind, >>=-eq-ok, at_result}
use awi_catalyst_sdwan_opera.Api.{Resource}
use awi_catalyst_sdwan_opera.Kube.{Client}
use awi_catalyst_sdwan_opera.Sync.{
  namespace, values, index_from, index_by_name, create_missing, delete_all, mirror,
}
use awi_catalyst_sdwan_opera.Sync.Keyed.{IsOrder}

unfoldable pub length : {A : Type 0} → List A → ℕ
length [] = 0
length (x ∷ xs) = suc (length xs)

length-permᴰ : {A : Type 0} {xs ys : List A} → Permᴰ xs ys → length xs ≡ length ys
unfolding length
length-permᴰ Permᴰ.nil = refl
length-permᴰ (Permᴰ.cons e h) = ap suc (length-permᴰ h)
length-permᴰ (Permᴰ.swap e f) = refl
length-permᴰ (Permᴰ.trans h k) = length-permᴰ h ∙ length-permᴰ k

length-perm : {A : Type 0} {xs ys : List A} → Perm xs ys → length xs ≡ length ys
length-perm h = ∥∥₁_elim h (hedberg ℕ_discrete _ _) length-permᴰ

module _ {V : Type 0} where
  length-values : (m : Dict V) → length (values m) ≡ length m
  unfolding length
  length-values [] = refl
  length-values (x ∷ m) = ap suc (length-values m)

  length-erase : (n : String) (m : Dict V) → length (erase n m) ≤ length m
  unfolding length erase
  length-erase n [] = ground arith
  length-erase n (x ∷ m) = ground (arith, length-erase n m)

  length-insert : (n : String) (v : V) (m : Dict V) → length (insert n v m) ≤ suc (length m)
  unfolding length insert
  length-insert n v [] = ground arith
  length-insert n v (x ∷ m) = ground (arith, length-insert n v m)

module _ {S : Type 0} where
  length-index_from :
      (m : Dict (Resource S)) (l : List (Resource S))
      → length (index_from m l) ≤ length l + length m
  unfolding length index_from
  length-index_from m [] = ground arith
  length-index_from m (x ∷ l) =
      omega
        (arith, length-index_from (insert x.metadata.name x m) l, length-insert x.metadata.name x m)

  length-index_by_name : (l : List (Resource S)) → length (index_by_name l) ≤ length l
  unfolding index_by_name length
  length-index_by_name l = omega (arith, length-index_from [] l)

-- The calls go up by at most one with each of the calls that pkg/sync makes of a client.
pub record IsCounted {W S : Type 0} (calls : W → ℕ) (client : Client W (Resource S)) : Type 0 where
  pub list_counted : (w : W) → calls (client.list_in namespace w).1 ≤ suc (calls w)
  pub create_counted : (x : Resource S) (w : W) → calls (client.create x w).1 ≤ suc (calls w)
  pub delete_counted : (x : Resource S) (w : W) → calls (client.delete x w).1 ≤ suc (calls w)

module _ {W S : Type 0} (calls : W → ℕ) (client : Client W (Resource S))
    (counted : IsCounted calls client) where
  delete_all_counted :
      (xs : List (Resource S)) (w : W) → calls (delete_all client xs w).1 ≤ length xs + calls w
  unfolding delete_all length
  delete_all_counted [] w = omega arith
  delete_all_counted (x ∷ xs) w =
      >>=-ind (λ v. calls v ≤ suc (length xs) + calls w) (client.delete x)
        (λ _. delete_all client xs) w (omega (arith, counted.delete_counted x w))
        (λ a v e.
          let deleted : calls v ≤ suc (calls w) =
            at_result (λ v. calls v ≤ suc (calls w)) (client.delete x) e
              (counted.delete_counted x w) in
          omega (arith, delete_all_counted xs v, deleted))

  module _ {R : Type 0} (key : R → String) (build : R → Resource S) where
    create_missing_counted :
        (rs : List R) (m : Dict (Resource S)) (w : W)
        → calls (create_missing client key build rs m w).1 ≤ length rs + calls w
    unfolding create_missing length
    create_missing_counted [] m w = omega arith
    create_missing_counted (r ∷ rs) m w = elim (Option-cases (lookup (key r) m)) [
      | inl absent ↦
          rw (absent, create_missing)
            (>>=-ind (λ v. calls v ≤ suc (length rs) + calls w) (client.create (build r))
              (λ _. create_missing client key build rs m) w
              (omega (arith, counted.create_counted (build r) w))
              (λ a v e.
                let created : calls v ≤ suc (calls w) =
                  at_result (λ v. calls v ≤ suc (calls w)) (client.create (build r)) e
                    (counted.create_counted (build r) w) in
                omega (arith, create_missing_counted rs m v, created)))
      | inr (x, present) ↦
          rw (present, create_missing)
            (omega (arith, create_missing_counted rs (erase (key r) m) w))
    ]

    length-create_missing :
        (rs : List R) (m m' : Dict (Resource S)) (w w' : W)
        → create_missing client key build rs m w ≡ (ok m', w')
        → length m' ≤ length m
    unfolding create_missing
    length-create_missing [] m m' w w' h = ground (arith, h)
    length-create_missing (r ∷ rs) m m' w w' h = elim (Option-cases (lookup (key r) m)) [
      | inl absent ↦
          let (_, v, created, rest) =
            >>=-eq-ok (client.create (build r)) (λ _. create_missing client key build rs m) w
              (rw (absent, create_missing) at h) in
          length-create_missing rs m m' v w' rest
      | inr (x, present) ↦ omega (
        arith,
        length-create_missing rs (erase (key r) m) m' w w' (rw (present, create_missing) at h),
        length-erase (key r) m,
      )
    ]

    -- Where the API server lists `l`, a synchronization of `rs` makes at most one call, and one more
    -- for each resource of `rs` and for each object of `l`, whether it succeeds or stops at an error.
    pub mirror_calls :
        (order : Dict (Resource S) → List (Resource S))
        → IsOrder order
        → (rs : List R) (l : List (Resource S)) (w v : W) → client.list_in namespace w ≡ (ok l, v)
        → calls (mirror client order key build rs w).1 ≤ suc (length rs + length l) + calls w
    unfolding mirror
    mirror_calls order orders rs l w v listed =
        let P = λ (u : W). calls u ≤ suc (length rs + length l) + calls w in
        let once : calls v ≤ suc (calls w) =
          at_result (λ v. calls v ≤ suc (calls w)) (client.list_in namespace) listed
            (counted.list_counted w) in
        let create = create_missing client key build rs (index_by_name l) in
        let created : calls (create v).1 ≤ length rs + calls v =
          create_missing_counted rs (index_by_name l) v in
        rw listed (
          >>=-ind P create (λ m. delete_all client (order m)) v (omega (arith, created, once))
            λ m u e.
              let at_most : calls u ≤ length rs + calls v =
                at_result (λ u. calls u ≤ length rs + calls v) create e created in
              omega (
                arith,
                delete_all_counted (order m) u,
                at_most,
                once,
                length-perm (orders m),
                length-values m,
                length-create_missing rs (index_by_name l) m v u e,
                length-index_by_name l,
              ))
