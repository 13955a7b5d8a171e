-- ===== src/Sync/Creation.antt =====
-- What the creation loop does to the stored objects and to the map.
use awi_catalyst_sdwan_opera.Base.{
  String, ◌≡◌, Option, none, some, List, [], ◌∷◌, arith, ◌==◌, eq_iff, Option-cases, inl, inr,
  or_else, if◌then◌else◌,
}
use awi_catalyst_sdwan_opera.Base.Dict.{Dict, lookup, erase, lookup-erase}
use awi_catalyst_sdwan_opera.Exec.{ok, >>=-eq-ok}
use awi_catalyst_sdwan_opera.Api.{Resource}
use awi_catalyst_sdwan_opera.Kube.{Client}
use awi_catalyst_sdwan_opera.Kube.Laws.{IsLawful}
use awi_catalyst_sdwan_opera.Sync.{namespace, create_missing}
use awi_catalyst_sdwan_opera.Sync.Keyed.{IsKeyed, erase-IsKeyed}

-- The first resource of the list whose object would have the name `n`.
abbrev pub find_by : {R : Type 0} → (R → String) → String → List R → Option R
find_by key n [] = none
find_by key n (r ∷ rs) = if key r == n then some r else find_by key n rs

-- What the creation loop leaves of a stored object, and of an entry of the map, where `r` is the
-- reported resource of that name.
abbrev pub stored :
    {S R : Type 0} → (R → Resource S) → Option R → Option (Resource S) → Option (Resource S)
stored build none old = old
stored build (some r) old = or_else old (some (build r))

abbrev pub left : {S R : Type 0} → Option R → Option (Resource S) → Option (Resource S)
left none old = old
left (some r) old = none

-- The constructor of a kind's objects gives them their name and the namespace.
pub record IsBuild {S R : Type 0} (key : R → String) (build : R → Resource S) : Type 0 where
  pub named : (r : R) → (build r).metadata.name ≡ key r
  pub local : (r : R) → (build r).metadata.namespace ≡ namespace

module _ {W S R : Type 0} (client : Client W (Resource S)) (find : W → String → Option (Resource S))
    (lawful : IsLawful namespace client find) (key : R → String) (build : R → Resource S)
    (builds : IsBuild key build) where
  -- What a successful creation loop leaves in the cluster and in the map.
  pub create_missing-find :
      (rs : List R) (m m' : Dict (Resource S)) (w w' : W) (n : String)
      → ((k : String) (x : Resource S) → lookup k m ≡ some x → find w k ≡ some x)
      → create_missing client key build rs m w ≡ (ok m', w')
      → (find w' n ≡ stored build (find_by key n rs) (find w n))
        × (lookup n m' ≡ left (find_by key n rs) (lookup n m))
  unfolding create_missing
  create_missing-find [] m m' w w' n sub h = (ground arith, ground arith)
  create_missing-find (r ∷ rs) m m' w w' n sub h = elim (Option-cases (lookup (key r) m)) [
    | inl absent ↦
        let (_, v, created, rest) =
          >>=-eq-ok (client.create (build r)) (λ _. create_missing client key build rs m) w
            (rw (absent, create_missing) at h) in
        ground (
          arith,
          create_missing-find rs m m' v w' n
              (λ k x e. ground (
                arith,
                sub k x e,
                lawful.create_ok (build r) w v k (builds.local r) created,
                builds.named r,
                eq_iff (key r) k,
              ))
              rest,
          lawful.create_ok (build r) w v n (builds.local r) created,
          lawful.create_free (build r) w v (builds.local r) created,
          builds.named r,
          eq_iff (key r) n,
        )
    | inr (x, present) ↦ ground (
      arith,
      create_missing-find rs (erase (key r) m) m' w w' n
          (λ k y e. ground (arith, sub k y, lookup-erase (key r) k m))
          (rw (present, create_missing) at h),
      lookup-erase (key r) n m,
      sub (key r) x present,
      eq_iff (key r) n,
    )
  ]

module _ {W S R : Type 0} (client : Client W (Resource S)) (key : R → String)
    (build : R → Resource S) where
  pub create_missing-IsKeyed :
      (rs : List R) (m m' : Dict (Resource S)) (w w' : W)
      → IsKeyed m
      → create_missing client key build rs m w ≡ (ok m', w')
      → IsKeyed m'
  unfolding create_missing
  create_missing-IsKeyed [] m m' w w' k h = ground arith
  create_missing-IsKeyed (r ∷ rs) m m' w w' k h = elim (Option-cases (lookup (key r) m)) [
    | inl absent ↦
        let (_, v, created, rest) =
          >>=-eq-ok (client.create (build r)) (λ _. create_missing client key build rs m) w
            (rw (absent, create_missing) at h) in
        create_missing-IsKeyed rs m m' v w' k rest
    | inr (x, present) ↦
        create_missing-IsKeyed rs (erase (key r) m) m' w w' (erase-IsKeyed (key r) m k)
          (rw (present, create_missing) at h)
  ]
