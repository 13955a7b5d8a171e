-- ===== src/Sync/Distinct.antt =====
-- Resources whose objects would share a name.
use awi_catalyst_sdwan_opera.Base.{
  String, ◌≡◌, ◌∙◌, Option, none, some, List, [], ◌∷◌, arith, eq_iff, Option-cases, inl, inr,
}
use awi_catalyst_sdwan_opera.Base.Dict.{Dict, lookup, erase, lookup-erase}
use awi_catalyst_sdwan_opera.Exec.{ok, >>=-eq-ok}
use awi_catalyst_sdwan_opera.Api.{Resource}
use awi_catalyst_sdwan_opera.Kube.{Client}
use awi_catalyst_sdwan_opera.Kube.Laws.{IsLawful}
use awi_catalyst_sdwan_opera.Sync.{namespace, index_by_name, create_missing, mirror}
use awi_catalyst_sdwan_opera.Sync.Creation.{find_by, IsBuild}
use awi_catalyst_sdwan_opera.Sync.Mirror.{stored_of_listed}

-- No two resources of the list have objects of one name.
abbrev pub IsDistinct : {R : Type 0} → (R → String) → List R → Type 0
IsDistinct key [] = Unit
IsDistinct key (r ∷ rs) = (find_by key (key r) rs ≡ none) × IsDistinct key rs

module _ {W S R : Type 0} (client : Client W (Resource S)) (find : W → String → Option (Resource S))
    (lawful : IsLawful namespace client find) (key : R → String) (build : R → Resource S)
    (builds : IsBuild key build) where
  -- A name that is stored and is not in the map is met no more.
  create_missing_free :
      (rs : List R) (m m' : Dict (Resource S)) (w w' : W) (k : String) (y : Resource S)
      → lookup k m ≡ none
      → find w k ≡ some y
      → create_missing client key build rs m w ≡ (ok m', w')
      → find_by key k rs ≡ none
  unfolding create_missing
  create_missing_free [] m m' w w' k y f s h = ground arith
  create_missing_free (r ∷ rs) m m' w w' k y f s h = elim (Option-cases (lookup (key r) m)) [
    | inl absent ↦
        let (_, v, created, rest) =
          >>=-eq-ok (client.create (build r)) (λ _. create_missing client key build rs m) w
            (rw (absent, create_missing) at h) in
        ground (
          arith,
          create_missing_free rs m m' v w' k y f
              (ground (
                arith,
                s,
                lawful.create_ok (build r) w v k (builds.local r) created,
                lawful.create_free (build r) w v (builds.local r) created,
                eq_iff (build r).metadata.name k,
              ))
              rest,
          lawful.create_free (build r) w v (builds.local r) created,
          builds.named r,
          eq_iff (key r) k,
        )
    | inr (x, present) ↦ ground (
      arith,
      create_missing_free rs (erase (key r) m) m' w w' k y
          (ground (arith, lookup-erase (key r) k m)) s (rw (present, create_missing) at h),
      eq_iff (key r) k,
    )
  ]

  create_missing-IsDistinct :
      (rs : List R) (m m' : Dict (Resource S)) (w w' : W)
      → ((k : String) (x : Resource S) → lookup k m ≡ some x → find w k ≡ some x)
      → create_missing client key build rs m w ≡ (ok m', w')
      → IsDistinct key rs
  unfolding create_missing
  create_missing-IsDistinct [] m m' w w' sub h = tt
  create_missing-IsDistinct (r ∷ rs) m m' w w' sub h = elim (Option-cases (lookup (key r) m)) [
    | inl absent ↦
        let (_, v, created, rest) =
          >>=-eq-ok (client.create (build r)) (λ _. create_missing client key build rs m) w
            (rw (absent, create_missing) at h) in
        (
          create_missing_free rs m m' v w' (key r) (build r) absent
              (ground (
                arith,
                lawful.create_ok (build r) w v (key r) (builds.local r) created,
                builds.named r,
                eq_iff (key r) (key r),
              ))
              rest,
          create_missing-IsDistinct rs m m' v w'
              (λ k x e. ground (arith, sub k x e, lawful.create_keeps (build r) x w k, created))
              rest,
        )
    | inr (x, present) ↦
        let rest = rw (present, create_missing) at h in
        (
          create_missing_free rs (erase (key r) m) m' w w' (key r) x
              (ground (arith, lookup-erase (key r) (key r) m, eq_iff (key r) (key r)))
              (sub (key r) x present) rest,
          create_missing-IsDistinct rs (erase (key r) m) m' w w'
              (λ k y e. ground (arith, sub k y, lookup-erase (key r) k m)) rest,
        )
  ]

  module _ (order : Dict (Resource S) → List (Resource S)) where
    -- A synchronization succeeds only where AWI reports no two resources whose objects share a name.
    pub mirror_ok-IsDistinct :
        (rs : List R) (w w' : W)
        → mirror client order key build rs w ≡ (ok tt, w')
        → IsDistinct key rs
    unfolding mirror
    mirror_ok-IsDistinct rs w w' h =
        let (l, v, listed, h₁) = >>=-eq-ok (client.list_in namespace) _ w h in
        let (m, u, created, _) =
          >>=-eq-ok (create_missing client key build rs (index_by_name l)) _ v h₁ in
        create_missing-IsDistinct rs (index_by_name l) m v u
          (λ k x e. stored_of_listed client find lawful l listed k ∙ e) created
