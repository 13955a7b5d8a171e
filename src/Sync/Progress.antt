-- ===== src/Sync/Progress.antt =====
-- Where a synchronization succeeds.
use awi_catalyst_sdwan_opera.Base.{
  String, ◌≡◌, ◌≢◌, refl, sym, ◌∙◌, Bool, false, not, Option, none, List, [], ◌∷◌, arith, ◌==◌,
  eq_iff, is_some, some, Option-cases, inl, inr, if◌then◌else◌,
}
use awi_catalyst_sdwan_opera.Base.Dict.{Dict, lookup, erase, lookup-erase}
use awi_catalyst_sdwan_opera.Exec.{ok}
use awi_catalyst_sdwan_opera.Api.{Resource}
use awi_catalyst_sdwan_opera.Kube.{Client}
use awi_catalyst_sdwan_opera.Kube.Laws.{IsLawful, any, is_foreign}
use awi_catalyst_sdwan_opera.Sync.{
  namespace, values, index_by_name, create_missing, delete_all, mirror,
}
use awi_catalyst_sdwan_opera.Sync.Keyed.{
  IsKeyed, IsOrder, any-perm, any-foreign-values, index_by_name-IsKeyed, clashes, clashes-perm,
  clashes-values,
}
use awi_catalyst_sdwan_opera.Sync.Creation.{
  find_by, stored, left, IsBuild, create_missing-find, create_missing-IsKeyed,
}
use awi_catalyst_sdwan_opera.Sync.Mirror.{stored_of_listed}
use awi_catalyst_sdwan_opera.Sync.Distinct.{IsDistinct}

-- An API server that refuses no call but the creation of an object under a name that is taken
-- and the deletion of an object that is not stored.
pub record IsResponsive {W S : Type 0} (client : Client W (Resource S))
    (find : W → String → Option (Resource S)) : Type 0 where
  pub list_answers :
      (w : W) → (l : List (Resource S)) × (v : W) × (client.list_in namespace w ≡ (ok l, v))
  pub create_answers :
      (x : Resource S) (w : W)
      → x.metadata.namespace ≡ namespace
      → find w x.metadata.name ≡ none
      → (v : W) × (client.create x w ≡ (ok tt, v))
  pub delete_answers :
      (x : Resource S) (w : W)
      → x.metadata.namespace ≡ namespace
      → find w x.metadata.name ≢ none
      → (v : W) × (client.delete x w ≡ (ok tt, v))

module _ {W S : Type 0} (client : Client W (Resource S)) (find : W → String → Option (Resource S))
    (lawful : IsLawful namespace client find) (responsive : IsResponsive client find) where
  missing : W → Resource S → Bool
  missing w x = not (is_some (find w x.metadata.name))

  missing_after :
      (w u : W) (name : String) (xs : List (Resource S))
      → ((n : String) → find u n ≡ (if name == n then none else find w n))
      → any (λ (x : Resource S). x.metadata.name == name) xs ≡ false
      → any (missing w) xs ≡ false
      → any (missing u) xs ≡ false
  unfolding any missing
  missing_after w u name [] gone f g = refl
  missing_after w u name (x ∷ xs) gone f g = ground (
    arith,
    missing_after w u name xs gone,
    gone x.metadata.name,
    eq_iff name x.metadata.name,
    eq_iff x.metadata.name name,
  )

  missing-values :
      (w : W) (m : Dict (Resource S))
      → IsKeyed m
      → ((n : String) → lookup n m ≢ none → find w n ≢ none)
      → any (missing w) (values m) ≡ false
  unfolding any missing lookup
  missing-values w [] k shows = refl
  missing-values w ((j, x) ∷ m) k shows = ground (
    arith,
    shows j,
    eq_iff j j,
    missing-values w m k.3 (λ n present. shows n (ground (arith, present))),
  )

  -- The loop over stored objects of different names.
  delete_all_succeeds :
      (xs : List (Resource S)) (w : W)
      → any (is_foreign namespace) xs ≡ false
      → clashes xs ≡ false
      → any (missing w) xs ≡ false
      → (v : W) × (delete_all client xs w ≡ (ok tt, v))
  unfolding delete_all any clashes missing
  delete_all_succeeds [] w f c s = (w, refl)
  delete_all_succeeds (x ∷ xs) w f c s =
      let local : x.metadata.namespace ≡ namespace =
        ground (arith, eq_iff x.metadata.namespace namespace) in
      let (u, e) = responsive.delete_answers x w local (ground arith) in
      let (v, e') = delete_all_succeeds xs u (ground arith) (ground arith) (
        missing_after w u x.metadata.name xs (λ n. lawful.delete_ok x w u n local e) (ground arith)
          (ground arith)) in
      (v, rw e e')

  present_after :
      {R : Type 0} (build : R → Resource S) (r : Option R)
      {before after listed rest : Option (Resource S)}
      → after ≡ stored build r before
      → rest ≡ left r listed
      → before ≡ listed
      → rest ≢ none
      → after ≢ none
  present_after build none e f g present h = present (f ∙ sym g ∙ sym e ∙ h)
  present_after build (some r) e f g present h = present f

  module _ {R : Type 0} (key : R → String) (build : R → Resource S)
      (builds : IsBuild key build) where
    -- The map shows what is stored under the names that are still to come.
    create_missing_succeeds :
        (rs : List R) (m : Dict (Resource S)) (w : W)
        → IsDistinct key rs
        → ((n : String) → find_by key n rs ≢ none → lookup n m ≡ find w n)
        → (m' : Dict (Resource S)) × (v : W) × (create_missing client key build rs m w ≡ (ok m', v))
    unfolding create_missing
    create_missing_succeeds [] m w d shows = (m, w, refl)
    create_missing_succeeds (r ∷ rs) m w d shows =
        let here = shows (key r) (ground (arith, eq_iff (key r) (key r))) in
        elim (Option-cases (lookup (key r) m)) [
          | inl absent ↦
              let (u, created) =
                responsive.create_answers (build r) w (builds.local r)
                  (ground (arith, absent, here, builds.named r)) in
              let (m', v, e) = create_missing_succeeds rs m u d.1 (λ n later. ground (
                arith,
                later,
                shows n,
                d.0,
                lawful.create_ok (build r) w u n (builds.local r) created,
                builds.named r,
                eq_iff (key r) n,
              )) in
              (m', v, rw (absent, create_missing, created) e)
          | inr (x, present) ↦
              let (m', v, e) = create_missing_succeeds rs (erase (key r) m) w d.1 (λ n later.
                ground (arith, later, shows n, d.0, lookup-erase (key r) n m, eq_iff (key r) n)) in
              (m', v, rw (present, create_missing) e)
        ]

    module _ (order : Dict (Resource S) → List (Resource S)) (orders : IsOrder order) where
      -- Where the API server refuses no call but the creation of an object under a name that is taken
      -- and the deletion of one that is not stored, and no two of the reported resources have objects
      -- of one name, a synchronization succeeds.
      pub mirror_succeeds :
          (rs : List R) (w : W)
          → IsDistinct key rs
          → (v : W) × (mirror client order key build rs w ≡ (ok tt, v))
      unfolding mirror
      mirror_succeeds rs w d =
          let (l, w₁, listed) = responsive.list_answers w in
          let shown = stored_of_listed client find lawful l listed in
          let (m, w₂, created) =
            create_missing_succeeds rs (index_by_name l) w₁ d (λ n _. sym (shown n)) in
          let keyed =
            create_missing-IsKeyed client key build rs (index_by_name l) m w₁ w₂
              (index_by_name-IsKeyed l (lawful.list_local w w₁ l listed)) created in
          let (v, deleted) =
            delete_all_succeeds (order m) w₂
              (any-perm (is_foreign namespace) (orders m) ∙ any-foreign-values m keyed)
              (clashes-perm (orders m) ∙ clashes-values m keyed)
              (any-perm (missing w₂) (orders m)
                ∙ missing-values w₂ m keyed (λ n present.
                  let (after, left) =
                    create_missing-find client find lawful key build builds rs (index_by_name l) m
                      w₁ w₂ n (λ k x e. shown k ∙ e) created in
                  present_after build (find_by key n rs) after left (shown n) present)) in
          (v, rw (listed, created) deleted)
