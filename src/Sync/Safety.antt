-- ===== src/Sync/Safety.antt =====
-- What a synchronization leaves alone, also where it fails half-way.
use awi_catalyst_sdwan_opera.Base.{
  String, ◌≡◌, ◌≢◌, refl, ◌∙◌, false, Option, none, some, List, [], ◌∷◌, arith, ◌==◌, Option-cases,
  inl, inr,
}
use awi_catalyst_sdwan_opera.Base.Dict.{Dict, lookup, erase}
use awi_catalyst_sdwan_opera.Exec.{>>=-ind}
use awi_catalyst_sdwan_opera.Api.{Resource}
use awi_catalyst_sdwan_opera.Kube.{Client}
use awi_catalyst_sdwan_opera.Kube.Laws.{IsLawful, any}
use awi_catalyst_sdwan_opera.Sync.{namespace, index_by_name, create_missing, delete_all, mirror}
use awi_catalyst_sdwan_opera.Sync.Keyed.{index_by_name-IsKeyed, any-named-values, IsOrder, any-perm}
use awi_catalyst_sdwan_opera.Sync.Creation.{
  find_by, IsBuild, create_missing-find, create_missing-IsKeyed,
}
use awi_catalyst_sdwan_opera.Sync.Mirror.{stored_of_listed}

module _ {W S : Type 0} (client : Client W (Resource S)) (find : W → String → Option (Resource S))
    (lawful : IsLawful namespace client find) where
  -- The deletion loop touches no name that is not in its list, whatever the deletions return.
  pub delete_all_keeps :
      (xs : List (Resource S)) (w : W) (n : String)
      → any (λ (x : Resource S). x.metadata.name == n) xs ≡ false
      → find (delete_all client xs w).1 n ≡ find w n
  unfolding delete_all any
  delete_all_keeps [] w n h = refl
  delete_all_keeps (x ∷ xs) w n h =
      >>=-ind (λ v. find v n ≡ find w n) (client.delete x) (λ _. delete_all client xs) w
        (lawful.delete_keeps x w n (ground arith))
        (λ a v e. ground (
          arith,
          e,
          delete_all_keeps xs v n (ground arith),
          lawful.delete_keeps x w n (ground arith),
        ))

  -- The creation loop overwrites nothing, whatever the creations return.
  pub create_missing_keeps :
      {R : Type 0} (key : R → String) (build : R → Resource S) (rs : List R) (m : Dict (Resource S))
      (w : W) (n : String) (y : Resource S)
      → find w n ≡ some y
      → find (create_missing client key build rs m w).1 n ≡ some y
  unfolding create_missing
  create_missing_keeps key build [] m w n y h = h
  create_missing_keeps key build (r ∷ rs) m w n y h = elim (Option-cases (lookup (key r) m)) [
    | inl absent ↦
        rw (absent, create_missing)
          (>>=-ind (λ v. find v n ≡ some y) (client.create (build r))
            (λ _. create_missing client key build rs m) w (lawful.create_keeps (build r) y w n h)
            (λ a v e.
              create_missing_keeps key build rs m v n y
                (ground (arith, e, lawful.create_keeps (build r) y w n h))))
    | inr (x, present) ↦
        rw (present, create_missing) (create_missing_keeps key build rs (erase (key r) m) w n y h)
  ]

module _ {W S R : Type 0} (client : Client W (Resource S)) (find : W → String → Option (Resource S))
    (lawful : IsLawful namespace client find) (order : Dict (Resource S) → List (Resource S))
    (orders : IsOrder order) (key : R → String) (build : R → Resource S)
    (builds : IsBuild key build) where
  -- An object that AWI still reports is neither deleted nor changed by a synchronization, whether
  -- this succeeds or stops at an error.
  pub mirror_keeps :
      (rs : List R) (w : W) (n : String) (y : Resource S)
      → find w n ≡ some y
      → find_by key n rs ≢ none
      → find (mirror client order key build rs w).1 n ≡ some y
  unfolding mirror
  mirror_keeps rs w n y h reported =
      >>=-ind (λ v. find v n ≡ some y) (client.list_in namespace) _ w (lawful.list_keeps w n ∙ h)
        (λ l v listed.
          let hv : find v n ≡ some y = ground (arith, listed, lawful.list_keeps w n) in
          >>=-ind (λ u. find u n ≡ some y) (create_missing client key build rs (index_by_name l)) _
            v (create_missing_keeps client find lawful key build rs (index_by_name l) v n y hv)
            (λ m u created.
              let keyed =
                create_missing-IsKeyed client key build rs (index_by_name l) m v u
                  (index_by_name-IsKeyed l (lawful.list_local w v l listed)) created in
              let (made, rest) =
                create_missing-find client find lawful key build builds rs (index_by_name l) m v u n
                  (λ k x e. stored_of_listed client find lawful l listed k ∙ e) created in
              ground (
                arith,
                made,
                rest,
                hv,
                reported,
                any-named-values n m keyed,
                any-perm (λ (x : Resource S). x.metadata.name == n) (orders m),
                delete_all_keeps client find lawful (order m) u n,
              )))
