-- ===== src/Status/Store.antt =====
-- What status writes leave in the API server, over the objects of one kind.
use awi_catalyst_sdwan_opera.Base.{
  ◌≡◌, ◌≢◌, refl, sym, ap, subst, ◌∙◌, Bool, true, Option, some, List, [], ◌∷◌, map, Bool-cases,
  inl, inr, if◌then◌else◌,
}
use awi_catalyst_sdwan_opera.Exec.{ok}
use awi_catalyst_sdwan_opera.Kube.{NamespacedName, Client}
use awi_catalyst_sdwan_opera.Status.{write}
use awi_catalyst_sdwan_opera.Status.Updates.{write_all}

module _ {X : Type 0} (key_of : X → NamespacedName) where
  abbrev pub IsAbsent : NamespacedName → List X → Type 0
  IsAbsent k [] = Unit
  IsAbsent k (crd ∷ items) = (k ≢ key_of crd) × IsAbsent k items

  -- No two objects of the list have one key.
  abbrev pub IsApart : List X → Type 0
  IsApart [] = Unit
  IsApart (crd ∷ items) = IsAbsent (key_of crd) items × IsApart items

-- The objects that are not as they should be, as they should be: `fresh` is what an object should be,
-- and `same` the test that it is so.
module _ {X : Type 0} (fresh : X → X) (same : X → Bool) where
  unfoldable pub outdated : List X → List X
  outdated [] = []
  outdated (crd ∷ items) = let rest = outdated items in if same crd then rest else fresh crd ∷ rest

module _ {W X : Type 0} (key_of : X → NamespacedName) (client : Client W X)
    (shown : W → NamespacedName → Option X) where
  -- The API server where no status write fails: it stores the object, and touches no other.
  pub record IsWritable : Type 0 where
    pub accepted :
        (w : W) (crd : X)
        → (v : W) × (client.update_status crd w ≡ (ok crd, v)) × (shown v (key_of crd) ≡ some crd)
    pub others :
        (w : W) (crd : X) (k : NamespacedName)
        → k ≢ key_of crd
        → shown (client.update_status crd w).1 k ≡ shown w k

  -- The stored objects are those of the list.
  abbrev pub AllShown : W → List X → Type 0
  AllShown w [] = Unit
  AllShown w (crd ∷ items) = (shown w (key_of crd) ≡ some crd) × AllShown w items

  AllShown-agree :
      (items : List X) (w v : W) (k : NamespacedName)
      → IsAbsent key_of k items
      → ((j : NamespacedName) → j ≢ k → shown v j ≡ shown w j)
      → AllShown w items
      → AllShown v items
  AllShown-agree [] w v k absent agree all = tt
  AllShown-agree (crd ∷ items) w v k absent agree all = (
    agree (key_of crd) (λ e. absent.0 (sym e)) ∙ all.0,
    AllShown-agree items w v k absent.1 agree all.1,
  )

  module _ (laws : IsWritable) where
    write-accepted :
        (w : W) (crd : X)
        → (v : W) × (write client crd w ≡ (ok tt, v))
          × (shown v (key_of crd) ≡ some crd)
          × ((k : NamespacedName) → k ≢ key_of crd → shown v k ≡ shown w k)
    unfolding write
    write-accepted w crd =
        let (v, e, s) = laws.accepted w crd in
        (v, rw e, s, λ k h. ap (λ p. shown p.1 k) (sym e) ∙ laws.others w crd k h)

    write_all-others :
        (xs : List X) (w : W) (k : NamespacedName)
        → IsAbsent key_of k xs
        → shown (write_all client xs w).1 k ≡ shown w k
    unfolding write_all
    write_all-others [] w k absent = refl
    write_all-others (x ∷ xs) w k absent =
        let (v, e, _, agree) = write-accepted w x in
        rw e (write_all-others xs v k absent.1 ∙ agree k absent.0)

    module _ (fresh : X → X) (same : X → Bool)
        (key_of-fresh : (crd : X) → key_of (fresh crd) ≡ key_of crd)
        (fresh_same : (crd : X) → same crd ≡ true → fresh crd ≡ crd) where
      outdated-IsAbsent :
          (items : List X) (k : NamespacedName)
          → IsAbsent key_of k items
          → IsAbsent key_of k (outdated fresh same items)
      unfolding outdated
      outdated-IsAbsent [] k absent = tt
      outdated-IsAbsent (crd ∷ items) k absent = elim (Bool-cases (same crd)) [
        | inl kept ↦ rw (kept, outdated) (outdated-IsAbsent items k absent.1)
        | inr differs ↦
            rw (differs, outdated)
              ((λ e. absent.0 (e ∙ key_of-fresh crd)), outdated-IsAbsent items k absent.1)
      ]

      pub write_all-AllShown :
          (items : List X) (w : W)
          → IsApart key_of items
          → AllShown w items
          → AllShown (write_all client (outdated fresh same items) w).1 (map fresh items)
      unfolding outdated write_all
      write_all-AllShown [] w apart all = tt
      write_all-AllShown (crd ∷ items) w apart all =
          let rest = outdated fresh same items in
          let absent = outdated-IsAbsent items (key_of crd) apart.0 in
          let goal = λ (v : W). AllShown v (fresh crd ∷ map fresh items) in
          elim (Bool-cases (same crd)) [
            | inl kept ↦
                let unchanged : outdated fresh same (crd ∷ items) ≡ rest = rw (kept, outdated) in
                subst (λ xs. goal (write_all client xs w).1) (sym unchanged)
                  (
                    subst (λ y. shown (write_all client rest w).1 (key_of y) ≡ some y)
                        (sym (fresh_same crd kept))
                        (write_all-others rest w (key_of crd) absent ∙ all.0),
                    write_all-AllShown items w apart.1 all.1,
                  )
            | inr differs ↦
                let (v, e, written, agree) = write-accepted w (fresh crd) in
                let spared = subst (λ k. IsAbsent key_of k rest) (sym (key_of-fresh crd)) absent in
                let changed : write_all client (outdated fresh same (crd ∷ items)) w
                    ≡ write_all client rest v =
                  rw (differs, outdated, e) in
                subst (λ q. goal q.1) (sym changed)
                  (
                    write_all-others rest v (key_of (fresh crd)) spared ∙ written,
                    write_all-AllShown items v apart.1 (
                        AllShown-agree items w v (key_of crd) apart.0
                          (λ j other. agree j (λ q. other (q ∙ key_of-fresh crd))) all.1),
                  )
          ]
