-- ===== src/Sync/Names.antt =====
-- Resources of two clouds, whose objects are named by the cloud and the resource's ID.
use awi_catalyst_sdwan_opera.Base.{
  String, ◌<>◌, ◌≡◌, ◌≢◌, refl, none, List, [], ◌∷◌, ◌++◌, map, arith, eq_iff,
}
use awi_catalyst_sdwan_opera.Base.Separators.{Lacks, split_at}
use awi_catalyst_sdwan_opera.Base.Text.{Unicode, to_lower}
use awi_catalyst_sdwan_opera.Sync.Creation.{find_by}
use awi_catalyst_sdwan_opera.Sync.Distinct.{IsDistinct}

module _ {R T : Type 0} (u : Unicode) (id : R → String) (tag : String → R → T) (key : T → String)
    (named : (c : String) (r : R) → key (tag c r) ≡ to_lower u c <> "." <> id r) where
  find_by-++ :
      (n : String) (xs ys : List T)
      → find_by key n xs ≡ none
      → find_by key n ys ≡ none
      → find_by key n (xs ++ ys) ≡ none
  find_by-++ n [] ys h k = k
  find_by-++ n (x ∷ xs) ys h k = ground (arith, h, k, find_by-++ n xs ys)

  module _ (c : String) (plain : Lacks "." (to_lower u c)) where
    same_name : (r s : R) → key (tag c r) ≡ key (tag c s) → id r ≡ id s
    same_name r s h =
        (split_at "." (to_lower u c) (id r) (to_lower u c) (id s) plain plain
          (cc (named c r, named c s, h))).1

    same_cloud :
        (r : R) (l : List R)
        → find_by id (id r) l ≡ none
        → find_by key (key (tag c r)) (map (tag c) l) ≡ none
    same_cloud r [] h = refl
    same_cloud r (s ∷ l) h = ground (
      arith,
      h,
      same_cloud r l,
      same_name s r,
      eq_iff (key (tag c s)) (key (tag c r)),
      eq_iff (id s) (id r),
    )

    pub tagged-IsDistinct : (l : List R) → IsDistinct id l → IsDistinct key (map (tag c) l)
    tagged-IsDistinct [] d = tt
    tagged-IsDistinct (r ∷ l) d = (same_cloud r l d.0, tagged-IsDistinct l d.1)

    module _ (c' : String) (plain' : Lacks "." (to_lower u c'))
        (apart : to_lower u c ≢ to_lower u c') where
      other_name : (r s : R) → key (tag c' s) ≢ key (tag c r)
      other_name r s h =
          apart
            (split_at "." (to_lower u c) (id r) (to_lower u c') (id s) plain plain'
              (cc (named c r, named c' s, h))).0

      other_cloud : (r : R) (l : List R) → find_by key (key (tag c r)) (map (tag c') l) ≡ none
      other_cloud r [] = refl
      other_cloud r (s ∷ l) =
          ground (arith, other_cloud r l, other_name r s, eq_iff (key (tag c' s)) (key (tag c r)))

      -- The objects of two clouds have different names where each cloud's resources have different IDs.
      pub clouds-IsDistinct :
          (l l' : List R)
          → IsDistinct id l
          → IsDistinct key (map (tag c') l')
          → IsDistinct key (map (tag c) l ++ map (tag c') l')
      clouds-IsDistinct [] l' d d' = d'
      clouds-IsDistinct (r ∷ l) l' d d' = (
        find_by-++ (key (tag c r)) (map (tag c) l) (map (tag c') l') (same_cloud r l d.0)
            (other_cloud r l'),
        clouds-IsDistinct l l' d.1 d',
      )
