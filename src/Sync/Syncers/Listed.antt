-- ===== src/Sync/Syncers/Listed.antt =====
-- Lists of stored objects, by their names and by another key.
use awi_catalyst_sdwan_opera.Base.{String, ◌≡◌, ◌≢◌, none, some, List, [], ◌∷◌, arith, eq_iff}
use awi_catalyst_sdwan_opera.Api.{Resource}
use awi_catalyst_sdwan_opera.Kube.Laws.{find_named}
use awi_catalyst_sdwan_opera.Sync.Creation.{find_by}
use awi_catalyst_sdwan_opera.Sync.Distinct.{IsDistinct}

module _ {S : Type 0} where
  abbrev pub name_of : Resource S → String
  name_of x = x.metadata.name

  find_named_absent :
      (n : String) (l : List (Resource S)) → find_by name_of n l ≡ none → find_named n l ≡ none
  unfolding find_named
  find_named_absent n [] h = ground arith
  find_named_absent n (x ∷ l) h = ground (arith, find_named_absent n l)

  module _ (key : Resource S → String) where
    -- An object that is found by its name is found by its key, unless another is met before it.
    pub find_named-find_by :
        (n : String) (x : Resource S) (l : List (Resource S))
        → find_named n l ≡ some x
        → find_by key (key x) l ≢ none
    unfolding find_named
    find_named-find_by n x [] h = ground arith
    find_named-find_by n x (y ∷ l) h =
        ground (arith, find_named-find_by n x l, eq_iff (key y) (key x))

    -- Where no two objects share a name, an object that is found by its key is found by its name.
    pub find_by-find_named :
        (n : String) (x : Resource S) (l : List (Resource S))
        → IsDistinct name_of l
        → find_by key n l ≡ some x
        → (find_named x.metadata.name l ≡ some x) × (key x ≡ n)
    unfolding find_named
    find_by-find_named n x [] d h = ground arith
    find_by-find_named n x (y ∷ l) d h = ground (
      arith,
      d.0,
      find_by-find_named n x l d.1,
      find_named_absent (name_of y) l,
      eq_iff (key y) n,
      eq_iff y.metadata.name x.metadata.name,
    )
