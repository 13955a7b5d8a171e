-- ===== src/Sync/Repeat.antt =====
-- A synchronization that follows a successful one.
use mathlib.Core.List.Perm
use awi_catalyst_sdwan_opera.Base.{
  String, ◌≡◌, ◌≢◌, refl, sym, ◌∙◌, Option, none, List, [], ◌∷◌, arith, eq_iff, Option-cases, inl,
  inr,
}
use awi_catalyst_sdwan_opera.Base.Dict.{Dict, lookup, erase, lookup-erase}
use awi_catalyst_sdwan_opera.Exec.{ok}
use awi_catalyst_sdwan_opera.Api.{Resource}
use awi_catalyst_sdwan_opera.Kube.{Client}
use awi_catalyst_sdwan_opera.Kube.Laws.{IsLawful}
use awi_catalyst_sdwan_opera.Sync.{namespace, index_by_name, create_missing, mirror}
use awi_catalyst_sdwan_opera.Sync.Keyed.{IsOrder}
use awi_catalyst_sdwan_opera.Sync.Creation.{find_by, left, IsBuild}
use awi_catalyst_sdwan_opera.Sync.Mirror.{stored_of_listed, mirror-find, kept_by_list}
use awi_catalyst_sdwan_opera.Sync.Distinct.{IsDistinct, mirror_ok-IsDistinct}

-- The map without the names of the resources.
erase_all : {R V : Type 0} → (R → String) → List R → Dict V → Dict V
erase_all key [] m = m
erase_all key (r ∷ rs) m = erase_all key rs (erase (key r) m)

module _ {S R : Type 0} (key : R → String) where
  lookup-erase_all :
      (n : String) (rs : List R) (m : Dict (Resource S))
      → lookup n (erase_all key rs m) ≡ left (find_by key n rs) (lookup n m)
  unfolding erase_all
  lookup-erase_all n [] m = refl
  lookup-erase_all n (r ∷ rs) m =
      ground (arith, lookup-erase_all n rs (erase (key r) m), lookup-erase (key r) n m)

eq_empty : {V : Type 0} (m : Dict V) → ((n : String) → lookup n m ≡ none) → m ≡ []
unfolding lookup
eq_empty [] h = refl
eq_empty ((k, v) ∷ m) h = ground (arith, h k, eq_iff k k)

module _ {W S R : Type 0} (client : Client W (Resource S)) (key : R → String)
    (build : R → Resource S) where
  -- Where each resource has its entry, nothing is created.
  create_missing-none :
      (rs : List R) (m : Dict (Resource S)) (w : W)
      → IsDistinct key rs
      → ((n : String) → find_by key n rs ≢ none → lookup n m ≢ none)
      → create_missing client key build rs m w ≡ (ok (erase_all key rs m), w)
  unfolding create_missing erase_all
  create_missing-none [] m w d h = refl
  create_missing-none (r ∷ rs) m w d h = elim (Option-cases (lookup (key r) m)) [
    | inl absent ↦ absurd (h (key r) (ground (arith, eq_iff (key r) (key r))) absent)
    | inr (x, present) ↦
        rw (present, create_missing)
          (create_missing-none rs (erase (key r) m) w d.1
            (λ n e. ground (arith, e, h n, d.0, lookup-erase (key r) n m, eq_iff (key r) n)))
  ]

module _ {W S R : Type 0} (client : Client W (Resource S)) (find : W → String → Option (Resource S))
    (lawful : IsLawful namespace client find) (order : Dict (Resource S) → List (Resource S))
    (orders : IsOrder order) (key : R → String) (build : R → Resource S)
    (builds : IsBuild key build) where
  -- A synchronization that follows a successful one for the same resources writes nothing: where
  -- its list call succeeds, it returns no error and leaves the world as that call left it.
  pub mirror_twice :
      (rs : List R) (w w' w'' : W) (l : List (Resource S))
      → mirror client order key build rs w ≡ (ok tt, w')
      → client.list_in namespace w' ≡ (ok l, w'')
      → mirror client order key build rs w' ≡ (ok tt, w'')
  unfolding mirror
  mirror_twice rs w w' w'' l h listed =
      let m = index_by_name l in
      let entry = λ (n : String).
        sym (stored_of_listed client find lawful l listed n)
        ∙ kept_by_list client find lawful l listed n
        ∙ mirror-find client find lawful order orders key build builds rs w w' n h in
      let idle =
        create_missing-none client key build rs m w''
          (mirror_ok-IsDistinct client find lawful key build builds order rs w w' h)
          (λ n e. ground (arith, entry n, e, Option-cases (find w n))) in
      let empty =
        eq_empty (erase_all key rs m) (λ n. ground (arith, entry n, lookup-erase_all key n rs m)) in
      rw (listed, idle, empty, Perm.eq-nil (orders []))
