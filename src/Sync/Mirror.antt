-- ===== src/Sync/Mirror.antt =====
-- What the shared body does to the stored objects.
use awi_catalyst_sdwan_opera.Base.{
  String, ◌≡◌, sym, ap, ◌∙◌, Option, none, some, List, arith, or_else, ◌==◌,
}
use awi_catalyst_sdwan_opera.Base.Dict.{Dict, lookup}
use awi_catalyst_sdwan_opera.Exec.{Result, ok, >>=-eq-ok}
use awi_catalyst_sdwan_opera.Api.{Resource}
use awi_catalyst_sdwan_opera.Kube.{Client}
use awi_catalyst_sdwan_opera.Kube.Laws.{IsLawful, is_foreign}
use awi_catalyst_sdwan_opera.Sync.{namespace, index_by_name, create_missing, mirror}
use awi_catalyst_sdwan_opera.Sync.Keyed.{
  lookup-index_by_name, index_by_name-IsKeyed, any-named-values, any-foreign-values, IsOrder,
  any-perm,
}
use awi_catalyst_sdwan_opera.Sync.Creation.{
  find_by, IsBuild, create_missing-find, create_missing-IsKeyed,
}
use awi_catalyst_sdwan_opera.Sync.Deletion.{delete_all-find}

-- The stored object of a name after a synchronization: kept where it was, built where it was
-- missing, and gone where AWI does not report it.
abbrev pub mirrored :
    {S R : Type 0} → (R → Resource S) → Option R → Option (Resource S) → Option (Resource S)
mirrored build none old = none
mirrored build (some r) old = or_else old (some (build r))

module _ {W S : Type 0} (client : Client W (Resource S)) (find : W → String → Option (Resource S))
    (lawful : IsLawful namespace client find) (l : List (Resource S)) {w v : W}
    (listed : client.list_in namespace w ≡ (ok l, v)) (n : String) where
  pub kept_by_list : find v n ≡ find w n
  kept_by_list =
      rw (ap (λ (p : Result (List (Resource S)) × W). p.1) listed) at (lawful.list_keeps w n)

  -- The map that the code builds shows what is stored.
  pub stored_of_listed : find v n ≡ lookup n (index_by_name l)
  stored_of_listed =
      kept_by_list ∙ sym (lawful.list_ok w v l n listed) ∙ sym (lookup-index_by_name n l)

module _ {W S R : Type 0} (client : Client W (Resource S)) (find : W → String → Option (Resource S))
    (lawful : IsLawful namespace client find) (order : Dict (Resource S) → List (Resource S))
    (orders : IsOrder order) (key : R → String) (build : R → Resource S)
    (builds : IsBuild key build) where
  -- After a successful synchronization the cluster has an object for each reported resource, the old
  -- one where there was one, and no other.
  pub mirror-find :
      (rs : List R) (w w' : W) (n : String)
      → mirror client order key build rs w ≡ (ok tt, w')
      → find w' n ≡ mirrored build (find_by key n rs) (find w n)
  unfolding mirror
  mirror-find rs w w' n h =
      let (l, v, listed, h₁) = >>=-eq-ok (client.list_in namespace) _ w h in
      let (m, u, created, deleted) =
        >>=-eq-ok (create_missing client key build rs (index_by_name l)) _ v h₁ in
      let keyed =
        create_missing-IsKeyed client key build rs (index_by_name l) m v u
          (index_by_name-IsKeyed l (lawful.list_local w v l listed)) created in
      let sub = λ (k : String) (x : Resource S) (e : lookup k (index_by_name l) ≡ some x).
        stored_of_listed client find lawful l listed k ∙ e in
      let (made, rest) =
        create_missing-find client find lawful key build builds rs (index_by_name l) m v u n sub
          created in
      ground (
        arith,
        made,
        rest,
        stored_of_listed client find lawful l listed n,
        kept_by_list client find lawful l listed n,
        any-named-values n m keyed,
        any-perm (λ (x : Resource S). x.metadata.name == n) (orders m),
        delete_all-find client find lawful (order m) u w' n
            (any-perm (is_foreign namespace) (orders m) ∙ any-foreign-values m keyed) deleted,
      )
