-- ===== src/Sync/Deletion.antt =====
-- What the deletion loop does to the stored objects.
use awi_catalyst_sdwan_opera.Base.{
  String, ◌≡◌, false, none, List, [], ◌∷◌, arith, ◌==◌, eq_iff, if◌then◌else◌, Option,
}
use awi_catalyst_sdwan_opera.Exec.{ok, >>=-eq-ok}
use awi_catalyst_sdwan_opera.Api.{Resource}
use awi_catalyst_sdwan_opera.Kube.{Client}
use awi_catalyst_sdwan_opera.Kube.Laws.{IsLawful, any, is_foreign}
use awi_catalyst_sdwan_opera.Sync.{namespace, delete_all}

module _ {W S : Type 0} (client : Client W (Resource S)) (find : W → String → Option (Resource S))
    (lawful : IsLawful namespace client find) where
  -- A successful loop takes away the objects named in the list, and no other.
  pub delete_all-find :
      (xs : List (Resource S)) (w w' : W) (n : String)
      → any (is_foreign namespace) xs ≡ false
      → delete_all client xs w ≡ (ok tt, w')
      → find w' n ≡ (if any (λ (x : Resource S). x.metadata.name == n) xs then none else find w n)
  unfolding delete_all any
  delete_all-find [] w w' n f h = ground arith
  delete_all-find (x ∷ xs) w w' n f h =
      let (_, v, deleted, rest) = >>=-eq-ok (client.delete x) (λ _. delete_all client xs) w h in
      ground (
        arith,
        delete_all-find xs v w' n (ground arith) rest,
        lawful.delete_ok x w v n (ground (arith, eq_iff x.metadata.namespace namespace)) deleted,
      )
