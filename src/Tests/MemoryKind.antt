-- ===== src/Tests/MemoryKind.antt =====
-- An API server for the objects of one kind in one namespace, kept in a list.
use mathlib.Core.List.Perm
use awi_catalyst_sdwan_opera.Base.{
  String, ◌≡◌, refl, false, Option, none, List, [], ◌∷◌, map, arith, ◌==◌, eq_iff, is_some,
  if◌then◌else◌,
}
use awi_catalyst_sdwan_opera.Exec.{Exec, foreign, ok, err}
use awi_catalyst_sdwan_opera.Api.{Resource}
use awi_catalyst_sdwan_opera.Kube.{Client}
use awi_catalyst_sdwan_opera.Kube.Laws.{any, find_named, is_foreign, IsLawful}
use awi_catalyst_sdwan_opera.Sync.{namespace, values}
use awi_catalyst_sdwan_opera.Sync.Progress.{IsResponsive}
use awi_catalyst_sdwan_opera.Sync.Keyed.{IsOrder}

-- A server that refuses every call.
abbrev pub broken : {W X : Type 0} → Client W X
broken = record {
  list_in = λ ns w. (err (foreign "refused"), w);
  list_all = λ w. (err (foreign "refused"), w);
  get = λ req w. (err (foreign "refused"), w);
  create = λ x w. (err (foreign "refused"), w);
  update = λ x w. (err (foreign "refused"), w);
  update_status = λ x w. (err (foreign "refused"), w);
  delete = λ x w. (err (foreign "refused"), w);
}

module _ {S : Type 0} where
  abbrev pub localize : Resource S → Resource S
  localize x = record x { metadata = record x.metadata { namespace = namespace } }

  abbrev pub find : List (Resource S) → String → Option (Resource S)
  find w n = find_named n (map localize w)

  unfoldable pub remove : String → List (Resource S) → List (Resource S)
  remove n [] = []
  remove n (x ∷ w) = let rest = remove n w in if x.metadata.name == n then rest else x ∷ rest

  abbrev create : Resource S → Exec (List (Resource S)) (Unit {0})
  create x w =
      if is_some (find w x.metadata.name)
      then (err (foreign "already exists"), w)
      else (ok tt, x ∷ w)

  abbrev delete : Resource S → Exec (List (Resource S)) (Unit {0})
  delete x w =
      if is_some (find w x.metadata.name)
      then (ok tt, remove x.metadata.name w)
      else (err (foreign "not found"), w)

  abbrev pub memory : Client (List (Resource S)) (Resource S)
  memory = record {
    list_in = λ ns w. (ok (map localize w), w);
    list_all = λ w. (ok w, w);
    get = λ req w. (err (foreign "not found"), w);
    create = create;
    update = λ x w. (err (foreign "refused"), w);
    update_status = λ x w. (err (foreign "refused"), w);
    delete = delete;
  }

  any-foreign-localize :
      (w : List (Resource S)) → any (is_foreign namespace) (map localize w) ≡ false
  unfolding any
  any-foreign-localize [] = refl
  any-foreign-localize (x ∷ w) = any-foreign-localize w

  localize_local : (x : Resource S) → x.metadata.namespace ≡ namespace → localize x ≡ x
  localize_local x h = ground arith

  find-remove :
      (k n : String) (w : List (Resource S))
      → find (remove k w) n ≡ (if k == n then none else find w n)
  unfolding find_named remove
  find-remove k n [] = ground arith
  find-remove k n (x ∷ w) =
      ground
        (arith, find-remove k n w, eq_iff x.metadata.name k, eq_iff x.metadata.name n, eq_iff k n)

  pub memory-IsLawful : IsLawful namespace memory find
  unfolding find_named
  memory-IsLawful = record {
    list_ok = λ w w' l n h. cc h;
    list_local = λ w w' l h. cc (h, any-foreign-localize w);
    list_keeps = λ w n. refl;
    create_free = λ x w w' s h. ground (arith, h);
    create_ok = λ x w w' n s h. ground (arith, h, localize_local x s, eq_iff x.metadata.name n);
    create_keeps = λ x y w n h. ground (arith, h);
    delete_ok = λ x w w' n s h. ground (arith, h, find-remove x.metadata.name n w);
    delete_keeps = λ x w n h. ground (arith, find-remove x.metadata.name n w, h);
  }

pub values-IsOrder : {V : Type 0} → IsOrder (values {V = V})
values-IsOrder m = Perm.refl (values m)

pub memory-IsResponsive : {S : Type 0} → IsResponsive (memory {S = S}) find
memory-IsResponsive = record {
  list_answers = λ w. (map localize w, w, refl);
  create_answers = λ x w local free. (x ∷ w, rw free);
  delete_answers = λ x w local stored. (remove x.metadata.name w, ground (arith, stored));
}
