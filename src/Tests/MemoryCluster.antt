-- ===== src/Tests/MemoryCluster.antt =====
-- A server for the objects of several kinds, each in a part of the world of its own.
use awi_catalyst_sdwan_opera.Base.{
  String, ◌≡◌, refl, ap, false, Option, none, List, [], ◌∷◌, map, arith, eq_iff, is_some,
  if◌then◌else◌,
}
use awi_catalyst_sdwan_opera.Exec.{Exec, Result, ok}
use awi_catalyst_sdwan_opera.Api.{Resource}
use awi_catalyst_sdwan_opera.Kube.{Client}
use awi_catalyst_sdwan_opera.Kube.Laws.{any, find_named, is_foreign, IsLawful}
use awi_catalyst_sdwan_opera.Sync.{namespace}
use awi_catalyst_sdwan_opera.Sync.Creation.{find_by}
use awi_catalyst_sdwan_opera.Sync.Distinct.{IsDistinct}
use awi_catalyst_sdwan_opera.Sync.Frame.{IsApart}
use awi_catalyst_sdwan_opera.Sync.Syncers.Listed.{name_of}
use awi_catalyst_sdwan_opera.Tests.MemoryKind.{localize, find, memory, memory-IsLawful}

module _ {S : Type 0} where
  -- Of the objects of one name, the last.
  unfoldable pub unique : List (Resource S) → List (Resource S)
  unique [] = []
  unique (x ∷ l) =
      let rest = unique l in if is_some (find_named x.metadata.name l) then rest else x ∷ rest

  find_named-unique :
      (n : String) (l : List (Resource S)) → find_named n (unique l) ≡ find_named n l
  unfolding unique find_named
  find_named-unique n [] = refl
  find_named-unique n (x ∷ l) = ground (arith, find_named-unique n l, eq_iff x.metadata.name n)

  unique_absent :
      (n : String) (l : List (Resource S))
      → find_named n l ≡ none
      → find_by name_of n (unique l) ≡ none
  unfolding unique find_named
  unique_absent n [] h = refl
  unique_absent n (x ∷ l) h = ground (arith, unique_absent n l)

  pub unique-IsDistinct : (l : List (Resource S)) → IsDistinct name_of (unique l)
  unfolding unique
  unique-IsDistinct [] = tt
  unique-IsDistinct (x ∷ l) = ground (arith, unique-IsDistinct l, unique_absent x.metadata.name l)

  any-foreign-unique :
      (w : List (Resource S)) → any (is_foreign namespace) (unique (map localize w)) ≡ false
  unfolding unique any
  any-foreign-unique [] = refl
  any-foreign-unique (x ∷ w) = ground (arith, any-foreign-unique w)

  -- The server of one kind, with lists that name each object once.
  abbrev pub kept : Client (List (Resource S)) (Resource S)
  kept = record memory { list_in = λ ns w. (ok (unique (map localize w)), w) }

  pub kept-IsLawful : IsLawful namespace kept find
  kept-IsLawful = record {
    list_ok = λ w w' l n h. cc (h, find_named-unique n (map localize w));
    list_local = λ w w' l h. cc (h, any-foreign-unique w);
    list_keeps = memory-IsLawful.list_keeps;
    create_free = memory-IsLawful.create_free;
    create_ok = memory-IsLawful.create_ok;
    create_keeps = memory-IsLawful.create_keeps;
    delete_ok = memory-IsLawful.delete_ok;
    delete_keeps = memory-IsLawful.delete_keeps;
  }

-- The part of a world that a server keeps.
module _ {V W : Type 0} (part : W → V) (put : V → W → W) where
  abbrev on_part : {A : Type 0} → Exec V A → Exec W A
  on_part m w = let (r, v) = m (part w) in (r, put v w)

  abbrev pub lifted : {S : Type 0} → Client V (Resource S) → Client W (Resource S)
  lifted client = record {
    list_in = λ ns. on_part (client.list_in ns);
    list_all = on_part client.list_all;
    get = λ req. on_part (client.get req);
    create = λ x. on_part (client.create x);
    update = λ x. on_part (client.update x);
    update_status = λ x. on_part (client.update_status x);
    delete = λ x. on_part (client.delete x);
  }

  pub lifted-IsApart :
      {S X : Type 0} (find : W → String → Option X) (client : Client V (Resource S))
      → ((v : V) (w : W) (n : String) → find (put v w) n ≡ find w n)
      → IsApart find (lifted client)
  lifted-IsApart find client h = record {
    list_apart = λ w n. h _ w n;
    create_apart = λ x w n. h _ w n;
    delete_apart = λ x w n. h _ w n;
  }

  module _ (part-put : (v : V) (w : W) → part (put v w) ≡ v) where
    of_part :
        {A : Type 0} (m : Exec V A) {w w' : W} {r : Result A}
        → on_part m w ≡ (r, w')
        → m (part w) ≡ (r, part w')
    of_part m {w} h = cc (ap (λ q. q.0) h, ap (λ q. part q.1) h, part-put (m (part w)).1 w)

    pub lifted-IsLawful :
        {S : Type 0} (client : Client V (Resource S)) (find : V → String → Option (Resource S))
        → IsLawful namespace client find
        → IsLawful namespace (lifted client) (λ w. find (part w))
    lifted-IsLawful client find l = record {
      list_ok =
          λ w w' xs n h. l.list_ok (part w) (part w') xs n (of_part (client.list_in namespace) h);
      list_local =
          λ w w' xs h. l.list_local (part w) (part w') xs (of_part (client.list_in namespace) h);
      list_keeps = λ w n. rw part-put (l.list_keeps (part w) n);
      create_free =
          λ x w w' s h. l.create_free x (part w) (part w') s (of_part (client.create x) h);
      create_ok =
          λ x w w' n s h. l.create_ok x (part w) (part w') n s (of_part (client.create x) h);
      create_keeps = λ x y w n h. rw part-put (l.create_keeps x y (part w) n h);
      delete_ok =
          λ x w w' n s h. l.delete_ok x (part w) (part w') n s (of_part (client.delete x) h);
      delete_keeps = λ x w n h. rw part-put (l.delete_keeps x (part w) n h);
    }
