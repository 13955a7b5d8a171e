-- ===== src/Tests/MemoryObjects.antt =====
-- An API server for the objects of one kind, as a function, beside what AWI keeps.
use awi_catalyst_sdwan_opera.Base.{
  ℕ, String, ◌≡◌, refl, Bool, true, false, ◌||◌, Option, none, some, List, [], ◌∷◌, arith, ◌==◌,
  eq_refl, inr, if◌then◌else◌,
}
use awi_catalyst_sdwan_opera.Exec.{Exec, foreign, ok, err}
use awi_catalyst_sdwan_opera.Api.{Tracked}
use awi_catalyst_sdwan_opera.Kube.{NamespacedName, Client, Util}
use awi_catalyst_sdwan_opera.Kube.Keys.{same_key, same_key_iff, same_key_refl}
use awi_catalyst_sdwan_opera.Controllers.Protocol.{View, IsStore, IsUtil}
use awi_catalyst_sdwan_opera.Controllers.Removal.{search, Removal}
use awi_catalyst_sdwan_opera.Controllers.System.Pending.{IsPrompt}
use awi_catalyst_sdwan_opera.Controllers.System.Progress.{IsFree-intro, IsAnswering}

pub record World (X C : Type 0) : Type 0 where
  pub objects : NamespacedName → Option X
  pub conns : C

abbrev has : String → List String → Bool
has f [] = false
has f (g ∷ fs) = g == f || has f fs

abbrev without : String → List String → List String
without f [] = []
without f (g ∷ fs) = let rest = without f fs in if g == f then rest else g ∷ rest

abbrev is_live : Option ℕ → Bool
is_live none = true
is_live (some t) = false

has-without : (f : String) (fs : List String) → has f (without f fs) ≡ false
has-without f [] = refl
has-without f (g ∷ fs) = ground (arith, has-without f fs)

module _ {Spec Status : Type 0} where
  abbrev pub key_of : Tracked Spec Status → NamespacedName
  key_of x = record { namespace = x.metadata.namespace; name = x.metadata.name }

  abbrev with_finalizers : Tracked Spec Status → List String → Tracked Spec Status
  with_finalizers x fs = record x { metadata = record x.metadata { finalizers = fs } }

  abbrev place : NamespacedName → Tracked Spec Status → Tracked Spec Status
  place k x = record x { metadata = record x.metadata { name = k.name; namespace = k.namespace } }

  abbrev pub util : Util (Tracked Spec Status)
  util = record {
    deletion_timestamp_is_zero = λ x. is_live x.metadata.deletion_timestamp;
    contains_finalizer = λ x f. has f x.metadata.finalizers;
    add_finalizer = λ x f. with_finalizers x (f ∷ x.metadata.finalizers);
    remove_finalizer = λ x f. with_finalizers x (without f x.metadata.finalizers);
    ignore_not_found = λ e. none;
  }

module _ {Spec Status C : Type 0} where
  abbrev stored : World (Tracked Spec Status) C → NamespacedName → Option (Tracked Spec Status)
  stored w k = elim (w.objects k) [ none ↦ none | some x ↦ some (place k x) ]

  abbrev found :
      Option (Tracked Spec Status) → Exec (World (Tracked Spec Status) C) (Tracked Spec Status)
  found none w = (err (foreign "not found"), w)
  found (some x) w = (ok x, w)

-- An object under deletion with no finalizer left goes away when it is written.
module _ {Spec Status : Type 0} (finalizer : String) where
  abbrev written : Tracked Spec Status → Option (Tracked Spec Status)
  written x =
      if is_live x.metadata.deletion_timestamp || has finalizer x.metadata.finalizers
      then some x
      else none

module _ {Spec Status C : Type 0} (finalizer : String) where
  abbrev put : World (Tracked Spec Status) C → Tracked Spec Status → World (Tracked Spec Status) C
  put w x = record w {
    objects = λ k. if same_key k (key_of x) then written finalizer x else w.objects k;
  }

  abbrev pub client : Client (World (Tracked Spec Status) C) (Tracked Spec Status)
  client = record {
    list_in = λ ns w. (ok [], w);
    list_all = λ w. (ok [], w);
    get = λ k w. found (stored w k) w;
    create = λ x w. (err (foreign "refused"), w);
    update = λ x w. (ok x, put w x);
    update_status = λ x w. (ok x, put w x);
    delete = λ x w. (err (foreign "refused"), w);
  }

  stored-put :
      (w : World (Tracked Spec Status) C) (x : Tracked Spec Status)
      → has finalizer x.metadata.finalizers ≡ true
      → stored (put w x) (key_of x) ≡ some x
  stored-put w x held = ground (arith, held, same_key_refl (key_of x))

  bare-put :
      (w : World (Tracked Spec Status) C) (x z : Tracked Spec Status)
      → has finalizer x.metadata.finalizers ≡ false
      → stored (put w x) (key_of x) ≡ some z
      → has finalizer z.metadata.finalizers ≡ false
  bare-put w x z bare h = ground (arith, bare, h, same_key_refl (key_of x))

module _ {Spec Status C I : Type 0} (has_conn : C → I → Bool) where
  abbrev pub view : View (World (Tracked Spec Status) C) (Tracked Spec Status) I
  view = record { stored = stored; connected = λ w. has_conn w.conns }

module _ {Spec Status C I : Type 0} (finalizer : String) (ident : Spec → I)
    (has_conn : C → I → Bool) where
  pub utils :
      IsUtil
        (view {Status = Status} has_conn)
        (client finalizer)
        util
        finalizer
        (λ x. ident x.spec)
        key_of
  utils = record {
    contains-add = λ x. rw (eq_refl finalizer);
    contains-remove = λ x. has-without finalizer x.metadata.finalizers;
    id-add = λ x. refl;
    key-add = λ x. refl;
    id-remove = λ x. refl;
    key-remove = λ x. refl;
  }

  pub store :
      IsStore
        (view {Status = Status} has_conn)
        (client finalizer)
        util
        finalizer
        (λ x. ident x.spec)
        key_of
  store = record {
    stored_key = λ w k x h. ground (arith, h);
    get_ok = λ w v k x h. ground (arith, h);
    get_stored = λ w k j. ground arith;
    get_connected = λ w k id. ground arith;
    update_connected = λ w x id. refl;
    update_other = λ w x k h. ground (arith, h, same_key_iff k (key_of x));
    update_ok = λ w v x y h held.
        (cc (h, stored-put finalizer w x held), record { held = cc (h, held); same_id = cc h });
    update_any =
        λ w x held. inr (x, stored-put finalizer w x held, record { held = held; same_id = refl });
    update_bare = λ w v x y z h bare s. bare-put finalizer w x z bare (cc (h, s));
  }

module _ {Spec Status C I : Type 0} (finalizer : String) (has_conn : C → I → Bool) where
  pub prompt :
      IsPrompt (view {Spec = Spec} {Status = Status} has_conn) (client finalizer) util finalizer
  prompt = record {
    get_missing = λ w v k e h missing. ground (arith, h);
    update_live = λ w v x y h held live. cc (h, live);
    add_live = λ x. refl;
  }

  pub answering :
      (id_of : Tracked Spec Status → I)
      (remove : Removal (World (Tracked Spec Status) C) (Tracked Spec Status))
      (request : Tracked Spec Status → Exec (World (Tracked Spec Status) C) (Unit {0}))
      → ((w : World (Tracked Spec Status) C) (x : Tracked Spec Status)
            (m : Exec (World (Tracked Spec Status) C) String)
          → remove.plan x ≡ search m
          → (number : String) × (v : World (Tracked Spec Status) C) × (m w ≡ (ok number, v)))
      → ((w : World (Tracked Spec Status) C) (number : String)
          → (v : World (Tracked Spec Status) C) × (remove.tear number w ≡ (ok tt, v)))
      → IsAnswering (view has_conn) (client finalizer) util finalizer id_of key_of remove request
  answering id_of remove request searches tears = record {
    get_answers = λ w k x s. (w, rw s refl);
    search_answers = searches;
    tear_answers = tears;
    release_answers = λ w k x s. (_, _, refl);
    release_any = λ w x.
        let x' = util.remove_finalizer x finalizer in
        inr (
          IsFree-intro util finalizer (stored (put finalizer w x') (key_of x))
            (λ z sz. bare-put finalizer w x' z (has-without finalizer x.metadata.finalizers) sz));
  }
