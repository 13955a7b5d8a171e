-- ===== src/Controllers/Protocol.antt =====
-- What the reconcilers rely on, seen through the objects that the API server stores and the
-- connections that AWI has. Reads are taken to be up to date.
use mathlib.Core.Bool.{Bool-discrete}
use mathlib.Core.Logic.{dite}
use awi_catalyst_sdwan_opera.Base.{
  String, ◌≡◌, ◌≢◌, Bool, true, false, Option, some, ◌⊎◌, ◌==◌, eq_iff,
}
use awi_catalyst_sdwan_opera.Exec.{Exec, ok}
use awi_catalyst_sdwan_opera.Kube.{NamespacedName, Client, Util}

String-discrete : Discrete String
String-discrete s t =
    dite (Bool-discrete (s == t) true) (λ same. yes ((eq_iff s t).0 same))
      (λ differ. no (λ p. differ ((eq_iff s t).1 p)))

pub NamespacedName-discrete : Discrete NamespacedName
NamespacedName-discrete = hlevel String-discrete

-- The view of the world: the stored objects of the kind, and the IDs (of type `I`) of AWI's connections.
pub record View (W X I : Type 0) : Type 0 where
  pub stored : W → NamespacedName → Option X
  pub connected : W → I → Bool

-- An object that holds the finalizer and stands for the connection `id`.
pub record Holds {X I : Type 0} (util : Util X) (finalizer : String) (id_of : X → I) (id : I)
    (x : X) : Type 0 where
  pub held : util.contains_finalizer x finalizer ≡ true
  pub same_id : id_of x ≡ id

module _ {W X I : Type 0} (view : View W X I) (client : Client W X) (util : Util X)
    (finalizer : String) (id_of : X → I) (key_of : X → NamespacedName) where
  open view use {stored, connected}

  -- The API server: objects under their names, no connection touched. A write of an object that
  -- holds the finalizer stores it so, and one that fails may still have been made.
  pub record IsStore : Type 0 where
    pub stored_key : (w : W) (k : NamespacedName) (x : X) → stored w k ≡ some x → key_of x ≡ k
    pub get_ok :
        (w v : W) (k : NamespacedName) (x : X) → client.get k w ≡ (ok x, v) → stored w k ≡ some x
    pub get_stored : (w : W) (k j : NamespacedName) → stored (client.get k w).1 j ≡ stored w j
    pub get_connected :
        (w : W) (k : NamespacedName) (id : I) → connected (client.get k w).1 id ≡ connected w id
    pub update_connected :
        (w : W) (x : X) (id : I) → connected (client.update x w).1 id ≡ connected w id
    pub update_other :
        (w : W) (x : X) (k : NamespacedName)
        → k ≢ key_of x
        → stored (client.update x w).1 k ≡ stored w k
    pub update_ok :
        (w v : W) (x y : X)
        → client.update x w ≡ (ok y, v)
        → util.contains_finalizer x finalizer ≡ true
        → (stored v (key_of x) ≡ some y) × Holds util finalizer id_of (id_of x) y
    pub update_any :
        (w : W) (x : X)
        → util.contains_finalizer x finalizer ≡ true
        → (stored (client.update x w).1 (key_of x) ≡ stored w (key_of x))
          ⊎ ((y : X) × (stored (client.update x w).1 (key_of x) ≡ some y)
              × Holds util finalizer id_of (id_of x) y)
    pub update_bare :
        (w v : W) (x y z : X)
        → client.update x w ≡ (ok y, v)
        → util.contains_finalizer x finalizer ≡ false
        → stored v (key_of x) ≡ some z
        → util.contains_finalizer z finalizer ≡ false

  -- `controllerutil` writes the list of finalizers only.
  pub record IsUtil : Type 0 where
    pub contains-add :
        (x : X) → util.contains_finalizer (util.add_finalizer x finalizer) finalizer ≡ true
    pub contains-remove :
        (x : X) → util.contains_finalizer (util.remove_finalizer x finalizer) finalizer ≡ false
    pub id-add : (x : X) → id_of (util.add_finalizer x finalizer) ≡ id_of x
    pub key-add : (x : X) → key_of (util.add_finalizer x finalizer) ≡ key_of x
    pub id-remove : (x : X) → id_of (util.remove_finalizer x finalizer) ≡ id_of x
    pub key-remove : (x : X) → key_of (util.remove_finalizer x finalizer) ≡ key_of x

  -- AWI: a request makes no connection but its own, even where it fails; a removal makes none, and
  -- its success means that the connection is gone.
  pub record IsPeer (remove request : X → Exec W (Unit {0})) : Type 0 where
    pub request_stored :
        (w : W) (x : X) (k : NamespacedName) → stored (request x w).1 k ≡ stored w k
    pub request_connected :
        (w : W) (x : X) (id : I)
        → connected (request x w).1 id ≡ true
        → (connected w id ≡ true) ⊎ (id ≡ id_of x)
    pub request_ok : (w v : W) (x : X) → request x w ≡ (ok tt, v) → connected v (id_of x) ≡ true
    pub remove_stored : (w : W) (x : X) (k : NamespacedName) → stored (remove x w).1 k ≡ stored w k
    pub remove_connected :
        (w : W) (x : X) (id : I) → connected (remove x w).1 id ≡ true → connected w id ≡ true
    pub remove_ok : (w v : W) (x : X) → remove x w ≡ (ok tt, v) → connected v (id_of x) ≡ false

  -- Every connection has a stored object that stands for it and holds the finalizer.
  abbrev pub NoLeak : W → Type 0
  NoLeak w =
      (id : I)
      → connected w id ≡ true
      → (k : NamespacedName) × (x : X) × (stored w k ≡ some x) × Holds util finalizer id_of id x
