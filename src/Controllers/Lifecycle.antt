-- ===== src/Controllers/Lifecycle.antt =====
-- The life of the objects of one kind, as the users and the operator change them.
use awi_catalyst_sdwan_opera.Base.{String, ◌≡◌, ◌≢◌, sym, ap, ◌∙◌, subst, true, false, none, some}
use awi_catalyst_sdwan_opera.Exec.{Exec}
use awi_catalyst_sdwan_opera.Kube.{NamespacedName, Client, Util}
use awi_catalyst_sdwan_opera.Controllers.{reconcile}
use awi_catalyst_sdwan_opera.Controllers.Protocol.{
  NamespacedName-discrete, View, Holds, IsStore, IsUtil, IsPeer, NoLeak,
}
use awi_catalyst_sdwan_opera.Controllers.Leaks.{reconcile-NoLeak}

module _ {W X I : Type 0} (view : View W X I) (client : Client W X) (util : Util X)
    (finalizer : String) (id_of : X → I) (remove request : X → Exec W (Unit {0})) where
  open view use {stored, connected}

  -- `v` differs from `w` in the object of one name at most.
  pub record Only (k : NamespacedName) (w v : W) : Type 0 where
    pub others : (j : NamespacedName) → j ≢ k → stored v j ≡ stored w j
    pub same_connected : (id : I) → connected v id ≡ connected w id

  -- A run of `Reconcile`, a user's creation of an object under a free name, the deletion of an object
  -- without the finalizer, and the deletion of one with it, which the API server only marks. An
  -- edit of a spec is no step: the operator does not support it and filters its event out.
  pub data Step (w v : W) : Type 0 where
    reconciled :
        (req : NamespacedName)
        → v ≡ (reconcile client util finalizer remove request req w).1
        → Step w v
    created :
        (k : NamespacedName) (x : X)
        → stored w k ≡ none
        → stored v k ≡ some x
        → Only k w v
        → Step w v
    deleted :
        (k : NamespacedName) (x : X)
        → stored w k ≡ some x
        → util.contains_finalizer x finalizer ≡ false
        → stored v k ≡ none
        → Only k w v
        → Step w v
    marked :
        (k : NamespacedName) (x y : X)
        → stored w k ≡ some x
        → util.contains_finalizer x finalizer ≡ true
        → stored v k ≡ some y
        → Holds util finalizer id_of (id_of x) y
        → Only k w v
        → Step w v

  pub data Reach (w : W) : W → Type 0 where
    here : Reach w w
    next : {v u : W} → Reach w v → Step v u → Reach w u

module _ {W X I : Type 0} (view : View W X I) (client : Client W X) (util : Util X)
    (finalizer : String) (id_of : X → I) (key_of : X → NamespacedName)
    (remove request : X → Exec W (Unit {0}))
    (store : IsStore view client util finalizer id_of key_of)
    (utils : IsUtil view client util finalizer id_of key_of)
    (peer : IsPeer view client util finalizer id_of key_of remove request) where
  open view use {stored, connected}

  abbrev Safe : W → Type 0
  Safe = NoLeak view client util finalizer id_of key_of

  Step-Safe : {w v : W} → Step view client util finalizer id_of remove request w v → Safe w → Safe v
  Step-Safe {w} (reconciled req e) safe = subst Safe (sym e) (
      reconcile-NoLeak view client util finalizer id_of key_of remove request store utils peer req w
        safe)
  Step-Safe {w} {v} (created k x free s only) safe = λ id c.
      let (j, y, sy, hy) = safe id (sym (only.same_connected id) ∙ c) in
      let other : j ≢ k = λ e. cc (ap (stored w) e, free, sy) in
      (j, y, only.others j other ∙ sy, hy)
  Step-Safe {w} {v} (deleted k x s bare gone only) safe = λ id c.
      let (j, y, sy, hy) = safe id (sym (only.same_connected id) ∙ c) in
      let other : j ≢ k = λ e. cc (ap (stored w) e, s, sy, bare, hy.held) in
      (j, y, only.others j other ∙ sy, hy)
  Step-Safe {w} {v} (marked k x z s held sz hz only) safe = λ id c.
      let (j, y, sy, hy) = safe id (sym (only.same_connected id) ∙ c) in
      elim (NamespacedName-discrete j k) [
        | yes e ↦ (
          k,
          z,
          sz,
          record { held = hz.held; same_id = cc (ap (stored w) e, s, sy, hy.same_id, hz.same_id) },
        )
        | no other ↦ (j, y, only.others j other ∙ sy, hy)
      ]

  -- Whatever the users create and delete, and whatever calls of the operator fail on the way, every
  -- connection keeps a stored object that stands for it and holds the finalizer.
  pub Reach-NoLeak :
      {w v : W}
      → Reach view client util finalizer id_of remove request w v
      → NoLeak view client util finalizer id_of key_of w
      → NoLeak view client util finalizer id_of key_of v
  Reach-NoLeak here safe = safe
  Reach-NoLeak (next r s) safe = Step-Safe s (Reach-NoLeak r safe)
