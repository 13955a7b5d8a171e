-- ===== src/Controllers/System/Pending.antt =====
-- No deletion is forgotten.
use awi_catalyst_sdwan_opera.Base.{
  String, ◌≡◌, ◌≢◌, sym, ◌∙◌, subst, Bool, true, false, Option, none, some, ◌⊎◌,
}
use awi_catalyst_sdwan_opera.Exec.{Error, ok, err, panic}
use awi_catalyst_sdwan_opera.Kube.{NamespacedName, Client, Util}
use awi_catalyst_sdwan_opera.Controllers.Machine.{
  Pc, fetching, registering, requesting, removing, ending, releasing, done,
}
use awi_catalyst_sdwan_opera.Controllers.Protocol.{NamespacedName-discrete, View}
use awi_catalyst_sdwan_opera.Controllers.System.{System}

-- The run will see to a deletion, or its key is put back at its end.
abbrev pub Busy : {X : Type 0} → Option (Pc X) → Type 0
Busy none = ⊥
Busy (some (fetching _)) = Unit
Busy (some (registering _)) = ⊥
Busy (some (requesting _)) = ⊥
Busy (some (removing _)) = Unit
Busy (some (ending _ _)) = Unit
Busy (some (releasing _)) = Unit
Busy (some (done (ok _))) = ⊥
Busy (some (done (err _))) = Unit
Busy (some (done panic)) = Unit

module _ {W X I : Type 0} (view : View W X I) (client : Client W X) (util : Util X)
    (finalizer : String) where
  open view use {stored}

  -- `IgnoreNotFound` keeps an error for an object that is there, and a write of an object that was read
  -- before its deletion does not take the deletion back: it conflicts.
  pub record IsPrompt : Type 0 where
    pub get_missing :
        (w v : W) (k : NamespacedName) (e : Error)
        → client.get k w ≡ (err e, v)
        → util.ignore_not_found e ≡ none
        → stored w k ≡ none
    pub update_live :
        (w v : W) (x y : X)
        → client.update x w ≡ (ok y, v)
        → util.contains_finalizer x finalizer ≡ true
        → util.deletion_timestamp_is_zero x ≡ true
        → util.deletion_timestamp_is_zero y ≡ true
    pub add_live :
        (x : X)
        → util.deletion_timestamp_is_zero (util.add_finalizer x finalizer)
          ≡ util.deletion_timestamp_is_zero x

  -- Where the object under the key is being deleted and holds the finalizer, the key waits in the
  -- queue, or its run sees to it.
  abbrev pub Due : W → Bool → Option (Pc X) → NamespacedName → Type 0
  Due w queued p k =
      (x : X)
      → stored w k ≡ some x
      → util.deletion_timestamp_is_zero x ≡ false
      → util.contains_finalizer x finalizer ≡ true
      → (queued ≡ true) ⊎ Busy p

  abbrev pub Pending : System W X → Type 0
  Pending s = (k : NamespacedName) → Due s.world (s.queue k) (s.worker k) k

  pub Due-agree :
      (w v : W) (queued : Bool) (p : Option (Pc X)) (k : NamespacedName)
      → stored v k ≡ stored w k
      → Due w queued p k
      → Due v queued p k
  Due-agree w v queued p k e due x s = due x (sym e ∙ s)

  -- What is done at one key.
  pub move-Pending :
      (s t : System W X) (k : NamespacedName)
      → ((j : NamespacedName) → j ≢ k → stored t.world j ≡ stored s.world j)
      → ((j : NamespacedName) → j ≢ k → t.queue j ≡ s.queue j)
      → ((j : NamespacedName) → j ≢ k → t.worker j ≡ s.worker j)
      → Due t.world (t.queue k) (t.worker k) k
      → Pending s
      → Pending t
  move-Pending s t k others queues workers due pending j = elim (NamespacedName-discrete j k) [
    | yes e ↦ subst (λ i. Due t.world (t.queue i) (t.worker i) i) (sym e) due
    | no e ↦
        subst (λ q. Due t.world q (t.worker j) j) (sym (queues j e))
          (subst (λ p. Due t.world (s.queue j) p j) (sym (workers j e))
            (Due-agree s.world t.world (s.queue j) (s.worker j) j (others j e) (pending j)))
  ]
