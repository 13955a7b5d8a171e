-- ===== src/Controllers/Frame.antt =====
-- What a run of `Reconcile` leaves alone.
use awi_catalyst_sdwan_opera.Base.{String, ◌≡◌, ◌≢◌, refl, ap, ◌∙◌, some, Bool-cases, inl, inr}
use awi_catalyst_sdwan_opera.Exec.{Exec, Result, ok, err, panic, >>=-ind, at_result}
use awi_catalyst_sdwan_opera.Kube.{NamespacedName, Client, Util}
use awi_catalyst_sdwan_opera.Controllers.{
  add_missing_finalizer, finalize, handle, after_get, reconcile,
}
use awi_catalyst_sdwan_opera.Controllers.Protocol.{View, IsStore, IsUtil, IsPeer}
use awi_catalyst_sdwan_opera.Controllers.Leaks.{add_missing_finalizer-Holds, stored_of_get}

module _ {W X I : Type 0} (view : View W X I) (id_of : X → I)
    (remove request : X → Exec W (Unit {0})) where
  open view use {connected}

  -- A request and a removal touch the connection of their object and no other.
  pub record IsFramed : Type 0 where
    pub request_others :
        (w : W) (x : X) (id : I) → id ≢ id_of x → connected (request x w).1 id ≡ connected w id
    pub remove_others :
        (w : W) (x : X) (id : I) → id ≢ id_of x → connected (remove x w).1 id ≡ connected w id

module _ {W X I : Type 0} (view : View W X I) (client : Client W X) (util : Util X)
    (finalizer : String) (id_of : X → I) (key_of : X → NamespacedName)
    (remove request : X → Exec W (Unit {0}))
    (store : IsStore view client util finalizer id_of key_of)
    (utils : IsUtil view client util finalizer id_of key_of)
    (peer : IsPeer view client util finalizer id_of key_of remove request)
    (framed : IsFramed view id_of remove request) (req : NamespacedName) (w : W) (id : I) where
  open view use {stored, connected}

  abbrev Same : W → Type 0
  Same v = connected v id ≡ connected w id

  update-Same : (x : X) (v : W) → Same v → Same (client.update x v).1
  update-Same x v same = store.update_connected v x id ∙ same

  add_missing_finalizer-Same :
      (x : X) (v : W)
      → Same v
      → Same (add_missing_finalizer client util finalizer remove request x v).1
  unfolding add_missing_finalizer
  add_missing_finalizer-Same x v same = elim (Bool-cases (util.contains_finalizer x finalizer)) [
    | inl held ↦ rw (held, add_missing_finalizer) same
    | inr bare ↦
        rw (bare, add_missing_finalizer) (update-Same (util.add_finalizer x finalizer) v same)
  ]

  finalize-Same :
      (x : X) (v : W)
      → id ≢ id_of x
      → Same v
      → Same (finalize client util finalizer remove request x v).1
  unfolding finalize
  finalize-Same x v other same = elim (Bool-cases (util.contains_finalizer x finalizer)) [
    | inl held ↦
        let removed = framed.remove_others v x id other ∙ same in
        rw (held, finalize)
          (>>=-ind Same (remove x) _ v removed (λ _ u e.
            >>=-ind Same (client.update (util.remove_finalizer x finalizer)) _ u
              (update-Same (util.remove_finalizer x finalizer) u
                (at_result Same (remove x) e removed))
              (λ y t e'. at_result Same (client.update (util.remove_finalizer x finalizer)) e' (
                update-Same (util.remove_finalizer x finalizer) u
                  (at_result Same (remove x) e removed)))))
    | inr bare ↦ rw (bare, finalize) same
  ]

  handle-Same :
      (x : X) (v : W)
      → stored v (key_of x) ≡ some x
      → id ≢ id_of x
      → Same v
      → Same (handle client util finalizer remove request x v).1
  unfolding handle
  handle-Same x v read other same = elim (Bool-cases (util.deletion_timestamp_is_zero x)) [
    | inl live ↦
        let registers = add_missing_finalizer client util finalizer remove request x in
        let registered = add_missing_finalizer-Same x v same in
        rw (live, handle)
          (>>=-ind Same registers _ v registered (λ y u e.
            let (_, hy) =
              add_missing_finalizer-Holds view client util finalizer id_of key_of remove request
                store utils peer v u x y read e in
            let requested =
              framed.request_others u y id (λ p. other (p ∙ hy.same_id))
              ∙ at_result Same registers e registered in
            >>=-ind Same (request y) _ u requested
              (λ _ t e'. at_result Same (request y) e' requested)))
    | inr deleted ↦ rw (deleted, handle) (finalize-Same x v other same)
  ]

  after_get-Same :
      (r : Result X) (v : W)
      → client.get req w ≡ (r, v)
      → ((x : X) → r ≡ ok x → id ≢ id_of x)
      → Same v
      → Same (after_get client util finalizer remove request r v).1
  after_get-Same (ok x) v e other same =
      handle-Same x v
        (stored_of_get view client util finalizer id_of key_of remove request store utils peer w v
          req x e)
        (other x refl) same
  after_get-Same (err _) v e other same = same
  after_get-Same panic v e other same = same

  -- `Reconcile` neither makes nor ends a connection but the one that its object, as it is read, stands
  -- for.
  pub reconcile_others :
      ((x : X) (v : W) → client.get req w ≡ (ok x, v) → id ≢ id_of x)
      → connected (reconcile client util finalizer remove request req w).1 id ≡ connected w id
  unfolding reconcile
  reconcile_others other =
      after_get-Same (client.get req w).0 (client.get req w).1 refl
        (λ x e. other x (client.get req w).1 (ap (λ r. (r, (client.get req w).1)) e))
        (store.get_connected w req id)
