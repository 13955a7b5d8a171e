-- ===== src/Controllers/Leaks.antt =====
-- No connection outlives its object.
use awi_catalyst_sdwan_opera.Base.{
  String, ◌≡◌, ◌≢◌, refl, sym, ap, ◌∙◌, subst, true, false, some, inl, inr, Bool-cases,
}
use awi_catalyst_sdwan_opera.Exec.{Exec, Result, ok, err, panic, >>=-ind, at_result}
use awi_catalyst_sdwan_opera.Kube.{NamespacedName, Client, Util}
use awi_catalyst_sdwan_opera.Controllers.{
  add_missing_finalizer, finalize, handle, after_get, reconcile,
}
use awi_catalyst_sdwan_opera.Controllers.Protocol.{
  NamespacedName-discrete, View, Holds, IsStore, IsUtil, IsPeer, NoLeak,
}

module _ {W X I : Type 0} (view : View W X I) (client : Client W X) (util : Util X)
    (finalizer : String) (id_of : X → I) (key_of : X → NamespacedName)
    (remove request : X → Exec W (Unit {0}))
    (store : IsStore view client util finalizer id_of key_of)
    (utils : IsUtil view client util finalizer id_of key_of)
    (peer : IsPeer view client util finalizer id_of key_of remove request) where
  open view use {stored, connected}

  abbrev Safe : W → Type 0
  Safe = NoLeak view client util finalizer id_of key_of

  -- Writing an object that holds the finalizer keeps the connection of the object it replaces.
  update-Safe :
      (w : W) (x x₀ : X)
      → util.contains_finalizer x finalizer ≡ true
      → stored w (key_of x) ≡ some x₀
      → id_of x₀ ≡ id_of x
      → Safe w
      → Safe (client.update x w).1
  update-Safe w x x₀ held s same safe id c =
      let (k, y, sy, hy) = safe id (sym (store.update_connected w x id) ∙ c) in
      elim (NamespacedName-discrete k (key_of x)) [
        | yes e ↦ elim (store.update_any w x held) [
          | inl old ↦
              (k, y, subst (λ j. stored (client.update x w).1 j ≡ stored w j) (sym e) old ∙ sy, hy)
          | inr (z, sz, hz) ↦
              (key_of x, z, sz, record { held = hz.held; same_id = cc (ap (stored w) e) })
        ]
        | no e ↦ (k, y, store.update_other w x k e ∙ sy, hy)
      ]

  -- Taking the finalizer off an object whose connection is gone keeps all the others.
  unhold-Safe :
      (w : W) (x : X)
      → stored w (key_of x) ≡ some x
      → connected w (id_of x) ≡ false
      → Safe w
      → Safe (client.update (util.remove_finalizer x finalizer) w).1
  unhold-Safe w x s gone safe id c =
      let x' = util.remove_finalizer x finalizer in
      let c' = sym (store.update_connected w x' id) ∙ c in
      let (k, y, sy, hy) = safe id c' in
      let other : k ≢ key_of x' =
        λ e. cc (c', gone, ap (stored w) (e ∙ utils.key-remove x), s, sy, hy.same_id) in
      (k, y, store.update_other w x' k other ∙ sy, hy)

  remove-Safe : (w : W) (x : X) → Safe w → Safe (remove x w).1
  remove-Safe w x safe id c =
      let (k, y, sy, hy) = safe id (peer.remove_connected w x id c) in
      (k, y, peer.remove_stored w x k ∙ sy, hy)

  request-Safe :
      (w : W) (k : NamespacedName) (x : X)
      → stored w k ≡ some x
      → util.contains_finalizer x finalizer ≡ true
      → Safe w
      → Safe (request x w).1
  request-Safe w k x s held safe id c = elim (peer.request_connected w x id c) [
    | inl old ↦ let (j, y, sy, hy) = safe id old in (j, y, peer.request_stored w x j ∙ sy, hy)
    | inr e ↦ (k, x, peer.request_stored w x k ∙ s, record { held = held; same_id = sym e })
  ]

  add_missing_finalizer-Safe :
      (w : W) (x : X)
      → stored w (key_of x) ≡ some x
      → Safe w
      → Safe (add_missing_finalizer client util finalizer remove request x w).1
  unfolding add_missing_finalizer
  add_missing_finalizer-Safe w x s safe = elim (Bool-cases (util.contains_finalizer x finalizer)) [
    | inl held ↦ rw held safe
    | inr bare ↦ rw bare (
        update-Safe w (util.add_finalizer x finalizer) x (utils.contains-add x)
          (ap (stored w) (utils.key-add x) ∙ s) (sym (utils.id-add x)) safe)
  ]

  pub add_missing_finalizer-Holds :
      (w v : W) (x y : X)
      → stored w (key_of x) ≡ some x
      → add_missing_finalizer client util finalizer remove request x w ≡ (ok y, v)
      → (stored v (key_of x) ≡ some y) × Holds util finalizer id_of (id_of x) y
  unfolding add_missing_finalizer
  add_missing_finalizer-Holds w v x y s h =
      elim (Bool-cases (util.contains_finalizer x finalizer)) [
        | inl held ↦
            let e = rw (held, add_missing_finalizer) at h in
            (cc (e, s), record { held = cc (e, held); same_id = cc e })
        | inr bare ↦
            let (sy, hy) =
              store.update_ok w v (util.add_finalizer x finalizer) y
                (rw (bare, add_missing_finalizer) at h) (utils.contains-add x) in
            (
              ap (stored v) (sym (utils.key-add x)) ∙ sy,
              record { held = hy.held; same_id = hy.same_id ∙ utils.id-add x },
            )
      ]

  finalize-Safe :
      (w : W) (x : X)
      → stored w (key_of x) ≡ some x
      → Safe w
      → Safe (finalize client util finalizer remove request x w).1
  unfolding finalize
  finalize-Safe w x s safe = elim (Bool-cases (util.contains_finalizer x finalizer)) [
    | inr bare ↦ rw bare safe
    | inl held ↦ rw held (
        >>=-ind Safe (remove x) _ w (remove-Safe w x safe) (λ a v removed.
          let unheld =
            unhold-Safe v x
              (at_result (λ v'. stored v' (key_of x) ≡ some x) (remove x) removed
                (peer.remove_stored w x (key_of x) ∙ s))
              (peer.remove_ok w v x removed)
              (at_result Safe (remove x) removed (remove-Safe w x safe)) in
          >>=-ind Safe (client.update (util.remove_finalizer x finalizer)) _ v unheld
            (λ y u updated.
              at_result Safe (client.update (util.remove_finalizer x finalizer)) updated unheld)))
  ]

  handle-Safe :
      (w : W) (x : X)
      → stored w (key_of x) ≡ some x
      → Safe w
      → Safe (handle client util finalizer remove request x w).1
  unfolding handle
  handle-Safe w x s safe = elim (Bool-cases (util.deletion_timestamp_is_zero x)) [
    | inr deleted ↦ rw deleted (finalize-Safe w x s safe)
    | inl live ↦
        let registers = add_missing_finalizer client util finalizer remove request x in
        rw live (
          >>=-ind Safe registers _ w (add_missing_finalizer-Safe w x s safe) (λ y v registered.
            let (sy, hy) = add_missing_finalizer-Holds w v x y s registered in
            let requested =
              request-Safe v (key_of x) y sy hy.held
                (at_result Safe registers registered (add_missing_finalizer-Safe w x s safe)) in
            >>=-ind Safe (request y) _ v requested
              (λ a u e. at_result Safe (request y) e requested)))
  ]

  get-Safe : (w : W) (req : NamespacedName) → Safe w → Safe (client.get req w).1
  get-Safe w req safe id c =
      let (k, y, sy, hy) = safe id (sym (store.get_connected w req id) ∙ c) in
      (k, y, store.get_stored w req k ∙ sy, hy)

  -- The object that was read is stored under its name.
  pub stored_of_get :
      (w v : W) (req : NamespacedName) (x : X)
      → client.get req w ≡ (ok x, v)
      → stored v (key_of x) ≡ some x
  stored_of_get w v req x e =
      let s = store.get_ok w v req x e in
      ap (stored v) (store.stored_key w req x s)
      ∙ at_result (λ v'. stored v' req ≡ stored w req) (client.get req) e
          (store.get_stored w req req)
      ∙ s

  after_get-Safe :
      (req : NamespacedName) (w v : W) (r : Result X)
      → client.get req w ≡ (r, v)
      → Safe w
      → Safe (after_get client util finalizer remove request r v).1
  after_get-Safe req w v (ok x) e safe =
      handle-Safe v x (stored_of_get w v req x e)
        (at_result Safe (client.get req) e (get-Safe w req safe))
  after_get-Safe req w v (err x) e safe = at_result Safe (client.get req) e (get-Safe w req safe)
  after_get-Safe req w v panic e safe = at_result Safe (client.get req) e (get-Safe w req safe)

  -- `Reconcile` keeps the rule that every connection has a stored object that stands for it and
  -- holds the finalizer, whichever of its calls fail.
  pub reconcile-NoLeak :
      (req : NamespacedName) (w : W)
      → NoLeak view client util finalizer id_of key_of w
      → NoLeak view client util finalizer id_of key_of
          (reconcile client util finalizer remove request req w).1
  unfolding reconcile
  reconcile-NoLeak req w safe =
      after_get-Safe req w (client.get req w).1 (client.get req w).0 refl safe
