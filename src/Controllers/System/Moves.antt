-- ===== src/Controllers/System/Moves.antt =====
-- Each call of a run keeps the invariant.
use awi_catalyst_sdwan_opera.Base.{
  String, ◌≡◌, refl, sym, ap, ◌∙◌, subst, Option, some, inl, inr, Bool-cases,
}
use awi_catalyst_sdwan_opera.Exec.{Exec, Result, ok, err, panic}
use awi_catalyst_sdwan_opera.Kube.{NamespacedName, Client, Util}
use awi_catalyst_sdwan_opera.Kube.Keys.{set_key}
use awi_catalyst_sdwan_opera.Controllers.{no_requeue}
use awi_catalyst_sdwan_opera.Controllers.Machine.{
  Pc, fetching, registering, requesting, removing, ending, releasing, done, dispatch, fetched,
  follow, advance,
}
use awi_catalyst_sdwan_opera.Controllers.Removal.{Removal, IsPartner}
use awi_catalyst_sdwan_opera.Controllers.Protocol.{View, IsStore, IsUtil}
use awi_catalyst_sdwan_opera.Controllers.System.Flights.{
  Unreleased, HoldsAt, InFlight, Inv, worker_moves-Inv,
}
use awi_catalyst_sdwan_opera.Controllers.System.Endings.{tear-Inv, enter-Inv}

module _ {W X I : Type 0} (view : View W X I) (client : Client W X) (util : Util X)
    (finalizer : String) (id_of : X → I) (key_of : X → NamespacedName) (remove : Removal W X)
    (request : X → Exec W (Unit {0})) (store : IsStore view client util finalizer id_of key_of)
    (utils : IsUtil view client util finalizer id_of key_of)
    (peer : IsPartner view id_of remove request) where
  open view use {stored, connected}

  abbrev At : W → NamespacedName → I → Type 0
  At = HoldsAt view util finalizer id_of key_of remove

  abbrev Flight : W → NamespacedName → Option (Pc X) → Type 0
  Flight = InFlight view util finalizer id_of key_of remove

  abbrev to_dispatch : X → Pc X
  to_dispatch = dispatch client util finalizer remove request

  abbrev to_fetched : Result X → Pc X
  to_fetched = fetched client util finalizer remove request

  abbrev then_to : {A : Type 0} → (A → Pc X) → Result A → Pc X
  then_to = follow client util finalizer remove request

  -- An object that was just read.
  dispatch-InFlight :
      (w : W) (k : NamespacedName) (x : X)
      → stored w k ≡ some x
      → Flight w k (some (to_dispatch x)) × Unreleased (some (to_dispatch x))
  unfolding dispatch
  dispatch-InFlight w k x s =
      let here = store.stored_key w k x s in
      elim (Bool-cases (util.deletion_timestamp_is_zero x)) [
        | inl live ↦ elim (Bool-cases (util.contains_finalizer x finalizer)) [
          | inl held ↦
              rw (live, held, dispatch) ((here, (x, s, record { held = held; same_id = refl })), tt)
          | inr bare ↦ rw (live, bare, dispatch) ((here, (λ z sz. cc (s, sz, bare)), live), tt)
        ]
        | inr deleted ↦ elim (Bool-cases (util.contains_finalizer x finalizer)) [
          | inl held ↦
              rw (deleted, held, dispatch)
                ((here, (x, s, record { held = held; same_id = refl })), tt)
          | inr bare ↦ rw (deleted, bare, dispatch) (tt, tt)
        ]
      ]

  fetched-InFlight :
      (w v : W) (k : NamespacedName) (r : Result X)
      → client.get k w ≡ (r, v)
      → stored v k ≡ stored w k
      → Flight v k (some (to_fetched r)) × Unreleased (some (to_fetched r))
  fetched-InFlight w v k (ok x) e same = dispatch-InFlight v k x (same ∙ store.get_ok w v k x e)
  fetched-InFlight w v k (err _) e same = (tt, tt)
  fetched-InFlight w v k panic e same = (tt, tt)

  done-InFlight :
      {A : Type 0} (w : W) (k : NamespacedName) (r : Result A)
      → Flight w k (some (then_to (λ _. done (ok no_requeue)) r))
        × Unreleased (some (then_to (λ _. done (ok no_requeue)) r))
  done-InFlight w k (ok _) = (tt, tt)
  done-InFlight w k (err _) = (tt, tt)
  done-InFlight w k panic = (tt, tt)

  registered-InFlight :
      (w v : W) (k : NamespacedName) (x : X) (r : Result X)
      → key_of x ≡ k
      → client.update (util.add_finalizer x finalizer) w ≡ (r, v)
      → Flight v k (some (then_to requesting r))
  registered-InFlight w v k x (ok y) here e =
      let (s, h) =
        store.update_ok w v (util.add_finalizer x finalizer) y e (utils.contains-add x) in
      let sy = ap (stored v) (sym (utils.key-add x ∙ here)) ∙ s in
      (store.stored_key v k y sy, (y, sy, record { held = h.held; same_id = refl }))
  registered-InFlight w v k x (err _) here e = tt
  registered-InFlight w v k x panic here e = tt

  pub advance-Inv :
      (w : W) (worker : NamespacedName → Option (Pc X)) (k : NamespacedName) (p : Pc X)
      → worker k ≡ some p
      → Inv view util finalizer id_of key_of remove w worker
      → (let (p', v) = advance client util finalizer remove request p w in
          Inv view util finalizer id_of key_of remove v (set_key k (some p') worker))
  unfolding advance
  advance-Inv w worker k (fetching req) e inv =
      let here : req ≡ k = subst (Flight w k) e (inv.flights k) in
      let same = store.get_stored w req in
      let (flight, free) =
        fetched-InFlight w (client.get req w).1 k (client.get req w).0
          (ap (λ q. client.get q w) (sym here)) (same k) in
      worker_moves-Inv view util finalizer id_of key_of remove w (client.get req w).1 worker k
        (some (fetching req)) _ e (λ j _. same j) (λ id c (x, s, h) _. ((x, same k ∙ s, h), free))
        (λ id c. inl (sym (store.get_connected w req id) ∙ c)) flight inv
  advance-Inv w worker k (registering x) e inv =
      let (here, bare, _) = subst (Flight w k) e (inv.flights k) in
      let x' = util.add_finalizer x finalizer in
      let v = (client.update x' w).1 in
      worker_moves-Inv view util finalizer id_of key_of remove w v worker k (some (registering x)) _
        e (λ j other. store.update_other w x' j (λ q. other (q ∙ utils.key-add x ∙ here)))
        (λ id c (z, s, h) _. cc (bare z s, h.held))
        (λ id c. inl (sym (store.update_connected w x' id) ∙ c))
        (registered-InFlight w v k x (client.update x' w).0 here refl) inv
  advance-Inv w worker k (requesting x) e inv =
      let (here, (z, s, h)) = subst (Flight w k) e (inv.flights k) in
      let v = (request x w).1 in
      let same = peer.request_stored w x in
      let (flight, free) = done-InFlight v k (request x w).0 in
      worker_moves-Inv view util finalizer id_of key_of remove w v worker k (some (requesting x)) _
        e (λ j _. same j) (λ id c (z', s', h') _. ((z', same k ∙ s', h'), free))
        (λ id c. elim (peer.request_connected w x id c) [
          | inl old ↦ inl old
          | inr new ↦
              inr ((z, same k ∙ s, record { held = h.held; same_id = h.same_id ∙ sym new }), free)
        ])
        flight inv
  advance-Inv w worker k (removing x) e inv =
      let (here, at) = subst (Flight w k) e (inv.flights k) in
      enter-Inv view client util finalizer id_of key_of remove request store utils peer w worker k x
        (remove.plan x) refl e here at inv
  advance-Inv w worker k (ending x number) e inv =
      let (here, at, ends) = subst (Flight w k) e (inv.flights k) in
      tear-Inv view client util finalizer id_of key_of remove request store utils peer w worker k
        (ending x number) x number e here at ends inv
  advance-Inv w worker k (releasing x) e inv =
      let here : key_of x ≡ k = subst (Flight w k) e (inv.flights k) in
      let x' = util.remove_finalizer x finalizer in
      let v = (client.update x' w).1 in
      worker_moves-Inv view util finalizer id_of key_of remove w v worker k (some (releasing x)) _ e
        (λ j other. store.update_other w x' j (λ q. other (q ∙ utils.key-remove x ∙ here)))
        (λ id c h u. absurd u) (λ id c. inl (sym (store.update_connected w x' id) ∙ c))
        (done-InFlight v k (client.update x' w).0).0 inv
  advance-Inv w worker k (done res) e inv =
      worker_moves-Inv view util finalizer id_of key_of remove w w worker k (some (done res)) _ e
        (λ j _. refl) (λ id c h _. (h, tt)) (λ id c. inl c) tt inv
