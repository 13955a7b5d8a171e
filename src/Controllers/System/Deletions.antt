-- ===== src/Controllers/System/Deletions.antt =====
-- Each call of a run keeps the deletion of its object pending, or completes it.
use awi_catalyst_sdwan_opera.Base.{
  String, ◌≡◌, ◌≢◌, refl, sym, ap, ◌∙◌, Bool, true, false, ◌==◌, Option, some, inl, inr, Bool-cases,
  Option-cases,
}
use awi_catalyst_sdwan_opera.Exec.{Exec, Result, ok, err, panic}
use awi_catalyst_sdwan_opera.Kube.{NamespacedName, Client, Util}
use awi_catalyst_sdwan_opera.Controllers.{no_requeue}
use awi_catalyst_sdwan_opera.Controllers.Machine.{
  Pc, fetching, registering, requesting, removing, ending, releasing, done, dispatch, fetched,
  after_search, enter, follow, advance,
}
use awi_catalyst_sdwan_opera.Controllers.Removal.{Plan, known, search, Removal, IsPartner}
use awi_catalyst_sdwan_opera.Controllers.Protocol.{View, IsStore, IsUtil}
use awi_catalyst_sdwan_opera.Controllers.System.Flights.{InFlight}
use awi_catalyst_sdwan_opera.Controllers.System.Pending.{IsPrompt, Due}

module _ {W X I : Type 0} (view : View W X I) (client : Client W X) (util : Util X)
    (finalizer : String) (id_of : X → I) (key_of : X → NamespacedName) (remove : Removal W X)
    (request : X → Exec W (Unit {0})) (store : IsStore view client util finalizer id_of key_of)
    (utils : IsUtil view client util finalizer id_of key_of)
    (peer : IsPartner view id_of remove request)
    (prompt : IsPrompt view client util finalizer) where
  open view use {stored, connected}

  abbrev DueAt : W → Bool → Option (Pc X) → NamespacedName → Type 0
  DueAt = Due view client util finalizer

  fetched-Due :
      (w v : W) (k : NamespacedName) (queued : Bool) (r : Result X)
      → client.get k w ≡ (r, v)
      → stored v k ≡ stored w k
      → DueAt v queued (some (fetched client util finalizer remove request r)) k
  unfolding dispatch
  fetched-Due w v k queued (ok x) e same z sz deleting held =
      let read : x ≡ z = cc (store.get_ok w v k x e, same, sz) in
      let x_deleting : util.deletion_timestamp_is_zero x ≡ false = cc (read, deleting) in
      let x_held : util.contains_finalizer x finalizer ≡ true = cc (read, held) in
      inr (rw (x_deleting, x_held, dispatch) tt)
  fetched-Due w v k queued (err er) e same z sz deleting held =
      elim (Option-cases (util.ignore_not_found er)) [
        | inl missing ↦ cc (prompt.get_missing w v k er e missing, same, sz)
        | inr (er', kept) ↦ inr (rw kept tt)
      ]
  fetched-Due w v k queued panic e same z sz deleting held = inr tt

  registered-Due :
      (w v : W) (k : NamespacedName) (queued : Bool) (x : X) (r : Result X)
      → key_of x ≡ k
      → util.deletion_timestamp_is_zero x ≡ true
      → client.update (util.add_finalizer x finalizer) w ≡ (r, v)
      → DueAt v queued (some (follow client util finalizer remove request requesting r)) k
  registered-Due w v k queued x (ok y) at_key live e z sz deleting held =
      let x' = util.add_finalizer x finalizer in
      let (sy, _) = store.update_ok w v x' y e (utils.contains-add x) in
      let y_live =
        prompt.update_live w v x' y e (utils.contains-add x) (prompt.add_live x ∙ live) in
      let same_key = utils.key-add x ∙ at_key in
      cc (ap (stored v) same_key, sy, sz, y_live, deleting)
  registered-Due w v k queued x (err _) at_key live e z sz deleting held = inr tt
  registered-Due w v k queued x panic at_key live e z sz deleting held = inr tt

  requested-Due :
      (w v : W) (k : NamespacedName) (queued : Bool) (x : X) (r : Result (Unit {0}))
      → stored v k ≡ stored w k
      → DueAt w queued (some (requesting x)) k
      → DueAt v queued
          (some (follow client util finalizer remove request (λ _. done (ok no_requeue)) r))
          k
  requested-Due w v k queued x r same due z sz deleting held =
      elim (due z (sym same ∙ sz) deleting held) [ inl waits ↦ inl waits | inr busy ↦ absurd busy ]

  removed-Due :
      (w : W) (k : NamespacedName) (queued : Bool) (x : X) (r : Result (Unit {0}))
      → DueAt w queued (some (follow client util finalizer remove request (λ _. releasing x) r)) k
  removed-Due w k queued x (ok _) z sz deleting held = inr tt
  removed-Due w k queued x (err _) z sz deleting held = inr tt
  removed-Due w k queued x panic z sz deleting held = inr tt

  released-Due :
      (w v : W) (k : NamespacedName) (queued : Bool) (x : X) (r : Result X)
      → key_of x ≡ k
      → client.update (util.remove_finalizer x finalizer) w ≡ (r, v)
      → DueAt v queued
          (some (follow client util finalizer remove request (λ _. done (ok no_requeue)) r))
          k
  released-Due w v k queued x (ok y) at_key e z sz deleting held =
      let bare =
        store.update_bare w v (util.remove_finalizer x finalizer) y z e (utils.contains-remove x)
          (ap (stored v) (utils.key-remove x ∙ at_key) ∙ sz) in
      cc (bare, held)
  released-Due w v k queued x (err _) at_key e z sz deleting held = inr tt
  released-Due w v k queued x panic at_key e z sz deleting held = inr tt

  found-Due :
      (w : W) (k : NamespacedName) (queued : Bool) (x : X) (r : Result String)
      → DueAt w queued
          (some (
            follow client util finalizer remove request
              (after_search client util finalizer remove request x)
              r))
          k
  found-Due w k queued x (ok number) z sz deleting held = elim (Bool-cases (number == "")) [
    | inl empty ↦ inr (rw empty tt)
    | inr given ↦ inr (rw given tt)
  ]
  found-Due w k queued x (err _) z sz deleting held = inr tt
  found-Due w k queued x panic z sz deleting held = inr tt

  enter-Due :
      (w : W) (k : NamespacedName) (queued : Bool) (x : X) (pl : Plan W)
      → (let (p', v) = enter client util finalizer remove request x pl w in
          DueAt v queued (some p') k)
  enter-Due w k queued x (known number) =
      removed-Due (remove.tear number w).1 k queued x (remove.tear number w).0
  enter-Due w k queued x (search m) = found-Due (m w).1 k queued x (m w).0

  pub advance-Due :
      (w : W) (k : NamespacedName) (queued : Bool) (p : Pc X)
      → InFlight view util finalizer id_of key_of remove w k (some p)
      → DueAt w queued (some p) k
      → (let (p', v) = advance client util finalizer remove request p w in
          DueAt v queued (some p') k)
  unfolding advance
  advance-Due w k queued (fetching req) flight due =
      fetched-Due w (client.get req w).1 k queued (client.get req w).0
        (ap (λ q. client.get q w) (sym flight)) (store.get_stored w req k)
  advance-Due w k queued (registering x) flight due =
      let added = client.update (util.add_finalizer x finalizer) w in
      registered-Due w added.1 k queued x added.0 flight.0 flight.2 refl
  advance-Due w k queued (requesting x) flight due =
      requested-Due w (request x w).1 k queued x (request x w).0 (peer.request_stored w x k) due
  advance-Due w k queued (removing x) flight due = enter-Due w k queued x (remove.plan x)
  advance-Due w k queued (ending x number) flight due =
      removed-Due (remove.tear number w).1 k queued x (remove.tear number w).0
  advance-Due w k queued (releasing x) flight due =
      let released = client.update (util.remove_finalizer x finalizer) w in
      released-Due w released.1 k queued x released.0 flight refl
  advance-Due w k queued (done res) flight due = due

  enter_others :
      (w : W) (j : NamespacedName) (x : X) (pl : Plan W)
      → remove.plan x ≡ pl
      → stored (enter client util finalizer remove request x pl w).1 j ≡ stored w j
  enter_others w j x (known number) planned = peer.tear_stored w number j
  enter_others w j x (search m) planned = peer.search_stored w x m j planned

  -- The other keys.
  pub advance_others :
      (w : W) (k j : NamespacedName) (p : Pc X)
      → InFlight view util finalizer id_of key_of remove w k (some p)
      → j ≢ k
      → stored (advance client util finalizer remove request p w).1 j ≡ stored w j
  unfolding advance
  advance_others w k j (fetching req) flight other = store.get_stored w req j
  advance_others w k j (registering x) flight other =
      store.update_other w (util.add_finalizer x finalizer) j
        (λ q. other (q ∙ utils.key-add x ∙ flight.0))
  advance_others w k j (requesting x) flight other = peer.request_stored w x j
  advance_others w k j (removing x) flight other = enter_others w j x (remove.plan x) refl
  advance_others w k j (ending x number) flight other = peer.tear_stored w number j
  advance_others w k j (releasing x) flight other =
      store.update_other w (util.remove_finalizer x finalizer) j
        (λ q. other (q ∙ utils.key-remove x ∙ flight))
  advance_others w k j (done res) flight other = refl
