-- ===== src/Controllers/System/Endings.antt =====
-- The calls of a removal keep the invariant.
use awi_catalyst_sdwan_opera.Base.{
  String, ◌==◌, ◌≡◌, refl, sym, ap, ◌∙◌, true, false, Option, some, inl, inr, Bool-cases,
}
use awi_catalyst_sdwan_opera.Exec.{Exec, Result, ok, err, panic}
use awi_catalyst_sdwan_opera.Kube.{NamespacedName, Client, Util}
use awi_catalyst_sdwan_opera.Kube.Keys.{set_key}
use awi_catalyst_sdwan_opera.Controllers.Machine.{
  Pc, removing, releasing, follow, after_search, enter,
}
use awi_catalyst_sdwan_opera.Controllers.Removal.{Plan, known, search, Removal, IsPartner}
use awi_catalyst_sdwan_opera.Controllers.Protocol.{View, IsStore, IsUtil}
use awi_catalyst_sdwan_opera.Controllers.System.Flights.{
  Unreleased, Ends, HoldsAt, InFlight, Inv, worker_moves-Inv,
}

module _ {W X I : Type 0} (view : View W X I) (client : Client W X) (util : Util X)
    (finalizer : String) (id_of : X → I) (key_of : X → NamespacedName) (remove : Removal W X)
    (request : X → Exec W (Unit {0})) (store : IsStore view client util finalizer id_of key_of)
    (utils : IsUtil view client util finalizer id_of key_of)
    (peer : IsPartner view id_of remove request) where
  open view use {stored, connected}

  abbrev At : W → NamespacedName → I → Type 0
  At = HoldsAt view util finalizer id_of key_of remove

  abbrev Flight : W → NamespacedName → Option (Pc X) → Type 0
  Flight = InFlight view util finalizer id_of key_of remove

  abbrev then_to : {A : Type 0} → (A → Pc X) → Result A → Pc X
  then_to = follow client util finalizer remove request

  -- A call that is known to end the object's connection where it succeeds: the object is the holder of
  -- none then.
  tear-InFlight :
      (w v : W) (k : NamespacedName) (x : X) (number : String) (r : Result (Unit {0}))
      → key_of x ≡ k
      → At w k (id_of x)
      → stored v k ≡ stored w k
      → Ends view util finalizer id_of key_of remove x number
      → remove.tear number w ≡ (r, v)
      → Flight v k (some (then_to (λ _. releasing x) r))
        × ((id : I)
            → connected v id ≡ true
            → At w k id
            → At v k id × Unreleased (some (then_to (λ _. releasing x) r)))
  tear-InFlight w v k x number (ok _) here (z, s, h) same ends e = (
    here,
    λ id c (z', s', h').
        let same_id : id ≡ id_of x = sym h'.same_id ∙ ap id_of (cc (s, s')) ∙ h.same_id in
        let gone : connected v id ≡ false = ap (connected v) same_id ∙ ends w v e in cc (c, gone),
  )
  tear-InFlight w v k x number (err _) here at same ends e =
      (tt, λ id c (z, s, h). ((z, same ∙ s, h), tt))
  tear-InFlight w v k x number panic here at same ends e =
      (tt, λ id c (z, s, h). ((z, same ∙ s, h), tt))

  pub tear-Inv :
      (w : W) (worker : NamespacedName → Option (Pc X)) (k : NamespacedName) (p : Pc X) (x : X)
      (number : String)
      → worker k ≡ some p
      → key_of x ≡ k
      → At w k (id_of x)
      → Ends view util finalizer id_of key_of remove x number
      → Inv view util finalizer id_of key_of remove w worker
      → (let (r, v) = remove.tear number w in
          Inv view util finalizer id_of key_of remove v
            (set_key k (some (then_to (λ _. releasing x) r)) worker))
  tear-Inv w worker k p x number e here at ends inv =
      let v = (remove.tear number w).1 in
      let same = peer.tear_stored w number in
      let (flight, kept) =
        tear-InFlight w v k x number (remove.tear number w).0 here at (same k) ends refl in
      worker_moves-Inv view util finalizer id_of key_of remove w v worker k (some p) _ e
        (λ j _. same j) (λ id c h _. kept id c h) (λ id c. inl (peer.tear_connected w number id c))
        flight inv

  -- A search: where it finds nothing, the object is the holder of no connection.
  search-InFlight :
      (w v : W) (k : NamespacedName) (x : X) (m : Exec W String) (r : Result String)
      → key_of x ≡ k
      → At w k (id_of x)
      → stored v k ≡ stored w k
      → remove.plan x ≡ search m
      → m w ≡ (r, v)
      → (let p = then_to (after_search client util finalizer remove request x) r in
          Flight v k (some p)
          × ((id : I) → connected v id ≡ true → At w k id → At v k id × Unreleased (some p)))
  search-InFlight w v k x m (ok number) here (z, s, h) same planned e =
      elim (Bool-cases (number == "")) [
        | inl empty ↦ rw empty (
          here,
          λ id c (z', s', h').
              let same_id : id ≡ id_of x = sym h'.same_id ∙ ap id_of (cc (s, s')) ∙ h.same_id in
              let gone : connected v id ≡ false =
                ap (connected v) same_id ∙ peer.search_none w v x m number planned e empty in
              cc (c, gone),
        )
        | inr given ↦ rw given (
          (
            here,
            (z, same ∙ s, h),
            λ w' v' ended. peer.tear_found w v w' v' x m number planned e given ended,
          ),
          λ id c (z', s', h'). ((z', same ∙ s', h'), tt),
        )
      ]
  search-InFlight w v k x m (err _) here at same planned e =
      (tt, λ id c (z, s, h). ((z, same ∙ s, h), tt))
  search-InFlight w v k x m panic here at same planned e =
      (tt, λ id c (z, s, h). ((z, same ∙ s, h), tt))

  pub enter-Inv :
      (w : W) (worker : NamespacedName → Option (Pc X)) (k : NamespacedName) (x : X) (pl : Plan W)
      → remove.plan x ≡ pl
      → worker k ≡ some (removing x)
      → key_of x ≡ k
      → At w k (id_of x)
      → Inv view util finalizer id_of key_of remove w worker
      → (let (p', v) = enter client util finalizer remove request x pl w in
          Inv view util finalizer id_of key_of remove v (set_key k (some p') worker))
  enter-Inv w worker k x (known number) planned e here at inv =
      tear-Inv w worker k (removing x) x number e here at
        (λ w' v' ended. peer.tear_known w' v' x number planned ended) inv
  enter-Inv w worker k x (search m) planned e here at inv =
      let v = (m w).1 in
      let same = λ (j : NamespacedName). peer.search_stored w x m j planned in
      let (flight, kept) = search-InFlight w v k x m (m w).0 here at (same k) planned refl in
      worker_moves-Inv view util finalizer id_of key_of remove w v worker k (some (removing x)) _ e
        (λ j _. same j) (λ id c h _. kept id c h)
        (λ id c. inl (sym (peer.search_connected w x m id planned) ∙ c)) flight inv
