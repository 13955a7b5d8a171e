-- ===== src/Controllers/System/Flights.antt =====
-- What a run under way says of the stored objects.
use awi_catalyst_sdwan_opera.Base.{
  String, ◌≡◌, ◌≢◌, sym, ◌∙◌, subst, true, false, Option, none, some, ◌⊎◌, inl, inr,
}
use awi_catalyst_sdwan_opera.Exec.{ok}
use awi_catalyst_sdwan_opera.Kube.{NamespacedName, Util}
use awi_catalyst_sdwan_opera.Kube.Keys.{set_key, set_key-same, set_key-other}
use awi_catalyst_sdwan_opera.Controllers.Machine.{
  Pc, fetching, registering, requesting, removing, ending, releasing, done,
}
use awi_catalyst_sdwan_opera.Controllers.Removal.{Removal}
use awi_catalyst_sdwan_opera.Controllers.Protocol.{NamespacedName-discrete, View, Holds}

-- The run is not about to take the finalizer off.
abbrev pub Unreleased : {X : Type 0} → Option (Pc X) → Type 0
Unreleased none = Unit
Unreleased (some (fetching _)) = Unit
Unreleased (some (registering _)) = Unit
Unreleased (some (requesting _)) = Unit
Unreleased (some (removing _)) = Unit
Unreleased (some (ending _ _)) = Unit
Unreleased (some (releasing _)) = ⊥
Unreleased (some (done _)) = Unit

module _ {W X I : Type 0} (view : View W X I) (util : Util X) (finalizer : String) (id_of : X → I)
    (key_of : X → NamespacedName) (remove : Removal W X) where
  open view use {stored, connected}

  -- The object under the key holds the finalizer for the connection.
  abbrev pub HoldsAt : W → NamespacedName → I → Type 0
  HoldsAt w k id = (x : X) × (stored w k ≡ some x) × Holds util finalizer id_of id x

  abbrev pub IsBare : W → NamespacedName → Type 0
  IsBare w k = (x : X) → stored w k ≡ some x → util.contains_finalizer x finalizer ≡ false

  -- To end the connection of this ID is to end that of the object.
  abbrev pub Ends : X → String → Type 0
  Ends x number = (w v : W) → remove.tear number w ≡ (ok tt, v) → connected v (id_of x) ≡ false

  abbrev pub InFlight : W → NamespacedName → Option (Pc X) → Type 0
  InFlight w k none = Unit
  InFlight w k (some (fetching req)) = req ≡ k
  InFlight w k (some (registering x)) =
      (key_of x ≡ k) × IsBare w k × (util.deletion_timestamp_is_zero x ≡ true)
  InFlight w k (some (requesting x)) = (key_of x ≡ k) × HoldsAt w k (id_of x)
  InFlight w k (some (removing x)) = (key_of x ≡ k) × HoldsAt w k (id_of x)
  InFlight w k (some (ending x number)) = (key_of x ≡ k) × HoldsAt w k (id_of x) × Ends x number
  InFlight w k (some (releasing x)) = key_of x ≡ k
  InFlight w k (some (done _)) = Unit

  HoldsAt-agree :
      (w v : W) (k : NamespacedName) (id : I)
      → stored v k ≡ stored w k
      → HoldsAt w k id
      → HoldsAt v k id
  HoldsAt-agree w v k id e (x, s, h) = (x, e ∙ s, h)

  pub InFlight-agree :
      (w v : W) (k : NamespacedName) (p : Option (Pc X))
      → stored v k ≡ stored w k
      → InFlight w k p
      → InFlight v k p
  InFlight-agree w v k none e f = tt
  InFlight-agree w v k (some (fetching req)) e f = f
  InFlight-agree w v k (some (registering x)) e f = (f.0, (λ z s. f.1 z (sym e ∙ s)), f.2)
  InFlight-agree w v k (some (requesting x)) e f = (f.0, HoldsAt-agree w v k (id_of x) e f.1)
  InFlight-agree w v k (some (removing x)) e f = (f.0, HoldsAt-agree w v k (id_of x) e f.1)
  InFlight-agree w v k (some (ending x number)) e f =
      (f.0, HoldsAt-agree w v k (id_of x) e f.1, f.2)
  InFlight-agree w v k (some (releasing x)) e f = f
  InFlight-agree w v k (some (done _)) e f = tt

  -- Every connection has an object that holds the finalizer and keeps it, and each run under way is
  -- right about the object of its key.
  pub record Inv (w : W) (worker : NamespacedName → Option (Pc X)) : Type 0 where
    pub holders :
        (id : I)
        → connected w id ≡ true
        → (k : NamespacedName) × HoldsAt w k id × Unreleased (worker k)
    pub flights : (k : NamespacedName) → InFlight w k (worker k)

  -- What is done at one key keeps the rest. It may add connections of the key's own object, and has
  -- to keep that object as the holder of the connections that are left.
  module _ (w v : W) (worker worker' : NamespacedName → Option (Pc X)) (k : NamespacedName)
      (others : (j : NamespacedName) → j ≢ k → stored v j ≡ stored w j)
      (agree : (j : NamespacedName) → j ≢ k → worker' j ≡ worker j)
      (kept : (id : I)
        → connected v id ≡ true
        → HoldsAt w k id
        → Unreleased (worker k)
        → HoldsAt v k id × Unreleased (worker' k))
      (added : (id : I)
        → connected v id ≡ true
        → (connected w id ≡ true) ⊎ (HoldsAt v k id × Unreleased (worker' k)))
      (flight : InFlight v k (worker' k)) where
    holders_after :
        Inv w worker
        → (id : I) → connected v id ≡ true
        → (j : NamespacedName) × HoldsAt v j id × Unreleased (worker' j)
    holders_after inv id c = elim (added id c) [
      | inr (h, u) ↦ (k, h, u)
      | inl old ↦
          let (j, h, u) = inv.holders id old in
          elim (NamespacedName-discrete j k) [
            | yes e ↦
                let (h', u') =
                  kept id c (subst (λ i. HoldsAt w i id) e h)
                    (subst (λ i. Unreleased (worker i)) e u) in
                (k, h', u')
            | no e ↦
                (j, HoldsAt-agree w v j id (others j e) h, subst Unreleased (sym (agree j e)) u)
          ]
    ]

    flights_after : Inv w worker → (j : NamespacedName) → InFlight v j (worker' j)
    flights_after inv j = elim (NamespacedName-discrete j k) [
      | yes e ↦ subst (λ i. InFlight v i (worker' i)) (sym e) flight
      | no e ↦
          subst (InFlight v j) (sym (agree j e))
            (InFlight-agree w v j (worker j) (others j e) (inv.flights j))
    ]

    pub moves-Inv : Inv w worker → Inv v worker'
    moves-Inv inv = record { holders = holders_after inv; flights = flights_after inv }

  -- The same, for a worker that goes from `p` to `p'`.
  pub worker_moves-Inv :
      (w v : W) (worker : NamespacedName → Option (Pc X)) (k : NamespacedName)
      (p p' : Option (Pc X))
      → worker k ≡ p
      → ((j : NamespacedName) → j ≢ k → stored v j ≡ stored w j)
      → ((id : I)
          → connected v id ≡ true
          → HoldsAt w k id
          → Unreleased p
          → HoldsAt v k id × Unreleased p')
      → ((id : I)
          → connected v id ≡ true
          → (connected w id ≡ true) ⊎ (HoldsAt v k id × Unreleased p'))
      → InFlight v k p'
      → Inv w worker
      → Inv v (set_key k p' worker)
  worker_moves-Inv w v worker k p p' e others kept added flight =
      let same = sym (set_key-same k p' worker) in
      moves-Inv w v worker (set_key k p' worker) k others
        (λ j other. set_key-other j k p' worker other)
        (subst
          (λ q.
            (id : I)
            → connected v id ≡ true
            → HoldsAt w k id
            → Unreleased (worker k)
            → HoldsAt v k id × Unreleased q)
          same (λ id c h u. kept id c h (subst Unreleased e u)))
        (subst
          (λ q.
            (id : I)
            → connected v id ≡ true
            → (connected w id ≡ true) ⊎ (HoldsAt v k id × Unreleased q))
          same added)
        (subst (InFlight v k) same flight)
