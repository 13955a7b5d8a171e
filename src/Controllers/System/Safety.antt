-- ===== src/Controllers/System/Safety.antt =====
-- No connection outlives its object, in whichever order the calls come.
use awi_catalyst_sdwan_opera.Base.{
  String, ◌≡◌, refl, sym, ◌∙◌, subst, Bool, Option, none, some, inl,
}
use awi_catalyst_sdwan_opera.Exec.{Exec}
use awi_catalyst_sdwan_opera.Kube.{NamespacedName, Client, Util}
use awi_catalyst_sdwan_opera.Controllers.Machine.{
  Pc, fetching, registering, requesting, removing, ending, releasing, done,
}
use awi_catalyst_sdwan_opera.Controllers.Removal.{Removal, IsPartner, perform}
use awi_catalyst_sdwan_opera.Controllers.Protocol.{View, IsStore, IsUtil, NoLeak}
use awi_catalyst_sdwan_opera.Controllers.Lifecycle.{Only}
use awi_catalyst_sdwan_opera.Controllers.System.{
  System, Step, started, advanced, finished, restarted, created, deleted, changed, elsewhere, Reach,
  here, next,
}
use awi_catalyst_sdwan_opera.Controllers.System.Flights.{
  Unreleased, HoldsAt, IsBare, InFlight, InFlight-agree, Inv, moves-Inv, worker_moves-Inv,
}
use awi_catalyst_sdwan_opera.Controllers.System.Moves.{advance-Inv}

module _ {W X I : Type 0} (view : View W X I) (client : Client W X) (util : Util X)
    (finalizer : String) (id_of : X → I) (key_of : X → NamespacedName) (remove : Removal W X)
    (request : X → Exec W (Unit {0})) where
  open view use {stored, connected}

  -- A change of one object that keeps it bare, or the holder of what it held.
  change-InFlight :
      (w v : W) (k : NamespacedName) (p : Option (Pc X))
      → (IsBare view util finalizer id_of key_of remove w k
          → IsBare view util finalizer id_of key_of remove v k)
      → ((id : I)
          → HoldsAt view util finalizer id_of key_of remove w k id
          → HoldsAt view util finalizer id_of key_of remove v k id)
      → InFlight view util finalizer id_of key_of remove w k p
      → InFlight view util finalizer id_of key_of remove v k p
  change-InFlight w v k none bare holds f = tt
  change-InFlight w v k (some (fetching req)) bare holds f = f
  change-InFlight w v k (some (registering x)) bare holds f = (f.0, bare f.1, f.2)
  change-InFlight w v k (some (requesting x)) bare holds f = (f.0, holds (id_of x) f.1)
  change-InFlight w v k (some (removing x)) bare holds f = (f.0, holds (id_of x) f.1)
  change-InFlight w v k (some (ending x number)) bare holds f = (f.0, holds (id_of x) f.1, f.2)
  change-InFlight w v k (some (releasing x)) bare holds f = f
  change-InFlight w v k (some (done _)) bare holds f = tt

  change-Inv :
      (w v : W) (worker : NamespacedName → Option (Pc X)) (k : NamespacedName)
      → Only view client util finalizer id_of (perform remove) request k w v
      → (IsBare view util finalizer id_of key_of remove w k
          → IsBare view util finalizer id_of key_of remove v k)
      → ((id : I)
          → HoldsAt view util finalizer id_of key_of remove w k id
          → HoldsAt view util finalizer id_of key_of remove v k id)
      → Inv view util finalizer id_of key_of remove w worker
      → Inv view util finalizer id_of key_of remove v worker
  change-Inv w v worker k only bare holds inv =
      moves-Inv view util finalizer id_of key_of remove w v worker worker k only.others
        (λ j _. refl) (λ id c h u. (holds id h, u)) (λ id c. inl (sym (only.same_connected id) ∙ c))
        (change-InFlight w v k (worker k) bare holds (inv.flights k)) inv

module _ {W X I : Type 0} (view : View W X I) (client : Client W X) (util : Util X)
    (finalizer : String) (id_of : X → I) (key_of : X → NamespacedName) (remove : Removal W X)
    (request : X → Exec W (Unit {0})) (store : IsStore view client util finalizer id_of key_of)
    (utils : IsUtil view client util finalizer id_of key_of)
    (peer : IsPartner view id_of remove request) (update_func delete_func : X → Bool) where
  open view use {stored, connected}

  abbrev pub Safe : System W X → Type 0
  Safe s = Inv view util finalizer id_of key_of remove s.world s.worker

  pub Step-Safe :
      {s t : System W X}
      → Step view client util finalizer id_of remove request update_func delete_func s t
      → Safe s
      → Safe t
  Step-Safe {s} (started k q idle) safe =
      worker_moves-Inv view util finalizer id_of key_of remove s.world s.world s.worker k none
        (some (fetching k)) idle (λ j _. refl) (λ id c h _. (h, tt)) (λ id c. inl c) refl safe
  Step-Safe {s} (advanced k p e) safe =
      advance-Inv view client util finalizer id_of key_of remove request store utils peer s.world
        s.worker k p e safe
  Step-Safe {s} (finished k res e _) safe =
      worker_moves-Inv view util finalizer id_of key_of remove s.world s.world s.worker k
        (some (done res)) none e (λ j _. refl) (λ id c h _. (h, tt)) (λ id c. inl c) tt safe
  Step-Safe {s} restarted safe = record {
    holders = λ id c. let (k, h, _) = safe.holders id c in (k, h, tt);
    flights = λ k. tt;
  }
  Step-Safe {s} (created k x v free new bare only) safe =
      change-Inv view client util finalizer id_of key_of remove request s.world v s.worker k only
        (λ _ z sz. cc (new, sz, bare)) (λ id (z, sz, h). cc (free, sz)) safe
  Step-Safe {s} (deleted k x v old bare gone only) safe =
      change-Inv view client util finalizer id_of key_of remove request s.world v s.worker k only
        (λ _ z sz. cc (gone, sz)) (λ id (z, sz, h). cc (old, sz, bare, h.held)) safe
  Step-Safe {s} (changed k x y v old new same_held same_id _ only) safe =
      change-Inv view client util finalizer id_of key_of remove request s.world v s.worker k only
        (λ bare z sz. cc (bare x old, new, sz, same_held))
        (λ id (z, sz, h). (
          y,
          new,
          record {
            held = cc (old, sz, h.held, same_held);
            same_id = cc (old, sz, h.same_id, same_id);
          },
        ))
        safe
  Step-Safe {s} (elsewhere v same_stored same_connected) safe = record {
    holders = λ id c.
        let (k, (x, sx, h), u) = safe.holders id (sym (same_connected id) ∙ c) in
        (k, (x, same_stored k ∙ sx, h), u);
    flights = λ k.
        InFlight-agree view util finalizer id_of key_of remove s.world v k (s.worker k)
          (same_stored k) (safe.flights k);
  }

  pub start-Safe :
      (s : System W X)
      → ((k : NamespacedName) → s.worker k ≡ none)
      → NoLeak view client util finalizer id_of key_of s.world
      → Safe s
  start-Safe s idle safe = record {
    holders = λ id c.
        let (k, x, sx, h) = safe id c in (k, (x, sx, h), subst Unreleased (sym (idle k)) tt);
    flights =
        λ k. subst (InFlight view util finalizer id_of key_of remove s.world k) (sym (idle k)) tt;
  }

  Reach-Safe :
      {s t : System W X}
      → Reach view client util finalizer id_of remove request update_func delete_func s t
      → Safe s
      → Safe t
  Reach-Safe here safe = safe
  Reach-Safe (next r st) safe = Step-Safe st (Reach-Safe r safe)

  -- From a start with no run under way, in which every connection has a stored object that stands for
  -- it and holds the finalizer, this is so whenever the runs of `Reconcile`, interleaved call by call
  -- with each other, have got anywhere: with calls that fail, restarts, and users that create and
  -- delete objects and change anything in them but the ends and the finalizer.
  pub interleaved-NoLeak :
      {s t : System W X}
      → Reach view client util finalizer id_of remove request update_func delete_func s t
      → ((k : NamespacedName) → s.worker k ≡ none)
      → NoLeak view client util finalizer id_of key_of s.world
      → NoLeak view client util finalizer id_of key_of t.world
  interleaved-NoLeak {s} r idle safe id c =
      let (k, (x, sx, h), _) = (Reach-Safe r (start-Safe s idle safe)).holders id c in (k, x, sx, h)
