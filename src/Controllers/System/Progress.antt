-- ===== src/Controllers/System/Progress.antt =====
-- A deletion can always be completed.
use awi_catalyst_sdwan_opera.Base.{
  String, ◌==◌, ◌≡◌, refl, sym, Bool-cases, inl, inr, ap, ◌∙◌, Bool, false, Option, none, some, ◌⊎◌,
}
use awi_catalyst_sdwan_opera.Exec.{Exec, ok}
use awi_catalyst_sdwan_opera.Kube.{NamespacedName, Client, Util}
use awi_catalyst_sdwan_opera.Kube.Keys.{set_key-same}
use awi_catalyst_sdwan_opera.Controllers.{no_requeue}
use awi_catalyst_sdwan_opera.Controllers.Machine.{Pc, removing, ending, releasing, done, advance}
use awi_catalyst_sdwan_opera.Controllers.Removal.{Plan, known, search, Removal, IsPartner}
use awi_catalyst_sdwan_opera.Controllers.Protocol.{View, IsStore, IsUtil}
use awi_catalyst_sdwan_opera.Controllers.System.{System, Step, advanced, Reach, here, next}

-- No object, or one that the finalizer was taken off.
abbrev pub IsFree : {X : Type 0} → Util X → String → Option X → Type 0
IsFree util finalizer none = Unit
IsFree util finalizer (some x) = util.contains_finalizer x finalizer ≡ false

module _ {W X I : Type 0} (view : View W X I) (client : Client W X) (util : Util X)
    (finalizer : String) (id_of : X → I) (key_of : X → NamespacedName) (remove : Removal W X)
    (request : X → Exec W (Unit {0})) where
  open view use {stored}

  -- Servers that answer: an object that is there is read, AWI accepts a removal, and an object that
  -- was just read can be written without its finalizer. A write that takes the finalizer off and that
  -- fails has been made or not.
  pub record IsAnswering : Type 0 where
    pub get_answers :
        (w : W) (k : NamespacedName) (x : X)
        → stored w k ≡ some x
        → (v : W) × (client.get k w ≡ (ok x, v))
    pub search_answers :
        (w : W) (x : X) (m : Exec W String)
        → remove.plan x ≡ search m
        → (number : String) × (v : W) × (m w ≡ (ok number, v))
    pub tear_answers : (w : W) (number : String) → (v : W) × (remove.tear number w ≡ (ok tt, v))
    pub release_answers :
        (w : W) (k : NamespacedName) (x : X)
        → stored w k ≡ some x
        → (y : X) × (v : W) × (client.update (util.remove_finalizer x finalizer) w ≡ (ok y, v))
    pub release_any :
        (w : W) (x : X)
        → (let v = (client.update (util.remove_finalizer x finalizer) w).1 in
            (stored v (key_of x) ≡ stored w (key_of x))
            ⊎ IsFree util finalizer (stored v (key_of x)))

module _ {W X I : Type 0} (view : View W X I) (client : Client W X) (util : Util X)
    (finalizer : String) (id_of : X → I) (key_of : X → NamespacedName) (remove : Removal W X)
    (request : X → Exec W (Unit {0})) (update_func delete_func : X → Bool) where
  open view use {stored}

  abbrev pub Leads : System W X → System W X → Type 0
  Leads = Reach view client util finalizer id_of remove request update_func delete_func

  abbrev Steps : System W X → System W X → Type 0
  Steps = Step view client util finalizer id_of remove request update_func delete_func

  -- Steps lead to a state in which the object under the key does not hold the finalizer.
  abbrev pub CanRelease : System W X → NamespacedName → Type 0
  CanRelease s k = (u : System W X) × Leads s u × IsFree util finalizer (stored u.world k)

  prepend : {s t u : System W X} → Steps s t → Leads t u → Leads s u
  prepend st here = next here st
  prepend st (next r last) = next (prepend st r) last

  pub first_step :
      {s t : System W X} (k : NamespacedName) → Steps s t → CanRelease t k → CanRelease s k
  first_step k st (u, r, free) = (u, prepend st r, free)

  -- What a call of the key's run does to the system.
  pub call_step :
      (s : System W X) (k : NamespacedName) (p p' : Pc X) (w : W)
      → s.worker k ≡ some p
      → advance client util finalizer remove request p s.world ≡ (p', w)
      → ((t : System W X)
          → t.world ≡ w
          → t.worker k ≡ some p'
          → t.queue k ≡ s.queue k
          → CanRelease t k)
      → CanRelease s k
  call_step s k p p' w e h rest =
      first_step k (advanced k p e)
        (rest _ (ap (λ q. q.1) h) (set_key-same k _ s.worker ∙ ap (λ q. some q.0) h) refl)

pub IsFree-intro :
    {X : Type 0} (util : Util X) (finalizer : String) (o : Option X)
    → ((z : X) → o ≡ some z → util.contains_finalizer z finalizer ≡ false)
    → IsFree util finalizer o
IsFree-intro util finalizer none h = tt
IsFree-intro util finalizer (some x) h = h x refl

module _ {W X I : Type 0} (view : View W X I) (client : Client W X) (util : Util X)
    (finalizer : String) (id_of : X → I) (key_of : X → NamespacedName) (remove : Removal W X)
    (request : X → Exec W (Unit {0})) (store : IsStore view client util finalizer id_of key_of)
    (utils : IsUtil view client util finalizer id_of key_of)
    (peer : IsPartner view id_of remove request)
    (answering : IsAnswering view client util finalizer id_of key_of remove request)
    (update_func delete_func : X → Bool) where
  open view use {stored}

  abbrev Releasable : System W X → NamespacedName → Type 0
  Releasable =
      CanRelease view client util finalizer id_of key_of remove request update_func delete_func

  abbrev then_call :
      (s : System W X) (k : NamespacedName) (p p' : Pc X) (w : W)
      → s.worker k ≡ some p
      → advance client util finalizer remove request p s.world ≡ (p', w)
      → ((t : System W X)
          → t.world ≡ w
          → t.worker k ≡ some p'
          → t.queue k ≡ s.queue k
          → Releasable t k)
      → Releasable s k
  then_call =
      call_step view client util finalizer id_of key_of remove request update_func delete_func

  pub releasing_completes :
      (s : System W X) (k : NamespacedName) (x y : X) (v : W)
      → s.worker k ≡ some (releasing x)
      → key_of x ≡ k
      → client.update (util.remove_finalizer x finalizer) s.world ≡ (ok y, v)
      → Releasable s k
  unfolding advance
  releasing_completes s k x y v e at_key h =
      then_call s k (releasing x) (done (ok no_requeue)) v e (rw h refl) λ t tw tp tq. (
        t,
        here,
        IsFree-intro util finalizer (stored t.world k) λ z sz.
            store.update_bare s.world v (util.remove_finalizer x finalizer) y z h
              (utils.contains-remove x)
              (ap (stored v) (utils.key-remove x ∙ at_key) ∙ ap (λ w. stored w k) (sym tw) ∙ sz),
      )

  -- From a state that has the run before the last write, with the object as it was.
  abbrev pub Continues : System W X → NamespacedName → X → Type 0
  Continues s k x =
      (t : System W X)
      → t.worker k ≡ some (releasing x)
      → stored t.world k ≡ stored s.world k
      → Releasable t k

  pub ending_step :
      (s : System W X) (k : NamespacedName) (x : X) (number : String)
      → s.worker k ≡ some (ending x number)
      → Continues s k x
      → Releasable s k
  unfolding advance
  ending_step s k x number e continues =
      let (v, torn) = answering.tear_answers s.world number in
      then_call s k (ending x number) (releasing x) v e (rw torn refl) λ t tw tp tq.
        continues t tp (
          ap (λ w. stored w k) tw
          ∙ sym (ap (λ q. stored q.1 k) torn)
          ∙ peer.tear_stored s.world number k)

  enter_step :
      (s : System W X) (k : NamespacedName) (x : X) (pl : Plan W)
      → remove.plan x ≡ pl
      → s.worker k ≡ some (removing x)
      → Continues s k x
      → Releasable s k
  unfolding advance
  enter_step s k x (known number) planned e continues =
      let (v, torn) = answering.tear_answers s.world number in
      then_call s k (removing x) (releasing x) v e (rw (planned, torn) refl) λ t tw tp tq.
        continues t tp (
          ap (λ w. stored w k) tw
          ∙ sym (ap (λ q. stored q.1 k) torn)
          ∙ peer.tear_stored s.world number k)
  enter_step s k x (search m) planned e continues =
      let (number, v, found) = answering.search_answers s.world x m planned in
      let kept : stored v k ≡ stored s.world k =
        sym (ap (λ q. stored q.1 k) found) ∙ peer.search_stored s.world x m k planned in
      elim (Bool-cases (number == "")) [
        | inl empty ↦
            then_call s k (removing x) (releasing x) v e (rw (planned, found, empty) refl)
              λ t tw tp tq. continues t tp (ap (λ w. stored w k) tw ∙ kept)
        | inr given ↦
            then_call s k (removing x) (ending x number) v e (rw (planned, found, given) refl)
              λ t tw tp tq.
                ending_step t k x number tp
                  λ t' tp' same. continues t' tp' (same ∙ ap (λ w. stored w k) tw ∙ kept)
      ]

  -- The calls of a removal, where the servers answer.
  pub removing_step :
      (s : System W X) (k : NamespacedName) (x : X)
      → s.worker k ≡ some (removing x)
      → Continues s k x
      → Releasable s k
  removing_step s k x e continues = enter_step s k x (remove.plan x) refl e continues
