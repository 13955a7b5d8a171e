-- ===== src/Controllers/Removal.antt =====
-- The removal of a connection by its calls: `Reconcile` may have to search for the ID first.
use awi_catalyst_sdwan_opera.Base.{String, ◌≡◌, true, false, ◌==◌, ◌⊎◌, if◌then◌else◌}
use awi_catalyst_sdwan_opera.Exec.{Exec, ok, pure, ◌>>=◌}
use awi_catalyst_sdwan_opera.Kube.{NamespacedName}
use awi_catalyst_sdwan_opera.Controllers.Protocol.{View}

-- The ID that the removal of an object ends: it is known, or a call is to find it. A search that
-- gives "" has found none.
pub data Plan (W : Type 0) : Type 0 where
  known : String → Plan W
  search : Exec W String → Plan W

pub record Removal (W X : Type 0) : Type 0 where
  pub plan : X → Plan W
  pub tear : String → Exec W (Unit {0})

module _ {W : Type 0} (tear : String → Exec W (Unit {0})) where
  unfoldable pub carry_out : Plan W → Exec W (Unit {0})
  carry_out (known id) = tear id
  carry_out (search m) = do id ← m; if id == "" then pure tt else tear id

-- The calls of a removal in a row.
abbrev pub perform : {W X : Type 0} → Removal W X → X → Exec W (Unit {0})
perform removal x = carry_out removal.tear (removal.plan x)

module _ {W X I : Type 0} (view : View W X I) (id_of : X → I) (removal : Removal W X)
    (request : X → Exec W (Unit {0})) where
  open view use {stored, connected}
  open removal use {plan, tear}

  -- AWI, call by call: a request makes no connection but its own, even where it fails; a search changes
  -- nothing; the end of a connection makes none. A search finds nothing only where the object's
  -- connection is not there, and the ID that it finds stands for that connection at any time.
  pub record IsPartner : Type 0 where
    pub request_stored :
        (w : W) (x : X) (k : NamespacedName) → stored (request x w).1 k ≡ stored w k
    pub request_connected :
        (w : W) (x : X) (id : I)
        → connected (request x w).1 id ≡ true
        → (connected w id ≡ true) ⊎ (id ≡ id_of x)
    pub search_stored :
        (w : W) (x : X) (m : Exec W String) (k : NamespacedName)
        → plan x ≡ search m
        → stored (m w).1 k ≡ stored w k
    pub search_connected :
        (w : W) (x : X) (m : Exec W String) (id : I)
        → plan x ≡ search m
        → connected (m w).1 id ≡ connected w id
    pub search_none :
        (w v : W) (x : X) (m : Exec W String) (number : String)
        → plan x ≡ search m
        → m w ≡ (ok number, v)
        → (number == "") ≡ true
        → connected v (id_of x) ≡ false
    pub tear_stored :
        (w : W) (number : String) (k : NamespacedName) → stored (tear number w).1 k ≡ stored w k
    pub tear_connected :
        (w : W) (number : String) (id : I)
        → connected (tear number w).1 id ≡ true
        → connected w id ≡ true
    pub tear_known :
        (w v : W) (x : X) (number : String)
        → plan x ≡ known number
        → tear number w ≡ (ok tt, v)
        → connected v (id_of x) ≡ false
    pub tear_found :
        (w v w' v' : W) (x : X) (m : Exec W String) (number : String)
        → plan x ≡ search m
        → m w ≡ (ok number, v)
        → (number == "") ≡ false
        → tear number w' ≡ (ok tt, v')
        → connected v' (id_of x) ≡ false
