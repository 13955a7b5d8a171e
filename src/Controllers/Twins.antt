-- ===== src/Controllers/Twins.antt =====
-- Two objects with the same ends, which AWI has one connection for.
use awi_catalyst_sdwan_opera.Base.{String, ◌≡◌, ◌≢◌, ◌∙◌, true, false, some}
use awi_catalyst_sdwan_opera.Exec.{Exec, ok, >>=-eq-ok, at_result}
use awi_catalyst_sdwan_opera.Kube.{NamespacedName, Client, Util}
use awi_catalyst_sdwan_opera.Controllers.{reconcile, ReconcileResult}
use awi_catalyst_sdwan_opera.Controllers.Protocol.{View, IsStore, IsUtil, IsPeer}
use awi_catalyst_sdwan_opera.Controllers.Success.{reconcile_deleted}

module _ {W X I : Type 0} (view : View W X I) (client : Client W X) (util : Util X)
    (finalizer : String) (id_of : X → I) (key_of : X → NamespacedName)
    (remove request : X → Exec W (Unit {0}))
    (store : IsStore view client util finalizer id_of key_of)
    (utils : IsUtil view client util finalizer id_of key_of)
    (peer : IsPeer view client util finalizer id_of key_of remove request) (req k : NamespacedName)
    (w w₁ : W) (x y : X) (got : client.get req w ≡ (ok x, w₁)) where
  open view use {stored, connected}

  -- Where an object under deletion that holds the finalizer has the same ends as another object, a
  -- `Reconcile` of it with no error ends the connection of both, though the other object is still
  -- stored as it was.
  pub twin_disconnected :
      (res : ReconcileResult) (v : W)
      → k ≢ req
      → stored w k ≡ some y
      → id_of y ≡ id_of x
      → util.deletion_timestamp_is_zero x ≡ false
      → util.contains_finalizer x finalizer ≡ true
      → reconcile client util finalizer remove request req w ≡ (ok res, v)
      → (stored v k ≡ some y) × (connected v (id_of y) ≡ false)
  unfolding reconcile
  twin_disconnected res v other sy same deleted held h =
      let bare = util.remove_finalizer x finalizer in
      let (_, u, removed, h₁) =
        >>=-eq-ok (remove x) _ w₁ (rw (got, reconcile, deleted, held) at h) in
      let (_, v', updated, h₂) = >>=-eq-ok (client.update bare) _ u h₁ in
      let elsewhere : key_of bare ≡ req =
        utils.key-remove x ∙ store.stored_key w req x (store.get_ok w w₁ req x got) in
      let kept : stored v' k ≡ stored w k =
        at_result (λ z. stored z k ≡ stored u k) (client.update bare) updated
          (store.update_other u bare k (λ q. other (q ∙ elsewhere)))
        ∙ at_result (λ z. stored z k ≡ stored w₁ k) (remove x) removed (peer.remove_stored w₁ x k)
        ∙ at_result (λ z. stored z k ≡ stored w k) (client.get req) got
            (store.get_stored w req k) in
      let (gone, _) =
        reconcile_deleted view client util finalizer id_of key_of remove request store utils peer
          req w w₁ x got res v deleted held h in
      (cc (kept, sy, h₂), cc (gone, same))
