-- ===== src/Controllers/Success.antt =====
-- What a `Reconcile` that returns no error has brought about, and what a deletion leaves that fails.
use awi_catalyst_sdwan_opera.Base.{
  String, ◌≡◌, ◌≢◌, refl, ◌∙◌, true, false, some, ◌⊎◌, inl, inr, arith,
}
use awi_catalyst_sdwan_opera.Exec.{
  Exec, Result, ok, err, panic, pure, continue, ◌>>◌, >>=-eq-ok, >>=-ind, at_result,
}
use awi_catalyst_sdwan_opera.Kube.{NamespacedName, Client, Util}
use awi_catalyst_sdwan_opera.Controllers.{
  add_missing_finalizer, reconcile, ReconcileResult, no_requeue,
}
use awi_catalyst_sdwan_opera.Controllers.Protocol.{View, Holds, IsStore, IsUtil, IsPeer}
use awi_catalyst_sdwan_opera.Controllers.Leaks.{add_missing_finalizer-Holds, stored_of_get}

module _ {W X I : Type 0} (view : View W X I) (client : Client W X) (util : Util X)
    (finalizer : String) (id_of : X → I) (key_of : X → NamespacedName)
    (remove request : X → Exec W (Unit {0}))
    (store : IsStore view client util finalizer id_of key_of)
    (utils : IsUtil view client util finalizer id_of key_of)
    (peer : IsPeer view client util finalizer id_of key_of remove request) (req : NamespacedName)
    (w w₁ : W) (x : X) (got : client.get req w ≡ (ok x, w₁)) where
  open view use {stored, connected}

  key_of_get : key_of x ≡ req
  key_of_get = store.stored_key w req x (store.get_ok w w₁ req x got)

  -- For an object that is not being deleted, a `Reconcile` with no error has made AWI's connection,
  -- and the stored object holds the finalizer and stands for the same connection.
  pub reconcile_live :
      (res : ReconcileResult) (v : W)
      → util.deletion_timestamp_is_zero x ≡ true
      → reconcile client util finalizer remove request req w ≡ (ok res, v)
      → (connected v (id_of x) ≡ true)
        × ((y : X) × (stored v req ≡ some y) × Holds util finalizer id_of (id_of x) y)
  unfolding reconcile
  reconcile_live res v live h =
      let registers = add_missing_finalizer client util finalizer remove request x in
      let (y, u, registered, h₁) = >>=-eq-ok registers _ w₁ (rw (got, reconcile, live) at h) in
      let (_, v', requested, h₂) = >>=-eq-ok (request y) _ u h₁ in
      let (sy, hy) =
        add_missing_finalizer-Holds view client util finalizer id_of key_of remove request store
          utils peer w₁ u x y
          (stored_of_get view client util finalizer id_of key_of remove request store utils peer w
            w₁ req x got)
          registered in
      (
        cc (peer.request_ok u v' y requested, hy.same_id, h₂),
        (
          y,
          cc (
            h₂,
            at_result (λ z. stored z req ≡ stored u req) (request y) requested
                (peer.request_stored u y req),
            sy,
            key_of_get,
          ),
          hy,
        ),
      )

  -- For an object under deletion that holds the finalizer, a `Reconcile` with no error has torn
  -- AWI's connection down, and what is still stored under the name holds the finalizer no more.
  pub reconcile_deleted :
      (res : ReconcileResult) (v : W)
      → util.deletion_timestamp_is_zero x ≡ false
      → util.contains_finalizer x finalizer ≡ true
      → reconcile client util finalizer remove request req w ≡ (ok res, v)
      → (connected v (id_of x) ≡ false)
        × ((z : X) → stored v req ≡ some z → util.contains_finalizer z finalizer ≡ false)
  unfolding reconcile
  reconcile_deleted res v deleted held h =
      let bare = util.remove_finalizer x finalizer in
      let (_, u, removed, h₁) =
        >>=-eq-ok (remove x) _ w₁ (rw (got, reconcile, deleted, held) at h) in
      let (y, v', updated, h₂) = >>=-eq-ok (client.update bare) _ u h₁ in
      (
        cc (
          peer.remove_ok w₁ u x removed,
          h₂,
          at_result (λ z. connected z (id_of x) ≡ connected u (id_of x)) (client.update bare)
              updated (store.update_connected u bare (id_of x)),
        ),
        λ z sz.
            store.update_bare u v' bare y z updated (utils.contains-remove x)
              (cc (sz, h₂, utils.key-remove x, key_of_get)),
      )

  abbrev released : Exec W ReconcileResult
  released = client.update (util.remove_finalizer x finalizer) >> pure no_requeue

  update_torn : (u : W) → connected u (id_of x) ≡ false → connected (released u).1 (id_of x) ≡ false
  update_torn u torn =
      let bare = util.remove_finalizer x finalizer in
      let updated = store.update_connected u bare (id_of x) ∙ torn in
      >>=-ind (λ z. connected z (id_of x) ≡ false) (client.update bare) _ u updated
        (λ _ z e. at_result (λ z. connected z (id_of x) ≡ false) (client.update bare) e updated)

  stored_after_remove :
      (r : Result (Unit {0})) (u : W) → remove x w₁ ≡ (r, u) → stored u req ≡ some x
  stored_after_remove r u removed =
      at_result (λ z. stored z req ≡ stored w₁ req) (remove x) removed (peer.remove_stored w₁ x req)
      ∙ at_result (λ z. stored z req ≡ stored w req) (client.get req) got
          (store.get_stored w req req)
      ∙ store.get_ok w w₁ req x got

  after_remove :
      (r₁ : Result (Unit {0})) (u : W) (r : Result ReconcileResult) (v : W)
      → remove x w₁ ≡ (r₁, u)
      → continue r₁ (λ _. released) u ≡ (r, v)
      → (connected v (id_of x) ≡ false)
        ⊎ ((stored v req ≡ some x) × ((res : ReconcileResult) → r ≢ ok res))
  after_remove (ok _) u r v removed h = inl (
      at_result (λ z. connected z (id_of x) ≡ false) released h
        (update_torn u (peer.remove_ok w₁ u x removed)))
  after_remove (err e) u r v removed h =
      let stays = stored_after_remove (err e) u removed in
      inr (cc (stays, h), λ res p. ground (arith, h, p))
  after_remove panic u r v removed h =
      let stays = stored_after_remove panic u removed in
      inr (cc (stays, h), λ res p. ground (arith, h, p))

  -- A `Reconcile` of an object under deletion that holds the finalizer, however it ends, has torn
  -- AWI's connection down, or has released nothing: the object is then stored as it was read, and the
  -- run has ended in an error or a panic.
  pub reconcile_retried :
      (r : Result ReconcileResult) (v : W)
      → util.deletion_timestamp_is_zero x ≡ false
      → util.contains_finalizer x finalizer ≡ true
      → reconcile client util finalizer remove request req w ≡ (r, v)
      → (connected v (id_of x) ≡ false)
        ⊎ ((stored v req ≡ some x) × ((res : ReconcileResult) → r ≢ ok res))
  unfolding reconcile
  reconcile_retried r v deleted held h =
      after_remove (remove x w₁).0 (remove x w₁).1 r v refl
        (rw (got, reconcile, deleted, held) at h)
