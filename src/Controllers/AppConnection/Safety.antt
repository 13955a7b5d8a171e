-- ===== src/Controllers/AppConnection/Safety.antt =====
-- The app connection controller against what it relies on of AWI.
use awi_catalyst_sdwan_opera.Base.{
  String, ◌≡◌, refl, sym, ap, ◌∙◌, subst, true, false, ◌==◌, some, ◌⊎◌, inl, inr, Bool-cases,
}
use awi_catalyst_sdwan_opera.Base.Text.{Unicode}
use awi_catalyst_sdwan_opera.Exec.{Exec, ok, errorf, >>=-ind, >>=-eq-ok, map_err-eq-ok, at_result}
use awi_catalyst_sdwan_opera.Pb
use awi_catalyst_sdwan_opera.Api.{InterNetworkDomainAppConnection}
use awi_catalyst_sdwan_opera.Kube.{NamespacedName, Client, Util}
use awi_catalyst_sdwan_opera.Awi.{
  AwiGrpcClient, find_id, disconnect_id, app_connection_request, app_disconnect_request,
}
use awi_catalyst_sdwan_opera.Controllers.Protocol.{View, IsStore, IsUtil, IsPeer, NoLeak}
use awi_catalyst_sdwan_opera.Controllers.Lifecycle.{Reach, Reach-NoLeak}
use awi_catalyst_sdwan_opera.Controllers.AppConnection.{
  my_finalizer_name, fill_cluster, remove_app_connection, request_app_connection,
}
use awi_catalyst_sdwan_opera.Controllers.AppConnection.Identity.{
  AppId, app_id, id_of, key_of, IsAwi, find_id-listed, find_id-unlisted, app_id-fill_cluster,
}

module _ {W : Type 0} (view : View W InterNetworkDomainAppConnection AppId)
    (client : Client W InterNetworkDomainAppConnection)
    (util : Util InterNetworkDomainAppConnection) (awi : AwiGrpcClient W)
    (laws : IsAwi view awi) where
  open view use {stored, connected}
  open awi use {app_connection_controller_client}

  disconnect_id-stored :
      (number : String) (w : W) (k : NamespacedName)
      → stored (disconnect_id awi number w).1 k ≡ stored w k
  unfolding disconnect_id
  disconnect_id-stored number w k = elim (Bool-cases (number == "")) [
    | inl empty ↦ rw (empty, disconnect_id)
    | inr given ↦ rw (given, disconnect_id) (laws.disconnect_stored w number k)
  ]

  disconnect_id-connected :
      (number : String) (w : W) (id : AppId)
      → connected (disconnect_id awi number w).1 id ≡ true
      → connected w id ≡ true
  unfolding disconnect_id
  disconnect_id-connected number w id c = elim (Bool-cases (number == "")) [
    | inl empty ↦ rw (empty, disconnect_id) at c
    | inr given ↦ laws.disconnect_connected w number id (rw (given, disconnect_id) at c)
  ]

  module _ (u : Unicode) (cluster_name : String) where
    -- A removal with no error has ended the app connection, if there was one.
    remove-ok :
        (w v : W) (conn : InterNetworkDomainAppConnection)
        → remove_app_connection client util awi u cluster_name conn w ≡ (ok tt, v)
        → connected v (id_of conn) ≡ false
    unfolding remove_app_connection app_disconnect_request disconnect_id
    remove-ok w v conn h =
        let spec = conn.spec.app_connection in
        let (l, u, listing, rest) =
          >>=-eq-ok app_connection_controller_client.list_connected_apps _ w h in
        elim (Bool-cases (find_id spec l == "")) [
          | inl empty ↦
              let gone = find_id-unlisted spec l (laws.listed_named w u l listing) empty in
              let left : u ≡ v = ap (λ p. p.1) (rw (empty, disconnect_id) at rest) in
              subst (λ z. connected z (id_of conn) ≡ false) left
                (at_result (λ z. connected z (id_of conn) ≡ connected w (id_of conn))
                    app_connection_controller_client.list_connected_apps listing
                    (laws.list_connected w (id_of conn))
                  ∙ sym (laws.listed w u l (id_of conn) listing)
                  ∙ gone)
          | inr given ↦
              laws.disconnect_ok w u v l (find_id spec l) (id_of conn) listing
                (find_id-listed spec l given)
                (map_err-eq-ok (errorf "error recevived from app disconnection request: %v")
                  (app_connection_controller_client.disconnect_apps (find_id spec l)) u
                  (rw (given, disconnect_id) at rest))
        ]

    abbrev fill : InterNetworkDomainAppConnection → Exec W Pb.AppConnection
    fill conn w = (fill_cluster u cluster_name conn.spec.app_connection, w)

    abbrev send : Pb.AppConnection → Exec W (Unit {0})
    send filled = app_connection_request awi (some filled)

    filled_same :
        (conn : InterNetworkDomainAppConnection) (filled : Pb.AppConnection) (w v : W)
        → fill conn w ≡ (ok filled, v)
        → app_id (some filled) ≡ id_of conn
    filled_same conn filled w v e =
        app_id-fill_cluster u cluster_name conn.spec.app_connection filled (ap (λ p. p.0) e)

    pub app_connection-IsPeer :
        IsPeer view client util my_finalizer_name id_of key_of
          (remove_app_connection client util awi u cluster_name)
          (request_app_connection client util awi u cluster_name)
    unfolding remove_app_connection request_app_connection app_disconnect_request
        app_connection_request
    app_connection-IsPeer = record {
      request_stored = λ w x k.
          >>=-ind (λ v. stored v k ≡ stored w k) (fill x) send w refl
            (λ filled v e.
              laws.connect_stored v filled k
              ∙ at_result (λ z. stored z k ≡ stored w k) (fill x) e refl);
      request_connected = λ w x id.
          >>=-ind (λ v. connected v id ≡ true → (connected w id ≡ true) ⊎ (id ≡ id_of x)) (fill x)
            send w inl
            (λ filled v e c. elim (laws.connect_connected v filled id c) [
              | inl before ↦
                  inl (at_result (λ z. connected w id ≡ connected z id) (fill x) e refl ∙ before)
              | inr new ↦ inr (new ∙ filled_same x filled w v e)
            ]);
      request_ok = λ w v x h.
          let (filled, t, e, sent) = >>=-eq-ok (fill x) send w h in
          subst (λ id. connected v id ≡ true) (filled_same x filled w t e)
            (laws.connect_ok t v filled (
              map_err-eq-ok (errorf "error recevived from app connection request: %v")
                (app_connection_controller_client.connect_apps filled) t sent));
      remove_stored = λ w x k.
          >>=-ind (λ v. stored v k ≡ stored w k)
            app_connection_controller_client.list_connected_apps _ w (laws.list_stored w k)
            (λ l v e.
              disconnect_id-stored (find_id x.spec.app_connection l) v k
              ∙ at_result (λ z. stored z k ≡ stored w k)
                  app_connection_controller_client.list_connected_apps e (laws.list_stored w k));
      remove_connected = λ w x id.
          >>=-ind (λ v. connected v id ≡ true → connected w id ≡ true)
            app_connection_controller_client.list_connected_apps _ w
            (λ c. sym (laws.list_connected w id) ∙ c)
            (λ l v e c.
              sym (
                at_result (λ z. connected z id ≡ connected w id)
                  app_connection_controller_client.list_connected_apps e (laws.list_connected w id))
              ∙ disconnect_id-connected (find_id x.spec.app_connection l) v id c);
      remove_ok = remove-ok;
    }

    -- From a world in which every app connection of AWI has a stored object of its network domain
    -- connection and name that holds the finalizer, runs of `Reconcile`, whichever of their calls fail
    -- or panic, and creations and deletions by the users lead to such worlds only. An edit of a spec is
    -- none of these steps.
    pub app_connections_never_leak :
        IsStore view client util my_finalizer_name id_of key_of
        → IsUtil view client util my_finalizer_name id_of key_of
        → {w v : W}
        → Reach view client util my_finalizer_name id_of
            (remove_app_connection client util awi u cluster_name)
            (request_app_connection client util awi u cluster_name)
            w
            v
        → NoLeak view client util my_finalizer_name id_of key_of w
        → NoLeak view client util my_finalizer_name id_of key_of v
    app_connections_never_leak store utils =
        Reach-NoLeak view client util my_finalizer_name id_of key_of
          (remove_app_connection client util awi u cluster_name)
          (request_app_connection client util awi u cluster_name) store utils app_connection-IsPeer
