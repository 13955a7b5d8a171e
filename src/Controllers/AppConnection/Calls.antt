-- ===== src/Controllers/AppConnection/Calls.antt =====
-- The removal of an app connection is two calls: AWI lists the app connections, and ends the one that
-- the client finds in the list.
use awi_catalyst_sdwan_opera.Base.{
  ℕ, suc, String, ◌≡◌, refl, sym, ap, ◌∙◌, subst, true, false, ◌==◌, List, if◌then◌else◌,
}
use awi_catalyst_sdwan_opera.Base.Text.{Unicode}
use awi_catalyst_sdwan_opera.Exec.{
  Exec, Result, ok, err, panic, pure, continue, map_err, errorf, ◌>>=◌, >>=-eq-ok, map_err-eq-ok,
  at_result,
}
use awi_catalyst_sdwan_opera.Pb
use awi_catalyst_sdwan_opera.Api.{InterNetworkDomainAppConnection}
use awi_catalyst_sdwan_opera.Kube.{NamespacedName, Client, Util}
use awi_catalyst_sdwan_opera.Kube.Laws.{any}
use awi_catalyst_sdwan_opera.Awi.{AwiGrpcClient, find_id, disconnect_id, app_disconnect_request}
use awi_catalyst_sdwan_opera.Controllers
use awi_catalyst_sdwan_opera.Controllers.{ReconcileResult}
use awi_catalyst_sdwan_opera.Controllers.Machine.{Pc, fetching, done, run, run-eq-reconcile}
use awi_catalyst_sdwan_opera.Controllers.Protocol.{View}
use awi_catalyst_sdwan_opera.Controllers.Removal.{search, Removal, carry_out, perform, IsPartner}
use awi_catalyst_sdwan_opera.Controllers.AppConnection.{
  my_finalizer_name, remove_app_connection, request_app_connection, reconcile,
}
use awi_catalyst_sdwan_opera.Controllers.AppConnection.Identity.{
  AppId, id_of, is_numbered, IsAwi, find_id-listed, find_id-unlisted,
}
use awi_catalyst_sdwan_opera.Controllers.AppConnection.Safety.{app_connection-IsPeer}

-- The first call of `AppDisconnectRequest`, with its loop over the list.
abbrev pub look_up :
    {W : Type 0} → AwiGrpcClient W → InterNetworkDomainAppConnection → Exec W String
look_up awi conn = do
  connections ← awi.app_connection_controller_client.list_connected_apps
  pure (find_id conn.spec.app_connection connections)

-- `removeAppConnection`, call by call
abbrev pub removal : {W : Type 0} → AwiGrpcClient W → Removal W InterNetworkDomainAppConnection
removal awi = record {
  plan = λ conn. search (look_up awi conn);
  tear = λ id.
      map_err (errorf "error recevived from app disconnection request: %v")
        (awi.app_connection_controller_client.disconnect_apps id);
}

module _ {W : Type 0} (view : View W InterNetworkDomainAppConnection AppId)
    (awi : AwiGrpcClient W) where
  open view use {connected}
  open awi use {app_connection_controller_client}

  -- The ID that AWI lists for an app connection stands for that app connection at any time, also
  -- where others call AWI after the list.
  pub record IsSteady : Type 0 where
    pub disconnect_later :
        (w v w' v' : W) (l : List Pb.AppConnectionInformation) (number : String) (id : AppId)
        → app_connection_controller_client.list_connected_apps w ≡ (ok l, v)
        → any (is_numbered id number) l ≡ true
        → app_connection_controller_client.disconnect_apps number w' ≡ (ok tt, v')
        → connected v' id ≡ false

module _ {W : Type 0} (client : Client W InterNetworkDomainAppConnection)
    (util : Util InterNetworkDomainAppConnection) (awi : AwiGrpcClient W) (u : Unicode)
    (cluster_name : String) where
  -- The calls of the removal in a row are `removeAppConnection`.
  pub removal-performs :
      (conn : InterNetworkDomainAppConnection) (w : W)
      → perform (removal awi) conn w ≡ remove_app_connection client util awi u cluster_name conn w
  unfolding carry_out remove_app_connection app_disconnect_request disconnect_id
  removal-performs conn w =
      after_list (awi.app_connection_controller_client.list_connected_apps w).0
        (awi.app_connection_controller_client.list_connected_apps w).1
    where
      after_list :
          (r : Result (List Pb.AppConnectionInformation)) (v : W)
          → ((continue r (λ l. pure (find_id conn.spec.app_connection l))) >>= λ id.
                if id == "" then pure tt else (removal awi).tear id)
              v
            ≡ continue r (λ l. disconnect_id awi (find_id conn.spec.app_connection l)) v
      after_list (ok l) v = refl
      after_list (err e) v = refl
      after_list panic v = refl

  abbrev ended : Result ReconcileResult × W → Pc InterNetworkDomainAppConnection × W
  ended (res, v) = (done res, v)

  -- Four calls end every run of the app connection controller that is made call by call, with the search
  -- for the app connection and its end as two calls: it ends with the result and in the world of the
  -- controller's `Reconcile`.
  pub app_run-eq-reconcile :
      (req : NamespacedName) (w : W) (n : ℕ)
      → run client util my_finalizer_name
          (removal awi)
          (request_app_connection client util awi u cluster_name)
          (suc (suc (suc (suc n))))
          (fetching req)
          w
        ≡ (let (res, v) = reconcile client util awi u cluster_name req w in (done res, v))
  unfolding reconcile
  app_run-eq-reconcile req w n =
      run-eq-reconcile client util my_finalizer_name (removal awi)
        (request_app_connection client util awi u cluster_name) req w n
      ∙ ap
          (λ (remove : InterNetworkDomainAppConnection → Exec W (Unit {0})). ended (
            Controllers.reconcile client util my_finalizer_name remove
              (request_app_connection client util awi u cluster_name) req w))
          (λ i conn v. removal-performs conn v i)

module _ {W : Type 0} (view : View W InterNetworkDomainAppConnection AppId)
    (client : Client W InterNetworkDomainAppConnection)
    (util : Util InterNetworkDomainAppConnection) (awi : AwiGrpcClient W) (laws : IsAwi view awi)
    (steady : IsSteady view awi) (u : Unicode) (cluster_name : String) where
  open view use {stored, connected}
  open awi use {app_connection_controller_client}

  looked_up :
      (P : W → Type 0) (conn : InterNetworkDomainAppConnection) (w : W)
      → P (app_connection_controller_client.list_connected_apps w).1
      → P (look_up awi conn w).1
  looked_up P conn w h =
      after_list (app_connection_controller_client.list_connected_apps w).0
        (app_connection_controller_client.list_connected_apps w).1 h
    where
      after_list :
          (r : Result (List Pb.AppConnectionInformation)) (v : W)
          → P v
          → P (continue r (λ l. pure (find_id conn.spec.app_connection l)) v).1
      after_list (ok l) v h = h
      after_list (err e) v h = h
      after_list panic v h = h

  -- What a search has given is what the client finds in a list.
  search_result :
      (conn : InterNetworkDomainAppConnection) (w v : W) (number : String)
      → look_up awi conn w ≡ (ok number, v)
      → (l : List Pb.AppConnectionInformation)
        × (app_connection_controller_client.list_connected_apps w ≡ (ok l, v))
        × (number ≡ find_id conn.spec.app_connection l)
  search_result conn w v number h =
      let (l, v', listing, rest) =
        >>=-eq-ok app_connection_controller_client.list_connected_apps
          (λ l. pure (find_id conn.spec.app_connection l)) w h in
      (l, cc (listing, ap (λ q. q.1) rest), cc rest)

  same_search :
      (conn : InterNetworkDomainAppConnection) (m : Exec W String)
      → (removal awi).plan conn ≡ search m
      → look_up awi conn ≡ m
  same_search conn m planned = cc planned

  pub app_connection-IsPartner :
      IsPartner view id_of (removal awi) (request_app_connection client util awi u cluster_name)
  app_connection-IsPartner =
      let peer = app_connection-IsPeer view client util awi laws u cluster_name in
      record {
        request_stored = peer.request_stored;
        request_connected = peer.request_connected;
        search_stored = λ w x m k planned.
            subst (λ (m : Exec W String). stored (m w).1 k ≡ stored w k) (same_search x m planned)
              (looked_up (λ v. stored v k ≡ stored w k) x w (laws.list_stored w k));
        search_connected = λ w x m id planned.
            subst (λ (m : Exec W String). connected (m w).1 id ≡ connected w id)
              (same_search x m planned)
              (looked_up (λ v. connected v id ≡ connected w id) x w (laws.list_connected w id));
        search_none = λ w v x m number planned found empty.
            let (l, listing, e) =
              search_result x w v number
                (ap (λ (m : Exec W String). m w) (same_search x m planned) ∙ found) in
            let spec = x.spec.app_connection in
            at_result (λ z. connected z (id_of x) ≡ connected w (id_of x))
              app_connection_controller_client.list_connected_apps listing
              (laws.list_connected w (id_of x))
            ∙ sym (laws.listed w v l (id_of x) listing)
            ∙ find_id-unlisted spec l (laws.listed_named w v l listing) (cc (e, empty));
        tear_stored = λ w number k. laws.disconnect_stored w number k;
        tear_connected = λ w number id c. laws.disconnect_connected w number id c;
        tear_known = λ w v x number planned torn. cc planned;
        tear_found = λ w v w' v' x m number planned found given torn.
            let (l, listing, e) =
              search_result x w v number
                (ap (λ (m : Exec W String). m w) (same_search x m planned) ∙ found) in
            steady.disconnect_later w v w' v' l number (id_of x) listing
              (subst (λ n. any (is_numbered (id_of x) n) l ≡ true) (sym e)
                (find_id-listed x.spec.app_connection l (cc (e, given))))
              (map_err-eq-ok (errorf "error recevived from app disconnection request: %v")
                (app_connection_controller_client.disconnect_apps number) w' torn);
      }
