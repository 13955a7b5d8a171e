-- ===== src/Status.antt =====
-- pkg/connection_status: the statuses that AWI reports are written into the custom resources. Log
-- lines are left out.
pub mod Updates
pub mod Listed
pub mod Store
pub mod Shown
pub mod Calm
pub mod Passes
use awi_catalyst_sdwan_opera.Base.{
  ℕ, String, Bool, ◌&&◌, ◌==◌, Option, none, some, List, [], ◌∷◌, if◌then◌else◌,
}
use awi_catalyst_sdwan_opera.Base.Dict.{Dict, lookup, insert}
use awi_catalyst_sdwan_opera.Exec.{Exec, Result, ok, err, panic, pure, ◌>>=◌, ◌>>◌}
use awi_catalyst_sdwan_opera.Pb
use awi_catalyst_sdwan_opera.Api.{InterNetworkDomainConnection, InterNetworkDomainAppConnection}
use awi_catalyst_sdwan_opera.Kube.{Client, K8sClient}
use awi_catalyst_sdwan_opera.Awi.{
  AwiGrpcClient, get_connection_id, match_name, metadata_name, list_connections,
  list_app_connections,
}
use awi_catalyst_sdwan_opera.Sync.Syncers.{Event, tick, done}

module _ {W : Type 0} where
  abbrev given : {A : Type 0} → Result A → (A → Exec W (Unit {0})) → Exec W (Unit {0})
  given (ok a) k w = k a w
  given (err e) k w = (ok tt, w)
  given panic k w = (panic, w)

  -- `if err != nil { logger.Error(err, …); return }`
  abbrev pub if_ok : {A : Type 0} → Exec W A → (A → Exec W (Unit {0})) → Exec W (Unit {0})
  if_ok m k w = let (r, w') = m w in given r k w'

  -- An error of a write is logged, and the loop goes on.
  unfoldable pub write : {X : Type 0} → Client W X → X → Exec W (Unit {0})
  write client crd = if_ok (client.update_status crd) (λ _. pure tt)

index_conns :
    Dict Pb.ConnectionInformation → List Pb.ConnectionInformation → Dict Pb.ConnectionInformation
index_conns m [] = m
index_conns m (conn ∷ connections) = index_conns (insert conn.id conn m) connections

-- `connectionsMap[conn.GetId()] = conn`
unfoldable pub connections_map : List Pb.ConnectionInformation → Dict Pb.ConnectionInformation
unfolding index_conns
connections_map = index_conns []

-- The test of the inner loop.
unfoldable pub matches_crd : InterNetworkDomainAppConnection → Pb.AppConnectionInformation → Bool
matches_crd crd app_conn =
    (match_name (some crd.spec.app_connection) == match_name app_conn.app_connection_config)
    && (metadata_name (some crd.spec.app_connection)
        == metadata_name app_conn.app_connection_config)

-- `status_name` is the generated map `awi.Status_name`, "" for a number that it lacks.
module _ {W : Type 0} (k8s : K8sClient W) (awi : AwiGrpcClient W) (status_name : ℕ → String) where
  -- The body of the loop for a connection that was found.
  unfoldable pub check_connection :
      Pb.ConnectionInformation → InterNetworkDomainConnection → Exec W (Unit {0})
  unfolding write
  check_connection conn crd =
      let state = status_name conn.status in
      let id = get_connection_id crd.spec in
      if (crd.status.state == state) && (crd.status.connection_id == id)
      then pure tt
      else write k8s.connections
          (record crd { status = record { state = state; connection_id = id } })

  unfoldable pub check_connections :
      Dict Pb.ConnectionInformation → List InterNetworkDomainConnection → Exec W (Unit {0})
  unfolding check_connection
  check_connections m [] = pure tt
  check_connections m (crd ∷ items) = elim (lookup (get_connection_id crd.spec) m) [
    | none ↦ check_connections m items
    | some conn ↦ check_connection conn crd >> check_connections m items
  ]

  unfoldable pub check_connections_statuses : Exec W (Unit {0})
  unfolding check_connections connections_map
  check_connections_statuses = if_ok (list_connections awi) λ connections.
      if_ok k8s.connections.list_all λ items. check_connections (connections_map connections) items

  -- The inner loop: it ends at the first match.
  unfoldable pub check_app_connection :
      List Pb.AppConnectionInformation → InterNetworkDomainAppConnection → Exec W (Unit {0})
  unfolding matches_crd write
  check_app_connection [] crd = pure tt
  check_app_connection (app_conn ∷ app_connections) crd =
      let rest = check_app_connection app_connections crd in
      if matches_crd crd app_conn
      then if crd.status == status_name app_conn.status
        then pure tt
        else write k8s.app_connections (record crd { status = status_name app_conn.status })
      else rest

  unfoldable pub check_app_connections :
      List Pb.AppConnectionInformation → List InterNetworkDomainAppConnection → Exec W (Unit {0})
  unfolding check_app_connection
  check_app_connections app_connections [] = pure tt
  check_app_connections app_connections (crd ∷ items) =
      check_app_connection app_connections crd >> check_app_connections app_connections items

  unfoldable pub check_app_connections_statuses : Exec W (Unit {0})
  unfolding check_app_connections
  check_app_connections_statuses = if_ok (list_app_connections awi) λ app_connections.
      if_ok k8s.app_connections.list_all λ items. check_app_connections app_connections items

  unfoldable pub watch_loop : List Event → Exec W (Unit {0})
  unfolding check_connections_statuses check_app_connections_statuses
  watch_loop [] = pure tt
  watch_loop (tick ∷ events) = do
    check_connections_statuses
    check_app_connections_statuses
    watch_loop events
  watch_loop (done ∷ events) = pure tt

  -- Given what `select` receives in turn.
  unfoldable pub watch_status_updates : List Event → Exec W (Unit {0})
  unfolding watch_loop
  watch_status_updates events = do
    check_connections_statuses
    check_app_connections_statuses
    watch_loop events
