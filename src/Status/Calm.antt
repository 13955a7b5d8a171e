-- ===== src/Status/Calm.antt =====
-- The status watcher swallows every error, and does not panic.
use awi_catalyst_sdwan_opera.Base.{
  ℕ, String, ◌≡◌, ◌≢◌, ◌&&◌, ◌==◌, refl, Bool-cases, inl, inr, Option-cases, List, [], ◌∷◌,
}
use awi_catalyst_sdwan_opera.Base.Dict.{Dict, lookup}
use awi_catalyst_sdwan_opera.Exec.{Exec, Result, ok, err, panic, continue, ◌>>◌}
use awi_catalyst_sdwan_opera.Exec.Calm.{IsCalm}
use awi_catalyst_sdwan_opera.Pb
use awi_catalyst_sdwan_opera.Api.{InterNetworkDomainConnection, InterNetworkDomainAppConnection}
use awi_catalyst_sdwan_opera.Kube.{Client, K8sClient}
use awi_catalyst_sdwan_opera.Kube.Calm.{IsCalmClient, IsCalmK8s}
use awi_catalyst_sdwan_opera.Awi.{
  AwiGrpcClient, get_connection_id, list_connections, list_app_connections,
}
use awi_catalyst_sdwan_opera.Awi.Calm.{IsCalmAwi}
use awi_catalyst_sdwan_opera.Status.{
  given, if_ok, write, connections_map, matches_crd, check_connection, check_connections,
  check_connections_statuses, check_app_connection, check_app_connections,
  check_app_connections_statuses,
}

abbrev pub Returns : {W : Type 0} → Exec W (Unit {0}) → Type 0
Returns {W} m = (w : W) → (m w).0 ≡ ok tt

module _ {W : Type 0} where
  given-Returns :
      {A : Type 0} (r : Result A) (k : A → Exec W (Unit {0})) (v : W)
      → r ≢ panic
      → ((a : A) → Returns (k a))
      → (given r k v).0 ≡ ok tt
  given-Returns (ok a) k v h f = f a v
  given-Returns (err e) k v h f = refl
  given-Returns panic k v h f = absurd (h refl)

  if_ok-Returns :
      {A : Type 0} (m : Exec W A) (k : A → Exec W (Unit {0}))
      → IsCalm m
      → ((a : A) → Returns (k a))
      → Returns (if_ok m k)
  if_ok-Returns m k h f w = given-Returns (m w).0 k (m w).1 (h w) f

  continue-Returns :
      (r : Result (Unit {0})) (n : Exec W (Unit {0})) (v : W)
      → r ≡ ok tt
      → Returns n
      → (continue r (λ _. n) v).0 ≡ ok tt
  continue-Returns r n v h f = rw h (f v)

  >>-Returns : (m n : Exec W (Unit {0})) → Returns m → Returns n → Returns (m >> n)
  >>-Returns m n h f w = continue-Returns (m w).0 n (m w).1 (h w) f

  write-Returns :
      {X : Type 0} (client : Client W X) (calm : IsCalmClient client) (x : X)
      → Returns (write client x)
  unfolding write
  write-Returns client calm x =
      if_ok-Returns (client.update_status x) _ (calm.update_status_calm x) (λ _ w. refl)

module _ {W : Type 0} (k8s : K8sClient W) (awi : AwiGrpcClient W) (status_name : ℕ → String)
    (kube_calm : IsCalmK8s k8s) (calm : IsCalmAwi awi) where
  check_connection-Returns :
      (conn : Pb.ConnectionInformation) (crd : InterNetworkDomainConnection)
      → Returns (check_connection k8s awi status_name conn crd)
  unfolding check_connection
  check_connection-Returns conn crd =
      elim (Bool-cases (
        (crd.status.state == status_name conn.status)
        && (crd.status.connection_id == get_connection_id crd.spec))) [
          | inl same ↦ rw (same, check_connection) (λ w. refl)
          | inr old ↦
              rw (old, check_connection) (write-Returns k8s.connections kube_calm.connections _)
        ]

  check_connections-Returns :
      (m : Dict Pb.ConnectionInformation) (items : List InterNetworkDomainConnection)
      → Returns (check_connections k8s awi status_name m items)
  unfolding check_connections
  check_connections-Returns m [] = λ w. refl
  check_connections-Returns m (crd ∷ items) =
      let rest = check_connections-Returns m items in
      elim (Option-cases (lookup (get_connection_id crd.spec) m)) [
        | inl absent ↦ rw (absent, check_connections) rest
        | inr (conn, present) ↦
            rw (present, check_connections)
              (>>-Returns (check_connection k8s awi status_name conn crd)
                (check_connections k8s awi status_name m items) (check_connection-Returns conn crd)
                rest)
      ]

  check_app_connection-Returns :
      (l : List Pb.AppConnectionInformation) (crd : InterNetworkDomainAppConnection)
      → Returns (check_app_connection k8s awi status_name l crd)
  unfolding check_app_connection
  check_app_connection-Returns [] crd = λ w. refl
  check_app_connection-Returns (conn ∷ l) crd = elim (Bool-cases (matches_crd crd conn)) [
    | inr other ↦ rw (other, check_app_connection) (check_app_connection-Returns l crd)
    | inl found ↦ elim (Bool-cases (crd.status == status_name conn.status)) [
      | inl same ↦ rw (found, same, check_app_connection) (λ w. refl)
      | inr old ↦
          rw (found, old, check_app_connection)
            (write-Returns k8s.app_connections kube_calm.app_connections _)
    ]
  ]

  check_app_connections-Returns :
      (l : List Pb.AppConnectionInformation) (items : List InterNetworkDomainAppConnection)
      → Returns (check_app_connections k8s awi status_name l items)
  unfolding check_app_connections
  check_app_connections-Returns l [] = λ w. refl
  check_app_connections-Returns l (crd ∷ items) =
      >>-Returns (check_app_connection k8s awi status_name l crd) _
        (check_app_connection-Returns l crd) (check_app_connections-Returns l items)

  pub check_connections_statuses-Returns : Returns (check_connections_statuses k8s awi status_name)
  unfolding check_connections_statuses
  check_connections_statuses-Returns =
      if_ok-Returns (list_connections awi) _ calm.connections_calm λ l.
        if_ok-Returns k8s.connections.list_all _ kube_calm.connections.list_all_calm
          (check_connections-Returns (connections_map l))

  pub check_app_connections_statuses-Returns :
      Returns (check_app_connections_statuses k8s awi status_name)
  unfolding check_app_connections_statuses
  check_app_connections_statuses-Returns =
      if_ok-Returns (list_app_connections awi) _ calm.app_connections_calm λ l.
        if_ok-Returns k8s.app_connections.list_all _ kube_calm.app_connections.list_all_calm
          (check_app_connections-Returns l)
