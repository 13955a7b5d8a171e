-- ===== src/Status/Shown.antt =====
-- What the connection and app connection objects show after a pass of the status watcher.
use awi_catalyst_sdwan_opera.Base.{
  ℕ, String, ◌≡◌, refl, Bool, true, ◌&&◌, ◌==◌, eq_iff, Option, List, [], ◌∷◌, map, Option-cases,
  inl, inr, arith,
}
use awi_catalyst_sdwan_opera.Base.Dict.{Dict, lookup}
use awi_catalyst_sdwan_opera.Exec.{ok}
use awi_catalyst_sdwan_opera.Pb
use awi_catalyst_sdwan_opera.Api.{InterNetworkDomainConnection, InterNetworkDomainAppConnection}
use awi_catalyst_sdwan_opera.Kube.{NamespacedName, K8sClient}
use awi_catalyst_sdwan_opera.Awi.{
  AwiGrpcClient, get_connection_id, list_connections, list_app_connections,
}
use awi_catalyst_sdwan_opera.Status.{
  connections_map, check_connections_statuses, check_app_connections_statuses,
}
use awi_catalyst_sdwan_opera.Status.Updates.{
  first_match, refresh, refresh_app, stale, stale_app, check_connections-write_all,
  check_app_connections-write_all,
}
use awi_catalyst_sdwan_opera.Status.Store.{
  IsApart, IsWritable, AllShown, outdated, write_all-AllShown,
}

abbrev pub key_of : InterNetworkDomainConnection → NamespacedName
key_of crd = record { namespace = crd.metadata.namespace; name = crd.metadata.name }

abbrev pub app_key_of : InterNetworkDomainAppConnection → NamespacedName
app_key_of crd = record { namespace = crd.metadata.namespace; name = crd.metadata.name }

module _ (status_name : ℕ → String) (m : Dict Pb.ConnectionInformation) where
  abbrev is_current : InterNetworkDomainConnection → Bool
  is_current crd =
      let fresh = (refresh status_name m crd).status in
      (crd.status.state == fresh.state) && (crd.status.connection_id == fresh.connection_id)

  key_of-refresh :
      (crd : InterNetworkDomainConnection) → key_of (refresh status_name m crd) ≡ key_of crd
  unfolding refresh
  key_of-refresh crd = elim (Option-cases (lookup (get_connection_id crd.spec) m)) [
    | inl unknown ↦ rw (unknown, refresh)
    | inr (conn, found) ↦ rw (found, refresh)
  ]

  refresh_same :
      (crd : InterNetworkDomainConnection) → is_current crd ≡ true → refresh status_name m crd ≡ crd
  unfolding refresh
  refresh_same crd h = elim (Option-cases (lookup (get_connection_id crd.spec) m)) [
    | inl unknown ↦ rw (unknown, refresh)
    | inr (conn, found) ↦ ground (
      arith,
      found,
      h,
      eq_iff crd.status.state (status_name conn.status),
      eq_iff crd.status.connection_id (get_connection_id crd.spec),
    )
  ]

  stale-eq-outdated :
      (items : List InterNetworkDomainConnection)
      → stale status_name m items ≡ outdated (refresh status_name m) is_current items
  unfolding stale outdated
  stale-eq-outdated [] = refl
  stale-eq-outdated (crd ∷ items) = rw (stale-eq-outdated items)

module _ (status_name : ℕ → String) (conns : List Pb.AppConnectionInformation) where
  abbrev is_current_app : InterNetworkDomainAppConnection → Bool
  is_current_app crd = crd.status == (refresh_app status_name conns crd).status

  key_of-refresh_app :
      (crd : InterNetworkDomainAppConnection)
      → app_key_of (refresh_app status_name conns crd) ≡ app_key_of crd
  unfolding refresh_app
  key_of-refresh_app crd = elim (Option-cases (first_match crd conns)) [
    | inl unknown ↦ rw (unknown, refresh_app)
    | inr (conn, found) ↦ rw (found, refresh_app)
  ]

  refresh_app_same :
      (crd : InterNetworkDomainAppConnection)
      → is_current_app crd ≡ true
      → refresh_app status_name conns crd ≡ crd
  unfolding refresh_app
  refresh_app_same crd h = elim (Option-cases (first_match crd conns)) [
    | inl unknown ↦ rw (unknown, refresh_app)
    | inr (conn, found) ↦ ground (arith, found, h, eq_iff crd.status (status_name conn.status))
  ]

  stale_app-eq-outdated :
      (items : List InterNetworkDomainAppConnection)
      → stale_app status_name conns items
        ≡ outdated (refresh_app status_name conns) is_current_app items
  unfolding stale_app outdated
  stale_app-eq-outdated [] = refl
  stale_app-eq-outdated (crd ∷ items) = rw (stale_app-eq-outdated items)

module _ {W : Type 0} (k8s : K8sClient W) (awi : AwiGrpcClient W) (status_name : ℕ → String) where
  -- Where both lists succeed, no status write fails and the listed objects are the stored ones, each
  -- under a key of its own, each of them shows after the pass what AWI reports of its connection, and
  -- one whose connection AWI does not list is as it was.
  pub check_connections_statuses-AllShown :
      (shown : W → NamespacedName → Option InterNetworkDomainConnection)
      → IsWritable key_of k8s.connections shown
      → (conns : List Pb.ConnectionInformation) (items : List InterNetworkDomainConnection)
        (w w₁ w₂ : W)
      → list_connections awi w ≡ (ok conns, w₁)
      → k8s.connections.list_all w₁ ≡ (ok items, w₂)
      → IsApart key_of items
      → AllShown key_of k8s.connections shown w₂ items
      → AllShown key_of k8s.connections shown
          (check_connections_statuses k8s awi status_name w).1
          (map (refresh status_name (connections_map conns)) items)
  unfolding check_connections_statuses
  check_connections_statuses-AllShown shown laws conns items w w₁ w₂ h₁ h₂ apart all =
      let m = connections_map conns in
      rw
        (
          h₁,
          h₂,
          check_connections_statuses,
          check_connections-write_all k8s awi status_name m items w₂,
          stale-eq-outdated status_name m items,
        )
        (write_all-AllShown key_of k8s.connections shown laws (refresh status_name m)
          (is_current status_name m) (key_of-refresh status_name m) (refresh_same status_name m)
          items w₂ apart all)

  -- Where both lists succeed, no status write fails and the listed objects are the stored ones, each
  -- under a key of its own, each app connection object shows after the pass the status of the first app
  -- connection that AWI lists for it, and one that AWI lists none for is as it was.
  pub check_app_connections_statuses-AllShown :
      (shown : W → NamespacedName → Option InterNetworkDomainAppConnection)
      → IsWritable app_key_of k8s.app_connections shown
      → (conns : List Pb.AppConnectionInformation) (items : List InterNetworkDomainAppConnection)
        (w w₁ w₂ : W)
      → list_app_connections awi w ≡ (ok conns, w₁)
      → k8s.app_connections.list_all w₁ ≡ (ok items, w₂)
      → IsApart app_key_of items
      → AllShown app_key_of k8s.app_connections shown w₂ items
      → AllShown app_key_of k8s.app_connections shown
          (check_app_connections_statuses k8s awi status_name w).1
          (map (refresh_app status_name conns) items)
  unfolding check_app_connections_statuses
  check_app_connections_statuses-AllShown shown laws conns items w w₁ w₂ h₁ h₂ apart all =
      rw
        (
          h₁,
          h₂,
          check_app_connections_statuses,
          check_app_connections-write_all k8s awi status_name conns items w₂,
          stale_app-eq-outdated status_name conns items,
        )
        (write_all-AllShown app_key_of k8s.app_connections shown laws
          (refresh_app status_name conns) (is_current_app status_name conns)
          (key_of-refresh_app status_name conns) (refresh_app_same status_name conns) items w₂ apart
          all)
