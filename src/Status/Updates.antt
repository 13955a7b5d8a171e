-- ===== src/Status/Updates.antt =====
-- Which statuses are written: an account of the two checks that does not follow their loops.
use awi_catalyst_sdwan_opera.Base.{
  ℕ, String, ◌≡◌, refl, ◌&&◌, ◌==◌, eq_refl, eq_iff, Option, none, some, List, [], ◌∷◌, map, arith,
  Option-cases, Bool-cases, inl, inr, if◌then◌else◌,
}
use awi_catalyst_sdwan_opera.Base.Dict.{Dict, lookup}
use awi_catalyst_sdwan_opera.Exec.{Exec, ok, pure, ◌>>◌, >>=_congr}
use awi_catalyst_sdwan_opera.Pb
use awi_catalyst_sdwan_opera.Pb.{get}
use awi_catalyst_sdwan_opera.Api.{InterNetworkDomainConnection, InterNetworkDomainAppConnection}
use awi_catalyst_sdwan_opera.Kube.{Client, K8sClient}
use awi_catalyst_sdwan_opera.Awi.{
  AwiGrpcClient, get_connection_id, matches, match_name, metadata_name, find_id,
}
use awi_catalyst_sdwan_opera.Status.{
  write, check_connections, matches_crd, check_app_connection, check_app_connections,
}

-- One write for each object, in turn, whatever the earlier ones returned.
unfoldable pub write_all : {W X : Type 0} → Client W X → List X → Exec W (Unit {0})
write_all client [] = pure tt
write_all client (x ∷ xs) = write client x >> write_all client xs

-- The first app connection that AWI lists for the object.
unfoldable pub first_match :
    InterNetworkDomainAppConnection
    → List Pb.AppConnectionInformation
    → Option Pb.AppConnectionInformation
first_match crd [] = none
first_match crd (conn ∷ conns) = if matches_crd crd conn then some conn else first_match crd conns

module _ (status_name : ℕ → String) where
  abbrev with_status : ℕ → InterNetworkDomainConnection → InterNetworkDomainConnection
  with_status status crd = record crd {
    status = record { state = status_name status; connection_id = get_connection_id crd.spec };
  }

  -- The object with the status that AWI reports, itself where AWI reports none.
  unfoldable pub refresh :
      Dict Pb.ConnectionInformation → InterNetworkDomainConnection → InterNetworkDomainConnection
  refresh m crd = elim (lookup (get_connection_id crd.spec) m) [
    | none ↦ crd
    | some conn ↦ with_status conn.status crd
  ]

  -- The refreshed objects of those whose status changes.
  unfoldable pub stale :
      Dict Pb.ConnectionInformation
      → List InterNetworkDomainConnection
      → List InterNetworkDomainConnection
  stale m [] = []
  stale m (crd ∷ items) =
      let rest = stale m items in
      let fresh = (refresh m crd).status in
      if (crd.status.state == fresh.state) && (crd.status.connection_id == fresh.connection_id)
      then rest
      else refresh m crd ∷ rest

  unfoldable pub refresh_app :
      List Pb.AppConnectionInformation
      → InterNetworkDomainAppConnection
      → InterNetworkDomainAppConnection
  refresh_app conns crd = elim (first_match crd conns) [
    | none ↦ crd
    | some conn ↦ record crd { status = status_name conn.status }
  ]

  unfoldable pub stale_app :
      List Pb.AppConnectionInformation
      → List InterNetworkDomainAppConnection
      → List InterNetworkDomainAppConnection
  stale_app conns [] = []
  stale_app conns (crd ∷ items) =
      let rest = stale_app conns items in
      if crd.status == (refresh_app conns crd).status then rest else refresh_app conns crd ∷ rest

module _ {W : Type 0} (k8s : K8sClient W) (awi : AwiGrpcClient W) (status_name : ℕ → String) where
  -- The pass over the connection objects writes the refreshed objects of those whose status changes,
  -- in the order of the list, and nothing else.
  pub check_connections-write_all :
      (m : Dict Pb.ConnectionInformation) (items : List InterNetworkDomainConnection) (w : W)
      → check_connections k8s awi status_name m items w
        ≡ write_all k8s.connections (stale status_name m items) w
  unfolding check_connections stale refresh write_all
  check_connections-write_all m [] w = refl
  check_connections-write_all m (crd ∷ items) w =
      elim (Option-cases (lookup (get_connection_id crd.spec) m)) [
        | inl unknown ↦
            rw (unknown, check_connections, stale, refresh)
              (ground (
                arith,
                check_connections-write_all m items w,
                eq_refl crd.status.state,
                eq_refl crd.status.connection_id,
              ))
        | inr (conn, found) ↦
            elim (Bool-cases (
              (crd.status.state == status_name conn.status)
              && (crd.status.connection_id == get_connection_id crd.spec))) [
                | inl same ↦
                    rw (found, check_connections, stale, refresh, same)
                      (check_connections-write_all m items w)
                | inr differs ↦
                    rw (found, check_connections, stale, refresh, differs)
                      (>>=_congr (write k8s.connections (with_status status_name conn.status crd))
                        (λ _. check_connections k8s awi status_name m items)
                        (λ _. write_all k8s.connections (stale status_name m items)) w
                        (λ _ v. check_connections-write_all m items v))
              ]
      ]

  -- A pass over objects that already show what AWI reports writes nothing.
  pub check_connections_idle :
      (m : Dict Pb.ConnectionInformation) (items : List InterNetworkDomainConnection) (w : W)
      → check_connections k8s awi status_name m (map (refresh status_name m) items) w ≡ (ok tt, w)
  unfolding check_connections refresh
  check_connections_idle m [] w = refl
  check_connections_idle m (crd ∷ items) w =
      elim (Option-cases (lookup (get_connection_id crd.spec) m)) [
        | inl unknown ↦
            rw (unknown, refresh)
              (rw (unknown, check_connections) (check_connections_idle m items w))
        | inr (conn, found) ↦
            rw (found, refresh)
              (rw
                (
                  found,
                  check_connections,
                  eq_refl (status_name conn.status),
                  eq_refl (get_connection_id crd.spec),
                )
                (check_connections_idle m items w))
      ]

  check_app_connection-write :
      (conns : List Pb.AppConnectionInformation) (crd : InterNetworkDomainAppConnection)
      → check_app_connection k8s awi status_name conns crd ≡ (
          if crd.status == (refresh_app status_name conns crd).status
          then pure tt
          else write k8s.app_connections (refresh_app status_name conns crd))
  unfolding check_app_connection refresh_app first_match
  check_app_connection-write [] crd = rw (eq_refl crd.status)
  check_app_connection-write (conn ∷ conns) crd = elim (Bool-cases (matches_crd crd conn)) [
    | inl match ↦ rw (match, check_app_connection, refresh_app, first_match)
    | inr other ↦
        rw (other, check_app_connection, refresh_app, first_match)
          (check_app_connection-write conns crd)
  ]

  -- The pass over the app connection objects writes the refreshed objects of those whose status
  -- changes, in the order of the list, and nothing else.
  pub check_app_connections-write_all :
      (conns : List Pb.AppConnectionInformation) (items : List InterNetworkDomainAppConnection)
      (w : W)
      → check_app_connections k8s awi status_name conns items w
        ≡ write_all k8s.app_connections (stale_app status_name conns items) w
  unfolding check_app_connections stale_app write_all
  check_app_connections-write_all conns [] w = refl
  check_app_connections-write_all conns (crd ∷ items) w =
      let rest =
        >>=_congr (write k8s.app_connections (refresh_app status_name conns crd))
          (λ _. check_app_connections k8s awi status_name conns items)
          (λ _. write_all k8s.app_connections (stale_app status_name conns items)) w
          (λ _ v. check_app_connections-write_all conns items v) in
      rw (check_app_connection-write conns crd)
        (elim (Bool-cases (crd.status == (refresh_app status_name conns crd).status)) [
          | inl same ↦ rw same (check_app_connections-write_all conns items w)
          | inr differs ↦ rw differs rest
        ])

str_eq_comm : (s t : String) → (s == t) ≡ (t == s)
str_eq_comm s t = ground (arith, eq_iff s t, eq_iff t s)

matches-eq-matches_crd :
    (crd : InterNetworkDomainAppConnection) (conn : Pb.AppConnectionInformation)
    → matches crd.spec.app_connection conn ≡ matches_crd crd conn
unfolding matches matches_crd
matches-eq-matches_crd crd conn = cc (
  str_eq_comm (match_name (some crd.spec.app_connection)) (match_name conn.app_connection_config),
  str_eq_comm (metadata_name (some crd.spec.app_connection))
      (metadata_name conn.app_connection_config),
)

-- The ID that the deletion of an object ends is that of the first app connection that the status
-- check takes for the object's, and empty where there is none.
pub find_id-first_match :
    (crd : InterNetworkDomainAppConnection) (conns : List Pb.AppConnectionInformation)
    → find_id crd.spec.app_connection conns
      ≡ get (λ (c : Pb.AppConnectionInformation). c.id) "" (first_match crd conns)
unfolding find_id first_match
find_id-first_match crd [] = refl
find_id-first_match crd (conn ∷ conns) = elim (Bool-cases (matches_crd crd conn)) [
  | inl same ↦ rw (matches-eq-matches_crd crd conn, same)
  | inr other ↦ rw (matches-eq-matches_crd crd conn, other) (find_id-first_match crd conns)
]
