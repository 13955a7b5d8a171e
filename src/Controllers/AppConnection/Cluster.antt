-- ===== src/Controllers/AppConnection/Cluster.antt =====
-- The source cluster that the app connection controller fills in.
use awi_catalyst_sdwan_opera.Base.{String, ◌≡◌, refl, ◌↔◌, true, ◌==◌, Option, none, some, arith}
use awi_catalyst_sdwan_opera.Base.Text.{Unicode, to_lower}
use awi_catalyst_sdwan_opera.Exec.{ok, panic}
use awi_catalyst_sdwan_opera.Pb
use awi_catalyst_sdwan_opera.Controllers.AppConnection.{
  cluster_name_of, set_match_cluster, fill_endpoint, fill_from, fill_cluster,
}

-- The source of the connection is a pod for which no cluster is given.
pub record LacksCluster (u : Unicode) (conn : Pb.AppConnection) (from : Pb.Party)
    (endpoint : Pb.Endpoint) : Type 0 where
  pub has_from : conn.from ≡ some from
  pub has_endpoint : from.endpoint ≡ some endpoint
  pub is_pod : (to_lower u endpoint.kind == "pod") ≡ true
  pub no_cluster : (cluster_name_of endpoint == "") ≡ true

module _ (u : Unicode) (cluster_name : String) (conn : Pb.AppConnection) where
  fill_endpoint-panic :
      (from : Pb.Party) (o : Option Pb.Endpoint)
      → fill_endpoint u cluster_name conn from o ≡ panic
      → (e : Pb.Endpoint) × (o ≡ some e)
        × ((to_lower u e.kind == "pod") ≡ true)
        × ((cluster_name_of e == "") ≡ true)
        × (e.selector ≡ none)
  unfolding fill_endpoint set_match_cluster
  fill_endpoint-panic from none h = ground arith
  fill_endpoint-panic from (some e) h = (e, refl, ground arith, ground arith, ground arith)

  fill_from-panic :
      (o : Option Pb.Party)
      → fill_from u cluster_name conn o ≡ panic
      → (from : Pb.Party) × (o ≡ some from)
        × (fill_endpoint u cluster_name conn from from.endpoint ≡ panic)
  unfolding fill_from
  fill_from-panic none h = ground arith
  fill_from-panic (some from) h = (from, refl, h)

  -- Filling in the source cluster panics exactly where the source is a pod for which no cluster is
  -- given and which has no selector.
  pub fill_cluster_panics : (fill_cluster u cluster_name conn ≡ panic) ↔ (
      (from : Pb.Party) × (endpoint : Pb.Endpoint) × LacksCluster u conn from endpoint
      × (endpoint.selector ≡ none))
  unfolding fill_cluster
  fill_cluster_panics = (
    λ h.
        let (from, has_from, h₁) = fill_from-panic conn.from h in
        let (e, has_endpoint, is_pod, no_cluster, bare) =
          fill_endpoint-panic from from.endpoint h₁ in
        (
          from,
          e,
          record {
            has_from = has_from;
            has_endpoint = has_endpoint;
            is_pod = is_pod;
            no_cluster = no_cluster;
          },
          bare,
        ),
    λ (from, e, lacks, bare). rw (
      lacks.has_from, fill_from, lacks.has_endpoint, fill_endpoint, lacks.is_pod, lacks.no_cluster,
      bare, set_match_cluster,
    ),
  )

  -- Filling in the source cluster a second time changes nothing.
  pub fill_cluster_twice :
      (conn' : Pb.AppConnection)
      → fill_cluster u cluster_name conn ≡ ok conn'
      → fill_cluster u cluster_name conn' ≡ ok conn'
  unfolding fill_cluster
  fill_cluster_twice conn' h = ground arith
