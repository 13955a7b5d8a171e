-- ===== src/Status/Listed.antt =====
-- The map that the status watcher makes of AWI's connections.
use awi_catalyst_sdwan_opera.Base.{
  String, ◌≡◌, refl, ◌==◌, eq_iff, Option, none, some, List, [], ◌∷◌, or_else, if◌then◌else◌, arith,
}
use awi_catalyst_sdwan_opera.Base.Dict.{Dict, lookup, insert, lookup-insert}
use awi_catalyst_sdwan_opera.Pb
use awi_catalyst_sdwan_opera.Status.{index_conns, connections_map}

-- The last of the connections that AWI lists under the ID.
unfoldable pub last_with_id :
    String → List Pb.ConnectionInformation → Option Pb.ConnectionInformation
last_with_id id [] = none
last_with_id id (conn ∷ conns) =
    or_else (last_with_id id conns) (if conn.id == id then some conn else none)

lookup-index_conns :
    (id : String) (m : Dict Pb.ConnectionInformation) (conns : List Pb.ConnectionInformation)
    → lookup id (index_conns m conns) ≡ or_else (last_with_id id conns) (lookup id m)
unfolding index_conns last_with_id
lookup-index_conns id m [] = refl
lookup-index_conns id m (conn ∷ conns) = ground (
  arith,
  lookup-index_conns id (insert conn.id conn m) conns,
  lookup-insert conn.id id conn m,
  eq_iff conn.id id,
)

-- The map of the connections has under an ID the last connection that AWI lists under it.
pub lookup-connections_map :
    (id : String) (conns : List Pb.ConnectionInformation)
    → lookup id (connections_map conns) ≡ last_with_id id conns
unfolding connections_map lookup
lookup-connections_map id conns = ground (arith, lookup-index_conns id [] conns)
