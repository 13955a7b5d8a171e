-- ===== src/Awi/Ids.antt =====
-- What the IDs of client/awi_client.go tell apart.
use awi_catalyst_sdwan_opera.Base.{String, ◌≡◌}
use awi_catalyst_sdwan_opera.Base.Separators.{Lacks, split_at}
use awi_catalyst_sdwan_opera.Pb
use awi_catalyst_sdwan_opera.Awi.{source_id, destination_id, get_connection_id}

-- A text with no ':'.
abbrev pub IsColonFree : String → Type 0
IsColonFree = Lacks ":"

-- Two requests whose sources have IDs with no ':' get the same connection ID only where both ends
-- are the same.
pub get_connection_id_injective :
    (s t : Pb.ConnectionRequest)
    → IsColonFree (source_id s)
    → IsColonFree (source_id t)
    → get_connection_id s ≡ get_connection_id t
    → (source_id s ≡ source_id t) × (destination_id s ≡ destination_id t)
unfolding get_connection_id
get_connection_id_injective s t fs ft h =
    split_at ":" (source_id s) (destination_id s) (source_id t) (destination_id t) fs ft h
