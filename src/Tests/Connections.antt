-- ===== src/Tests/Connections.antt =====
-- The connection controller at concrete inputs.
use awi_catalyst_sdwan_opera.Base.{
  ◌≢◌, ◌⊎◌, eq_iff, String, ◌≡◌, refl, Bool, true, false, Option, none, some, List, [], ◌∷◌, ◌==◌,
  if◌then◌else◌, ℕ, arith,
}
use awi_catalyst_sdwan_opera.Exec.{Exec, Error, Result, ok, err, foreign, errorf}
use awi_catalyst_sdwan_opera.Pb
use awi_catalyst_sdwan_opera.Api.{InterNetworkDomainConnection}
use awi_catalyst_sdwan_opera.Kube.{NamespacedName}
use awi_catalyst_sdwan_opera.Awi.{get_connection_id, source_id, destination_id, connection_request}
use awi_catalyst_sdwan_opera.Awi.Ids.{get_connection_id_injective}
use awi_catalyst_sdwan_opera.Controllers.{ReconcileResult, reconcile, no_requeue}
use awi_catalyst_sdwan_opera.Controllers.Protocol.{Holds, IsPeer, NoLeak}
use awi_catalyst_sdwan_opera.Controllers.Success.{
  reconcile_live, reconcile_deleted, reconcile_retried,
}
use awi_catalyst_sdwan_opera.Controllers.Connection.Frame.{IsApart, reconcile_spares}
use awi_catalyst_sdwan_opera.Controllers.Connection
use awi_catalyst_sdwan_opera.Controllers.Lifecycle.{here, next, reconciled}
use awi_catalyst_sdwan_opera.Controllers.Connection.{my_finalizer_name, remove_connection}
use awi_catalyst_sdwan_opera.Controllers.Connection.Safety.{
  id_of, key_of, request_connection, connection-IsPeer, connections_never_leak,
}
use awi_catalyst_sdwan_opera.Tests.MemoryConnections.{
  World, util, view, client, awi, utils, awi-IsAwi, stubborn, stubborn-IsAwi, store,
}

abbrev end_at : String → Option Pb.End
end_at id = some (record {
  network_domain = some (record {
    account_id = "";
    selector =
        some
          (record { match_id = some (record { id = id }); match_name = none; match_labels = [] });
  });
})

abbrev request_between : String → String → Pb.ConnectionRequest
request_between source destination = record {
  metadata = none;
  spec = some (record { source = end_at source; destination = end_at destination });
}

abbrev pub req : NamespacedName
req = record { namespace = "default"; name = "conn" }

abbrev conn_with : List String → Option ℕ → InterNetworkDomainConnection
conn_with finalizers deletion_timestamp = record {
  metadata = record {
    name = "conn";
    namespace = "default";
    labels = none;
    finalizers = finalizers;
    deletion_timestamp = deletion_timestamp;
  };
  spec = request_between "vpc-111" "10";
  status = record { state = ""; connection_id = "" };
}

abbrev world_of : InterNetworkDomainConnection → Bool → World
world_of x known = record {
  objects = λ k. if k.name == "conn" then some x else none;
  conns = λ id. if id == "vpc-111:10" then known else false;
}

abbrev pub fresh_conn : InterNetworkDomainConnection
fresh_conn = conn_with [] none

abbrev pub doomed_conn : InterNetworkDomainConnection
doomed_conn = conn_with (my_finalizer_name ∷ []) (some 7)

abbrev pub before : World
before = world_of fresh_conn false

abbrev pub under_deletion : World
under_deletion = world_of doomed_conn true

abbrev pub remove : InterNetworkDomainConnection → Exec World (Unit {0})
remove = remove_connection client util awi

abbrev pub request : InterNetworkDomainConnection → Exec World (Unit {0})
request = request_connection awi

peer : IsPeer view client util my_finalizer_name id_of key_of remove request
peer = connection-IsPeer view client util awi store utils awi-IsAwi

run : World → Result ReconcileResult × World
unfolding reconcile remove_connection connection_request get_connection_id
run = reconcile client util my_finalizer_name remove request req

after_first : World
unfolding run
after_first = (run before).1

run_before :
    reconcile client util my_finalizer_name remove request req before ≡ (ok no_requeue, after_first)
unfolding after_first
run_before = refl

reconcile_live_example :
    (after_first.conns (id_of fresh_conn) ≡ true)
    × ((y : InterNetworkDomainConnection) × (view.stored after_first req ≡ some y)
        × Holds util my_finalizer_name id_of (id_of fresh_conn) y)
unfolding after_first
reconcile_live_example =
    reconcile_live view client util my_finalizer_name id_of key_of remove request store utils peer
      req before before fresh_conn refl no_requeue after_first refl refl

after_deletion : World
unfolding run
after_deletion = (run under_deletion).1

reconcile_deleted_example :
    (after_deletion.conns (id_of doomed_conn) ≡ false)
    × ((z : InterNetworkDomainConnection)
        → view.stored after_deletion req ≡ some z
        → util.contains_finalizer z my_finalizer_name ≡ false)
unfolding after_deletion
reconcile_deleted_example =
    reconcile_deleted view client util my_finalizer_name id_of key_of remove request store utils
      peer req under_deletion under_deletion doomed_conn refl no_requeue after_deletion refl refl
      refl

pub no_ids : (id : String) → before.conns id ≡ true → ⊥
no_ids id c = ground (arith, c)

connections_never_leak_example : NoLeak view client util my_finalizer_name id_of key_of after_first
unfolding after_first
connections_never_leak_example =
    connections_never_leak view client util awi store utils awi-IsAwi {w = before} {v = after_first}
      (next here (reconciled req refl)) (λ id c. absurd (no_ids id c))

-- A deletion beside another connection.
abbrev crowded : World
crowded = record under_deletion { conns = λ id. true }

spared :
    (id : String)
    → (id ≡ id_of doomed_conn → ⊥)
    → (x : InterNetworkDomainConnection) (v : World) → client.get req crowded ≡ (ok x, v)
    → id ≢ get_connection_id x.spec
spared id other x v got e = other (cc (got, e))

apart : IsApart view awi
apart = record {
  connect_others = λ w spec id other. ground (arith, other, eq_iff id (get_connection_id spec));
  disconnect_others = λ w ended id other. ground (arith, other, eq_iff id ended);
}

reconcile_spares_example :
    (Connection.reconcile client util awi req crowded).1.conns "vpc-222:10" ≡ true
unfolding get_connection_id
reconcile_spares_example =
    reconcile_spares view client util awi apart store utils awi-IsAwi req crowded "vpc-222:10"
      (spared "vpc-222:10" (λ e. ground (arith, e, eq_iff "vpc-222:10" (id_of doomed_conn))))

abbrev busy : Error
busy = errorf "error recevived from disconnection request: %v" (foreign "busy")

reconcile_retried_example :
    (under_deletion.conns (id_of doomed_conn) ≡ false)
    ⊎ ((view.stored under_deletion req ≡ some doomed_conn)
        × ((res : ReconcileResult) → err busy ≢ ok res))
unfolding remove_connection reconcile
reconcile_retried_example =
    reconcile_retried view client util my_finalizer_name id_of key_of
      (remove_connection client util stubborn) (request_connection stubborn) store utils
      (connection-IsPeer view client util stubborn store utils stubborn-IsAwi) req under_deletion
      under_deletion doomed_conn refl (err busy) under_deletion refl refl refl

get_connection_id_injective_example :
    (source_id (request_between "a" "b:c") ≡ source_id (request_between "a" "b:c"))
    × (destination_id (request_between "a" "b:c") ≡ destination_id (request_between "a" "b:c"))
unfolding get_connection_id
get_connection_id_injective_example =
    get_connection_id_injective (request_between "a" "b:c") (request_between "a" "b:c")
      (omega arith, tt) (omega arith, tt) refl
