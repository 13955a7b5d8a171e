-- ===== src/Tests/Interleaved.antt =====
-- Runs of the connection controller, call by call.
use awi_catalyst_sdwan_opera.Base.{◌≡◌, refl, true, false, none, some, ◌⊎◌, arith, eq_iff}
use awi_catalyst_sdwan_opera.Api.{InterNetworkDomainConnection}
use awi_catalyst_sdwan_opera.Kube.Keys.{set_key}
use awi_catalyst_sdwan_opera.Awi.{get_connection_id}
use awi_catalyst_sdwan_opera.Controllers.Machine.{fetching, advance}
use awi_catalyst_sdwan_opera.Controllers.Protocol.{NoLeak}
use awi_catalyst_sdwan_opera.Controllers.System.{System, here, next, started, advanced}
use awi_catalyst_sdwan_opera.Controllers.System.Pending.{Busy}
use awi_catalyst_sdwan_opera.Controllers.System.Progress.{IsFree}
use awi_catalyst_sdwan_opera.Controllers.Connection.{my_finalizer_name}
use awi_catalyst_sdwan_opera.Controllers.Connection.Calls.{removal}
use awi_catalyst_sdwan_opera.Controllers.Connection.Safety.{id_of, key_of}
use awi_catalyst_sdwan_opera.Controllers.Connection.Interleaved.{
  Leads, interleaved_never_leak, interleaved_deletions_complete, interleaved_deletions_unblocked,
}
use awi_catalyst_sdwan_opera.Tests.Connections.{
  req, doomed_conn, before, under_deletion, request, no_ids,
}
use awi_catalyst_sdwan_opera.Tests.MemoryConnections.{
  World, util, view, client, awi, utils, awi-IsAwi, store, prompt, answering,
}

abbrev at_rest : World → System World InterNetworkDomainConnection
at_rest w = record { world = w; queue = λ k. true; worker = λ k. none }

taken : World → System World InterNetworkDomainConnection
unfolding set_key
taken w = record (at_rest w) {
  queue = set_key req false (λ k. true);
  worker = set_key req (some (fetching req)) (λ k. none);
}

read : World
unfolding advance
read = (advance client util my_finalizer_name (removal awi) request (fetching req) before).1

interleaved_never_leak_example : NoLeak view client util my_finalizer_name id_of key_of read
unfolding read set_key
interleaved_never_leak_example =
    interleaved_never_leak view client util awi store utils awi-IsAwi {s = at_rest before}
      (next (next here (started req refl refl)) (advanced req (fetching req) refl)) (λ k. refl)
      (λ id c. absurd (no_ids id c))

held_by_doomed : NoLeak view client util my_finalizer_name id_of key_of under_deletion
unfolding get_connection_id
held_by_doomed id c = (
  req,
  doomed_conn,
  refl,
  record { held = refl; same_id = ground (arith, c, eq_iff id "vpc-111:10") },
)

interleaved_deletions_complete_example :
    ((taken under_deletion).queue req ≡ true) ⊎ Busy ((taken under_deletion).worker req)
unfolding taken
interleaved_deletions_complete_example =
    interleaved_deletions_complete view client util awi store utils awi-IsAwi
      {s = at_rest under_deletion} (next here (started req refl refl)) (λ k. refl) held_by_doomed
      prompt (λ k. refl) req doomed_conn refl refl refl

interleaved_deletions_unblocked_example :
    (v : System World InterNetworkDomainConnection) × Leads view client util awi
      (taken under_deletion)
      v
    × IsFree util my_finalizer_name (view.stored v.world req)
unfolding taken
interleaved_deletions_unblocked_example =
    interleaved_deletions_unblocked view client util awi store utils awi-IsAwi
      {s = at_rest under_deletion} (next here (started req refl refl)) (λ k. refl) held_by_doomed
      answering prompt (λ k. refl) req doomed_conn refl refl refl
