-- ===== src/Tests/InterleavedApps.antt =====
-- A run of the app connection controller, call by call, up to its request.
use awi_catalyst_sdwan_opera.Base.{
  ◌≡◌, refl, true, false, ◌∷◌, none, some, [], ◌⊎◌, if◌then◌else◌, ◌==◌, arith,
}
use awi_catalyst_sdwan_opera.Api.{InterNetworkDomainAppConnection}
use awi_catalyst_sdwan_opera.Kube.Keys.{set_key}
use awi_catalyst_sdwan_opera.Controllers.Machine.{fetching, done, run, advance, dispatch}
use awi_catalyst_sdwan_opera.Controllers.Protocol.{NoLeak}
use awi_catalyst_sdwan_opera.Controllers.System.{System, here, next, started, advanced}
use awi_catalyst_sdwan_opera.Controllers.System.Pending.{Busy}
use awi_catalyst_sdwan_opera.Controllers.System.Progress.{IsFree}
use awi_catalyst_sdwan_opera.Controllers.AppConnection.{
  my_finalizer_name, request_app_connection, reconcile,
}
use awi_catalyst_sdwan_opera.Controllers.AppConnection.Calls.{removal, app_run-eq-reconcile}
use awi_catalyst_sdwan_opera.Controllers.AppConnection.Identity.{AppId, id_of, key_of}
use awi_catalyst_sdwan_opera.Controllers.AppConnection.Interleaved.{
  Leads, interleaved_apps_never_leak, interleaved_app_deletions_complete,
  interleaved_app_deletions_unblocked,
}
use awi_catalyst_sdwan_opera.Tests.Fixtures.{u}
use awi_catalyst_sdwan_opera.Tests.Apps.{req, app_conn, before, no_ids}
use awi_catalyst_sdwan_opera.Tests.MemoryApps.{
  World, util, view, client, awi, utils, awi-IsAwi, awi-IsSteady, store, prompt, answering,
}

abbrev doomed : InterNetworkDomainAppConnection
doomed = record app_conn {
  metadata = record app_conn.metadata {
    finalizers = my_finalizer_name ∷ [];
    deletion_timestamp = some 1;
  };
}

abbrev under_deletion : World
under_deletion = record {
  objects = λ k. if k.name == "shop" then some doomed else none;
  conns = [];
}

abbrev at_rest : World → System World InterNetworkDomainAppConnection
at_rest w = record { world = w; queue = λ k. true; worker = λ k. none }

registered : World
unfolding advance
registered =
    let step =
      advance client util my_finalizer_name (removal awi)
        (request_app_connection client util awi u "east") in
    let (p, w) = step (fetching req) before in (step p w).1

interleaved_apps_never_leak_example :
    NoLeak view client util my_finalizer_name id_of key_of registered
unfolding registered set_key dispatch advance
interleaved_apps_never_leak_example =
    interleaved_apps_never_leak view client util awi u "east" store utils awi-IsAwi awi-IsSteady
      {s = at_rest before}
      (next (next (next here (started req refl refl)) (advanced req (fetching req) refl))
        (advanced req _ refl))
      (λ k. refl) (λ id c. absurd (no_ids id c))

nothing_runs : (id : AppId) → view.connected under_deletion id ≡ true → ⊥
nothing_runs id c = ground (arith, c)

interleaved_app_deletions_complete_example :
    (set_key req false (λ k. true) req ≡ true)
    ⊎ Busy {X = InterNetworkDomainAppConnection} (set_key req (some (fetching req)) (λ k. none) req)
interleaved_app_deletions_complete_example =
    interleaved_app_deletions_complete view client util awi u "east" store utils awi-IsAwi
      awi-IsSteady {s = at_rest under_deletion} (next here (started req refl refl)) (λ k. refl)
      (λ id c. absurd (nothing_runs id c)) prompt (λ k. refl) req doomed refl refl refl

interleaved_app_deletions_unblocked_example :
    (v : System World InterNetworkDomainAppConnection) × Leads view client util awi u "east"
      (at_rest under_deletion)
      v
    × IsFree util my_finalizer_name (view.stored v.world req)
interleaved_app_deletions_unblocked_example =
    interleaved_app_deletions_unblocked view client util awi u "east" store utils awi-IsAwi
      awi-IsSteady {s = at_rest under_deletion} here (λ k. refl)
      (λ id c. absurd (nothing_runs id c)) answering prompt (λ k. refl) req doomed refl refl refl

app_run-eq-reconcile_example :
    run client util my_finalizer_name
      (removal awi)
      (request_app_connection client util awi u "east")
      4
      (fetching req)
      under_deletion
    ≡ (let (res, v) = reconcile client util awi u "east" req under_deletion in (done res, v))
app_run-eq-reconcile_example = app_run-eq-reconcile client util awi u "east" req under_deletion 0
