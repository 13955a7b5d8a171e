-- ===== src/Tests/Apps.antt =====
-- The app connection controller at a concrete object.
use awi_catalyst_sdwan_opera.Base.{◌≡◌, refl, true, none, some, [], ◌==◌, if◌then◌else◌, arith}
use awi_catalyst_sdwan_opera.Base.Text.{to_lower}
use awi_catalyst_sdwan_opera.Exec.{Result, ok}
use awi_catalyst_sdwan_opera.Pb
use awi_catalyst_sdwan_opera.Api.{InterNetworkDomainAppConnection}
use awi_catalyst_sdwan_opera.Kube.{NamespacedName}
use awi_catalyst_sdwan_opera.Controllers.{ReconcileResult, reconcile, no_requeue}
use awi_catalyst_sdwan_opera.Controllers.Protocol.{NoLeak}
use awi_catalyst_sdwan_opera.Controllers.Lifecycle.{here, next, reconciled}
use awi_catalyst_sdwan_opera.Controllers.AppConnection.{
  my_finalizer_name, remove_app_connection, request_app_connection, fill_cluster,
}
use awi_catalyst_sdwan_opera.Controllers.AppConnection.Identity.{AppId, id_of, key_of}
use awi_catalyst_sdwan_opera.Controllers.AppConnection.Safety.{app_connections_never_leak}
use awi_catalyst_sdwan_opera.Tests.Fixtures.{u}
use awi_catalyst_sdwan_opera.Tests.MemoryApps.{
  World, util, view, client, awi, utils, awi-IsAwi, store,
}

abbrev spec : Pb.AppConnection
spec = record {
  controller = "";
  metadata = some (record { name = "shop"; labels = [] });
  network_domain_connection = some (record { selector = some (record { match_name = "blue" }) });
  from = some (record {
    endpoint = some (record {
      kind = "Pod";
      selector = some (record { match_cluster = none; match_labels = [] });
    });
  });
  to = none;
}

abbrev pub req : NamespacedName
req = record { namespace = "default"; name = "shop" }

abbrev pub app_conn : InterNetworkDomainAppConnection
app_conn = record {
  metadata = record {
    name = "shop";
    namespace = "default";
    labels = none;
    finalizers = [];
    deletion_timestamp = none;
  };
  spec = record { app_connection = spec };
  status = "";
}

abbrev pub before : World
before = record { objects = λ k. if k.name == "shop" then some app_conn else none; conns = [] }

run : World → Result ReconcileResult × World
unfolding reconcile remove_app_connection request_app_connection fill_cluster to_lower
run =
    reconcile client util my_finalizer_name (remove_app_connection client util awi u "east")
      (request_app_connection client util awi u "east") req

after : World
unfolding run
after = (run before).1

ran : run before ≡ (ok no_requeue, after)
unfolding after
ran = refl

pub no_ids : (id : AppId) → view.connected before id ≡ true → ⊥
no_ids id c = ground (arith, c)

app_connections_never_leak_example : NoLeak view client util my_finalizer_name id_of key_of after
unfolding after
app_connections_never_leak_example =
    app_connections_never_leak view client util awi awi-IsAwi u "east" store utils {w = before}
      {v = after} (next here (reconciled req refl)) (λ id c. absurd (no_ids id c))
