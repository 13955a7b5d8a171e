-- ===== src/Main/Loops.antt =====
-- The two loops that main.go starts.
use awi_catalyst_sdwan_opera.Base.{ℕ, suc, String, ◌≡◌, List, [], ◌∷◌}
use awi_catalyst_sdwan_opera.Exec.{ok}
use awi_catalyst_sdwan_opera.Base.Text.{Unicode}
use awi_catalyst_sdwan_opera.Api.{InterNetworkDomainConnection, InterNetworkDomainAppConnection}
use awi_catalyst_sdwan_opera.Kube.{Util}
use awi_catalyst_sdwan_opera.Kube.Calm.{IsCalmK8s}
use awi_catalyst_sdwan_opera.Awi.Dial.{Grpc, with_grpc_clients}
use awi_catalyst_sdwan_opera.Awi.Calm.{IsCalmAwi}
use awi_catalyst_sdwan_opera.Sync.Kinds.{Orders}
use awi_catalyst_sdwan_opera.Sync.Syncers.{Event, new_syncers}
use awi_catalyst_sdwan_opera.Sync.Syncers.Rounds.{ticks, rounds, start_periodic_sync-rounds}
use awi_catalyst_sdwan_opera.Sync.Calm.{new_syncers-NoPanic}
use awi_catalyst_sdwan_opera.Status.Passes.{passes, watch_status_updates-passes}
use awi_catalyst_sdwan_opera.Main.{Runtime, Goroutine, periodic_sync, status_updates, body}
use awi_catalyst_sdwan_opera.Main.Runs.{SetUp, loops}

abbrev pub Each : {A : Type 0} → (A → Type 0) → List A → Type 0
Each P [] = Unit
Each P (a ∷ l) = P a × Each P l

-- The world that a loop has made of `w` when it has received the events: one round of the
-- synchronizers, or one pass over the statuses, at once, and one more for each tick.
abbrev pub after : {W Context : Type 0} → (ℕ → String) → Goroutine W Context → List Event → W → W
after status_name (periodic_sync all_syncers ctx) events w =
    rounds (suc (ticks events)) all_syncers w
after status_name (status_updates ctx awi_client k8s_client interval) events w =
    passes k8s_client awi_client status_name (suc (ticks events)) w

-- Where no call of a server panics, neither of the two loops that the program starts panics or ends
-- in an error, whatever the servers reply and whichever calls fail: the first makes one round of the
-- six synchronizers at once and one more for each tick before the context ends, and the second as
-- many passes over the statuses, connections first, with none left out and none after that.
pub loops-rounds :
    {W Manager Context Config Conn : Type 0} (ctrl : Runtime W Manager Context Config)
    (grpc : Grpc W Conn) (connection_util : Util InterNetworkDomainConnection)
    (app_connection_util : Util InterNetworkDomainAppConnection) (u : Unicode) (orders : Orders)
    (status_name : ℕ → String) (w : W)
    (s : SetUp ctrl grpc connection_util app_connection_util u orders w)
    → IsCalmK8s (ctrl.get_client s.mgr)
    → IsCalmAwi (with_grpc_clients grpc s.grpc_conn)
    → (events : List Event)
    → Each
        (λ loop.
          (v : W) → body status_name loop events v ≡ (ok tt, after status_name loop events v))
        (loops ctrl grpc connection_util app_connection_util u orders s.mgr
          (with_grpc_clients grpc s.grpc_conn)
          s.registered)
loops-rounds ctrl grpc connection_util app_connection_util u orders status_name w s kube_calm calm
      events =
    let k8s = ctrl.get_client s.mgr in
    let awi = with_grpc_clients grpc s.grpc_conn in
    let panics = new_syncers-NoPanic k8s awi u orders kube_calm calm in
    (
      (λ v. start_periodic_sync-rounds (new_syncers k8s awi u orders) events v panics),
      (watch_status_updates-passes k8s awi status_name kube_calm calm events, tt),
    )
