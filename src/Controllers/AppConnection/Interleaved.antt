-- ===== src/Controllers/AppConnection/Interleaved.antt =====
-- The app connection controller with its event filter, call by call beside the rest of the cluster.
use awi_catalyst_sdwan_opera.Base.{String, ◌≡◌, true, false, none, some, ◌⊎◌}
use awi_catalyst_sdwan_opera.Base.Text.{Unicode}
use awi_catalyst_sdwan_opera.Api.{InterNetworkDomainAppConnection}
use awi_catalyst_sdwan_opera.Kube.{NamespacedName, Client, Util}
use awi_catalyst_sdwan_opera.Awi.{AwiGrpcClient}
use awi_catalyst_sdwan_opera.Controllers.Protocol.{View, IsStore, IsUtil, NoLeak}
use awi_catalyst_sdwan_opera.Controllers.System.{System, Reach}
use awi_catalyst_sdwan_opera.Controllers.System.Safety.{interleaved-NoLeak}
use awi_catalyst_sdwan_opera.Controllers.System.Pending.{Busy, IsPrompt}
use awi_catalyst_sdwan_opera.Controllers.System.Completion.{deletions_complete}
use awi_catalyst_sdwan_opera.Controllers.System.Progress.{IsFree, IsAnswering}
use awi_catalyst_sdwan_opera.Controllers.System.Unblocked.{deletions_unblocked}
use awi_catalyst_sdwan_opera.Controllers.AppConnection.{
  my_finalizer_name, request_app_connection, update_func, delete_func,
}
use awi_catalyst_sdwan_opera.Controllers.AppConnection.Identity.{AppId, id_of, key_of, IsAwi}
use awi_catalyst_sdwan_opera.Controllers.AppConnection.Calls.{
  removal, IsSteady, app_connection-IsPartner,
}

module _ {W : Type 0} (view : View W InterNetworkDomainAppConnection AppId)
    (client : Client W InterNetworkDomainAppConnection)
    (util : Util InterNetworkDomainAppConnection) (awi : AwiGrpcClient W) (u : Unicode)
    (cluster_name : String) where
  open view use {stored}

  abbrev pub Leads :
      System W InterNetworkDomainAppConnection → System W InterNetworkDomainAppConnection → Type 0
  Leads =
      Reach view client util my_finalizer_name id_of (removal awi)
        (request_app_connection client util awi u cluster_name)
        (update_func client util awi u cluster_name) (delete_func client util awi u cluster_name)

  -- The filter drops no update of an object under deletion.
  update_func_passes :
      (x : InterNetworkDomainAppConnection)
      → util.deletion_timestamp_is_zero x ≡ false
      → update_func client util awi u cluster_name x ≡ true
  unfolding update_func
  update_func_passes x deleting = rw deleting

  module _ (store : IsStore view client util my_finalizer_name id_of key_of)
      (utils : IsUtil view client util my_finalizer_name id_of key_of) (laws : IsAwi view awi)
      (steady : IsSteady view awi) {s t : System W InterNetworkDomainAppConnection} (r : Leads s t)
      (idle : (k : NamespacedName) → s.worker k ≡ none)
      (safe : NoLeak view client util my_finalizer_name id_of key_of s.world) where
    -- Where the ID that AWI lists for an app connection stands for it at any time: from a start with no
    -- run under way, in which every app connection of AWI has a stored object of its network domain
    -- connection and name that holds the finalizer, this is so in any state that the runs of
    -- `Reconcile`, interleaved call by call, lead to: with calls that fail or panic, restarts, and
    -- users that create and delete objects and change in them anything else.
    pub interleaved_apps_never_leak : NoLeak view client util my_finalizer_name id_of key_of t.world
    interleaved_apps_never_leak =
        interleaved-NoLeak view client util my_finalizer_name id_of key_of (removal awi)
          (request_app_connection client util awi u cluster_name) store utils
          (app_connection-IsPartner view client util awi laws steady u cluster_name)
          (update_func client util awi u cluster_name) (delete_func client util awi u cluster_name)
          r idle safe

    -- Where the ID that AWI lists for an app connection stands for it at any time: from a start with no
    -- run under way, with every key in the queue, and in which every app connection of AWI has a
    -- stored object of its network domain connection and name that holds the finalizer, the
    -- interleaved runs of `Reconcile` lead to no state in which an app connection object under
    -- deletion that holds the finalizer is forgotten, though the filter drops most events. Its key
    -- waits in the queue, or a run is under way that will read it, search for or end its app
    -- connection or take the finalizer off, or that has failed and is going to be repeated.
    pub interleaved_app_deletions_complete :
        IsPrompt view client util my_finalizer_name
        → ((k : NamespacedName) → s.queue k ≡ true)
        → (k : NamespacedName) (x : InterNetworkDomainAppConnection) → stored t.world k ≡ some x
        → util.deletion_timestamp_is_zero x ≡ false
        → util.contains_finalizer x my_finalizer_name ≡ true
        → (t.queue k ≡ true) ⊎ Busy (t.worker k)
    interleaved_app_deletions_complete prompt queued =
        deletions_complete view client util my_finalizer_name id_of key_of (removal awi)
          (request_app_connection client util awi u cluster_name) store utils
          (app_connection-IsPartner view client util awi laws steady u cluster_name) prompt
          (update_func client util awi u cluster_name) (delete_func client util awi u cluster_name)
          update_func_passes r idle queued safe

    -- Where the ID that AWI lists for an app connection stands for it at any time: from a start with no
    -- run under way, with every key in the queue, and in which every app connection of AWI has a
    -- stored object of its network domain connection and name that holds the finalizer, the
    -- interleaved runs of `Reconcile` get to no state in which the deletion of an app connection
    -- object is stuck. Where the servers answer, further steps end in a state in which the object is
    -- gone or does not hold the finalizer.
    pub interleaved_app_deletions_unblocked :
        IsAnswering view client util my_finalizer_name id_of key_of
          (removal awi)
          (request_app_connection client util awi u cluster_name)
        → IsPrompt view client util my_finalizer_name
        → ((k : NamespacedName) → s.queue k ≡ true)
        → (k : NamespacedName) (x : InterNetworkDomainAppConnection) → stored t.world k ≡ some x
        → util.deletion_timestamp_is_zero x ≡ false
        → util.contains_finalizer x my_finalizer_name ≡ true
        → (v : System W InterNetworkDomainAppConnection) × Leads t v
          × IsFree util my_finalizer_name (stored v.world k)
    interleaved_app_deletions_unblocked answering prompt queued k x sx deleting held =
        deletions_unblocked view client util my_finalizer_name id_of key_of (removal awi)
          (request_app_connection client util awi u cluster_name) store utils
          (app_connection-IsPartner view client util awi laws steady u cluster_name) answering
          (update_func client util awi u cluster_name) (delete_func client util awi u cluster_name)
          k x deleting held prompt update_func_passes r idle queued safe sx
