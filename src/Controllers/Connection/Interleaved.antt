-- ===== src/Controllers/Connection/Interleaved.antt =====
-- The connection controller with its event filter, call by call beside the rest of the cluster.
use awi_catalyst_sdwan_opera.Base.{String, ◌≡◌, true, false, none, some, ◌⊎◌}
use awi_catalyst_sdwan_opera.Api.{InterNetworkDomainConnection}
use awi_catalyst_sdwan_opera.Kube.{NamespacedName, Client, Util}
use awi_catalyst_sdwan_opera.Awi.{AwiGrpcClient}
use awi_catalyst_sdwan_opera.Controllers.Protocol.{View, IsStore, IsUtil, NoLeak}
use awi_catalyst_sdwan_opera.Controllers.System.{System, Reach}
use awi_catalyst_sdwan_opera.Controllers.System.Safety.{interleaved-NoLeak}
use awi_catalyst_sdwan_opera.Controllers.System.Pending.{Busy, IsPrompt}
use awi_catalyst_sdwan_opera.Controllers.System.Completion.{deletions_complete}
use awi_catalyst_sdwan_opera.Controllers.System.Progress.{IsFree, IsAnswering}
use awi_catalyst_sdwan_opera.Controllers.System.Unblocked.{deletions_unblocked}
use awi_catalyst_sdwan_opera.Controllers.Connection.{my_finalizer_name, update_func, delete_func}
use awi_catalyst_sdwan_opera.Controllers.Connection.Calls.{removal, connection-IsPartner}
use awi_catalyst_sdwan_opera.Controllers.Connection.Safety.{
  id_of, key_of, IsAwi, request_connection,
}

module _ {W : Type 0} (view : View W InterNetworkDomainConnection String)
    (client : Client W InterNetworkDomainConnection) (util : Util InterNetworkDomainConnection)
    (awi : AwiGrpcClient W) where
  open view use {stored}

  abbrev pub Leads :
      System W InterNetworkDomainConnection → System W InterNetworkDomainConnection → Type 0
  Leads =
      Reach view client util my_finalizer_name id_of (removal awi) (request_connection awi)
        (update_func client util awi) (delete_func client util awi)

  -- The filter drops no update of an object under deletion.
  update_func_passes :
      (x : InterNetworkDomainConnection)
      → util.deletion_timestamp_is_zero x ≡ false
      → update_func client util awi x ≡ true
  unfolding update_func
  update_func_passes x deleting = rw deleting

  module _ (store : IsStore view client util my_finalizer_name id_of key_of)
      (utils : IsUtil view client util my_finalizer_name id_of key_of) (laws : IsAwi view awi)
      {s t : System W InterNetworkDomainConnection} (r : Leads s t)
      (idle : (k : NamespacedName) → s.worker k ≡ none)
      (safe : NoLeak view client util my_finalizer_name id_of key_of s.world) where
    -- From a start with no run under way, in which every connection of AWI has a stored object of its
    -- ID that holds the finalizer, this is so in any state that the runs of `Reconcile`, interleaved
    -- call by call, lead to: with calls that fail, restarts, and users that create and delete objects
    -- and change anything in them but the ends and the finalizer.
    pub interleaved_never_leak : NoLeak view client util my_finalizer_name id_of key_of t.world
    interleaved_never_leak =
        interleaved-NoLeak view client util my_finalizer_name id_of key_of (removal awi)
          (request_connection awi) store utils
          (connection-IsPartner view client util awi store utils laws) (update_func client util awi)
          (delete_func client util awi) r idle safe

    -- From a start with no run under way, with every key in the queue, and in which every
    -- connection of AWI has a stored object of its ID that holds the finalizer: in any state that
    -- the interleaved runs of `Reconcile` lead to, a connection object under deletion that holds
    -- the finalizer is not forgotten, though the filter drops most events. Its key waits in the
    -- queue, or a run is under way that will read it, end its connection or take the finalizer
    -- off, or that has failed and is going to be repeated.
    pub interleaved_deletions_complete :
        IsPrompt view client util my_finalizer_name
        → ((k : NamespacedName) → s.queue k ≡ true)
        → (k : NamespacedName) (x : InterNetworkDomainConnection) → stored t.world k ≡ some x
        → util.deletion_timestamp_is_zero x ≡ false
        → util.contains_finalizer x my_finalizer_name ≡ true
        → (t.queue k ≡ true) ⊎ Busy (t.worker k)
    interleaved_deletions_complete prompt queued =
        deletions_complete view client util my_finalizer_name id_of key_of (removal awi)
          (request_connection awi) store utils
          (connection-IsPartner view client util awi store utils laws) prompt
          (update_func client util awi) (delete_func client util awi) update_func_passes r idle
          queued safe

    -- From a start with no run under way, with every key in the queue, and in which every connection of
    -- AWI has a stored object of its ID that holds the finalizer: the interleaved runs of `Reconcile`
    -- get to no state in which the deletion of a connection object is stuck.
    -- Where the servers answer, further steps end in a state in which the object is gone or does not
    -- hold the finalizer.
    pub interleaved_deletions_unblocked :
        IsAnswering view client util my_finalizer_name id_of key_of
          (removal awi)
          (request_connection awi)
        → IsPrompt view client util my_finalizer_name
        → ((k : NamespacedName) → s.queue k ≡ true)
        → (k : NamespacedName) (x : InterNetworkDomainConnection) → stored t.world k ≡ some x
        → util.deletion_timestamp_is_zero x ≡ false
        → util.contains_finalizer x my_finalizer_name ≡ true
        → (v : System W InterNetworkDomainConnection) × Leads t v
          × IsFree util my_finalizer_name (stored v.world k)
    interleaved_deletions_unblocked answering prompt queued k x sx deleting held =
        deletions_unblocked view client util my_finalizer_name id_of key_of (removal awi)
          (request_connection awi) store utils
          (connection-IsPartner view client util awi store utils laws) answering
          (update_func client util awi) (delete_func client util awi) k x deleting held prompt
          update_func_passes r idle queued safe sx
