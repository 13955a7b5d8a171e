-- ===== src/Tests/MemoryApps.antt =====
-- An AWI server for app connections, as the list of them, beside an API server for their objects.
-- It numbers an app connection by its network domain connection and its name.
use awi_catalyst_sdwan_opera.Base.{
  String, ◌<>◌, ◌≡◌, ◌≢◌, refl, sym, ap, Bool-cases, Bool, true, false, ◌&&◌, ◌||◌, some, List, [],
  ◌∷◌, map, arith, ◌==◌, eq_iff, eq_refl, inl, inr, if◌then◌else◌,
}
use awi_catalyst_sdwan_opera.Exec.{Exec, ok}
use awi_catalyst_sdwan_opera.Pb
use awi_catalyst_sdwan_opera.Api.{InterNetworkDomainAppConnection, AppConnectionSpec}
use awi_catalyst_sdwan_opera.Kube.{Client, Util}
use awi_catalyst_sdwan_opera.Kube.Laws.{any}
use awi_catalyst_sdwan_opera.Awi.{AwiGrpcClient, find_id}
use awi_catalyst_sdwan_opera.Controllers.Protocol.{View, IsStore, IsUtil}
use awi_catalyst_sdwan_opera.Controllers.AppConnection.{my_finalizer_name, request_app_connection}
use awi_catalyst_sdwan_opera.Controllers.AppConnection.Calls.{look_up, removal, IsSteady}
use awi_catalyst_sdwan_opera.Controllers.Removal.{search}
use awi_catalyst_sdwan_opera.Controllers.AppConnection.Identity.{
  AppId, app_id, id_of, key_of, is_for, is_unnamed, is_numbered, IsAwi,
}
use awi_catalyst_sdwan_opera.Controllers.System.Pending.{IsPrompt}
use awi_catalyst_sdwan_opera.Controllers.System.Progress.{IsAnswering}
use awi_catalyst_sdwan_opera.Tests.MemoryObjects
use awi_catalyst_sdwan_opera.Tests.Fixtures

abbrev same_id : AppId → AppId → Bool
same_id i j = (i.connection == j.connection) && (i.name == j.name)

abbrev runs : List Pb.AppConnection → AppId → Bool
runs [] id = false
runs (conn ∷ conns) id = same_id (app_id (some conn)) id || runs conns id

abbrev pub World : Type 0
World = MemoryObjects.World InterNetworkDomainAppConnection (List Pb.AppConnection)

abbrev pub util : Util InterNetworkDomainAppConnection
util = MemoryObjects.util

abbrev pub view : View World InterNetworkDomainAppConnection AppId
view = MemoryObjects.view runs

abbrev pub client : Client World InterNetworkDomainAppConnection
client = MemoryObjects.client my_finalizer_name

abbrev ident : AppConnectionSpec → AppId
ident spec = app_id (some spec.app_connection)

pub utils : IsUtil view client util my_finalizer_name id_of key_of
utils = MemoryObjects.utils my_finalizer_name ident runs

pub prompt : IsPrompt view client util my_finalizer_name
prompt = MemoryObjects.prompt my_finalizer_name runs

pub store : IsStore view client util my_finalizer_name id_of key_of
store = MemoryObjects.store my_finalizer_name ident runs

abbrev number : AppId → String
number id = String.◌∷◌ "#" (id.connection <> id.name)

abbrev info : Pb.AppConnection → Pb.AppConnectionInformation
info conn = record {
  id = number (app_id (some conn));
  app_connection_config = some conn;
  network_domain_connection_name = "";
  status = 1;
}

abbrev ended : String → List Pb.AppConnection → List Pb.AppConnection
ended n [] = []
ended n (conn ∷ conns) =
    let rest = ended n conns in if number (app_id (some conn)) == n then rest else conn ∷ rest

abbrev pub awi : AwiGrpcClient World
awi = record Fixtures.awi {
  app_connection_controller_client = record {
    connect_apps = λ conn w. (ok tt, record w { conns = conn ∷ w.conns });
    disconnect_apps = λ n w. (ok tt, record w { conns = ended n w.conns });
    list_connected_apps = λ w. (ok (map info w.conns), w);
  };
}

same_id_iff : (i j : AppId) → same_id i j ≡ true → i ≡ j
same_id_iff i j h = ground (arith, eq_iff i.connection j.connection, eq_iff i.name j.name)

same_id_refl : (i : AppId) → same_id i i ≡ true
same_id_refl i = rw (eq_refl i.connection, eq_refl i.name)

true_not_false : true ≢ false
true_not_false h = ground (arith, h)

runs-info :
    (conns : List Pb.AppConnection) (id : AppId) → any (is_for id) (map info conns) ≡ runs conns id
unfolding any
runs-info [] id = refl
runs-info (conn ∷ conns) id = ground (arith, runs-info conns id)

abbrev is_nil : String → Bool
is_nil String.[] = true
is_nil (String.◌∷◌ c s) = false

number_given : (id : AppId) → (number id == "") ≡ false
number_given id = elim (Bool-cases (number id == "")) [
  | inl empty ↦ absurd (true_not_false (sym (ap is_nil ((eq_iff (number id) "").0 empty))))
  | inr given ↦ given
]

named-info : (conns : List Pb.AppConnection) → any is_unnamed (map info conns) ≡ false
unfolding any
named-info [] = refl
named-info (conn ∷ conns) = cc (number_given (app_id (some conn)), named-info conns)

runs-ended :
    (n : String) (conns : List Pb.AppConnection) (id : AppId)
    → runs (ended n conns) id ≡ true
    → runs conns id ≡ true
runs-ended n [] id c = c
runs-ended n (conn ∷ conns) id c = ground (arith, c, runs-ended n conns id)

is_numbered-number :
    (id : AppId) (n : String) (conns : List Pb.AppConnection)
    → any (is_numbered id n) (map info conns) ≡ true
    → number id ≡ n
unfolding any
is_numbered-number id n [] h = ground (arith, h)
is_numbered-number id n (conn ∷ conns) h = ground (
  arith,
  h,
  is_numbered-number id n conns,
  same_id_iff (app_id (some conn)) id,
  eq_iff (number (app_id (some conn))) n,
)

ended-gone :
    (id : AppId) (conns : List Pb.AppConnection) → runs (ended (number id) conns) id ≡ false
ended-gone id [] = refl
ended-gone id (conn ∷ conns) = ground (
  arith,
  ended-gone id conns,
  same_id_iff (app_id (some conn)) id,
  eq_iff (number (app_id (some conn))) (number id),
)

pub awi-IsAwi : IsAwi view awi
awi-IsAwi = record {
  connect_stored = λ w conn k. refl;
  connect_connected = λ w conn id c. ground (arith, c, same_id_iff (app_id (some conn)) id);
  connect_ok = λ w v conn h. ground (arith, h, same_id_refl (app_id (some conn)));
  list_stored = λ w k. refl;
  list_connected = λ w id. refl;
  listed = λ w v l id h. cc (h, runs-info w.conns id);
  listed_named = λ w v l h. cc (h, named-info w.conns);
  disconnect_stored = λ w n k. refl;
  disconnect_connected = λ w n id c. runs-ended n w.conns id c;
  disconnect_ok = λ w v u l n id h m d.
      ground (arith, h, d, is_numbered-number id n w.conns, m, ended-gone id w.conns);
}

pub awi-IsSteady : IsSteady view awi
awi-IsSteady = record {
  disconnect_later = λ w v w' v' l n id h m d.
      ground (arith, h, d, is_numbered-number id n w.conns, m, ended-gone id w'.conns);
}

searched :
    (w : World) (x : InterNetworkDomainAppConnection) (m : Exec World String)
    → (removal awi).plan x ≡ search m
    → (number : String) × (v : World) × (m w ≡ (ok number, v))
searched w x m planned =
    let same : look_up awi x ≡ m = cc planned in
    (
      find_id x.spec.app_connection (map info w.conns),
      w,
      ap (λ (f : Exec World String). f w) (sym same),
    )

pub answering :
    IsAnswering view client util my_finalizer_name id_of key_of
      (removal awi)
      (request_app_connection client util awi Fixtures.u "east")
answering =
    MemoryObjects.answering my_finalizer_name runs id_of (removal awi)
      (request_app_connection client util awi Fixtures.u "east") searched
      (λ w number. (record w { conns = ended number w.conns }, refl))
