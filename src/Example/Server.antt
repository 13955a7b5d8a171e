-- ===== src/Example/Server.antt =====
-- awi/example/server/server.go: the handlers. They use their requests in log lines only, so a handler
-- has none here; reflect and the constants of awi-grpc are parameters.
pub mod Serving
use awi_catalyst_sdwan_opera.Base.{ℕ, String, Option, none, some, List, []}
use awi_catalyst_sdwan_opera.Exec.{Exec, pure, ◌>>=◌, ◌>>◌}

-- `E` is the type of the package's error message.
pub record Constants (E : Type 0) : Type 0 where
  pub status_in_progress : ℕ
  pub state_up : ℕ
  pub state_down : ℕ
  pub no_error_fields : E

-- The fields that the server sets.
pub record VirtualConnectionResponse (E : Type 0) : Type 0 where
  pub status : ℕ
  pub connection_id : String
  pub connection_name : String
  pub error : Option E
  pub state : ℕ

pub record DisconnectResponse (E : Type 0) : Type 0 where
  pub connection_name : String
  pub error : Option E
  pub status : ℕ
  pub state : ℕ

-- The messages that the server returns with no field set.
pub data EmptyResponse : Type 0 where
  list_virtual_connections_response : EmptyResponse
  virtual_connection_status_response : EmptyResponse
  virtual_connection_statistics_response : EmptyResponse
  virtual_connection_events_response : EmptyResponse

-- `reflect.ValueOf(s).MethodByName(name).Call(args)`, with reflect's type of values.
pub record Reflect (W Value : Type 0) : Type 0 where
  pub call_method : String → List Value → Exec W (List Value)

module _ {W Value E : Type 0} (reflect : Reflect W Value) (constants : Constants E) where
  open reflect use {call_method}

  unfoldable pub connect : Exec W (VirtualConnectionResponse E)
  connect = pure (record {
    status = constants.status_in_progress;
    connection_id = "12345";
    connection_name = "test";
    error = none;
    state = constants.state_up;
  })

  unfoldable pub disconnect : Exec W (DisconnectResponse E)
  disconnect = pure (record {
    connection_name = "test";
    error = some constants.no_error_fields;
    status = 0;
    state = constants.state_down;
  })

  -- From here on, each method calls a method by its name for the log line.
  unfoldable pub get_connection : Exec W (VirtualConnectionResponse E)
  get_connection = do
    call_method "GetConnection" []
    pure (record { status = 0; connection_id = ""; connection_name = ""; error = none; state = 0 })

  unfoldable pub list_connections : Exec W EmptyResponse
  list_connections = do call_method "ListConnections" []; pure list_virtual_connections_response

  unfoldable pub get_connection_status : Exec W EmptyResponse
  get_connection_status = do
    call_method "GetConnectionStatus" []
    pure virtual_connection_status_response

  unfoldable pub get_connection_statistics : Exec W EmptyResponse
  get_connection_statistics = do
    call_method "GetConnectionStatistics" []
    pure virtual_connection_statistics_response

  unfoldable pub get_connection_events : Exec W EmptyResponse
  get_connection_events = do
    call_method "GetConnectionEvents" []
    pure virtual_connection_events_response
