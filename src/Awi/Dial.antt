-- ===== src/Awi/Dial.antt =====
-- client/awi_client.go: how the client of the AWI server is made. The logger is left out.
use awi_catalyst_sdwan_opera.Base.{String}
use awi_catalyst_sdwan_opera.Exec.{Exec}
use awi_catalyst_sdwan_opera.Exec.Process.{Command, Process, or_exit, run, return, ◌>>=◌}
use awi_catalyst_sdwan_opera.Awi.{
  ConnectionControllerClient, AppConnectionControllerClient, CloudClient, AwiGrpcClient,
}

-- What grpc and the generated stubs offer, over connections of a type `Conn`.
pub record Grpc (W Conn : Type 0) : Type 0 where
  pub dial : String → Exec W Conn
  pub new_connection_controller_client : Conn → ConnectionControllerClient W
  pub new_app_connection_controller_client : Conn → AppConnectionControllerClient W
  pub new_cloud_client : Conn → CloudClient W

module _ {W Conn : Type 0} (grpc : Grpc W Conn) where
  -- `log.Fatalf` ends the process like `os.Exit(1)`.
  abbrev pub with_connection : String → Command W Conn
  with_connection address = or_exit (grpc.dial address)

  abbrev pub with_grpc_clients : Conn → AwiGrpcClient W
  with_grpc_clients grpc_conn = record {
    connection_controller_client = grpc.new_connection_controller_client grpc_conn;
    app_connection_controller_client = grpc.new_app_connection_controller_client grpc_conn;
    cloud_client = grpc.new_cloud_client grpc_conn;
  }

  unfoldable pub new_client : {G : Type 0} → String → Process W G (AwiGrpcClient W)
  new_client awi_catalyst_address = do
    grpc_conn ← run (with_connection awi_catalyst_address)
    return (with_grpc_clients grpc_conn)
