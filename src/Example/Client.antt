-- ===== src/Example/Client.antt =====
-- awi/example/client/client_example.go. The deadline and the log lines are left out.
use awi_catalyst_sdwan_opera.Base.{ℕ, String, Option, some}
use awi_catalyst_sdwan_opera.Exec.{Exec}
use awi_catalyst_sdwan_opera.Exec.Process.{Process, or_exit, run, ◌>>=◌, ◌>>◌, return}

abbrev pub address : String
address = "localhost:50051"

pub record DestInfo : Type 0 where
  pub scope : ℕ
  pub name : String
  pub ip : String
  pub port : String
  pub protocol : String

-- `L` and `S` are the types of the messages that the client sends with no field set.
pub record ConnectServiceRequest (L S : Type 0) : Type 0 where
  pub dest_info : Option DestInfo
  pub local_workload : Option L
  pub sla_request : Option S

-- What `main` uses of awi-grpc and of grpc. `close` gives an error that `defer` drops.
pub record Service (W Conn Response L S : Type 0) : Type 0 where
  pub scope_private : ℕ
  pub no_workload_fields : L
  pub no_sla_fields : S
  pub dial : String → Exec W Conn
  pub connect : Conn → ConnectServiceRequest L S → Exec W Response
  pub close : Conn → W → W

module _ {W Conn Response L S : Type 0} (service : Service W Conn Response L S) where
  abbrev pub csr : ConnectServiceRequest L S
  csr = record {
    dest_info = some (record {
      scope = service.scope_private;
      name = "test.viptela.com";
      ip = "10.10.10.10";
      port = "8443";
      protocol = "tcp";
    });
    local_workload = some service.no_workload_fields;
    sla_request = some service.no_sla_fields;
  }

  -- `log.Fatalf` ends the process with code 1 and runs no deferred call.
  unfoldable pub main : {G : Type 0} → Process W G (Unit {0})
  main = do
    conn ← run (or_exit (service.dial address))
    run (or_exit (service.connect conn csr))
    λ (w, gs). return tt (service.close conn w, gs)
