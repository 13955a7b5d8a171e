-- ===== src/Example/Server/Serving.antt =====
-- awi/example/server/server.go: how the server starts. net and grpc are parameters.
use awi_catalyst_sdwan_opera.Base.{String}
use awi_catalyst_sdwan_opera.Exec.{Exec}
use awi_catalyst_sdwan_opera.Exec.Process.{Process, or_exit, run, ◌>>=◌}

abbrev pub port : String
port = ":50051"

-- What `main` calls: `net.Listen`, and `Serve` of the grpc server that `server` is registered with.
pub record Network (W Listener : Type 0) : Type 0 where
  pub listen : String → String → Exec W Listener
  pub serve : Listener → Exec W (Unit {0})

module _ {W Listener G : Type 0} (network : Network W Listener) where
  -- `log.Fatalf` ends the process with code 1.
  unfoldable pub main : Process W G (Unit {0})
  main = do lis ← run (or_exit (network.listen "tcp" port)); run (or_exit (network.serve lis))
