-- ===== src/Main/Runs.antt =====
-- What a run of main.go does.
use awi_catalyst_sdwan_opera.Base.{◌≡◌, refl, sym, subst, arith, ◌⊎◌, inl, inr, List, [], ◌∷◌}
use awi_catalyst_sdwan_opera.Base.Text.{Unicode}
use awi_catalyst_sdwan_opera.Exec.{Exec, ok}
use awi_catalyst_sdwan_opera.Exec.Process.{
  Ended, returned, IsFailure, ended, or_exit, run-ind, run, must, >>=_assoc, must-eq-returned,
  or_exit-eq-returned,
}
use awi_catalyst_sdwan_opera.Api.{InterNetworkDomainConnection, InterNetworkDomainAppConnection}
use awi_catalyst_sdwan_opera.Kube.{Util}
use awi_catalyst_sdwan_opera.Awi.{AwiGrpcClient}
use awi_catalyst_sdwan_opera.Awi.Dial.{Grpc, with_connection, with_grpc_clients, new_client}
use awi_catalyst_sdwan_opera.Sync.Kinds.{Orders}
use awi_catalyst_sdwan_opera.Sync.Syncers.{new_syncers}
use awi_catalyst_sdwan_opera.Main.{
  Flags, default_flags, manager_options, status_watch_interval, Runtime, Goroutine, periodic_sync,
  status_updates, setup_connections, setup_app_connections, init, serve, main, program,
}

module _ {W Manager Context Config Conn : Type 0} (ctrl : Runtime W Manager Context Config)
    (grpc : Grpc W Conn) (connection_util : Util InterNetworkDomainConnection)
    (app_connection_util : Util InterNetworkDomainAppConnection) (u : Unicode)
    (orders : Orders) where
  abbrev connections_ready : Manager → AwiGrpcClient W → Exec W (Unit {0})
  connections_ready = setup_connections ctrl grpc connection_util app_connection_util u orders

  abbrev app_connections_ready : Manager → AwiGrpcClient W → Exec W (Unit {0})
  app_connections_ready =
      setup_app_connections ctrl grpc connection_util app_connection_util u orders

  -- From the world `w`, each call that registers something with the manager succeeds in the world
  -- that the one before it left.
  pub record Registered (mgr : Manager) (awi_client : AwiGrpcClient W) (w : W) : Type 0 where
    pub signal_handler : Context
    pub w₅ : W
    pub w₆ : W
    pub w₇ : W
    pub w₈ : W
    pub w₉ : W
    pub connections_set_up : connections_ready mgr awi_client w ≡ (ok tt, w₅)
    pub app_connections_set_up : app_connections_ready mgr awi_client w₅ ≡ (ok tt, w₆)
    pub healthz_checked : ctrl.add_healthz_check mgr "healthz" w₆ ≡ (ok tt, w₇)
    pub readyz_checked : ctrl.add_readyz_check mgr "readyz" w₇ ≡ (ok tt, w₈)
    pub signalled : ctrl.setup_signal_handler w₈ ≡ (returned signal_handler, w₉)

  -- The same for all calls of the set-up, from the first one on.
  pub record SetUp (w : W) : Type 0 where
    pub flags : Flags
    pub config : Config
    pub mgr : Manager
    pub grpc_conn : Conn
    pub w₀ : W
    pub w₁ : W
    pub w₂ : W
    pub w₃ : W
    pub w₄ : W
    pub w_scheme : W
    pub client_go_added : ctrl.add_client_go_to_scheme w ≡ (ok tt, w_scheme)
    pub awi_added : ctrl.add_awi_to_scheme w_scheme ≡ (ok tt, w₀)
    pub parsed : ctrl.parse_flags default_flags w₀ ≡ (returned flags, w₁)
    pub configured : ctrl.get_config_or_die w₁ ≡ (returned config, w₂)
    pub managed : ctrl.new_manager config (manager_options flags) w₂ ≡ (ok mgr, w₃)
    pub dialled : grpc.dial flags.awi_catalyst_address w₃ ≡ (ok grpc_conn, w₄)
    pub registered : Registered mgr (with_grpc_clients grpc grpc_conn) w₄

  -- How a run ends, and the goroutines that it has started.
  abbrev pub Run : Type 0
  Run = Ended (Unit {0}) × (W × List (Goroutine W Context))

  -- The two loops, with the manager's client, the AWI client and the context of the signals.
  abbrev pub loops :
      {w : W}
      → (mgr : Manager) (awi_client : AwiGrpcClient W) → Registered mgr awi_client w
      → List (Goroutine W Context)
  loops mgr awi_client s =
      let k8s = ctrl.get_client mgr in
      periodic_sync (new_syncers k8s awi_client u orders) s.signal_handler
      ∷ status_updates s.signal_handler awi_client k8s status_watch_interval
      ∷ []

  -- The manager runs until it stops, beside the loops.
  abbrev pub served :
      {w : W} → (mgr : Manager) (awi_client : AwiGrpcClient W) → Registered mgr awi_client w → Run
  served mgr awi_client s =
      let (res, v) = ctrl.start mgr s.signal_handler s.w₉ in
      (ended res, (v, loops mgr awi_client s))

  abbrev pub Fails : Run → Type 0
  Fails (e, (v, started)) = IsFailure e × (started ≡ [])

  abbrev pub ending : {w : W} → SetUp w → Run
  ending s = served s.mgr (with_grpc_clients grpc s.grpc_conn) s.registered

  abbrev Possible : W → Run → Type 0
  Possible w r = Fails r ⊎ ((s : SetUp w) × (r ≡ ending s))

  abbrev pub Outcome : W → Run → Type 0
  Outcome w r = (Fails r × ¬ SetUp w) ⊎ ((s : SetUp w) × (r ≡ ending s))

  module _ (P : Run → Type 0)
      (failed : (e : Ended (Unit {0})) (v : W) → IsFailure e → P (e, (v, []))) where
    serve-ind :
        (mgr : Manager) (awi_client : AwiGrpcClient W) (w : W)
        → ((s : Registered mgr awi_client w) → P (served mgr awi_client s))
        → P (serve ctrl grpc connection_util app_connection_util u orders mgr awi_client (w, []))
    unfolding serve
    serve-ind mgr awi_client w k =
        run-ind P [] failed (or_exit (connections_ready mgr awi_client)) _ w λ _ w₅ e₅.
          run-ind P [] failed (or_exit (app_connections_ready mgr awi_client)) _ w₅ λ _ w₆ e₆.
            run-ind P [] failed (or_exit (ctrl.add_healthz_check mgr "healthz")) _ w₆ λ _ w₇ e₇.
              run-ind P [] failed (or_exit (ctrl.add_readyz_check mgr "readyz")) _ w₇ λ _ w₈ e₈.
                run-ind P [] failed ctrl.setup_signal_handler _ w₈ λ signal_handler w₉ e₉.
                  k (record {
                    signal_handler = signal_handler;
                    w₅ = w₅;
                    w₆ = w₆;
                    w₇ = w₇;
                    w₈ = w₈;
                    w₉ = w₉;
                    connections_set_up =
                        or_exit-eq-returned (connections_ready mgr awi_client) w e₅;
                    app_connections_set_up =
                        or_exit-eq-returned (app_connections_ready mgr awi_client) w₅ e₆;
                    healthz_checked =
                        or_exit-eq-returned (ctrl.add_healthz_check mgr "healthz") w₆ e₇;
                    readyz_checked = or_exit-eq-returned (ctrl.add_readyz_check mgr "readyz") w₇ e₈;
                    signalled = e₉;
                  })

    main-ind :
        (w₀ : W)
        → ((flags : Flags) (config : Config) (mgr : Manager) (grpc_conn : Conn) (w₁ w₂ w₃ w₄ : W)
            → ctrl.parse_flags default_flags w₀ ≡ (returned flags, w₁)
            → ctrl.get_config_or_die w₁ ≡ (returned config, w₂)
            → ctrl.new_manager config (manager_options flags) w₂ ≡ (ok mgr, w₃)
            → grpc.dial flags.awi_catalyst_address w₃ ≡ (ok grpc_conn, w₄)
            → P (
                serve ctrl grpc connection_util app_connection_util u orders mgr
                  (with_grpc_clients grpc grpc_conn)
                  (w₄, [])))
        → P (main ctrl grpc connection_util app_connection_util u orders (w₀, []))
    unfolding main new_client
    main-ind w₀ k = run-ind P [] failed (ctrl.parse_flags default_flags) _ w₀ λ flags w₁ e₁.
        run-ind P [] failed ctrl.get_config_or_die _ w₁ λ config w₂ e₂.
          run-ind P [] failed (or_exit (ctrl.new_manager config (manager_options flags))) _ w₂
            λ mgr w₃ e₃.
              subst P
                (sym
                  (>>=_assoc (run (with_connection grpc flags.awi_catalyst_address)) _ _ (w₃, [])))
                (run-ind P [] failed (with_connection grpc flags.awi_catalyst_address) _ w₃
                  λ grpc_conn w₄ e₄.
                    k flags config mgr grpc_conn w₁ w₂ w₃ w₄ e₁ e₂
                      (or_exit-eq-returned (ctrl.new_manager config (manager_options flags)) w₂ e₃)
                      (or_exit-eq-returned (grpc.dial flags.awi_catalyst_address) w₃ e₄))

  failed : (w : W) (e : Ended (Unit {0})) (v : W) → IsFailure e → Possible w (e, (v, []))
  failed w e v bad = inl (bad, refl)

  program-Possible :
      (w : W) → Possible w (program ctrl grpc connection_util app_connection_util u orders (w, []))
  unfolding program init
  program-Possible w =
      let P = Possible w in
      subst P (sym (>>=_assoc (run (must ctrl.add_client_go_to_scheme)) _ _ (w, []))) (
        run-ind P [] (failed w) (must ctrl.add_client_go_to_scheme) _ w λ _ w_scheme e.
          run-ind P [] (failed w) (must ctrl.add_awi_to_scheme) _ w_scheme λ _ w₀ e₀.
            main-ind P (failed w) w₀ λ flags config mgr grpc_conn w₁ w₂ w₃ w₄ e₁ e₂ e₃ e₄.
              serve-ind P (failed w) mgr (with_grpc_clients grpc grpc_conn) w₄ λ registered. inr (
                record {
                  flags = flags;
                  config = config;
                  mgr = mgr;
                  grpc_conn = grpc_conn;
                  w₀ = w₀;
                  w₁ = w₁;
                  w₂ = w₂;
                  w₃ = w₃;
                  w₄ = w₄;
                  w_scheme = w_scheme;
                  client_go_added = must-eq-returned ctrl.add_client_go_to_scheme w e;
                  awi_added = must-eq-returned ctrl.add_awi_to_scheme w_scheme e₀;
                  parsed = e₁;
                  configured = e₂;
                  managed = e₃;
                  dialled = e₄;
                  registered = registered;
                },
                refl,
              ))

  -- Where every call of the set-up succeeds, the program starts the two loops and ends as the manager
  -- does.
  program-SetUp :
      (w : W) (s : SetUp w)
      → program ctrl grpc connection_util app_connection_util u orders (w, []) ≡ ending s
  unfolding program init main new_client serve
  program-SetUp w s =
      let r = s.registered in
      rw (
        s.client_go_added, s.awi_added, s.parsed, s.configured, s.managed, s.dialled,
        r.connections_set_up, r.app_connections_set_up, r.healthz_checked, r.readyz_checked,
        r.signalled,
      )

  exclude : (w : W) (r : Run) → ((s : SetUp w) → r ≡ ending s) → Possible w r → Outcome w r
  exclude w r h (inl fails) = inl (fails, λ s. ground (arith, h s, fails.1))
  exclude w r h (inr set_up) = inr set_up

  -- A run of the program either fails with no loop started, and some call of its set-up does not
  -- succeed; or every call of the set-up succeeds, in order: then it starts the two loops over the
  -- clients that it made, and ends as the manager does, with code 0 where `Start` returns no error and
  -- 1 where it returns one.
  pub program-runs :
      (w : W) → Outcome w (program ctrl grpc connection_util app_connection_util u orders (w, []))
  program-runs w =
      exclude w (program ctrl grpc connection_util app_connection_util u orders (w, []))
        (program-SetUp w) (program-Possible w)
