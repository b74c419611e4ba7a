-- ===== src/Startup.antt =====
-- plugin/zonedns/setup.go: setup, warnIfDoT and dialSPIRE, with the gauges of
-- plugin/zonedns/metrics.go that they set. gRPC and the Workload API are interfaces.
pub mod Dialling
pub mod Accounts
pub mod Gauging
pub mod Courses
pub mod Installs
pub mod Overlaps
use zonedns.Prelude.{
  ℕ, ◌*◌, not, Option, none, some, List, [], ◌∷◌, ◌++◌, ◌==◌, if◌then◌else◌, true, Result, ok, err,
}
use zonedns.Text.{Str, str_eq, text, has_prefix}
use zonedns.Netip.{Addr}
use zonedns.Resources.{
  Action, opened, closed, dial_context, x509_source, connection, run_context, Spiffe, Mtls,
}
use zonedns.Identity.{new_config}
use zonedns.Registry.{Stats, new_store}
use zonedns.Registry.Poller.{Poller, new_poller, Call, on_snapshot, on_poll_errors, Lister, run}
use zonedns.Central.{ZoneDns}
use zonedns.Directives.{OrderError, check_central}
use zonedns.Caddy.{Dispenser, ℤ}
use zonedns.Setup
use zonedns.Setup.{Config, parse_config}

-- The transport credentials of a connection.
pub data Credentials (spiffe : Spiffe) : Type 0 where
  insecure : Credentials spiffe
  mtls : Mtls spiffe → Credentials spiffe

-- grpc.NewClient; none is an error.
pub record Grpc (spiffe : Spiffe) : Type 1 where
  pub Conn : Type 0
  pub new_client : Str → Credentials spiffe → Option Conn

abbrev pub workload_api_dial_timeout : ℕ
workload_api_dial_timeout = 10 * 1000000000

pub data DialError : Type 0 where
  dial_failed no_workload_api bad_server_id no_svid : DialError

-- The four gauges.
pub record Gauges : Type 0 where
  pub registry_names : ℕ
  pub registry_conflicts : ℕ
  pub registry_ready : ℕ
  pub registry_poll_errors : ℕ

-- The closures OnSnapshot and OnPollErrors of the poller.
unfoldable pub publish : Call → Gauges → Gauges
publish (on_snapshot s) g = record g {
  registry_names = s.names;
  registry_conflicts = s.conflicts;
  registry_ready = 1;
}
publish (on_poll_errors count) g = record g { registry_poll_errors = count }

unfoldable pub publish_all : List Call → Gauges → Gauges
unfolding publish
publish_all [] g = g
publish_all (c ∷ rest) g = publish_all rest (publish c g)

-- The text that is logged, empty for none.
abbrev pub warn_if_dot : Str → Str
warn_if_dot transport =
    if not (transport == text "tls")
    then []
    else text "zonedns is configured on a DNS-over-TLS (tls://) listener; zone-aware answers are "
      ++ text "unreliable there because CoreDNS plugins (e.g. metrics) can wrap the "
      ++ text "ResponseWriter and defeat the client certificate extraction zonedns relies on, "
      ++ text "silently disabling zone routing. Use a DNS-over-HTTPS (https://) listener instead."

pub data SetupError : Type 0 where
  order : OrderError → SetupError
  config : Setup.ConfigError → SetupError
  dial : DialError → SetupError

module _ (spiffe : Spiffe) (grpc : Grpc spiffe) where
  open grpc use {Conn, new_client}

  -- From the source on; the dial context is open.
  unfoldable pub dial_mutual :
      Config → spiffe.SpiffeId → List Action × Result DialError (Conn × List Action)
  dial_mutual cfg id = elim (spiffe.new_x509_source cfg.workload_api workload_api_dial_timeout) [
    | none ↦ (opened dial_context ∷ closed dial_context ∷ [], err no_svid)
    | some source ↦
        elim (new_client cfg.spire_server
          (mtls (record { certificates = source; authorized = id }))) [
            | none ↦ (
              opened dial_context
                  ∷ opened x509_source
                  ∷ closed x509_source
                  ∷ closed dial_context
                  ∷ [],
              err dial_failed,
            )
            | some conn ↦ (
              opened dial_context
                  ∷ opened x509_source
                  ∷ opened connection
                  ∷ closed dial_context
                  ∷ [],
              ok (conn, closed x509_source ∷ []),
            )
          ]
  ]

  -- What was done, and the connection with what its cleanup does.
  unfoldable pub dial_spire : Config → List Action × Result DialError (Conn × List Action)
  unfolding dial_mutual
  dial_spire cfg =
      if has_prefix cfg.spire_server (text "unix://")
      then elim (new_client cfg.spire_server insecure) [
        | none ↦ ([], err dial_failed)
        | some conn ↦ (opened connection ∷ [], ok (conn, []))
      ]
      else if cfg.workload_api == []
      then ([], err no_workload_api)
      else elim (spiffe.from_string cfg.spire_server_id) [
        | none ↦ ([], err bad_server_id)
        | some id ↦ dial_mutual cfg id
      ]

  -- What a successful setup leaves: the poller that OnStartup runs over the connection, the plugin
  -- as it is while the poller has not run, and what OnShutdown does.
  pub record Instance : Type 0 where
    pub conn : Conn
    pub poller : Poller
    pub handler : ZoneDns

  -- The warning, the gauges, what was done, and the result with what OnShutdown does.
  pub record Started : Type 0 where
    pub warning : Str
    pub gauges : Gauges
    pub outcome : List Action × Result SetupError (Instance × List Action)

  -- The instance over a connection.
  unfoldable pub instance_of : Config → Conn → Instance
  instance_of cfg conn = record {
    conn = conn;
    poller = record (new_poller new_store) { has_on_snapshot = true; has_on_poll_errors = true };
    handler = record {
      identity = new_config cfg.authorized_agents cfg.edns0_code;
      registry = new_store;
      zones = Setup.zones cfg;
      ttl = cfg.ttl;
    };
  }

  -- `setup` after the dial.
  unfoldable pub connected :
      Config
      → List Action × Result DialError (Conn × List Action)
      → List Action × Result SetupError (Instance × List Action)
  unfolding instance_of
  connected cfg (done, err e) = (done, err (dial e))
  connected cfg (done, ok (conn, cleanup)) = (
    done ++ opened run_context ∷ [],
    ok (instance_of cfg conn, closed run_context ∷ cleanup ++ closed connection ∷ []),
  )

  unfoldable pub connect : Config → List Action × Result SetupError (Instance × List Action)
  unfolding connected dial_spire
  connect cfg = connected cfg (dial_spire cfg)

  module _ (parse_duration : Str → Option ℤ) (parse_addr : Str → Option Addr) (d : Dispenser) where
    -- For the directives, the transport of the listener, the tokens, and the gauges before.
    unfoldable pub setup : List Str → Str → d.State → Gauges → Option Started
    unfolding connect
    setup directives transport s g = elim (check_central directives) [
      | some e ↦ some (record { warning = []; gauges = g; outcome = ([], err (order e)) })
      | none ↦ elim (parse_config parse_duration parse_addr d s) [
        | none ↦ none
        | some (err e) ↦
            some (record {
              warning = warn_if_dot transport;
              gauges = g;
              outcome = ([], err (config e));
            })
        | some (ok cfg) ↦ some (record {
          warning = warn_if_dot transport;
          gauges = record g { registry_ready = 0; registry_poll_errors = 0 };
          outcome = connect cfg;
        })
      ]
    ]

  -- The plugin while the poller runs: they share the store.
  abbrev pub handler_at : Instance → List Lister → ZoneDns
  handler_at i listers = record i.handler { registry = (run i.poller listers).0.store }
