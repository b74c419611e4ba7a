-- ===== src/Startup/Installs.antt =====
-- `setup`: the instance that it installs, from its start to the first poll.
use zonedns.Prelude.{
  ℕ, ◌≡◌, ◌↔◌, ◌∙◌, ap, true, [], Memᴰ, refl, ◌⊎◌, inl, inr, Option, none, some, List, arith,
  length, Option-cases, Result-cases, ok, All,
}
use zonedns.Text.{Str, str_eq}
use zonedns.Dns.{Msg, MsgLib, RequestLib}
use zonedns.Netip.{Addr}
use zonedns.Resources.{Action, Spiffe}
use zonedns.Caddy.{Dispenser, ℤ}
use zonedns.Directives.{check_central}
use zonedns.GoMap
use zonedns.Identity.{Transport, new_config}
use zonedns.Identity.Laws.{authorized-new_config_iff}
use zonedns.Zonetable
use zonedns.Zonetable.Laws.{gateway-new}
use zonedns.Setup
use zonedns.Registry.{new_store, lookup}
use zonedns.Central.Routes.{serve_dns-next_iff}
use zonedns.Registry.Poller.{Lister, run}
use zonedns.Registry.Poller.Rounds.{Fails, run_outage}
use zonedns.Central.{ZoneDns, next_plugin, serve_dns}
use zonedns.Setup.{Config, parse_config}
use zonedns.Setup.Checks.{IsAccepted, parse_config-IsAccepted}
use zonedns.Startup.{
  Grpc, dial_spire, connect, connected, Gauges, publish_all, Started, Instance, instance_of, setup,
  handler_at,
}
use zonedns.Startup.Dialling.{IsLocal, IsPinned, dial_spire_iff}
use zonedns.Startup.Courses.{IsTold, nothing_yet, run-IsTold}
use zonedns.Startup.Gauging.{IsShown, Shows, unpolled, run-IsShown}

serve_dns-empty :
    (lib : MsgLib) (req : RequestLib) (z : ZoneDns) (t : Transport) (r : Msg)
    → z.registry ≡ new_store
    → (serve_dns lib req z t r).outcome ≡ next_plugin
unfolding lookup
serve_dns-empty lib req z t r e =
    (serve_dns-next_iff lib req z t r).1 (λ source dest k. ground (arith, k.known, e))

Shows-empty : {g : Gauges} → Shows g new_store → g.registry_ready ≡ 0
Shows-empty (unpolled h) = h

new_config-code : (agents : List Str) (code : ℕ) → (new_config agents code).code ≡ code
unfolding new_config
new_config-code agents code = refl

module _ (spiffe : Spiffe) (grpc : Grpc spiffe) where
  open grpc use {Conn}

  -- A connection of the configuration, and the instance over it.
  pub record IsConnected (cfg : Config) (i : Instance spiffe grpc) : Type 0 where
    pub cleanup : List Action
    pub dialled : IsLocal spiffe grpc cfg i.conn cleanup ⊎ IsPinned spiffe grpc cfg i.conn cleanup
    pub made : i ≡ instance_of spiffe grpc cfg i.conn

  connect-IsConnected :
      (cfg : Config) (i : Instance spiffe grpc) (down : List Action)
      → (connect spiffe grpc cfg).1 ≡ ok (i, down)
      → IsConnected cfg i
  unfolding connect connected instance_of
  connect-IsConnected cfg i down h = elim (Result-cases (dial_spire spiffe grpc cfg).1) [
    | inl (e, q) ↦ ground (arith, q)
    | inr ((conn, cleanup), q) ↦
        let made : i ≡ instance_of spiffe grpc cfg conn = ground (arith, q) in
        rw made record {
          cleanup = cleanup;
          dialled = (dial_spire_iff spiffe grpc cfg conn cleanup).0 q;
          made = refl;
        }
  ]

  -- The instance does what the configuration says, and knows nothing yet: the agents that are
  -- believed, the option code, the gateway of every zone, the TTL; the poller reports to both gauges
  -- and fills the store that the plugin reads.
  pub record IsConfigured (cfg : Config) (i : Instance spiffe grpc) : Type 0 where
    pub agents :
        (id : Str)
        → (GoMap.has id i.handler.identity.authorized ≡ true) ↔ Memᴰ id cfg.authorized_agents
    pub code : i.handler.identity.code ≡ cfg.edns0_code
    pub gateways :
        (zone : Str) → Zonetable.gateway i.handler.zones zone ≡ GoMap.lookup zone cfg.gateways
    pub ttl : i.handler.ttl ≡ cfg.ttl
    pub empty : i.handler.registry ≡ new_store
    pub shared : i.poller.store ≡ i.handler.registry
    pub uncounted : i.poller.poll_errors ≡ 0
    pub hooks : (i.poller.has_on_snapshot ≡ true) × (i.poller.has_on_poll_errors ≡ true)

  instance_of-IsConfigured :
      (cfg : Config) (conn : Conn)
      → IsAccepted cfg
      → IsConfigured cfg (instance_of spiffe grpc cfg conn)
  unfolding instance_of Setup.zones
  instance_of-IsConfigured cfg conn accepted = record {
    agents = authorized-new_config_iff cfg.authorized_agents cfg.edns0_code;
    code = new_config-code cfg.authorized_agents cfg.edns0_code;
    gateways = λ zone. gateway-new cfg.gateways zone accepted.sane.zones_once;
    ttl = refl;
    empty = refl;
    shared = refl;
    uncounted = refl;
    hooks = (refl, refl);
  }

  module _ (parse_duration : Str → Option ℤ) (parse_addr : Str → Option Addr) (d : Dispenser)
      (directives : List Str) (transport : Str) (s : d.State) (g : Gauges) where
    pub record IsInstalled (out : Started spiffe grpc) (i : Instance spiffe grpc) : Type 0 where
      pub ordered : check_central directives ≡ none
      pub cfg : Config
      pub parsed : parse_config parse_duration parse_addr d s ≡ some (ok cfg)
      pub accepted : IsAccepted cfg
      pub connected : IsConnected cfg i
      pub configured : IsConfigured cfg i
      pub reset : out.gauges ≡ record g { registry_ready = 0; registry_poll_errors = 0 }

    -- If setup succeeds, then the directives are in order, the configuration is accepted, and the
    -- connection is to the local socket or to the pinned server that it names. The plugin believes
    -- exactly the agents of the configuration, reads its option code, has its gateway for every zone
    -- and answers with its TTL. Its store is empty and is the one that the poller fills, no failure
    -- is counted, and the gauges of readiness and of errors are zero.
    pub setup_installs :
        (out : Started spiffe grpc) (i : Instance spiffe grpc) (down : List Action)
        → setup spiffe grpc parse_duration parse_addr d directives transport s g ≡ some out
        → out.outcome.1 ≡ ok (i, down)
        → IsInstalled out i
    unfolding setup
    setup_installs out i down h k = elim (Option-cases (check_central directives)) [
      | inr (e, o) ↦ ground (arith, o)
      | inl o ↦ elim (Option-cases (parse_config parse_duration parse_addr d s)) [
        | inl n ↦ ground (arith, o, n)
        | inr (r, n) ↦ elim (Result-cases r) [
          | inl (e, f) ↦ ground (arith, o, n, f)
          | inr (cfg, f) ↦
              let p : parse_config parse_duration parse_addr d s ≡ some (ok cfg) = rw (n, f) refl in
              let accepted = (parse_config-IsAccepted parse_duration parse_addr d s).1 cfg p in
              let connected = connect-IsConnected cfg i down (ground (arith, o, n, f)) in
              record {
                ordered = o;
                cfg = cfg;
                parsed = p;
                accepted = accepted;
                connected = connected;
                configured = rw connected.made (instance_of-IsConfigured cfg i.conn accepted);
                reset = ground (arith, o, n, f);
              }
        ]
      ]
    ]

    installed-IsShown :
        (out : Started spiffe grpc) (i : Instance spiffe grpc)
        → IsInstalled out i
        → IsShown out.gauges i.poller
    unfolding instance_of
    installed-IsShown out i n =
        rw (n.reset, n.connected.made)
          record { hooks = (refl, refl); errors = refl; registry = unpolled refl }

    installed-IsTold :
        (out : Started spiffe grpc) (i : Instance spiffe grpc)
        → IsInstalled out i
        → IsTold [] i.poller out.gauges
    installed-IsTold out i n = record {
      last = none;
      failures = 0;
      course = nothing_yet;
      hooks = n.configured.hooks;
      counter = n.configured.uncounted;
      errors = ap (λ (h : Gauges). h.registry_poll_errors) n.reset;
      registry =
          (ap (λ (h : Gauges). h.registry_ready) n.reset, n.configured.shared ∙ n.configured.empty);
    }

    Fails-store :
        (out : Started spiffe grpc) (i : Instance spiffe grpc)
        → IsInstalled out i
        → (listers : List Lister) → All Fails listers
        → ((run i.poller listers).0.store ≡ new_store)
          × ((run i.poller listers).0.poll_errors ≡ length listers)
    unfolding instance_of
    Fails-store out i n listers f =
        rw (run_outage i.poller listers f, n.connected.made) (refl, omega arith)

    -- After a successful setup and any number of polls, the gauges tell what the polls came to. If
    -- none succeeded, readiness is 0 and the plugin reads an empty store; else readiness is 1, the
    -- plugin reads the snapshot of the entries that the last successful poll gave, and its numbers of
    -- names and of conflicts are shown. The error gauge is the number of polls that failed since the
    -- last one that succeeded, and agrees with the poller's own count.
    pub gauges-IsShown :
        (out : Started spiffe grpc) (i : Instance spiffe grpc) (down : List Action)
        → setup spiffe grpc parse_duration parse_addr d directives transport s g ≡ some out
        → out.outcome.1 ≡ ok (i, down)
        → (listers : List Lister)
        → IsShown (publish_all (run i.poller listers).1 out.gauges) (run i.poller listers).0
          × IsTold listers
              (run i.poller listers).0
              (publish_all (run i.poller listers).1 out.gauges)
          × ((run i.poller listers).0.store ≡ (handler_at spiffe grpc i listers).registry)
    gauges-IsShown out i down h k listers =
        let installed = setup_installs out i down h k in
        (
          run-IsShown i.poller listers out.gauges (installed-IsShown out i installed),
          run-IsTold [] listers i.poller out.gauges (installed-IsTold out i installed),
          refl,
        )

    -- After a successful setup, as long as every poll fails, every query falls through to the next
    -- plugin, and the gauges say so: readiness is 0, and the error gauge is the number of polls.
    pub unpolled_falls_through :
        (out : Started spiffe grpc) (i : Instance spiffe grpc) (down : List Action)
        → setup spiffe grpc parse_duration parse_addr d directives transport s g ≡ some out
        → out.outcome.1 ≡ ok (i, down)
        → (listers : List Lister) → All Fails listers
        → ((lib : MsgLib) (req : RequestLib) (t : Transport) (r : Msg)
            → (serve_dns lib req (handler_at spiffe grpc i listers) t r).outcome ≡ next_plugin)
          × ((publish_all (run i.poller listers).1 out.gauges).registry_ready ≡ 0)
          × ((publish_all (run i.poller listers).1 out.gauges).registry_poll_errors
              ≡ length listers)
    unpolled_falls_through out i down h k listers f =
        let n = setup_installs out i down h k in
        let (store, errors) = Fails-store out i n listers f in
        let shown = run-IsShown i.poller listers out.gauges (installed-IsShown out i n) in
        (
          λ lib req t r. serve_dns-empty lib req (handler_at spiffe grpc i listers) t r store,
          Shows-empty (rw store at shown.registry),
          rw errors at shown.errors,
        )
