-- ===== src/AgentStartup.antt =====
-- plugin/zonedns_agent/setup.go: setup. The Workload API, client-go, the cache table and the client
-- behind an HTTP configuration are interfaces.
pub mod Accounts
pub mod Installs
use zonedns.Prelude.{ℕ, Option, none, some, List, [], ◌∷◌, ◌++◌, Result, ok, err}
use zonedns.Text.{Str}
use zonedns.Netip.{Addr}
use zonedns.Spiffezone.{Url}
use zonedns.Resources.{Action, opened, closed, run_context, Spiffe}
use zonedns.Kube.{Kube}
use zonedns.Caddy.{Dispenser}
use zonedns.Directives.{OrderError, check_agent}
use zonedns.Readiness.{Readiness, next_generation, wire_lifecycle}
use zonedns.Podzone
use zonedns.Podzone.{Watcher}
use zonedns.Zonecache
use zonedns.Zonecache.{Lru}
use zonedns.Dohupstream.{Http}
use zonedns.Dohupstream.Mtls
use zonedns.Dohupstream.Mtls.{MtlsError, HttpClient, Client, new_mtls, upstream_of}
use zonedns.Agent.{Agent}
use zonedns.AgentSetup
use zonedns.AgentSetup.{Config, Mode, mode_unset, mode_k8s, mode_vm, parse_config, agent_of}

pub data SetupError : Type 0 where
  order : OrderError → SetupError
  config : AgentSetup.ConfigError → SetupError
  cache_failed no_cluster no_client : SetupError
  upstream : MtlsError → SetupError

-- The configuration of the upstream; the timeouts keep their zero value.
abbrev pub upstream_config : Config → Mtls.Config
upstream_config cfg = record {
  url = cfg.upstream_url;
  workload_api_addr = cfg.workload_api;
  central_spiffe_id = cfg.central_spiffe_id;
  dial_timeout = 0;
  timeout = 0;
}

module _ (spiffe : Spiffe) (kube : Kube) (lru : Lru) where
  open lru use {Table}

  -- What a successful setup leaves: the configuration, the client for central, the empty cache, the
  -- watcher that OnStartup runs in k8s mode, and the generation under which it reports.
  pub record Instance : Type 0 where
    pub cfg : Config
    pub client : Client spiffe
    pub cache : Table
    pub watcher : Watcher
    pub generation : Option ℕ

  -- The gauge, what was done, and the result with what OnShutdown does.
  pub record Started : Type 0 where
    pub readiness : Readiness
    pub outcome : List Action × Result SetupError (Instance × List Action)

  -- An error after the upstream was built: cancel, cleanup.
  abbrev give_up : SetupError → List Action → List Action → Readiness → Started
  give_up e done cleanup rd = record {
    readiness = rd;
    outcome = (opened run_context ∷ done ++ closed run_context ∷ cleanup, err e);
  }

  abbrev install :
      Config → Client spiffe → Table → Option ℕ → List Action → List Action → Readiness → Started
  install cfg client table generation done cleanup rd = record {
    readiness = rd;
    outcome = (
      opened run_context ∷ done,
      ok (
        record {
          cfg = cfg;
          client = client;
          cache = table;
          watcher = Podzone.new cfg.zone_label;
          generation = generation;
        },
        closed run_context ∷ cleanup,
      ),
    );
  }

  -- The rest of the case modeK8s after NewForConfig.
  unfoldable pub with_clientset :
      Config
      → Client spiffe
      → Table
      → List Action
      → List Action
      → Readiness
      → Option kube.Clientset
      → Started
  unfolding next_generation
  with_clientset cfg client table done cleanup rd none = give_up no_client done cleanup rd
  with_clientset cfg client table done cleanup rd (some _) =
      let (rd', gen) = next_generation rd in install cfg client table (some gen) done cleanup rd'

  -- The same after InClusterConfig.
  unfoldable pub with_rest_config :
      Config
      → Client spiffe
      → Table
      → List Action
      → List Action
      → Readiness
      → Option kube.RestConfig
      → Started
  unfolding with_clientset
  with_rest_config cfg client table done cleanup rd none = give_up no_cluster done cleanup rd
  with_rest_config cfg client table done cleanup rd (some rest_cfg) =
      with_clientset cfg client table done cleanup rd (kube.new_clientset rest_cfg)

  -- The switch on the mode.
  unfoldable pub resolve :
      Mode → Config → Client spiffe → Table → List Action → List Action → Readiness → Started
  unfolding wire_lifecycle with_rest_config
  resolve mode_unset cfg client table done cleanup rd =
      install cfg client table none done cleanup rd
  resolve mode_vm cfg client table done cleanup rd =
      let (rd', gen) = wire_lifecycle rd in install cfg client table (some gen) done cleanup rd'
  resolve mode_k8s cfg client table done cleanup rd =
      with_rest_config cfg client table done cleanup rd kube.in_cluster_config

  -- From the upstream on.
  unfoldable pub wired :
      Config
      → Table
      → Readiness
      → List Action × Result MtlsError (Client spiffe × List Action)
      → Started
  unfolding resolve
  wired cfg table rd (done, err e) = give_up (upstream e) done [] rd
  wired cfg table rd (done, ok (client, cleanup)) =
      resolve cfg.mode cfg client table done cleanup rd

  unfoldable pub wire : Config → Table → Readiness → Started
  unfolding wired new_mtls
  wire cfg table rd = wired cfg table rd (new_mtls spiffe (upstream_config cfg))

  module _ (parse_addr : Str → Option Addr) (parse_url : Str → Option Url) (d : Dispenser) where
    -- For the directives, the value of NODE_IP, the tokens, and the gauge before.
    unfoldable pub setup : List Str → Str → d.State → Readiness → Option Started
    unfolding wire
    setup directives env s rd = elim (check_agent directives) [
      | some e ↦ some (record { readiness = rd; outcome = ([], err (order e)) })
      | none ↦ elim (parse_config parse_addr parse_url d env s) [
        | none ↦ none
        | some (err e) ↦ some (record { readiness = rd; outcome = ([], err (config e)) })
        | some (ok cfg) ↦ elim (Zonecache.new lru cfg.cache_size) [
          | none ↦ some (record { readiness = rd; outcome = ([], err cache_failed) })
          | some table ↦ some (wire cfg table rd)
        ]
      ]
    ]

  -- The handler that setup adds, while its watcher is in this state.
  abbrev pub handler_at : (HttpClient spiffe → Http) → Instance → Watcher → Agent
  handler_at speak i w = agent_of i.cfg w (upstream_of spiffe speak i.client)
