-- ===== src/EndToEnd/Deployments.antt =====
-- Both plugins from their Corefiles: an agent that plugin/zonedns_agent/setup.go installed, a central
-- server that plugin/zonedns/setup.go installed, and the entries that SPIRE handed out last.
pub mod Answers
use zonedns.Prelude.{
  ℕ, ◌≡◌, ◌≢◌, refl, ap, sym, ◌∙◌, true, Bool, Option, none, some, List, [], ◌∷◌, ◌++◌, Memᴰ, arith,
  ok,
}
use zonedns.Text.{Str, str_eq}
use zonedns.GoMap
use zonedns.Dns.{Msg, MsgLib, RequestLib, Question, rcode_success, class_inet}
use zonedns.Netip.{Addr}
use zonedns.Spiffezone.{Url}
use zonedns.Ednszone
use zonedns.Resources.{Action, Spiffe}
use zonedns.Kube.{Kube}
use zonedns.Caddy.{Dispenser, ℤ}
use zonedns.Identity
use zonedns.Identity.{Cert, Transport, new_config, peer_certificates, spiffe_id_from_cert}
use zonedns.Identity.Laws.{authorized-new_config_iff}
use zonedns.Registry
use zonedns.Registry.{Entry, Stats, Store, normalize, build_snapshot, replace, lookup}
use zonedns.Registry.Claims.{Claims}
use zonedns.Registry.Lookups.{snapshot_lookup_iff}
use zonedns.Registry.Poller.{Lister, Poller, run, round}
use zonedns.Registry.Poller.Polls.{IsPolled}
use zonedns.Registry.Poller.Rounds.{round_recovers}
use zonedns.Zonetable
use zonedns.Zonetable.Laws.{gateway-new}
use zonedns.Central.{ZoneDns, is_address_query, header}
use zonedns.Central.Answers.{IsPlain, gateway_records}
use zonedns.Setup
use zonedns.Setup.Checks as CentralChecks
use zonedns.Startup
use zonedns.Startup.{Grpc, Gauges}
use zonedns.Startup.Installs as CentralInstalls
use zonedns.Podzone
use zonedns.Podzone.Zones.{zone-IsValid}
use zonedns.Agent.{Agent, resolve_zone, static_resolver}
use zonedns.Agent.Sources.{resolve_zone_iff}
use zonedns.AgentSetup
use zonedns.AgentSetup.{Mode, mode_unset, mode_vm, mode_k8s, agent_of}
use zonedns.AgentSetup.Checks.{HasMode}
use zonedns.AgentStartup
use zonedns.AgentStartup.Installs.{agent_setup_installs}
use zonedns.Readiness.{Readiness}
use zonedns.Zonecache.{Lru}
use zonedns.Dohupstream.{Http, as_upstream}
use zonedns.Dohupstream.Mtls.{HttpClient}
use zonedns.Agent.{replied, serve_dns}
use zonedns.Agent.Replies.{cached_for}
use zonedns.EndToEnd.Gateways.{KeepsQuestions, IsServing, gateway_arrives}
use zonedns.EndToEnd.{IsAgent}

-- The connection is that of one of the agents that the Corefile of central lists.
pub record IsListedAgent (agents : List Str) (t : Transport) : Type 0 where
  pub leaf : Cert
  pub chain : List Cert
  pub presented : peer_certificates t ≡ some (leaf ∷ chain)
  pub id : Str
  pub identified : spiffe_id_from_cert leaf ≡ some id
  pub listed : Memᴰ id agents

listed-IsAgent :
    (agents : List Str) (code : ℕ) (t : Transport)
    → IsListedAgent agents t
    → IsAgent (new_config agents code) t
listed-IsAgent agents code t k = record {
  leaf = k.leaf;
  chain = k.chain;
  presented = k.presented;
  id = k.id;
  identified = k.identified;
  authorized = (authorized-new_config_iff agents code k.id).1 k.listed;
}

run-append :
    (p : Poller) (before after : List Lister)
    → (run p (before ++ after)).0 ≡ (run (run p before).0 after).0
unfolding run
run-append p [] after = refl
run-append p (l ∷ before) after = run-append (round p l).0 before after

-- The store after a poll that succeeded.
store-polled :
    (p : Poller) (before : List Lister) (lister : Lister) (st : Store) (stats : Stats)
    → IsPolled lister (run p before).0.store st stats
    → (run p (before ++ lister ∷ [])).0.store ≡ st
unfolding run
store-polled p before lister st stats k =
    rw (run-append p before (lister ∷ []), round_recovers (run p before).0 lister st stats k) refl

-- A name of which the entries agree that it is in a zone.
abbrev pub IsIn : List Entry → Str → Str → Type 0
IsIn entries name zone =
    Claims entries (normalize name) zone
    × ((other : Str) → Claims entries (normalize name) other → other ≡ zone)

lookup-polled :
    (p : Poller) (before : List Lister) (lister : Lister) (st : Store) (stats : Stats)
    (k : IsPolled lister (run p before).0.store st stats) (name zone : Str)
    → IsIn k.all name zone
    → lookup (run p (before ++ lister ∷ [])).0.store name ≡ some zone
unfolding lookup replace
lookup-polled p before lister st stats k name zone claimed =
    rw (store-polled p before lister st stats k, k.stored)
      ((snapshot_lookup_iff k.all name zone).1 claimed)

static-same :
    (configured zone : Str) (src : Addr)
    → static_resolver configured src ≡ some zone
    → configured ≡ zone
unfolding static_resolver
static-same configured zone src h = ground arith

-- Every zone that an installed agent finds can be declared, whatever its pods.
resolved-IsValid :
    (parse_addr : Str → Option Addr) (parse_url : Str → Option Url) (cfg : AgentSetup.Config)
    (m : Mode) (es : List Podzone.Event) (up : Msg → Option Msg) (src_ip zone : Str)
    → cfg.mode ≡ m
    → HasMode cfg m
    → (resolve_zone parse_addr
        (agent_of cfg (Podzone.run parse_addr (Podzone.new cfg.zone_label) es) up)
        src_ip).0
      ≡ some zone
    → Ednszone.valid zone ≡ true
unfolding agent_of
resolved-IsValid parse_addr parse_url cfg mode_unset es up src_ip zone e h found = absurd h
resolved-IsValid parse_addr parse_url cfg mode_vm es up src_ip zone e h found =
    let (src, k) = (resolve_zone_iff parse_addr _ src_ip zone).0 found in
    let given : static_resolver cfg.zone src ≡ some zone = rw e at k.1.1 in
    rw (← static-same cfg.zone zone src given) h.0
resolved-IsValid parse_addr parse_url cfg mode_k8s es up src_ip zone e h found =
    let (src, k) = (resolve_zone_iff parse_addr _ src_ip zone).0 found in
    let given : Podzone.zone (Podzone.run parse_addr (Podzone.new cfg.zone_label) es) src
        ≡ some zone =
      rw e at k.1.1 in
    zone-IsValid parse_addr cfg.zone_label es src zone given
