-- ===== src/Examples/Corefiles/Deployed.antt =====
-- A central server and an agent from their Corefiles, and a query between two zones.
use zonedns.Prelude.{◌≡◌, refl, true, none, some, [], ◌∷◌, arith, ok, Memᴰ}
use zonedns.Text.{Str, text, str_eq, str_beq, has_prefix}
use zonedns.GoMap
use zonedns.Dns.{Msg, Question, class_inet, type_a}
use zonedns.Resources.{opened, closed, connection, run_context}
use zonedns.Registry.{new_store, replace, normalize}
use zonedns.Registry.Poller.{run}
use zonedns.Setup
use zonedns.Central.{ZoneDns, is_address_query}
use zonedns.Central.Answers.{gateway_records}
use zonedns.Startup
use zonedns.Zonecache
use zonedns.Agent.{replied, serve_dns, resolve_zone}
use zonedns.Agent.Replies.{cached_for}
use zonedns.Dohupstream.{Http}
use zonedns.Dohupstream.Mtls.{HttpClient}
use zonedns.Readiness.{cold_start}
use zonedns.EndToEnd.Deployments.{IsListedAgent, IsIn}
use zonedns.EndToEnd.Deployments.Answers.{
  IsCentral, IsNodeAgent, central_after, agent_after, deployment_answers,
}
use zonedns.Examples.{
  msg_lib, request_lib, one_slot, parse_addr, address_two, agent_url, transport, forged,
}
use zonedns.Examples.Clusters.{workload, grpc, kube}
use zonedns.Examples.Journey.{presented, identified}
use zonedns.Examples.Gateways.{central_at, central_at-IsServing, keeps}
use zonedns.Examples.Registries.{
  two_pages, two_pages-IsPolled, entry_a, entry_b, polled, only_zone_b, db_claimed,
}
use zonedns.Examples.Corefiles.{words, words_of, parse_duration, parse_url}
use zonedns.Examples.Corefiles as Corefiles
use zonedns.Examples.Corefiles.Startups as Startups
use zonedns.Examples.Corefiles.Nodes as Nodes

abbrev corefile : words.State
corefile = words_of (
  [],
  text "zonedns"
      ∷ text "spire_server"
      ∷ text "unix:///run/spire"
      ∷ text "authorized_agent"
      ∷ agent_url.string
      ∷ text "gateway"
      ∷ text "zone-b"
      ∷ text "10.0.0.2"
      ∷ text "}"
      ∷ [],
)

abbrev cfg : Setup.Config
cfg = record Setup.default_config {
  spire_server = text "unix:///run/spire";
  authorized_agents = agent_url.string ∷ [];
  gateways = (text "zone-b", address_two) ∷ [];
}

abbrev central : Startup.Instance workload grpc
central = Startup.instance_of workload grpc cfg (text "unix:///run/spire")

abbrev out : Startup.Started workload grpc
out = record {
  warning = [];
  gauges = record Startups.before { registry_ready = 0; registry_poll_errors = 0 };
  outcome = (
    opened connection ∷ opened run_context ∷ [],
    ok (central, closed run_context ∷ closed connection ∷ []),
  );
}

parsed : Setup.parse_config parse_duration parse_addr words corefile ≡ some (ok cfg)
unfolding Setup.parse_config zonedns.Caddy.blocks words Corefiles.next words_of Corefiles.next_block
    str_beq Corefiles.remaining_args zonedns.Ednszone.valid GoMap.has parse_addr has_prefix
    GoMap.insert
parsed = refl

connects : Startup.connect workload grpc cfg ≡ out.outcome
unfolding Startup.connect Startup.dial_spire Startup.connected has_prefix
connects = refl

starts :
    Startup.setup workload grpc parse_duration parse_addr words Startups.directives
      (text "https")
      corefile
      Startups.before
    ≡ some out
unfolding Startup.setup str_beq
starts = rw (Startups.in_order, parsed, Startup.setup, connects) refl

central-IsCentral : IsCentral workload grpc parse_addr parse_duration words cfg central
central-IsCentral = record {
  directives = Startups.directives;
  transport = text "https";
  tokens = corefile;
  gauges = Startups.before;
  out = out;
  down = _;
  parsed = parsed;
  started = starts;
  installed = refl;
}

abbrev handler : ZoneDns
handler = central_after workload grpc parse_addr parse_duration words central [] two_pages

abbrev speak : HttpClient workload → Http
speak hc = central_at handler

abbrev asked_question : Question
asked_question = record { name = text "db.b.test."; qtype = type_a; qclass = class_inet }

is_address : is_address_query request_lib forged ≡ true
unfolding request_lib
is_address = refl

gateway_found : GoMap.lookup (text "zone-b") cfg.gateways ≡ some address_two
unfolding GoMap.lookup str_beq
gateway_found = refl

node-IsNodeAgent : IsNodeAgent workload kube one_slot parse_addr parse_url words Nodes.i
node-IsNodeAgent = record {
  directives = Nodes.directives;
  env = [];
  tokens = Corefiles.corefile;
  readiness = cold_start;
  out = Nodes.out;
  down = Nodes.down;
  started = Nodes.starts;
  installed = refl;
}

leaf-IsListedAgent : IsListedAgent (agent_url.string ∷ []) transport
leaf-IsListedAgent = record {
  leaf = record { uris = some agent_url ∷ [] };
  chain = [];
  presented = presented;
  id = agent_url.string;
  identified = identified;
  listed = Memᴰ.head refl;
}

found :
    (resolve_zone parse_addr
      (agent_after workload kube one_slot parse_addr parse_url words speak Nodes.i [])
      (text "10.0.0.1")).0
    ≡ some (text "zone-a")
unfolding resolve_zone parse_addr str_beq Corefiles.AgentSetup.agent_of
    zonedns.Agent.static_resolver
found = refl

-- The name of the query, in lower case and without its dot.
name_b : normalize (text "db.b.test.") ≡ normalize (text "db.B.test")
unfolding normalize zonedns.Text.to_lower zonedns.Text.trim_suffix
name_b = refl

db-IsIn : IsIn (entry_a ∷ entry_b ∷ []) (request_lib.name forged.question) (text "zone-b")
unfolding request_lib
db-IsIn = (rw name_b db_claimed, λ other k. only_zone_b other (rw name_b at k))

miss :
    (cached_for msg_lib request_lib one_slot parse_addr
      (agent_after workload kube one_slot parse_addr parse_url words speak Nodes.i [])
      (text "10.0.0.1")
      0
      forged
      (one_slot.new 4096)).0
    ≡ none
unfolding Zonecache.get one_slot
miss = refl

deployment_answers_example :
    (written : Msg) × ((serve_dns msg_lib request_lib one_slot parse_addr
        (agent_after workload kube one_slot parse_addr parse_url words speak Nodes.i [])
        (text "10.0.0.1")
        0
        forged
        (one_slot.new 4096)).0.outcome
      ≡ replied written)
    × (written.id ≡ 7)
    × (written.rcode ≡ 0)
    × (written.answer
        ≡ gateway_records
            (λ rrtype. record {
              name = request_lib.qname forged.question;
              rrtype = rrtype;
              class = class_inet;
              ttl = 30;
            })
            (request_lib.qtype forged.question)
            address_two)
unfolding run Startup.instance_of request_lib two_pages-IsPolled
deployment_answers_example =
    deployment_answers msg_lib request_lib one_slot parse_addr workload grpc workload kube parse_url
      parse_duration words speak cfg central [] two_pages (replace new_store polled.0) polled.1
      Nodes.i [] transport (text "10.0.0.1") 0 forged (one_slot.new 4096) asked_question
      (text "zone-a") (text "zone-b") address_two central-IsCentral node-IsNodeAgent
      (two_pages-IsPolled new_store) keeps refl leaf-IsListedAgent (central_at-IsServing handler)
      refl is_address found db-IsIn (ground arith) gateway_found tt miss
