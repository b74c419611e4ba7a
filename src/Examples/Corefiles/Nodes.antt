-- ===== src/Examples/Corefiles/Nodes.antt =====
-- The agent from its Corefile to its replies, and the command.
use zonedns.Prelude.{◌≤◌, ◌≡◌, ◌≢◌, refl, false, none, some, List, [], ◌∷◌, ok}
use zonedns.Text.{Str, text, str_eq, str_beq}
use zonedns.Dns.{Msg}
use zonedns.Resources.{Action, opened, closed, dial_context, x509_source, run_context}
use zonedns.Directives.{check_agent, check_order, scan, place, judge}
use zonedns.Readiness.{cold_start, next_generation, wire_lifecycle, mark_resolver_ready}
use zonedns.Podzone
use zonedns.Zonecache
use zonedns.Dohupstream.{Http}
use zonedns.Dohupstream.Mtls.{HttpClient, Client, new_mtls}
use zonedns.Agent.{Agent, reply}
use zonedns.Agent.Ages.{Asked}
use zonedns.Agent.Replies.{sent_for}
use zonedns.Drift.Command.{Cluster, Flags, items, missing, strings, command}
use zonedns.Drift.Command.Codes.{HasMeaning, command-HasMeaning}
use zonedns.AgentStartup.{Started, Instance, resolve, wired, wire, setup, handler_at}
use zonedns.AgentStartup.Accounts.{IsSettled, agent_setup_accounts}
use zonedns.AgentStartup.Installs.{IsInstalled, agent_setup_installs}
use zonedns.Examples.{msg_lib, request_lib, one_slot, parse_addr, forged, answer_to, watched}
use zonedns.Examples.Corefiles.{words, parse_url, corefile, vm_config, accepted}
use zonedns.Examples.Clusters.{workload, kube}

abbrev pub directives : List Str
directives = text "zonedns_agent" ∷ text "cache" ∷ []

abbrev pub client : Client workload
client = record {
  url = text "https://central";
  hc = record {
    tls = record {
      certificates = text "unix:///run/spire";
      authorized = text "spiffe://test/central";
    };
    timeout = 5000000000;
  };
}

abbrev pub i : Instance workload kube one_slot
i = record {
  cfg = vm_config;
  client = client;
  cache = one_slot.new 4096;
  watcher = Podzone.new (text "zone");
  generation = some 1;
}

abbrev pub down : List Action
down = closed run_context ∷ closed x509_source ∷ []

abbrev pub out : Started workload kube one_slot
out = record {
  readiness = record { generation = 1; ready_generation = 1; gauge = 1 };
  outcome = (
    opened run_context ∷ opened dial_context ∷ opened x509_source ∷ closed dial_context ∷ [],
    ok (i, down),
  );
}

in_order : check_agent directives ≡ none
unfolding check_agent check_order scan place judge str_beq
in_order = refl

cache_made : Zonecache.new one_slot 4096 ≡ some (one_slot.new 4096)
unfolding Zonecache.new
cache_made = refl

wires : wire workload kube one_slot vm_config (one_slot.new 4096) cold_start ≡ out
unfolding wire wired resolve wire_lifecycle next_generation mark_resolver_ready new_mtls str_beq
wires = refl

pub starts :
    setup workload kube one_slot parse_addr parse_url words directives [] corefile cold_start
    ≡ some out
unfolding setup
starts = rw (in_order, accepted, setup, cache_made, wires) refl

agent_setup_accounts_example :
    (setup workload kube one_slot parse_addr parse_url words directives [] corefile cold_start
      ≢ none)
    × ((o : Started workload kube one_slot)
        → setup workload kube one_slot parse_addr parse_url words directives [] corefile cold_start
          ≡ some o
        → IsSettled workload kube one_slot [] cold_start o)
agent_setup_accounts_example =
    agent_setup_accounts workload kube one_slot parse_addr parse_url words directives [] corefile
      cold_start []

agent_setup_installs_example :
    IsInstalled workload kube one_slot parse_addr parse_url words directives [] corefile cold_start
      i
agent_setup_installs_example =
    agent_setup_installs workload kube one_slot parse_addr parse_url words directives [] corefile
      cold_start out i down starts refl

-- Central answers every query it gets over that client.
abbrev speak : HttpClient workload → Http
speak hc = record {
  Request = Msg;
  Response = Msg;
  new_request = λ url m. some m;
  perform = λ m. some (answer_to 20 m);
  status_code = λ m. 200;
  response_to_msg = λ m. some m;
}

abbrev asked : Asked
asked = record { src_ip = text "10.0.0.1"; now = 0; msg = forged }

abbrev agent : Agent
agent = handler_at workload kube one_slot speak i watched

abbrev sent : Msg
sent = sent_for msg_lib request_lib one_slot parse_addr agent (text "10.0.0.1") forged

abbrev written : Msg
written = reply msg_lib forged (record (answer_to 20 (record sent { id = 0 })) { id = sent.id })

-- A cluster with one pod and one service for it.
abbrev cluster : Cluster kube
cluster = record {
  list = λ dyn gvr namespace. items (
      record {
        namespace = text "default";
        name = text "web";
        spec_gateways = missing;
        spec_hosts = strings (text "web.test" ∷ []);
      }
      ∷ []);
  list_pods = λ typed label namespace. some (((text "zonedns.io/host", text "web.test") ∷ []) ∷ []);
}

abbrev flags : Flags
flags = record {
  kubeconfig = [];
  cluster_domain = text "cluster.local";
  host_label = text "zonedns.io/host";
  show_skipped = false;
  namespace = [];
}

command-HasMeaning_example :
    ((command kube cluster flags).1 ≤ 2)
    × HasMeaning kube cluster flags (command kube cluster flags).1
command-HasMeaning_example = command-HasMeaning kube cluster flags
