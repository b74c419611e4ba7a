-- ===== src/Examples/Gateways.antt =====
-- A query between two zones, from the agent to central and back.
use zonedns.Prelude.{◌≡◌, refl, true, none, some, Option, arith}
use zonedns.Text.{Str, text, str_eq, str_beq}
use zonedns.GoMap
use zonedns.Dns.{Msg}
use zonedns.Netip.{Addr, v4}
use zonedns.Ednszone
use zonedns.Registry
use zonedns.Zonetable
use zonedns.Zonecache
use zonedns.Central
use zonedns.Central.{ZoneDns, header}
use zonedns.Central.Answers.{gateway_records}
use zonedns.Dohupstream.{Http, as_upstream}
use zonedns.Agent.{Agent, static_resolver, replied, resolve_zone, serve_dns}
use zonedns.Agent.Replies.{cached_for}
use zonedns.EndToEnd.Gateways.{KeepsQuestions, IsServing, IsCrossing, gateway_arrives}
use zonedns.Examples.{msg_lib, request_lib, one_slot, parse_addr, transport, forged, agent_with}
use zonedns.Examples.Central.{plugin}
use zonedns.Examples.Journey.{transport-IsAgent, same_code}

-- What central writes for a message, if it replies.
abbrev pub written_by : ZoneDns → Msg → Option Msg
written_by z m = elim (Central.serve_dns msg_lib request_lib z transport m).outcome [
  | Central.replied reply ↦ some reply
  | _ ↦ none
]

-- Central's own server: a request is its message, a response the reply.
abbrev pub central_at : ZoneDns → Http
central_at z = record {
  Request = Msg;
  Response = Msg;
  new_request = λ url m. some m;
  perform = written_by z;
  status_code = λ m. 200;
  response_to_msg = λ m. some m;
}

pub central_at-IsServing :
    (z : ZoneDns)
    → IsServing msg_lib request_lib (central_at z) (text "https://central") z transport
central_at-IsServing z = record {
  request_of = λ m reply. m;
  response_of = λ m reply. reply;
  delivered = λ m reply h. (refl, ground (arith, h), refl, refl);
}

pub keeps : KeepsQuestions msg_lib
unfolding msg_lib
keeps = record {
  options-id = λ n m. refl;
  question-set_reply = λ m request q e. refl;
  question-size_and_do = λ request m. refl;
}

abbrev agent : Agent
agent =
    agent_with (static_resolver (text "zone-a"))
      (as_upstream (central_at plugin) (text "https://central"))

crossing :
    IsCrossing msg_lib request_lib one_slot parse_addr agent plugin
      (central_at plugin)
      (text "https://central")
      transport
      (text "10.0.0.1")
      forged
      (text "zone-a")
      (text "zone-b")
unfolding request_lib resolve_zone parse_addr str_beq zonedns.Netip.addr_beq static_resolver
    Ednszone.valid Registry.lookup GoMap.lookup Registry.normalize zonedns.Text.to_lower
    zonedns.Text.trim_suffix
crossing = record {
  question = _;
  single = refl;
  address = refl;
  resolved = resolved;
  valid = valid;
  known = known;
  differ = ground arith;
}
  where
    resolved : (resolve_zone parse_addr agent (text "10.0.0.1")).0 ≡ some (text "zone-a")
    resolved = refl

    valid : Ednszone.valid (text "zone-a") ≡ true
    valid = refl

    known :
        Registry.lookup plugin.registry (request_lib.name forged.question) ≡ some (text "zone-b")
    known = refl

gateway_found : Zonetable.gateway plugin.zones (text "zone-b") ≡ some (v4 167838209)
unfolding Zonetable.gateway GoMap.lookup Zonetable.new GoMap.insert str_beq
gateway_found = refl

miss :
    (cached_for msg_lib request_lib one_slot parse_addr agent
      (text "10.0.0.1")
      0
      forged
      (one_slot.new 8)).0
    ≡ none
unfolding Zonecache.get one_slot
miss = refl

gateway_arrives_example :
    (written : Msg) × ((serve_dns msg_lib request_lib one_slot parse_addr agent
        (text "10.0.0.1")
        0
        forged
        (one_slot.new 8)).0.outcome
      ≡ replied written)
    × (written.id ≡ 7)
    × (written.rcode ≡ 0)
    × (written.answer
        ≡ gateway_records
            (header msg_lib request_lib plugin forged)
            (request_lib.qtype forged.question)
            (v4 167838209))
gateway_arrives_example =
    gateway_arrives msg_lib request_lib one_slot parse_addr agent plugin (central_at plugin)
      (text "https://central") transport (text "10.0.0.1") 0 forged (one_slot.new 8) (text "zone-a")
      (text "zone-b") (v4 167838209) keeps same_code transport-IsAgent refl
      (central_at-IsServing plugin) crossing gateway_found tt miss
