-- ===== src/Examples/Journey.antt =====
-- A query from a pod through its agent to central.
use zonedns.Prelude.{◌≡◌, refl, some, [], ◌∷◌, arith, Memᴰ}
use zonedns.Text.{Str, str_eq, text}
use zonedns.GoMap
use zonedns.Dns.{Msg}
use zonedns.Netip.{Addr}
use zonedns.Identity.{Reason, reason_ok, spiffe_id_from_cert, peer_certificates, source_zone}
use zonedns.Identity.Laws.{authorized-new_config_iff}
use zonedns.Podzone
use zonedns.Podzone.Refinement.{no_pods, reports}
use zonedns.Agent.{Agent, outbound, resolve_zone}
use zonedns.Agent.Sources.{IsNode}
use zonedns.EndToEnd.{IsAgent, pod_zone_arrives}
use zonedns.Examples.{
  msg_lib, parse_addr, address_one, agent_url, config, transport, forged, events, watched, relay,
  agent_with,
}

pub presented : peer_certificates transport ≡ some (record { uris = some agent_url ∷ [] } ∷ [])
unfolding peer_certificates
presented = refl

pub identified : spiffe_id_from_cert (record { uris = some agent_url ∷ [] }) ≡ some agent_url.string
unfolding spiffe_id_from_cert zonedns.Text.str_beq
identified = refl

pub transport-IsAgent : IsAgent config transport
transport-IsAgent = record {
  leaf = record { uris = some agent_url ∷ [] };
  chain = [];
  presented = presented;
  id = agent_url.string;
  identified = identified;
  authorized =
      (authorized-new_config_iff (agent_url.string ∷ []) 65001 agent_url.string).1 (Memᴰ.head refl);
}

abbrev agent : Agent
agent = agent_with (Podzone.zone watched) relay

abbrev sent : Msg
sent = outbound msg_lib 65001 (resolve_zone parse_addr agent (text "10.0.0.1")).0 forged

-- The message as central receives it, under another number.
abbrev received : Msg
received = record sent { id = 0 }

pub same_code : config.code ≡ 65001
unfolding zonedns.Identity.new_config
same_code = refl

known : Podzone.zone watched address_one ≡ some (text "zone-a")
unfolding Podzone.zone Podzone.run GoMap.lookup zonedns.Text.str_beq zonedns.Ednszone.valid
    parse_addr GoMap.insert zonedns.Netip.addr_beq
known = refl

address_parsed : parse_addr (text "10.0.0.1") ≡ some address_one
unfolding parse_addr zonedns.Text.str_beq
address_parsed = refl

not-IsNode : ¬ (IsNode agent address_one)
not-IsNode (_, e) = ground (arith, e)

same_options : msg_lib.edns0_options received ≡ msg_lib.edns0_options sent
unfolding outbound resolve_zone parse_addr zonedns.Text.str_beq zonedns.Netip.addr_beq Podzone.zone
    Podzone.run GoMap.lookup zonedns.Ednszone.valid GoMap.insert zonedns.Ednszone.set msg_lib
same_options = refl

pod_zone_arrives_example :
    (source_zone msg_lib config transport received ≡ (text "zone-a", reason_ok))
    × ((pod : Podzone.PodKey) × (reports parse_addr (text "zone") no_pods events pod
          ≡ some (address_one, text "zone-a")))
pod_zone_arrives_example =
    pod_zone_arrives msg_lib parse_addr agent config transport (text "zone") events
      (text "10.0.0.1") (text "zone-a") address_one forged received same_code transport-IsAgent refl
      address_parsed not-IsNode known same_options
