-- ===== src/Examples/Central.antt =====
-- The central plugin: decisions, routes and answers.
use zonedns.Prelude.{◌≡◌, refl, true, none, some, [], ◌∷◌, arith, Memᴰ}
use zonedns.Text.{Str, str_eq, str_beq, text}
use zonedns.GoMap
use zonedns.Dns.{Msg, type_aaaa, aaaa, class_inet, rcode_success}
use zonedns.Netip.{v4, v6}
use zonedns.Ednszone
use zonedns.Identity.{Transport, Reason, reason_ok, no_tls, source_zone, Cert, TlsState}
use zonedns.Ednszone.Laws.{carried}
use zonedns.Identity.Trust.{Speaks, over_https, over_tls, IsTrusted}
use zonedns.Identity.Laws.{source_zone_iff, authorized-new_config_iff}
use zonedns.Registry
use zonedns.Zonetable
use zonedns.Central.{ZoneDns, header, gateway_reply, serve_dns, replied, next_plugin}
use zonedns.Central.Answers.{records_of, gateway_reply_scoped}
use zonedns.Central.Routes.{IsBetweenZones, serve_dns_between, serve_dns-next_iff}
use zonedns.Examples.{msg_lib, request_lib, agent_url, config, transport, query}

-- A query that an agent forwarded, and a registry that knows its name.
abbrev from_agent : Msg
from_agent = Ednszone.set msg_lib 65001 (text "zone-a") query

abbrev pub plugin : ZoneDns
plugin = record {
  identity = config;
  registry = record { cur = some (record { zone_of = (text "db.b.test", text "zone-b") ∷ [] }) };
  zones = Zonetable.new ((text "zone-b", v4 167838209) ∷ []);
  ttl = 60;
}

declared :
    (carried msg_lib 65001 from_agent ≡ text "zone-a" ∷ [])
    × (Ednszone.valid (text "zone-a") ≡ true)
unfolding zonedns.Ednszone.Laws.declarations zonedns.Ednszone.options_of
    zonedns.Ednszone.declared_by msg_lib Ednszone.set zonedns.Examples.store_in_extra Ednszone.valid
    str_beq
declared = (refl, refl)

trusted : IsTrusted msg_lib config transport from_agent (text "zone-a")
unfolding zonedns.Identity.new_config
trusted = record {
  state = record { peer_certificates = record { uris = some agent_url ∷ [] } ∷ [] };
  speaks = over_tls refl refl;
  leaf = record { uris = some agent_url ∷ [] };
  chain = [];
  presented = refl;
  uri = agent_url;
  only = refl;
  scheme = refl;
  authorized =
      (authorized-new_config_iff (agent_url.string ∷ []) 65001 agent_url.string).1 (Memᴰ.head refl);
  declared = declared;
}

source_zone_iff_example :
    source_zone msg_lib config transport from_agent ≡ (text "zone-a", reason_ok)
source_zone_iff_example =
    (source_zone_iff msg_lib config transport from_agent (text "zone-a")).1 trusted

abbrev plain : Transport
plain = record { http_request = none; connection_state = none }

known : Registry.lookup plugin.registry (text "db.b.test.") ≡ some (text "zone-b")
unfolding Registry.lookup GoMap.lookup str_beq Registry.normalize zonedns.Text.to_lower
    zonedns.Text.trim_suffix
known = refl

between :
    IsBetweenZones msg_lib request_lib plugin transport from_agent (text "zone-a") (text "zone-b")
unfolding request_lib Ednszone.set msg_lib
between = record { address = refl; trusted = trusted; known = known; differ = ground arith }

serve_dns_between_example :
    (written : Msg) × ((serve_dns msg_lib request_lib plugin transport from_agent).outcome
      ≡ replied written)
    × (written.rcode ≡ rcode_success)
    × (written.answer
        ≡ records_of
            (λ rrtype. record {
              name = request_lib.qname from_agent.question;
              rrtype = rrtype;
              class = class_inet;
              ttl = 60;
            })
            (request_lib.qtype from_agent.question)
            (v4 167838209))
unfolding Zonetable.gateway GoMap.lookup Zonetable.new GoMap.insert str_beq
serve_dns_between_example =
    serve_dns_between msg_lib request_lib plugin transport from_agent (text "zone-a")
      (text "zone-b") between

unspoken : (st : TlsState) → ¬ Speaks plain st
unspoken st (over_https e) = cc e
unspoken st (over_tls e f) = cc f

never_between :
    (source dest : Str) → ¬ IsBetweenZones msg_lib request_lib plugin plain from_agent source dest
never_between source dest k = unspoken k.trusted.state k.trusted.speaks

serve_dns-next_iff_example :
    (serve_dns msg_lib request_lib plugin plain from_agent).outcome ≡ next_plugin
serve_dns-next_iff_example =
    (serve_dns-next_iff msg_lib request_lib plugin plain from_agent).1 never_between

abbrev query_v6 : Msg
query_v6 = record query {
  question = record { name = text "db.b.test."; qtype = type_aaaa; qclass = 1 } ∷ [];
}

gateway_reply_scoped_example :
    (gateway_reply msg_lib request_lib plugin query_v6 (v6 1 (text "eth0"))).answer
    ≡ record { header = header msg_lib request_lib plugin query_v6 type_aaaa; rdata = aaaa none }
      ∷ []
unfolding request_lib
gateway_reply_scoped_example =
    gateway_reply_scoped msg_lib request_lib plugin query_v6 1 (text "eth0") (ground arith)
