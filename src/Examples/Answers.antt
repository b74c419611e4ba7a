-- ===== src/Examples/Answers.antt =====
-- The agent on single queries and over two of them.
use zonedns.Prelude.{Memᴰ, ◌*◌, ◌≡◌, refl, none, some, [], ◌∷◌, arith}
use zonedns.Text.{Str, str_eq, str_beq, text, to_lower}
use zonedns.Dns.{Msg, rcode_server_failure}
use zonedns.Netip.{Addr, addr_eq}
use zonedns.Ednszone
use zonedns.Podzone.{key_eq}
use zonedns.Zonecache
use zonedns.Agent.{Agent, static_resolver, resolve_zone, serve_dns, returned, replied, reply}
use zonedns.Agent.Sources.{IsNode, resolve_zone_iff}
use zonedns.Zonecache.{set_ttls, lifetime, second}
use zonedns.Agent.Ages.{Asked, IsAged}
use zonedns.Agent.Repeats.{IsShared, serve_dns_repeated}
use zonedns.Agent.Histories.{history, history_separates}
use zonedns.Agent.Replies.{cached_for, sent_for, zone_of, IsRelayed, serve_dns_refused}
use zonedns.Examples.{
  msg_lib, request_lib, one_slot, parse_addr, address_one, address_two, query, forged, answer_to,
  pod_one, events, watched, relay, agent_with,
}

abbrev agent : Agent
agent = agent_with (static_resolver (text "zone-a")) relay

address_parsed : parse_addr (text "10.0.0.1") ≡ some address_one
unfolding parse_addr str_beq
address_parsed = refl

not-IsNode : ¬ (IsNode agent address_one)
not-IsNode (_, e) = ground (arith, e)

static_zone : static_resolver (text "zone-a") address_one ≡ some (text "zone-a")
unfolding static_resolver str_beq
static_zone = refl

resolve_zone_iff_example :
    (resolve_zone parse_addr agent (text "10.0.0.1")).0 ≡ some (text "zone-a")
resolve_zone_iff_example =
    (resolve_zone_iff parse_addr agent (text "10.0.0.1") (text "zone-a")).1
      (address_one, (address_parsed, (not-IsNode, static_zone)))

-- What the agent asks, and what it relays.
abbrev asked : Msg
asked = sent_for msg_lib request_lib one_slot parse_addr agent (text "10.0.0.1") forged

abbrev got : Msg
got = answer_to 20 asked

abbrev empty : one_slot.Table
empty = one_slot.new 8

cache_empty :
    (cached_for msg_lib request_lib one_slot parse_addr agent (text "10.0.0.1") 0 forged empty).0
    ≡ none
unfolding Zonecache.get one_slot
cache_empty = refl

abbrev cut_off : Agent
cut_off = agent_with (static_resolver (text "zone-a")) (λ m. none)

cache_empty-cut_off :
    (cached_for msg_lib request_lib one_slot parse_addr cut_off (text "10.0.0.1") 0 forged empty).0
    ≡ none
unfolding Zonecache.get one_slot
cache_empty-cut_off = refl

nothing-IsRelayed :
    (m : Msg)
    → ¬ IsRelayed msg_lib request_lib one_slot parse_addr cut_off (text "10.0.0.1") forged m
nothing-IsRelayed m (e, _) = cc

serve_dns_refused_example :
    ((serve_dns msg_lib request_lib one_slot parse_addr cut_off
        (text "10.0.0.1")
        0
        forged
        empty).0.outcome
      ≡ returned rcode_server_failure)
    × ((serve_dns msg_lib request_lib one_slot parse_addr cut_off
          (text "10.0.0.1")
          0
          forged
          empty).1
        ≡ (cached_for msg_lib request_lib one_slot parse_addr cut_off
            (text "10.0.0.1")
            0
            forged
            empty).1)
serve_dns_refused_example =
    serve_dns_refused msg_lib request_lib one_slot parse_addr cut_off (text "10.0.0.1") 0 forged
      empty cache_empty-cut_off nothing-IsRelayed

-- Five seconds after the first query of the agent.
abbrev first_query : Asked
first_query = record { src_ip = text "10.0.0.1"; now = 0; msg = forged }

abbrev second_query : Asked
second_query = record { src_ip = text "10.0.0.1"; now = 5000000000; msg = query }

cached_again :
    (cached_for msg_lib request_lib one_slot parse_addr agent
      (text "10.0.0.1")
      5000000000
      query
      (history msg_lib request_lib one_slot parse_addr agent 8 (first_query ∷ []))).0
    ≡ some (set_ttls 15 got)
unfolding Zonecache.get one_slot history serve_dns parse_addr str_beq zonedns.Netip.addr_beq
    static_resolver Ednszone.set msg_lib zonedns.Examples.store_in_extra zonedns.Text.equal_fold
    Zonecache.put Zonecache.key_beq Zonecache.make_key request_lib
cached_again = refl

history_separates_example :
    (p : Asked) × (answer : Msg) × Memᴰ p (first_query ∷ [])
    × IsRelayed msg_lib request_lib one_slot parse_addr agent p.src_ip p.msg answer
    × (zone_of msg_lib request_lib one_slot parse_addr agent p.src_ip
        ≡ zone_of msg_lib request_lib one_slot parse_addr agent (text "10.0.0.1"))
    × (request_lib.qtype p.msg.question ≡ request_lib.qtype query.question)
    × (to_lower (request_lib.name p.msg.question) ≡ to_lower (request_lib.name query.question))
    × IsAged p second_query answer (set_ttls 15 got)
history_separates_example =
    history_separates msg_lib request_lib one_slot parse_addr agent 8 (first_query ∷ [])
      second_query (set_ttls 15 got) cached_again

relayed_first :
    (serve_dns msg_lib request_lib one_slot parse_addr agent
      (text "10.0.0.1")
      0
      forged
      empty).0.outcome
    ≡ replied (reply msg_lib forged got)
unfolding Zonecache.get one_slot serve_dns parse_addr str_beq zonedns.Netip.addr_beq static_resolver
    Ednszone.set msg_lib zonedns.Examples.store_in_extra zonedns.Text.equal_fold
relayed_first = refl

twenty_seconds : lifetime got.answer ≡ some (20 * second)
unfolding lifetime
twenty_seconds = refl

serve_dns_repeated_example :
    IsShared msg_lib request_lib one_slot parse_addr agent first_query second_query got
      (reply msg_lib forged got)
      (set_ttls 15 got)
      empty
unfolding request_lib
serve_dns_repeated_example =
    serve_dns_repeated msg_lib request_lib one_slot parse_addr agent first_query second_query got
      (reply msg_lib forged got) (20 * second) empty cache_empty refl relayed_first
      (record { zone = refl; qtype = refl; name = refl }) twenty_seconds (omega arith)
