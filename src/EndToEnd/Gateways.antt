-- ===== src/EndToEnd/Gateways.antt =====
-- A query between two zones from the node to central and back: plugin/zonedns_agent over
-- internal/dohupstream to plugin/zonedns.
use zonedns.Prelude.{
  ℕ, ◌≡◌, ◌≢◌, refl, ap, ◌∙◌, true, none, some, [], ◌∷◌, arith, ok, nat_eq, Option,
}
use zonedns.Text.{Str}
use zonedns.Dns.{Msg, MsgLib, RequestLib, Question, blank, rcode_success}
use zonedns.Netip.{Addr}
use zonedns.Ednszone
use zonedns.Registry
use zonedns.Zonetable
use zonedns.Zonecache.{Lru}
use zonedns.Identity.{Transport}
use zonedns.Identity.Laws.{source_zone_iff}
use zonedns.Central
use zonedns.Central.{ZoneDns, is_address_query, gateway_reply, header}
use zonedns.Central.Answers.{IsPlain, gateway_records, gateway_reply-answer, bare_reply}
use zonedns.Central.Routes.{IsBetweenZones, serve_dns-crossed}
use zonedns.Dohupstream.{Http, status_ok, exchange, as_upstream}
use zonedns.Dohupstream.Exchanges.{exchange_iff}
use zonedns.Agent.{Agent, replied, resolve_zone, serve_dns}
use zonedns.Agent.Declaration.{question-outbound}
use zonedns.Agent.Questions.{AreSame-of_eq}
use zonedns.Agent.Replies.{sent_for, cached_for, serve_dns_relayed}
use zonedns.EndToEnd.{IsAgent, zone_arrives}

-- What the two sides need of miekg/dns and of request.Request besides MsgLib: IsEdns0 does not read
-- the number of a message, SetReply copies a single question, and SizeAndDo no question.
pub record KeepsQuestions (lib : MsgLib) : Type 0 where
  pub options-id : (n : ℕ) (m : Msg) → lib.edns0_options (record m { id = n }) ≡ lib.edns0_options m
  pub question-set_reply :
      (m request : Msg) (q : Question)
      → request.question ≡ q ∷ []
      → (lib.set_reply m request).question ≡ request.question
  pub question-size_and_do : (request m : Msg) → (lib.size_and_do request m).question ≡ m.question

-- Central's DNS over HTTPS server behind the URL: a message that central replies to comes back as
-- that reply, with status 200.
pub record IsServing (lib : MsgLib) (req : RequestLib) (http : Http) (url : Str) (z : ZoneDns)
    (t : Transport) : Type 0 where
  pub request_of : (m reply : Msg) → http.Request
  pub response_of : (m reply : Msg) → http.Response
  pub delivered :
      (m reply : Msg)
      → (Central.serve_dns lib req z t m).outcome ≡ Central.replied reply
      → (http.new_request url m ≡ some (request_of m reply))
        × (http.perform (request_of m reply) ≡ some (response_of m reply))
        × (http.status_code (response_of m reply) ≡ status_ok)
        × (http.response_to_msg (response_of m reply) ≡ some reply)

module _ (lib : MsgLib) (req : RequestLib) (lru : Lru) (parse_addr : Str → Option Addr) (a : Agent)
    (z : ZoneDns) (http : Http) (url : Str) (t : Transport) where
  -- The gateway's reply has the question of the message.
  question-gateway_reply :
      (m : Msg) (q : Question) (gw : Addr)
      → KeepsQuestions lib
      → m.question ≡ q ∷ []
      → (gateway_reply lib req z m gw).question ≡ m.question
  unfolding gateway_reply
  question-gateway_reply m q gw keeps e =
      let bare : (bare_reply lib req z m).question ≡ m.question =
        keeps.question-size_and_do m _ ∙ keeps.question-set_reply blank m q e in
      ground (arith, bare)

  -- The message that central gets.
  abbrev arriving : Str → Msg → Msg
  arriving src_ip r = record (sent_for lib req lru parse_addr a src_ip r) { id = 0 }

  question-arriving : (src_ip : Str) (r : Msg) → (arriving src_ip r).question ≡ r.question
  question-arriving src_ip r = question-outbound lib a.edns0_code _ r

  -- A query between two zones: the agent finds the one, and the registry of central has the other.
  pub record IsCrossing (src_ip : Str) (r : Msg) (source dest : Str) : Type 0 where
    pub question : Question
    pub single : r.question ≡ question ∷ []
    pub address : is_address_query req r ≡ true
    pub resolved : (resolve_zone parse_addr a src_ip).0 ≡ some source
    pub valid : Ednszone.valid source ≡ true
    pub known : Registry.lookup z.registry (req.name r.question) ≡ some dest
    pub differ : dest ≢ source

  arriving-IsBetweenZones :
      (src_ip : Str) (r : Msg) (source dest : Str)
      → KeepsQuestions lib
      → z.identity.code ≡ a.edns0_code
      → IsAgent z.identity t
      → IsCrossing src_ip r source dest
      → IsBetweenZones lib req z t (arriving src_ip r) source dest
  arriving-IsBetweenZones src_ip r source dest keeps code agent k = record {
    address = rw (question-arriving src_ip r) k.address;
    trusted = (source_zone_iff lib z.identity t (arriving src_ip r) source).0 (
        zone_arrives lib parse_addr a z.identity t src_ip r (arriving src_ip r) code agent
          (keeps.options-id 0 _)
        ∙ rw (k.resolved, k.valid) refl);
    known = rw (question-arriving src_ip r) k.known;
    differ = k.differ;
  }

  exchange-delivered :
      (m reply : Msg)
      → IsServing lib req http url z t
      → (Central.serve_dns lib req z t (record m { id = 0 })).outcome ≡ Central.replied reply
      → as_upstream http url m ≡ some (record reply { id = m.id })
  unfolding as_upstream
  exchange-delivered m reply serving h =
      let d = serving.delivered (record m { id = 0 }) reply h in
      let e : exchange http url m ≡ ok (record reply { id = m.id }) =
        (exchange_iff http url m _).1 (record {
          request = serving.request_of (record m { id = 0 }) reply;
          sent = d.0;
          response = serving.response_of (record m { id = 0 }) reply;
          received = d.1;
          status = d.2;
          decoded = reply;
          body = d.3;
          restored = refl;
        }) in
      ground (arith, e)

  -- A query between two zones is answered with the gateway of the other. The conditions: the
  -- methods of messages keep questions, agent and central use one option code, central's URL is
  -- the agent's upstream and serves what central replies, the connection is that of an authorized
  -- agent, the query is one address question from a source whose zone the agent finds, for a name
  -- that the registry has under another zone, which has a plain gateway address, and the cache has
  -- no answer yet. Then the client gets the address of that gateway, with code success and under
  -- the number of its query.
  pub gateway_arrives :
      (src_ip : Str) (now : ℕ) (r : Msg) (table : lru.Table) (source dest : Str) (gw : Addr)
      → KeepsQuestions lib
      → z.identity.code ≡ a.edns0_code
      → IsAgent z.identity t
      → a.upstream ≡ as_upstream http url
      → IsServing lib req http url z t
      → IsCrossing src_ip r source dest
      → Zonetable.gateway z.zones dest ≡ some gw
      → IsPlain gw
      → (cached_for lib req lru parse_addr a src_ip now r table).0 ≡ none
      → (written : Msg) × ((serve_dns lib req lru parse_addr a src_ip now r table).0.outcome
          ≡ replied written)
        × (written.id ≡ r.id)
        × (written.rcode ≡ rcode_success)
        × (written.answer ≡ gateway_records (header lib req z r) (req.qtype r.question) gw)
  unfolding header
  gateway_arrives src_ip now r table source dest gw keeps code agent upward serving k found plain
        miss =
      let m = arriving src_ip r in
      let reply = gateway_reply lib req z m gw in
      let routed : (Central.serve_dns lib req z t m).outcome ≡ Central.replied reply =
        serve_dns-crossed lib req z t m source dest
          (arriving-IsBetweenZones src_ip r source dest keeps code agent k)
        ∙ rw found refl in
      let sent = sent_for lib req lru parse_addr a src_ip r in
      let answer : Msg = record reply { id = sent.id } in
      let up : a.upstream sent ≡ some answer =
        ap (λ f. f sent) upward ∙ exchange-delivered sent reply serving routed in
      let own =
        AreSame-of_eq sent.question answer.question
          (question-gateway_reply m k.question gw keeps (question-arriving src_ip r ∙ k.single)) in
      let given =
        serve_dns_relayed lib req lru parse_addr a src_ip now r answer table miss (up, own) in
      let (records, success) = gateway_reply-answer lib req z m gw plain in
      (
        given.written,
        given.outcome,
        given.is_reply.id,
        given.is_reply.rcode ∙ success,
        given.is_reply.answer ∙ records ∙ rw (question-arriving src_ip r) refl,
      )
