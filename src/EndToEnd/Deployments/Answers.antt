-- ===== src/EndToEnd/Deployments/Answers.antt =====
-- Both plugins set up: what they answer together.
use zonedns.Prelude.{ℕ, ◌≡◌, ◌≢◌, refl, ap, ◌∙◌, true, Option, none, some, List, [], ◌∷◌, ◌++◌, ok}
use zonedns.Text.{Str, str_eq}
use zonedns.GoMap
use zonedns.Dns.{Msg, MsgLib, RequestLib, Question, rcode_success, class_inet}
use zonedns.Netip.{Addr}
use zonedns.Spiffezone.{Url}
use zonedns.Ednszone
use zonedns.Resources.{Action, Spiffe}
use zonedns.Kube.{Kube}
use zonedns.Caddy.{Dispenser, ℤ}
use zonedns.Identity
use zonedns.Identity.{Cert, Transport, new_config, peer_certificates, spiffe_id_from_cert}
use zonedns.Registry.{Stats, Store}
use zonedns.Registry.Poller.{Lister, run}
use zonedns.Registry.Poller.Polls.{IsPolled}
use zonedns.Zonetable
use zonedns.Zonetable.Laws.{gateway-new}
use zonedns.Central.{ZoneDns, is_address_query, header}
use zonedns.Central.Answers.{IsPlain, gateway_records}
use zonedns.Setup
use zonedns.Setup.Checks as CentralChecks
use zonedns.Startup
use zonedns.Startup.{Grpc, Gauges}
use zonedns.Startup.Installs as CentralInstalls
use zonedns.Podzone
use zonedns.Agent.{Agent, resolve_zone}
use zonedns.AgentSetup.{agent_of}
use zonedns.AgentStartup
use zonedns.AgentStartup.Installs.{agent_setup_installs}
use zonedns.Readiness.{Readiness}
use zonedns.Zonecache.{Lru}
use zonedns.Dohupstream.{Http}
use zonedns.Dohupstream.Mtls.{HttpClient}
use zonedns.Agent.{replied, serve_dns}
use zonedns.Agent.Replies.{cached_for}
use zonedns.EndToEnd.Gateways.{KeepsQuestions, IsServing, gateway_arrives}
use zonedns.EndToEnd.Deployments.{
  IsListedAgent, listed-IsAgent, IsIn, lookup-polled, resolved-IsValid,
}

module _ (central_spiffe : Spiffe) (grpc : Grpc central_spiffe) (parse_addr : Str → Option Addr)
    (parse_duration : Str → Option ℤ) (d : Dispenser) where
  -- What central was set up from: its Corefile, and the instance that came of it.
  pub record IsCentral (cfg : Setup.Config) (i : Startup.Instance central_spiffe grpc)
      : Type 0 where
    pub directives : List Str
    pub transport : Str
    pub tokens : d.State
    pub gauges : Gauges
    pub out : Startup.Started central_spiffe grpc
    pub down : List Action
    pub parsed : Setup.parse_config parse_duration parse_addr d tokens ≡ some (ok cfg)
    pub started :
        Startup.setup central_spiffe grpc parse_duration parse_addr d directives transport tokens
          gauges
        ≡ some out
    pub installed : out.outcome.1 ≡ ok (i, down)

  -- The handler of central after polls, the last one by `lister`.
  abbrev pub central_after : Startup.Instance central_spiffe grpc → List Lister → Lister → ZoneDns
  central_after i before lister = Startup.handler_at central_spiffe grpc i (before ++ lister ∷ [])

  central-fields :
      (cfg : Setup.Config) (i : Startup.Instance central_spiffe grpc)
      → IsCentral cfg i
      → (i ≡ Startup.instance_of central_spiffe grpc cfg i.conn) × CentralChecks.IsAccepted cfg
  central-fields cfg i k =
      let n =
        CentralInstalls.setup_installs central_spiffe grpc parse_duration parse_addr d k.directives
          k.transport k.tokens k.gauges k.out i k.down k.started k.installed in
      let same : n.cfg ≡ cfg = cc (n.parsed, k.parsed) in
      (rw (← same) n.connected.made, rw (← same) n.accepted)

  -- What central is after a poll, in terms of its configuration.
  central-identity :
      (cfg : Setup.Config) (i : Startup.Instance central_spiffe grpc) (before : List Lister)
      (lister : Lister)
      → IsCentral cfg i
      → ((central_after i before lister).identity ≡ new_config cfg.authorized_agents cfg.edns0_code)
        × ((central_after i before lister).ttl ≡ cfg.ttl)
        × ((zone : Str)
            → Zonetable.gateway (central_after i before lister).zones zone
              ≡ GoMap.lookup zone cfg.gateways)
  unfolding Startup.instance_of Setup.zones
  central-identity cfg i before lister k =
      let (made, accepted) = central-fields cfg i k in
      (
        ap (λ (j : Startup.Instance central_spiffe grpc). j.handler.identity) made,
        ap (λ (j : Startup.Instance central_spiffe grpc). j.handler.ttl) made,
        λ zone.
            ap
              (λ (j : Startup.Instance central_spiffe grpc). Zonetable.gateway j.handler.zones zone)
              made
            ∙ gateway-new cfg.gateways zone accepted.sane.zones_once,
      )

module _ (spiffe : Spiffe) (kube : Kube) (lru : Lru) (parse_addr : Str → Option Addr)
    (parse_url : Str → Option Url) (d : Dispenser) where
  -- What an agent was set up from, and the instance.
  pub record IsNodeAgent (i : AgentStartup.Instance spiffe kube lru) : Type 0 where
    pub directives : List Str
    pub env : Str
    pub tokens : d.State
    pub readiness : Readiness
    pub out : AgentStartup.Started spiffe kube lru
    pub down : List Action
    pub started :
        AgentStartup.setup spiffe kube lru parse_addr parse_url d directives env tokens readiness
        ≡ some out
    pub installed : out.outcome.1 ≡ ok (i, down)

  module _ (speak : HttpClient spiffe → Http) where
    -- The handler of an agent after events of its watcher.
    abbrev pub agent_after : AgentStartup.Instance spiffe kube lru → List Podzone.Event → Agent
    agent_after i es =
        AgentStartup.handler_at spiffe kube lru speak i (Podzone.run parse_addr i.watcher es)

    agent-IsValid :
        (i : AgentStartup.Instance spiffe kube lru) (es : List Podzone.Event) (src_ip zone : Str)
        → IsNodeAgent i
        → (resolve_zone parse_addr (agent_after i es) src_ip).0 ≡ some zone
        → Ednszone.valid zone ≡ true
    agent-IsValid i es src_ip zone k found =
        let n =
          agent_setup_installs spiffe kube lru parse_addr parse_url d k.directives k.env k.tokens
            k.readiness k.out i k.down k.started k.installed in
        resolved-IsValid parse_addr parse_url i.cfg i.cfg.mode es _ src_ip zone refl
          n.accepted.one_mode (rw n.unstarted at found)

module _ (lib : MsgLib) (req : RequestLib) (lru : Lru) (parse_addr : Str → Option Addr)
    (central_spiffe : Spiffe) (grpc : Grpc central_spiffe) (spiffe : Spiffe) (kube : Kube)
    (parse_url : Str → Option Url) (parse_duration : Str → Option ℤ) (d : Dispenser)
    (speak : HttpClient spiffe → Http) where
  abbrev asked : AgentStartup.Instance spiffe kube lru → List Podzone.Event → Agent
  asked i es = agent_after spiffe kube lru parse_addr parse_url d speak i es

  abbrev polled : Startup.Instance central_spiffe grpc → List Lister → Lister → ZoneDns
  polled c before lister =
      central_after central_spiffe grpc parse_addr parse_duration d c before lister

  -- The product, from two Corefiles and SPIRE's entries to an answer. The conditions: an agent and
  -- a central server were set up, with one option code; the methods of messages keep questions;
  -- the last poll of central succeeded; the connection is that of an agent that central's Corefile
  -- lists, and the agent's URL serves what central replies; the query is one address question,
  -- from a source whose zone the agent finds, and all entries of the poll that claim its name are
  -- of one other zone; central's Corefile gives that zone a plain gateway address; and the cache
  -- has no answer yet. Then the client gets, under the number of its query and with code success,
  -- the address of that gateway with the TTL of central's Corefile if its family is that of the
  -- query, and no record if it is not.
  pub deployment_answers :
      (cfg : Setup.Config) (c : Startup.Instance central_spiffe grpc) (before : List Lister)
      (lister : Lister) (st : Store) (stats : Stats) (i : AgentStartup.Instance spiffe kube lru)
      (es : List Podzone.Event) (t : Transport) (src_ip : Str) (now : ℕ) (r : Msg)
      (table : lru.Table) (question : Question) (source dest : Str) (gw : Addr)
      → IsCentral central_spiffe grpc parse_addr parse_duration d cfg c
      → IsNodeAgent spiffe kube lru parse_addr parse_url d i
      → (p : IsPolled lister (run c.poller before).0.store st stats) → KeepsQuestions lib
      → cfg.edns0_code ≡ i.cfg.edns0_code
      → IsListedAgent cfg.authorized_agents t
      → IsServing lib req (speak i.client.hc) i.client.url (polled c before lister) t
      → r.question ≡ question ∷ []
      → is_address_query req r ≡ true
      → (resolve_zone parse_addr (asked i es) src_ip).0 ≡ some source
      → IsIn p.all (req.name r.question) dest
      → dest ≢ source
      → GoMap.lookup dest cfg.gateways ≡ some gw
      → IsPlain gw
      → (cached_for lib req lru parse_addr (asked i es) src_ip now r table).0 ≡ none
      → (written : Msg) × ((serve_dns lib req lru parse_addr
            (asked i es)
            src_ip
            now
            r
            table).0.outcome
          ≡ replied written)
        × (written.id ≡ r.id)
        × (written.rcode ≡ rcode_success)
        × (written.answer
            ≡ gateway_records
                (λ rrtype. record {
                  name = req.qname r.question;
                  rrtype = rrtype;
                  class = class_inet;
                  ttl = cfg.ttl;
                })
                (req.qtype r.question)
                gw)
  unfolding agent_of header new_config
  deployment_answers cfg c before lister st stats i es t src_ip now r table question source dest gw
        central node p keeps codes listed serving single address found claimed differ gateway plain
        miss =
      let (identity, ttl, zones) =
        central-identity central_spiffe grpc parse_addr parse_duration d cfg c before lister
          central in
      let (written, outcome, id, rcode, answer) =
        gateway_arrives lib req lru parse_addr (asked i es) (polled c before lister)
          (speak i.client.hc) i.client.url t src_ip now r table source dest gw keeps
          (ap (λ (k : Identity.Config). k.code) identity ∙ codes)
          (rw identity (listed-IsAgent cfg.authorized_agents cfg.edns0_code t listed)) refl serving
          (record {
            question = question;
            single = single;
            address = address;
            resolved = found;
            valid =
                agent-IsValid spiffe kube lru parse_addr parse_url d speak i es src_ip source node
                  found;
            known =
                lookup-polled c.poller before lister st stats p (req.name r.question) dest claimed;
            differ = differ;
          })
          (zones dest ∙ gateway) plain miss in
      (written, outcome, id, rcode, answer ∙ rw ttl refl)
