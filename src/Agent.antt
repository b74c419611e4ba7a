-- ===== src/Agent.antt =====
-- plugin/zonedns_agent/agent.go and resolver.go: the handler on the node. The address parser, the
-- upstream client and the cache table are parameters.
pub mod Declaration
pub mod Questions
pub mod Replies
pub mod Sources
pub mod Ages
pub mod Histories
pub mod Repeats
use zonedns.Prelude.{
  ℕ, ◌≡◌, Bool, true, false, not, ◌&&◌, ◌||◌, Option, none, some, List, [], ◌∷◌, length, ◌==◌,
  if◌then◌else◌, nat_eq, is_some,
}
use zonedns.Text.{Str, str_eq, equal_fold}
use zonedns.Dns.{Msg, MsgLib, RequestLib, Question, rcode_server_failure}
use zonedns.Netip.{Addr, addr_eq, is_valid}
use zonedns.Ednszone
use zonedns.Zonecache
use zonedns.Zonecache.{Lru}

-- ZoneResolver; podzone's watcher implements it by `Podzone.zone`.
abbrev pub Resolver : Type 0
Resolver = Addr → Option Str

-- Zone of a StaticResolver
unfoldable pub static_resolver : Str → Resolver
static_resolver zone src = if zone == [] then none else some zone

pub data Resolution : Type 0 where
  bad_source node_ip unknown resolved : Resolution

-- The fields of Agent that do not change, the upstream as a function: none is an error.
pub record Agent : Type 0 where
  pub resolver : Resolver
  pub upstream : Msg → Option Msg
  pub edns0_code : ℕ
  pub node_ip : Addr

pub data Outcome : Type 0 where
  replied : Msg → Outcome
  returned : ℕ → Outcome

-- What one query does: the label of the resolution counter, whether the cache hit, the message
-- that went to the upstream, whether its error counter was raised, and the outcome.
pub record Served : Type 0 where
  pub resolution : Resolution
  pub hit : Bool
  pub sent : Option Msg
  pub upstream_error : Bool
  pub outcome : Outcome

-- The loop of `answersQuestion`, over questions of equal number.
same_questions : List Question → List Question → Bool
same_questions [] answered = true
same_questions (q ∷ qs) [] = false
same_questions (q ∷ qs) (p ∷ answered) =
    if not (equal_fold q.name p.name) || not (q.qtype == p.qtype) || not (q.qclass == p.qclass)
    then false
    else same_questions qs answered

unfoldable pub answers_question : Msg → Msg → Bool
unfolding same_questions
answers_question outbound answer =
    if not (length answer.question == length outbound.question)
    then false
    else same_questions outbound.question answer.question

module _ (parse_addr : Str → Option Addr) (a : Agent) where
  -- (zone, true) is `some zone`.
  unfoldable pub resolve_zone : Str → Option Str × Resolution
  resolve_zone src_ip = elim (parse_addr src_ip) [
    | none ↦ (none, bad_source)
    | some src ↦
        if is_valid a.node_ip && src == a.node_ip
        then (none, node_ip)
        else elim (a.resolver src) [ none ↦ (none, unknown) | some zone ↦ (some zone, resolved) ]
  ]

module _ (lib : MsgLib) where
  unfoldable pub strip_zone_option : ℕ → Msg → Msg
  strip_zone_option code m = elim (lib.edns0_options m) [
    | none ↦ m
    | some os ↦ lib.store_options (Ednszone.strip code os) m
  ]

  -- The message for the upstream.
  unfoldable pub outbound : ℕ → Option Str → Msg → Msg
  unfolding strip_zone_option
  outbound code zone r =
      let stripped = strip_zone_option code r in
      elim zone [ none ↦ stripped | some z ↦ Ednszone.set lib code z stripped ]

  -- SetReply, and the Rcode of before.
  unfoldable pub reply : Msg → Msg → Msg
  reply r m = record (lib.set_reply m r) { rcode = m.rcode }

abbrev pub zone_or_empty : Option Str → Str
zone_or_empty none = []
zone_or_empty (some zone) = zone

module _ (lib : MsgLib) (req : RequestLib) (lru : Lru) (parse_addr : Str → Option Addr)
    (a : Agent) where
  open lru use {Table}

  -- From the upstream's result on; `t` is the table after the lookup, `now` the time before it.
  unfoldable pub finish : Resolution → Str → ℕ → Msg → Msg → Option Msg → Table → Served × Table
  unfolding reply answers_question
  finish resolution zone now r sent none t = (
    record {
      resolution = resolution;
      hit = false;
      sent = some sent;
      upstream_error = true;
      outcome = returned rcode_server_failure;
    },
    t,
  )
  finish resolution zone now r sent (some answer) t =
      if not (answers_question sent answer)
      then (
        record {
          resolution = resolution;
          hit = false;
          sent = some sent;
          upstream_error = true;
          outcome = returned rcode_server_failure;
        },
        t,
      )
      else (
        record {
          resolution = resolution;
          hit = false;
          sent = some sent;
          upstream_error = false;
          outcome = replied (reply lib r answer);
        },
        Zonecache.put lru (req.name r.question) (req.qtype r.question) zone (some answer) now t,
      )

  -- A query from an address, at a time.
  unfoldable pub serve_dns : Str → ℕ → Msg → Table → Served × Table
  unfolding finish resolve_zone outbound reply
  serve_dns src_ip now r t =
      let (zone, resolution) = resolve_zone parse_addr a src_ip in
      let (cached, t') =
        Zonecache.get lru (req.name r.question) (req.qtype r.question) (zone_or_empty zone) now t in
      let sent = outbound lib a.edns0_code zone r in
      elim cached [
        | some m ↦ (
          record {
            resolution = resolution;
            hit = true;
            sent = none;
            upstream_error = false;
            outcome = replied (reply lib r m);
          },
          t',
        )
        | none ↦ finish resolution (zone_or_empty zone) now r sent (a.upstream sent) t'
      ]
