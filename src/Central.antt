-- ===== src/Central.antt =====
-- plugin/zonedns/zonedns.go: the handler of the central plugin.
pub mod Answers
pub mod Routes
use zonedns.Prelude.{
  ℕ, Bool, true, false, not, ◌&&◌, Option, none, some, List, [], ◌∷◌, ◌==◌, if◌then◌else◌, is_some,
  nat_eq,
}
use zonedns.Text.{Str}
use zonedns.Dns.{
  Msg, MsgLib, RequestLib, Header, Rdata, Rr, a, aaaa, type_a, type_aaaa, class_inet,
  rcode_server_failure, blank,
}
use zonedns.Netip.{Addr, parse_ip, to4, to16}
use zonedns.Identity
use zonedns.Identity.{Config, Transport, Reason, reason_ok, source_zone}
use zonedns.Registry
use zonedns.Registry.{Store}
use zonedns.Zonetable
use zonedns.Zonetable.{Table}
use zonedns.Decision
use zonedns.Decision.{
  Action, pass_through, answer_gateway, serv_fail, other, Input, Decision, decide,
}

pub record ZoneDns : Type 0 where
  pub identity : Config
  pub registry : Store
  pub zones : Table
  pub ttl : ℕ

-- What becomes of a query: the next plugin serves it, a message is written and the code is
-- success, or a code is returned.
pub data Outcome : Type 0 where
  next_plugin : Outcome
  replied : Msg → Outcome
  returned : ℕ → Outcome

-- The outcome, with the labels of the two counters that were raised.
pub record Served : Type 0 where
  pub reason : Option Reason
  pub action : Option Action
  pub outcome : Outcome

abbrev pub is_address_query : RequestLib → Msg → Bool
is_address_query req r =
    not (not (req.qtype r.question == type_a) && not (req.qtype r.question == type_aaaa))

is_ok : Reason → Bool
is_ok reason_ok = true
is_ok _ = false

abbrev str_or_empty : Option Str → Str
str_or_empty none = []
str_or_empty (some s) = s

module _ (lib : MsgLib) (req : RequestLib) (z : ZoneDns) where
  unfoldable pub header : Msg → ℕ → Header
  header r rrtype = record {
    name = req.qname r.question;
    rrtype = rrtype;
    class = class_inet;
    ttl = z.ttl;
  }

  -- The message that `answerGateway` writes.
  unfoldable pub gateway_reply : Msg → Addr → Msg
  unfolding header
  gateway_reply r gw =
      let ip = parse_ip gw in
      let is_v4 = is_some (to4 ip) in
      let m = lib.size_and_do r (record (lib.set_reply blank r) { authoritative = true }) in
      if req.qtype r.question == type_a && is_v4
      then record m { answer = record { header = header r type_a; rdata = a (to4 ip) } ∷ [] }
      else if req.qtype r.question == type_aaaa && not is_v4
      then record m { answer = record { header = header r type_aaaa; rdata = aaaa (to16 ip) } ∷ [] }
      else m

  -- The switch on the action.
  act : Msg → Decision → Outcome
  act r d = elim d.action [
    | answer_gateway ↦ replied (gateway_reply r d.gateway)
    | serv_fail ↦ returned rcode_server_failure
    | pass_through ↦ next_plugin
    | other _ ↦ next_plugin
  ]

  -- decision.Input of a query.
  pub input : Transport → Msg → Input
  unfolding is_ok
  input t r =
      let (zone, reason) = source_zone lib z.identity t r in
      let dest = Registry.lookup z.registry (req.name r.question) in
      record {
        source_zone = zone;
        source_ok = is_ok reason;
        dest_zone = str_or_empty dest;
        dest_ok = is_some dest;
      }

  unfoldable pub serve_dns : Transport → Msg → Served
  unfolding act input
  serve_dns t r =
      if not (is_address_query req r)
      then record { reason = none; action = none; outcome = next_plugin }
      else let d = decide (input t r) (Zonetable.gateway z.zones) in
        record {
          reason = some (source_zone lib z.identity t r).1;
          action = some d.action;
          outcome = act r d;
        }
