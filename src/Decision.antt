-- ===== src/Decision.antt =====
-- internal/decision/decision.go: the decision table.
pub mod Laws
use zonedns.Prelude.{ℕ, String, Bool, Option, none, some, ◌==◌, not, if◌then◌else◌}
use zonedns.Text.{Str, str_eq}
use zonedns.Netip.{Addr, invalid}

-- `other` is a value of the Go type int that no constant names.
pub data Action : Type 0 where
  pass_through answer_gateway serv_fail : Action
  other : ℕ → Action

pub action_string : Action → String
action_string pass_through = "passthrough"
action_string answer_gateway = "gateway"
action_string serv_fail = "servfail"
action_string (other _) = "unknown"

pub record Input : Type 0 where
  pub source_zone : Str
  pub source_ok : Bool
  pub dest_zone : Str
  pub dest_ok : Bool

pub record Decision : Type 0 where
  pub action : Action
  pub gateway : Addr

unfoldable pub decide : Input → (Str → Option Addr) → Decision
decide i gateway =
    if not i.source_ok
    then record { action = pass_through; gateway = invalid }
    else if not i.dest_ok
    then record { action = pass_through; gateway = invalid }
    else if i.dest_zone == i.source_zone
    then record { action = pass_through; gateway = invalid }
    else elim (gateway i.dest_zone) [
      | none ↦ record { action = serv_fail; gateway = invalid }
      | some gw ↦ record { action = answer_gateway; gateway = gw }
    ]
