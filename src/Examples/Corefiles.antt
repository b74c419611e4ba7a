-- ===== src/Examples/Corefiles.antt =====
-- Configurations, over a dispenser of words in which an option has one argument on its line, and
-- a gateway two.
pub mod Startups
pub mod Nodes
pub mod Deployed
use zonedns.Prelude.{
  ◌<◌, ◌≤◌, ◌≡◌, ◌≢◌, refl, Bool, true, false, Option, none, some, List, [], ◌∷◌, arith, length,
  ◌==◌, if◌then◌else◌, ok,
}
use zonedns.Text.{Str, str_eq, str_beq, text}
use zonedns.Dns.{Msg}
use zonedns.Spiffezone.{Url}
use zonedns.Caddy.{Dispenser, ℤ, pos}
use zonedns.Setup
use zonedns.Setup.Checks as CentralChecks
use zonedns.Setup.Checks.{parse_config-IsAccepted}
use zonedns.Identity.{reason_ok, source_zone}
use zonedns.Agent.{outbound, resolve_zone}
use zonedns.Agent.Sources.{IsNode}
use zonedns.AgentSetup
use zonedns.AgentSetup.{mode_vm, agent_of}
use zonedns.AgentSetup.Checks as AgentChecks
use zonedns.AgentSetup.Checks.{agent_config-IsAccepted}
use zonedns.EndToEnd.Machines.{vm_zone_arrives}
use zonedns.Examples.{msg_lib, parse_addr, address_one, config, transport, forged, watched, relay}
use zonedns.Examples.Journey.{transport-IsAgent, same_code}

-- The word that was read, and those that are left.
abbrev pub Words : Type 0
Words = Str × List Str

next : Words → Bool × Words
next (w, []) = (false, (w, []))
next (w, x ∷ xs) = (true, (x, xs))

next_block : Words → Bool × Words
next_block (w, []) = (false, (w, []))
next_block (w, x ∷ xs) = if x == text "}" then (false, (x, xs)) else (true, (x, xs))

remaining_args : Words → List Str × Words
remaining_args (w, x ∷ y ∷ xs) = (x ∷ y ∷ [], (y, xs))
remaining_args s = ([], s)

left-next : (s : Words) → (next s).0 ≡ true → length (next s).1.1 < length s.1
unfolding next
left-next (w, []) h = cc
left-next (w, x ∷ xs) h = omega arith

left-next_arg : (s : Words) → length (next s).1.1 ≤ length s.1
unfolding next
left-next_arg (w, []) = omega arith
left-next_arg (w, x ∷ xs) = omega arith

left-next_block : (s : Words) → (next_block s).0 ≡ true → length (next_block s).1.1 < length s.1
unfolding next_block
left-next_block (w, []) h = cc
left-next_block (w, x ∷ xs) h = ground arith

left-block_end : (s : Words) → length (next_block s).1.1 ≤ length s.1
unfolding next_block
left-block_end (w, []) = omega arith
left-block_end (w, x ∷ xs) = ground arith

left-remaining_args : (s : Words) → length (remaining_args s).1.1 ≤ length s.1
unfolding remaining_args
left-remaining_args (w, []) = omega arith
left-remaining_args (w, x ∷ []) = omega arith
left-remaining_args (w, x ∷ y ∷ xs) = omega arith

pub words : Dispenser
words = record {
  State = Words;
  next = next;
  next_block = next_block;
  next_arg = next;
  val = λ s. s.0;
  remaining_args = remaining_args;
  left = λ s. length s.1;
  left-next = left-next;
  left-next_block = left-next_block;
  left-block_end = left-block_end;
  left-next_arg = left-next_arg;
  left-remaining_args = left-remaining_args;
}

abbrev pub parse_duration : Str → Option ℤ
parse_duration v = some (pos 5)

abbrev pub parse_url : Str → Option Url
parse_url v = some (record { scheme = text "https"; path = []; string = v })

pub words_of : Words → words.State
unfolding words
words_of s = s

parse_config-IsAccepted_example :
    (Setup.parse_config parse_duration parse_addr words
        (words_of ([], text "zonedns" ∷ text "gateway" ∷ text "zone-b" ∷ text "10.0.0.1" ∷ []))
      ≢ none)
    × ((cfg : Setup.Config)
        → Setup.parse_config parse_duration parse_addr words
            (words_of ([], text "zonedns" ∷ text "gateway" ∷ text "zone-b" ∷ text "10.0.0.1" ∷ []))
          ≡ some (ok cfg)
        → CentralChecks.IsAccepted cfg)
parse_config-IsAccepted_example =
    parse_config-IsAccepted parse_duration parse_addr words
      (words_of ([], text "zonedns" ∷ text "gateway" ∷ text "zone-b" ∷ text "10.0.0.1" ∷ []))

abbrev pub corefile : words.State
corefile = words_of (
  [],
  text "zonedns_agent"
      ∷ text "mode"
      ∷ text "vm"
      ∷ text "zone"
      ∷ text "zone-a"
      ∷ text "upstream"
      ∷ text "https://central"
      ∷ text "central_spiffe_id"
      ∷ text "spiffe://test/central"
      ∷ text "workload_api"
      ∷ text "unix:///run/spire"
      ∷ text "}"
      ∷ [],
)

abbrev pub vm_config : AgentSetup.Config
vm_config = record AgentSetup.default_config {
  mode = mode_vm;
  zone = text "zone-a";
  upstream_url = text "https://central";
  central_spiffe_id = text "spiffe://test/central";
  workload_api = text "unix:///run/spire";
}

pub accepted : AgentSetup.parse_config parse_addr parse_url words [] corefile ≡ some (ok vm_config)
unfolding AgentSetup.parse_config str_beq zonedns.Caddy.blocks words next words_of next_block
    zonedns.Text.trim_suffix zonedns.Ednszone.valid
accepted = refl

agent_config-IsAccepted_example : AgentChecks.IsAccepted parse_url vm_config
agent_config-IsAccepted_example =
    (agent_config-IsAccepted parse_addr parse_url words [] corefile).1 vm_config accepted

abbrev sent : Msg
sent =
    outbound msg_lib 65001
      (resolve_zone parse_addr (agent_of vm_config watched relay) (text "10.0.0.1")).0 forged

not-IsNode : ¬ (IsNode (agent_of vm_config watched relay) address_one)
unfolding agent_of
not-IsNode (e, _) = cc

address_parsed : parse_addr (text "10.0.0.1") ≡ some address_one
unfolding parse_addr str_beq
address_parsed = refl

vm_zone_arrives_example : source_zone msg_lib config transport sent ≡ (text "zone-a", reason_ok)
vm_zone_arrives_example =
    vm_zone_arrives msg_lib parse_addr parse_url words [] corefile vm_config watched relay config
      transport (text "10.0.0.1") address_one forged sent accepted refl same_code transport-IsAgent
      address_parsed not-IsNode refl
