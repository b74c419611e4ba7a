-- ===== src/EndToEnd/Machines.antt =====
-- An agent in vm mode, from its configuration to central.
use zonedns.Prelude.{◌≡◌, ◌≢◌, ◌∙◌, refl, true, Option, some, [], arith, ok, eq_iff}
use zonedns.Text.{Str, str_eq}
use zonedns.Dns.{Msg, MsgLib}
use zonedns.Netip.{Addr}
use zonedns.Spiffezone.{Url}
use zonedns.Ednszone
use zonedns.Identity
use zonedns.Identity.{Transport, reason_ok, source_zone}
use zonedns.Caddy.{Dispenser}
use zonedns.Podzone.{Watcher}
use zonedns.Agent.{outbound, resolve_zone, static_resolver}
use zonedns.Agent.Sources.{IsNode, resolve_zone_iff}
use zonedns.AgentSetup.{Config, Mode, mode_unset, mode_vm, mode_k8s, parse_config, agent_of}
use zonedns.AgentSetup.Checks.{HasMode, agent_config-IsAccepted}
use zonedns.EndToEnd.{IsAgent, zone_arrives}

HasMode-vm :
    (cfg : Config) (m : Mode) → m ≡ mode_vm → HasMode cfg m → Ednszone.valid cfg.zone ≡ true
HasMode-vm cfg mode_vm e h = h.0
HasMode-vm cfg mode_unset e h = absurd h
HasMode-vm cfg mode_k8s e h = cc

valid-ne-nil : (zone : Str) → Ednszone.valid zone ≡ true → zone ≢ []
unfolding Ednszone.valid
valid-ne-nil zone h = ground (arith, eq_iff zone [], eq_iff {T = Str} [] [])

static_zone : (zone : Str) (src : Addr) → zone ≢ [] → static_resolver zone src ≡ some zone
unfolding static_resolver
static_zone zone src ne = ground (arith, eq_iff zone [])

module _ (lib : MsgLib) (parse_addr : Str → Option Addr) (parse_url : Str → Option Url)
    (d : Dispenser) where
  -- Central believes the zone of a machine. The conditions: the agent's configuration was accepted
  -- in vm mode, central reads the same option code, the connection is that of an authorized agent,
  -- the message has the EDNS0 options of the agent's, and the source is an address but the node's
  -- own. Then central's verdict is the configured zone.
  pub vm_zone_arrives :
      (env : Str) (s : d.State) (cfg : Config) (w : Watcher) (up : Msg → Option Msg)
      (c : Identity.Config) (t : Transport) (src_ip : Str) (src : Addr) (r m : Msg)
      → parse_config parse_addr parse_url d env s ≡ some (ok cfg)
      → cfg.mode ≡ mode_vm
      → c.code ≡ cfg.edns0_code
      → IsAgent c t
      → parse_addr src_ip ≡ some src
      → ¬ (IsNode (agent_of cfg w up) src)
      → lib.edns0_options m
        ≡ lib.edns0_options
            (outbound lib cfg.edns0_code (resolve_zone parse_addr (agent_of cfg w up) src_ip).0 r)
      → source_zone lib c t m ≡ (cfg.zone, reason_ok)
  unfolding agent_of
  vm_zone_arrives env s cfg w up c t src_ip src r m accepted vm code k parsed outside same =
      let fine = (agent_config-IsAccepted parse_addr parse_url d env s).1 cfg accepted in
      let valid = HasMode-vm cfg cfg.mode vm fine.one_mode in
      let found : (resolve_zone parse_addr (agent_of cfg w up) src_ip).0 ≡ some cfg.zone =
        (resolve_zone_iff parse_addr (agent_of cfg w up) src_ip cfg.zone).1 (
          src,
          (parsed, (outside, rw vm (static_zone cfg.zone src (valid-ne-nil cfg.zone valid)))),
        ) in
      zone_arrives lib parse_addr (agent_of cfg w up) c t src_ip r m code k same
      ∙ rw (found, valid) refl
