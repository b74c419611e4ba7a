-- ===== src/EndToEnd.antt =====
-- The path of a zone from the node to central: plugin/zonedns_agent/agent.go declares it,
-- internal/identity/identity.go reads it.
pub mod Machines
pub mod Relays
pub mod Gateways
pub mod Deployments
use zonedns.Prelude.{
  ℕ, ◌≡◌, refl, ◌∙◌, true, Option, none, some, List, [], ◌∷◌, arith, if◌then◌else◌,
}
use zonedns.Text.{Str, str_eq}
use zonedns.GoMap
use zonedns.Dns.{Msg, MsgLib}
use zonedns.Netip.{Addr}
use zonedns.Ednszone
use zonedns.Ednszone.Laws.{carried, sole, get_sole}
use zonedns.Identity.{
  Cert, Transport, Reason, Config, peer_certificates, spiffe_id_from_cert, reason_ok,
  no_declaration, source_zone,
}
use zonedns.Identity.Laws.{source_zone-identified}
use zonedns.Agent.{Agent, outbound, resolve_zone}
use zonedns.Agent.Declaration.{declared, carried-outbound}
use zonedns.Agent.Sources.{IsNode, resolve_zone_iff}
use zonedns.Podzone
use zonedns.Podzone.Refinement.{no_pods, reports, zone_sound}
use zonedns.Podzone.Zones.{zone-IsValid}

-- The verdict on an authorized agent that has the given zone of a query.
abbrev pub verdict : Option Str → Str × Reason
verdict none = ([], no_declaration)
verdict (some zone) = if Ednszone.valid zone then (zone, reason_ok) else ([], no_declaration)

-- A connection whose leaf certificate is that of an authorized agent.
pub record IsAgent (c : Config) (t : Transport) : Type 0 where
  pub leaf : Cert
  pub chain : List Cert
  pub presented : peer_certificates t ≡ some (leaf ∷ chain)
  pub id : Str
  pub identified : spiffe_id_from_cert leaf ≡ some id
  pub authorized : GoMap.has id c.authorized ≡ true

module _ (lib : MsgLib) where
  carried-same :
      (code : ℕ) (m n : Msg)
      → lib.edns0_options m ≡ lib.edns0_options n
      → carried lib code m ≡ carried lib code n
  unfolding Ednszone.options_of
  carried-same code m n e = ground (arith, e)

  get-outbound :
      (code : ℕ) (found : Option Str) (r m : Msg)
      → lib.edns0_options m ≡ lib.edns0_options (outbound lib code found r)
      → Ednszone.get lib code m ≡ sole (declared found)
  get-outbound code found r m e = rw (get_sole, carried-same code m _ e, carried-outbound)

  verdict-sole :
      (zone : Option Str)
      → elim (sole (declared zone)) [ none ↦ ([], no_declaration) | some z ↦ (z, reason_ok) ]
        ≡ verdict zone
  verdict-sole none = refl
  verdict-sole (some zone) = ground arith

  module _ (parse_addr : Str → Option Addr) (a : Agent) (c : Config) (t : Transport) where
    -- If central and an agent use one option code and the connection is that of an authorized
    -- agent, central's verdict on any message with the EDNS0 options of the agent's is the zone that
    -- the agent found for the source, whatever the client declared itself; it is no declaration if
    -- the agent found none or a malformed one.
    pub zone_arrives :
        (src_ip : Str) (r m : Msg)
        → c.code ≡ a.edns0_code
        → IsAgent c t
        → lib.edns0_options m
          ≡ lib.edns0_options (outbound lib a.edns0_code (resolve_zone parse_addr a src_ip).0 r)
        → source_zone lib c t m ≡ verdict (resolve_zone parse_addr a src_ip).0
    zone_arrives src_ip r m code k same =
        source_zone-identified lib c t k.leaf k.chain k.id m k.presented k.identified k.authorized
        ∙ rw (code, get-outbound a.edns0_code _ r m same) (verdict-sole _)

    -- Central believes the zone of a pod. The conditions: central and the agent use one option
    -- code, the connection is that of an authorized agent, the message has the EDNS0 options of the
    -- agent's, and the agent's resolver is a watcher after any events that is ready and knows the
    -- address of the source, which is not the node's own. Then central's verdict is the zone that
    -- the watcher has, under which some pod with this address was last reported.
    pub pod_zone_arrives :
        (label : Str) (es : List Podzone.Event) (src_ip zone : Str) (src : Addr) (r m : Msg)
        → c.code ≡ a.edns0_code
        → IsAgent c t
        → a.resolver ≡ Podzone.zone (Podzone.run parse_addr (Podzone.new label) es)
        → parse_addr src_ip ≡ some src
        → ¬ (IsNode a src)
        → Podzone.zone (Podzone.run parse_addr (Podzone.new label) es) src ≡ some zone
        → lib.edns0_options m
          ≡ lib.edns0_options (outbound lib a.edns0_code (resolve_zone parse_addr a src_ip).0 r)
        → (source_zone lib c t m ≡ (zone, reason_ok))
          × ((pod : Podzone.PodKey) × (reports parse_addr label no_pods es pod ≡ some (src, zone)))
    pod_zone_arrives label es src_ip zone src r m code k watcher parsed outside known same =
        let found : (resolve_zone parse_addr a src_ip).0 ≡ some zone =
          (resolve_zone_iff parse_addr a src_ip zone).1
            (src, (parsed, (outside, rw watcher known))) in
        (
          zone_arrives src_ip r m code k same
              ∙ rw (found, zone-IsValid parse_addr label es src zone known) refl,
          (zone_sound parse_addr label es src zone known).1,
        )
