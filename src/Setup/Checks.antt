-- ===== src/Setup/Checks.antt =====
-- What an accepted configuration guarantees, and that parsing ends.
use zonedns.Prelude.{
  suc, ◌≡◌, ◌≢◌, ◌⊎◌, inl, inr, true, Option, none, some, [], length, arith, ◌==◌, eq_iff, nat_eq,
  Option-cases, Bool-cases, Result-cases, ok,
}
use zonedns.Text.{Str, str_eq, text, has_prefix}
use zonedns.Netip.{Addr}
use zonedns.Caddy.Loops.{Moves, blocks_lem}
use zonedns.Caddy.{Dispenser, blocks, ℤ}
use zonedns.Setup.{
  Config, default_config, add_gateway, option_named, set_option, finish, property, parse_config,
}
use zonedns.Setup.Options.{IsSane, default-IsSane, set_option-IsSane, add_gateway-IsSane}

-- What holds of a configuration that is accepted.
pub record IsAccepted (cfg : Config) : Type 0 where
  pub sane : IsSane cfg
  pub has_server : cfg.spire_server ≢ []
  pub has_agent : cfg.authorized_agents ≢ []
  pub server_pinned :
      (has_prefix cfg.spire_server (text "unix://") ≡ true) ⊎ (cfg.spire_server_id ≢ [])

module _ (parse_duration : Str → Option ℤ) (parse_addr : Str → Option Addr) where
  finish-IsAccepted :
      (cfg out : Config)
      → finish parse_duration parse_addr cfg ≡ ok out
      → IsSane cfg
      → IsAccepted out
  unfolding finish
  finish-IsAccepted cfg out h k =
      let e : cfg ≡ out = ground arith in
      rw (← e) record {
        sane = k;
        has_server = ground (arith, eq_iff cfg.spire_server []);
        has_agent = ground (arith, eq_iff (length cfg.authorized_agents) 0);
        server_pinned = elim (Bool-cases (has_prefix cfg.spire_server (text "unix://"))) [
          | inl unix ↦ inl unix
          | inr net ↦ inr (ground (arith, net, eq_iff cfg.spire_server_id []))
        ];
      }

  module _ (d : Dispenser) where
    open d use {State}

    property-Moves :
        (s s' : State) (cfg cfg' : Config)
        → property parse_duration parse_addr d s cfg ≡ ok (cfg', s')
        → Moves d IsSane s cfg cfg' s'
    unfolding property
    property-Moves s s' cfg cfg' h = elim (Bool-cases (d.val s == text "gateway")) [
      | inl e ↦
          elim (Result-cases (add_gateway parse_duration parse_addr (d.remaining_args s).0 cfg)) [
            | inl (x, f) ↦ ground (arith, e, f)
            | inr (out, f) ↦
                let q : out ≡ cfg' = ground (arith, e, f) in
                (
                  λ k. rw (← q) (
                      add_gateway-IsSane parse_duration parse_addr (d.remaining_args s).0 cfg out f
                        k),
                  ground (arith, e, f, d.left-remaining_args s),
                )
          ]
      | inr e ↦ elim (Option-cases (option_named (d.val s))) [
        | inl f ↦ ground (arith, e, f)
        | inr (o, f) ↦ elim (Bool-cases (d.next_arg s).0) [
          | inr g ↦ ground (arith, e, f, g)
          | inl g ↦
              elim (Result-cases
                (set_option parse_duration parse_addr o (d.val (d.next_arg s).1) cfg)) [
                  | inl (x, r) ↦ ground (arith, e, f, g, r)
                  | inr (out, r) ↦
                      let q : out ≡ cfg' = ground (arith, e, f, g, r) in
                      (
                        λ k. rw (← q) (
                            set_option-IsSane parse_duration parse_addr o (d.val (d.next_arg s).1)
                              cfg out r k),
                        ground (arith, e, f, g, r, d.left-next_arg s),
                      )
                ]
        ]
      ]
    ]

    -- The configuration of a Corefile with any tokens is accepted or refused: the loops end. An
    -- accepted one has a server, an agent, the server's identity unless it is a local socket, a
    -- positive interval, an option code and a TTL in their ranges, and only gateways of zones that
    -- an agent can declare.
    pub parse_config-IsAccepted :
        (s : State)
        → (parse_config parse_duration parse_addr d s ≢ none)
          × ((cfg : Config)
              → parse_config parse_duration parse_addr d s ≡ some (ok cfg)
              → IsAccepted cfg)
    unfolding parse_config
    parse_config-IsAccepted s =
        let (ends, sane) =
          blocks_lem d (property parse_duration parse_addr d) IsSane property-Moves s default_config
            default-IsSane in
        elim (Option-cases
          (blocks d (property parse_duration parse_addr d) (suc (d.left s)) s default_config)) [
            | inl e ↦ absurd (ends e)
            | inr (r, e) ↦ elim (Result-cases r) [
              | inl (x, f) ↦ (λ h. ground (arith, e, f), λ cfg h. ground (arith, e, f))
              | inr (mid, f) ↦ (
                λ h. ground (arith, e, f),
                λ cfg h.
                    finish-IsAccepted mid cfg (ground (arith, e, f))
                      (sane mid (ground (arith, e, f))),
              )
            ]
          ]
