-- ===== src/AgentSetup/Checks.antt =====
-- What an accepted configuration of the agent guarantees, and that parsing ends.
use zonedns.Prelude.{
  suc, ◌<◌, ◌≤◌, ◌≡◌, ◌≢◌, refl, inl, inr, true, ◌||◌, Option, none, some, [], ltb, arith, ◌==◌,
  eq_iff, nat_eq, Option-cases, Bool-cases, Result-cases, Result, ok,
}
use zonedns.Text.{Str, str_eq, text, trim_suffix}
use zonedns.Netip.{Addr}
use zonedns.Spiffezone.{Url}
use zonedns.Ednszone
use zonedns.Caddy.Numbers.{positive-positive}
use zonedns.Caddy.Loops.{Moves, blocks_lem}
use zonedns.Caddy.{Dispenser, blocks, positive, parse_uint, atoi}
use zonedns.AgentSetup.{
  Mode, mode_unset, mode_k8s, mode_vm, ConfigError, bad_env, Config, default_config, OptionName,
  mode, zone, node_name, zone_label, upstream, central_spiffe_id, workload_api, cache_size, node_ip,
  edns0_code, option_named, set_mode, set_cache_size, set_code, check_mode, set_node_ip, set_option,
  read_env, finish, property, parse_config,
}

-- What holds of a configuration while it is parsed.
pub record IsSane (cfg : Config) : Type 0 where
  pub cache_size : 0 < cfg.cache_size
  pub code_low : 65001 ≤ cfg.edns0_code
  pub code_high : cfg.edns0_code ≤ 65534

-- Exactly one source of zones: a zone that can be declared, or the pods of a node.
abbrev pub HasMode : Config → Mode → Type 0
HasMode cfg mode_unset = ⊥
HasMode cfg mode_vm = (Ednszone.valid cfg.zone ≡ true) × (cfg.node_name ≡ [])
HasMode cfg mode_k8s = (cfg.node_name ≢ []) × (cfg.zone ≡ [])

-- What holds of a configuration that is accepted.
pub record IsAccepted (parse_url : Str → Option Url) (cfg : Config) : Type 0 where
  pub sane : IsSane cfg
  pub one_mode : HasMode cfg cfg.mode
  pub url : Url
  pub parsed : parse_url cfg.upstream_url ≡ some url
  pub encrypted : url.scheme ≡ text "https"
  pub no_path : trim_suffix url.path (text "/") ≡ []
  pub central_pinned : cfg.central_spiffe_id ≢ []
  pub has_workload_api : cfg.workload_api ≢ []

moved :
    {cfg out : Config}
    → ◌≡◌ {A = Result ConfigError Config} (ok cfg) (ok out)
    → IsSane cfg
    → IsSane out
moved {cfg} {out} h k = let e : cfg ≡ out = cc in rw (← e) k

same_limits :
    (cfg out : Config)
    → out.cache_size ≡ cfg.cache_size
    → out.edns0_code ≡ cfg.edns0_code
    → IsSane cfg
    → IsSane out
same_limits cfg out s c k = record {
  cache_size = rw s k.cache_size;
  code_low = rw c k.code_low;
  code_high = rw c k.code_high;
}

set_mode-IsSane : (v : Str) (cfg out : Config) → set_mode v cfg ≡ ok out → IsSane cfg → IsSane out
unfolding set_mode
set_mode-IsSane v cfg out h k = same_limits cfg out (ground arith) (ground arith) k

set_cache_size-IsSane :
    (v : Str) (cfg out : Config) → set_cache_size v cfg ≡ ok out → IsSane cfg → IsSane out
unfolding set_cache_size
set_cache_size-IsSane v cfg out h k = elim (Option-cases (atoi v)) [
  | inl e ↦ ground (arith, e)
  | inr (z, e) ↦ elim (Option-cases (positive z)) [
    | inl f ↦ ground (arith, e, f)
    | inr (n, f) ↦ moved {cfg = record cfg { cache_size = n }} (ground (arith, e, f)) (record {
      cache_size = positive-positive z n f;
      code_low = k.code_low;
      code_high = k.code_high;
    })
  ]
]

set_code-IsSane : (v : Str) (cfg out : Config) → set_code v cfg ≡ ok out → IsSane cfg → IsSane out
unfolding set_code
set_code-IsSane v cfg out h k = elim (Option-cases (parse_uint 16 v)) [
  | inl e ↦ ground (arith, e)
  | inr (n, e) ↦ elim (Bool-cases (ltb n 65001 || ltb 65534 n)) [
    | inl f ↦ ground (arith, e, f)
    | inr f ↦ moved {cfg = record cfg { edns0_code = n }} (ground (arith, e, f)) (record {
      cache_size = k.cache_size;
      code_low = ground (arith, f);
      code_high = ground (arith, f);
    })
  ]
]

check_mode-HasMode :
    (m : Mode) (cfg out : Config)
    → cfg.mode ≡ m
    → m ≢ mode_unset
    → check_mode cfg ≡ ok out
    → (cfg ≡ out) × HasMode cfg m
unfolding check_mode
check_mode-HasMode mode_unset cfg out e ne h = absurd (ne refl)
check_mode-HasMode mode_vm cfg out e ne h =
    (ground (arith, e), (ground (arith, e), ground (arith, e, eq_iff cfg.node_name [])))
check_mode-HasMode mode_k8s cfg out e ne h = (
  ground (arith, e),
  (ground (arith, e, eq_iff cfg.node_name []), ground (arith, e, eq_iff cfg.zone [])),
)

module _ (parse_addr : Str → Option Addr) (parse_url : Str → Option Url) where
  set_node_ip-IsSane :
      (x : ConfigError) (v : Str) (cfg out : Config)
      → set_node_ip parse_addr parse_url x v cfg ≡ ok out
      → IsSane cfg
      → IsSane out
  unfolding set_node_ip
  set_node_ip-IsSane x v cfg out h k = elim (Option-cases (parse_addr v)) [
    | inl e ↦ ground (arith, e)
    | inr (addr, e) ↦
        moved {cfg = record cfg { node_ip = addr }} (ground (arith, e))
          (same_limits cfg _ refl refl k)
  ]

  set_option-IsSane :
      (o : OptionName) (v : Str) (cfg out : Config)
      → set_option parse_addr parse_url o v cfg ≡ ok out
      → IsSane cfg
      → IsSane out
  unfolding set_option
  set_option-IsSane mode v cfg out h k = set_mode-IsSane v cfg out h k
  set_option-IsSane zone v cfg out h k = moved h (same_limits cfg _ refl refl k)
  set_option-IsSane node_name v cfg out h k = moved h (same_limits cfg _ refl refl k)
  set_option-IsSane zone_label v cfg out h k = moved h (same_limits cfg _ refl refl k)
  set_option-IsSane upstream v cfg out h k = moved h (same_limits cfg _ refl refl k)
  set_option-IsSane central_spiffe_id v cfg out h k = moved h (same_limits cfg _ refl refl k)
  set_option-IsSane workload_api v cfg out h k = moved h (same_limits cfg _ refl refl k)
  set_option-IsSane cache_size v cfg out h k = set_cache_size-IsSane v cfg out h k
  set_option-IsSane node_ip v cfg out h k = set_node_ip-IsSane _ v cfg out h k
  set_option-IsSane edns0_code v cfg out h k = set_code-IsSane v cfg out h k

  read_env-IsSane :
      (env : Str) (out : Config) → read_env parse_addr parse_url env ≡ ok out → IsSane out
  unfolding read_env
  read_env-IsSane env out h =
      let start : IsSane default_config = record {
        cache_size = omega arith;
        code_low = omega arith;
        code_high = omega arith;
      } in
      elim (Bool-cases (env == [])) [
        | inl e ↦ moved {cfg = default_config} (ground (arith, e)) start
        | inr e ↦ set_node_ip-IsSane bad_env env default_config out (ground (arith, e)) start
      ]

  finish-IsAccepted :
      (cfg out : Config)
      → finish parse_addr parse_url cfg ≡ ok out
      → IsSane cfg
      → IsAccepted parse_url out
  unfolding finish
  finish-IsAccepted cfg out h k = elim (Option-cases (parse_url cfg.upstream_url)) [
    | inl e ↦ ground (arith, e)
    | inr (u, e) ↦
        let (same, has) =
          check_mode-HasMode cfg.mode cfg out refl (λ q. ground (arith, e, q))
            (ground (arith, e)) in
        rw (← same) record {
          sane = k;
          one_mode = has;
          url = u;
          parsed = e;
          encrypted = ground (arith, e, eq_iff u.scheme (text "https"));
          no_path = ground (arith, e, eq_iff (trim_suffix u.path (text "/")) []);
          central_pinned = ground (arith, e, eq_iff cfg.central_spiffe_id []);
          has_workload_api = ground (arith, e, eq_iff cfg.workload_api []);
        }
  ]

  module _ (d : Dispenser) where
    open d use {State}

    property-Moves :
        (s s' : State) (cfg cfg' : Config)
        → property parse_addr parse_url d s cfg ≡ ok (cfg', s')
        → Moves d IsSane s cfg cfg' s'
    unfolding property
    property-Moves s s' cfg cfg' h = elim (Option-cases (option_named (d.val s))) [
      | inl f ↦ ground (arith, f)
      | inr (o, f) ↦ elim (Bool-cases (d.next_arg s).0) [
        | inr g ↦ ground (arith, f, g)
        | inl g ↦
            elim (Result-cases (set_option parse_addr parse_url o (d.val (d.next_arg s).1) cfg)) [
              | inl (x, r) ↦ ground (arith, f, g, r)
              | inr (out, r) ↦
                  let q : out ≡ cfg' = ground (arith, f, g, r) in
                  (
                    λ k. rw (← q) (set_option-IsSane o (d.val (d.next_arg s).1) cfg out r k),
                    ground (arith, f, g, r, d.left-next_arg s),
                  )
            ]
      ]
    ]

    -- The configuration of an agent, from any tokens and any NODE_IP, is accepted or refused: the
    -- loops end. An accepted one has an https upstream without a path, the identity of central, a
    -- Workload API, a positive cache size, an option code in the range that central accepts, and
    -- either a zone that can be declared or the name of a node, never both.
    pub agent_config-IsAccepted :
        (env : Str) (s : State)
        → (parse_config parse_addr parse_url d env s ≢ none)
          × ((cfg : Config)
              → parse_config parse_addr parse_url d env s ≡ some (ok cfg)
              → IsAccepted parse_url cfg)
    unfolding parse_config
    agent_config-IsAccepted env s = elim (Result-cases (read_env parse_addr parse_url env)) [
      | inl (x, z) ↦ (λ h. ground (arith, z), λ cfg h. ground (arith, z))
      | inr (start, z) ↦
          let (ends, sane) =
            blocks_lem d (property parse_addr parse_url d) IsSane property-Moves s start
              (read_env-IsSane env start z) in
          elim (Option-cases
            (blocks d (property parse_addr parse_url d) (suc (d.left s)) s start)) [
              | inl e ↦ absurd (ends e)
              | inr (r, e) ↦ elim (Result-cases r) [
                | inl (x, f) ↦ (λ h. ground (arith, z, e, f), λ cfg h. ground (arith, z, e, f))
                | inr (mid, f) ↦ (
                  λ h. ground (arith, z, e, f),
                  λ cfg h.
                      finish-IsAccepted mid cfg (ground (arith, z, e, f))
                        (sane mid (ground (arith, e, f))),
                )
              ]
            ]
    ]
