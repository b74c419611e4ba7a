-- ===== src/Setup/Options.antt =====
-- What holds of a configuration while its options are parsed.
use zonedns.Prelude.{
  ◌^◌, ◌<◌, ◌≤◌, ◌≡◌, refl, inl, inr, true, ◌||◌, Option, List, [], ◌∷◌, ltb, arith, eq_iff, nat_eq,
  Option-cases, Bool-cases, Result, ok,
}
use zonedns.Text.{Str, str_eq}
use zonedns.GoMap
use zonedns.GoMap.Laws.{has-insert, IsMap, IsMap-insert}
use zonedns.Netip.{Addr}
use zonedns.Ednszone
use zonedns.Caddy.Numbers.{positive-positive, parse_uint-bound}
use zonedns.Caddy.{ℤ, positive, parse_uint}
use zonedns.Setup.{
  ConfigError, Config, default_config, set_interval, set_code, set_ttl, add_gateway, OptionName,
  spire_server, poll_interval, authorized_agent, edns0_code, workload_api, spire_server_id, ttl,
  set_option,
}

-- What holds of a configuration while it is parsed; its gateways have each zone once.
pub record IsSane (cfg : Config) : Type 0 where
  pub interval : 0 < cfg.poll_interval
  pub code_low : 65001 ≤ cfg.edns0_code
  pub code_high : cfg.edns0_code ≤ 65534
  pub ttl_fits : cfg.ttl < 2 ^ 32
  pub zones_valid : (zone : Str) → GoMap.has zone cfg.gateways ≡ true → Ednszone.valid zone ≡ true
  pub zones_once : IsMap cfg.gateways

pub default-IsSane : IsSane default_config
unfolding GoMap.has GoMap.lookup
default-IsSane = record {
  interval = omega arith;
  code_low = omega arith;
  code_high = omega arith;
  ttl_fits = omega arith;
  zones_valid = λ zone h. ground arith;
  zones_once = tt;
}

module _ (parse_duration : Str → Option ℤ) (parse_addr : Str → Option Addr) where
  same_limits :
      (cfg out : Config)
      → out.poll_interval ≡ cfg.poll_interval
      → out.edns0_code ≡ cfg.edns0_code
      → out.ttl ≡ cfg.ttl
      → out.gateways ≡ cfg.gateways
      → IsSane cfg
      → IsSane out
  same_limits cfg out i c t g k = record {
    interval = rw i k.interval;
    code_low = rw c k.code_low;
    code_high = rw c k.code_high;
    ttl_fits = rw t k.ttl_fits;
    zones_valid = rw g k.zones_valid;
    zones_once = rw g k.zones_once;
  }

  moved :
      {cfg out : Config}
      → ◌≡◌ {A = Result ConfigError Config} (ok cfg) (ok out)
      → IsSane cfg
      → IsSane out
  moved {cfg} {out} h k = let e : cfg ≡ out = cc in rw (← e) k

  set_interval-IsSane :
      (v : Str) (cfg out : Config)
      → set_interval parse_duration parse_addr v cfg ≡ ok out
      → IsSane cfg
      → IsSane out
  unfolding set_interval
  set_interval-IsSane v cfg out h k = elim (Option-cases (parse_duration v)) [
    | inl e ↦ ground (arith, e)
    | inr (z, e) ↦ elim (Option-cases (positive z)) [
      | inl f ↦ ground (arith, e, f)
      | inr (n, f) ↦ moved {cfg = record cfg { poll_interval = n }} (ground (arith, e, f)) (record {
        interval = positive-positive z n f;
        code_low = k.code_low;
        code_high = k.code_high;
        ttl_fits = k.ttl_fits;
        zones_valid = k.zones_valid;
        zones_once = k.zones_once;
      })
    ]
  ]

  set_code-IsSane :
      (v : Str) (cfg out : Config)
      → set_code parse_duration parse_addr v cfg ≡ ok out
      → IsSane cfg
      → IsSane out
  unfolding set_code
  set_code-IsSane v cfg out h k = elim (Option-cases (parse_uint 16 v)) [
    | inl e ↦ ground (arith, e)
    | inr (n, e) ↦ elim (Bool-cases (ltb n 65001 || ltb 65534 n)) [
      | inl f ↦ ground (arith, e, f)
      | inr f ↦ moved {cfg = record cfg { edns0_code = n }} (ground (arith, e, f)) (record {
        interval = k.interval;
        code_low = ground (arith, f);
        code_high = ground (arith, f);
        ttl_fits = k.ttl_fits;
        zones_valid = k.zones_valid;
        zones_once = k.zones_once;
      })
    ]
  ]

  set_ttl-IsSane :
      (v : Str) (cfg out : Config)
      → set_ttl parse_duration parse_addr v cfg ≡ ok out
      → IsSane cfg
      → IsSane out
  unfolding set_ttl
  set_ttl-IsSane v cfg out h k = elim (Option-cases (parse_uint 32 v)) [
    | inl e ↦ ground (arith, e)
    | inr (n, e) ↦ moved {cfg = record cfg { ttl = n }} (ground (arith, e)) (record {
      interval = k.interval;
      code_low = k.code_low;
      code_high = k.code_high;
      ttl_fits = parse_uint-bound 32 n v e;
      zones_valid = k.zones_valid;
      zones_once = k.zones_once;
    })
  ]

  pub set_option-IsSane :
      (o : OptionName) (v : Str) (cfg out : Config)
      → set_option parse_duration parse_addr o v cfg ≡ ok out
      → IsSane cfg
      → IsSane out
  unfolding set_option
  set_option-IsSane spire_server v cfg out h k = moved h (same_limits cfg _ refl refl refl refl k)
  set_option-IsSane authorized_agent v cfg out h k =
      moved h (same_limits cfg _ refl refl refl refl k)
  set_option-IsSane workload_api v cfg out h k = moved h (same_limits cfg _ refl refl refl refl k)
  set_option-IsSane spire_server_id v cfg out h k =
      moved h (same_limits cfg _ refl refl refl refl k)
  set_option-IsSane poll_interval v cfg out h k = set_interval-IsSane v cfg out h k
  set_option-IsSane edns0_code v cfg out h k = set_code-IsSane v cfg out h k
  set_option-IsSane ttl v cfg out h k = set_ttl-IsSane v cfg out h k

  pub add_gateway-IsSane :
      (args : List Str) (cfg out : Config)
      → add_gateway parse_duration parse_addr args cfg ≡ ok out
      → IsSane cfg
      → IsSane out
  unfolding add_gateway
  add_gateway-IsSane (zone ∷ address ∷ []) cfg out h k = elim (Option-cases (parse_addr address)) [
    | inl e ↦ ground (arith, e)
    | inr (addr, e) ↦
        moved {cfg = record cfg { gateways = GoMap.insert zone addr cfg.gateways }}
          (ground (arith, e))
          (record {
            interval = k.interval;
            code_low = k.code_low;
            code_high = k.code_high;
            ttl_fits = k.ttl_fits;
            zones_valid = λ other m. ground (
              arith,
              k.zones_valid other,
              m,
              has-insert zone other addr cfg.gateways,
              eq_iff zone other,
            );
            zones_once = IsMap-insert zone addr cfg.gateways k.zones_once;
          })
  ]
  add_gateway-IsSane [] cfg out h k = ground arith
  add_gateway-IsSane (a ∷ []) cfg out h k = ground arith
  add_gateway-IsSane (a ∷ b ∷ c ∷ rest) cfg out h k = ground arith
