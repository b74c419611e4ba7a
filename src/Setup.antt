-- ===== src/Setup.antt =====
-- plugin/zonedns/setup.go: the configuration of the central plugin. time.ParseDuration (in
-- nanoseconds) and netip.ParseAddr are parameters.
pub mod Options
pub mod Checks
use zonedns.Prelude.{
  ℕ, zero, suc, ◌+◌, ◌*◌, Bool, true, false, not, ◌&&◌, ◌||◌, Option, none, some, List, [], ◌∷◌,
  ◌++◌, length, ltb, leb, ◌==◌, if◌then◌else◌, nat_eq, Result, ok, err,
}
use zonedns.Text.{Str, str_eq, text, has_prefix}
use zonedns.GoMap
use zonedns.GoMap.{Map}
use zonedns.Netip.{Addr}
use zonedns.Ednszone
use zonedns.Zonetable
use zonedns.Zonetable.{Table}
use zonedns.Caddy.{Dispenser, blocks, ℤ, positive, parse_uint}

pub data ConfigError : Type 0 where
  arg_err bad_interval interval_not_positive bad_code code_out_of_range bad_ttl : ConfigError
  gateway_args gateway_zone gateway_twice gateway_addr unknown_property : ConfigError
  no_spire_server no_authorized_agent no_spire_server_id : ConfigError

-- The fields of config, and the map of gateways of which `zones` becomes the table.
pub record Config : Type 0 where
  pub spire_server : Str
  pub poll_interval : ℕ
  pub authorized_agents : List Str
  pub edns0_code : ℕ
  pub ttl : ℕ
  pub workload_api : Str
  pub spire_server_id : Str
  pub gateways : Map Str Addr

abbrev pub default_config : Config
default_config = record {
  spire_server = [];
  poll_interval = 30 * 1000000000;
  authorized_agents = [];
  edns0_code = Ednszone.default_code;
  ttl = 30;
  workload_api = [];
  spire_server_id = [];
  gateways = [];
}

-- The cases of the switch that take one argument.
pub data OptionName : Type 0 where
  spire_server poll_interval authorized_agent edns0_code workload_api spire_server_id ttl :
      OptionName

unfoldable pub option_named : Str → Option OptionName
option_named name =
    if name == text "spire_server"
    then some spire_server
    else if name == text "poll_interval"
    then some poll_interval
    else if name == text "authorized_agent"
    then some authorized_agent
    else if name == text "edns0_code"
    then some edns0_code
    else if name == text "workload_api"
    then some workload_api
    else if name == text "spire_server_id"
    then some spire_server_id
    else if name == text "ttl"
    then some ttl
    else none

module _ (parse_duration : Str → Option ℤ) (parse_addr : Str → Option Addr) where
  unfoldable pub set_interval : Str → Config → Result ConfigError Config
  set_interval v cfg = elim (parse_duration v) [
    | none ↦ err bad_interval
    | some d ↦ elim (positive d) [
      | none ↦ err interval_not_positive
      | some n ↦ ok (record cfg { poll_interval = n })
    ]
  ]

  unfoldable pub set_code : Str → Config → Result ConfigError Config
  set_code v cfg = elim (parse_uint 16 v) [
    | none ↦ err bad_code
    | some code ↦
        if ltb code 65001 || ltb 65534 code
        then err code_out_of_range
        else ok (record cfg { edns0_code = code })
  ]

  unfoldable pub set_ttl : Str → Config → Result ConfigError Config
  set_ttl v cfg = elim (parse_uint 32 v) [
    | none ↦ err bad_ttl
    | some n ↦ ok (record cfg { ttl = n })
  ]

  -- The case "gateway", of all arguments.
  unfoldable pub add_gateway : List Str → Config → Result ConfigError Config
  add_gateway (zone ∷ address ∷ []) cfg =
      if not (Ednszone.valid zone)
      then err gateway_zone
      else if GoMap.has zone cfg.gateways
      then err gateway_twice
      else elim (parse_addr address) [
        | none ↦ err gateway_addr
        | some addr ↦ ok (record cfg { gateways = GoMap.insert zone addr cfg.gateways })
      ]
  add_gateway _ cfg = err gateway_args

  -- The options of one argument, with that argument.
  unfoldable pub set_option : OptionName → Str → Config → Result ConfigError Config
  unfolding set_interval set_code set_ttl
  set_option spire_server v cfg = ok (record cfg { spire_server = v })
  set_option poll_interval v cfg = set_interval v cfg
  set_option authorized_agent v cfg =
      ok (record cfg { authorized_agents = cfg.authorized_agents ++ v ∷ [] })
  set_option edns0_code v cfg = set_code v cfg
  set_option workload_api v cfg = ok (record cfg { workload_api = v })
  set_option spire_server_id v cfg = ok (record cfg { spire_server_id = v })
  set_option ttl v cfg = set_ttl v cfg

  -- The checks after the loops.
  unfoldable pub finish : Config → Result ConfigError Config
  finish cfg =
      if cfg.spire_server == []
      then err no_spire_server
      else if length cfg.authorized_agents == 0
      then err no_authorized_agent
      else if not (has_prefix cfg.spire_server (text "unix://")) && cfg.spire_server_id == []
      then err no_spire_server_id
      else ok cfg

  module _ (d : Dispenser) where
    open d use {State}

    -- One round of the inner loop, after NextBlock.
    unfoldable pub property : State → Config → Result ConfigError (Config × State)
    unfolding option_named set_option add_gateway
    property s cfg =
        if d.val s == text "gateway"
        then elim (add_gateway (d.remaining_args s).0 cfg) [
          | err e ↦ err e
          | ok cfg' ↦ ok (cfg', (d.remaining_args s).1)
        ]
        else elim (option_named (d.val s)) [
          | none ↦ err unknown_property
          | some o ↦
              let (more, s') = d.next_arg s in
              if not more
              then err arg_err
              else elim (set_option o (d.val s') cfg) [ err e ↦ err e | ok cfg' ↦ ok (cfg', s') ]
        ]

    unfoldable pub parse_config : State → Option (Result ConfigError Config)
    unfolding finish property
    parse_config s = elim (blocks d property (suc (d.left s)) s default_config) [
      | none ↦ none
      | some (err e) ↦ some (err e)
      | some (ok cfg) ↦ some (finish cfg)
    ]

-- cfg.zones
unfoldable pub zones : Config → Table
zones cfg = Zonetable.new cfg.gateways
