-- ===== src/AgentSetup.antt =====
-- plugin/zonedns_agent/setup.go: the configuration of the agent. netip.ParseAddr, url.Parse and the
-- value of NODE_IP are parameters.
pub mod Checks
use zonedns.Prelude.{
  ℕ, suc, Bool, true, false, not, ◌&&◌, ◌||◌, Option, none, some, List, [], ◌∷◌, ltb, ◌==◌,
  if◌then◌else◌, nat_eq, Result, ok, err,
}
use zonedns.Text.{Str, str_eq, text, trim_suffix}
use zonedns.Netip.{Addr, invalid}
use zonedns.Spiffezone.{Url}
use zonedns.Ednszone
use zonedns.Dns.{Msg}
use zonedns.Caddy.{Dispenser, blocks, positive, parse_uint, atoi}
use zonedns.Podzone
use zonedns.Podzone.{Watcher}
use zonedns.Agent.{Agent, Resolver, static_resolver}

pub data Mode : Type 0 where
  mode_unset mode_k8s mode_vm : Mode

pub data ConfigError : Type 0 where
  bad_env arg_err unknown_mode bad_cache_size cache_size_not_positive bad_node_ip : ConfigError
  bad_code code_out_of_range unknown_property : ConfigError
  no_mode no_upstream bad_upstream not_https has_path no_central_id no_workload_api : ConfigError
  no_zone bad_zone node_name_in_vm no_node_name zone_in_k8s : ConfigError

pub record Config : Type 0 where
  pub mode : Mode
  pub zone : Str
  pub node_name : Str
  pub zone_label : Str
  pub upstream_url : Str
  pub central_spiffe_id : Str
  pub workload_api : Str
  pub cache_size : ℕ
  pub edns0_code : ℕ
  pub node_ip : Addr

abbrev pub default_config : Config
default_config = record {
  mode = mode_unset;
  zone = [];
  node_name = [];
  zone_label = text "zone";
  upstream_url = [];
  central_spiffe_id = [];
  workload_api = [];
  cache_size = 4096;
  edns0_code = Ednszone.default_code;
  node_ip = invalid;
}

-- The cases of the switch; each takes one argument.
pub data OptionName : Type 0 where
  mode zone node_name zone_label upstream central_spiffe_id workload_api cache_size node_ip
        edns0_code :
      OptionName

unfoldable pub option_named : Str → Option OptionName
option_named name =
    if name == text "mode"
    then some mode
    else if name == text "zone"
    then some zone
    else if name == text "node_name"
    then some node_name
    else if name == text "zone_label"
    then some zone_label
    else if name == text "upstream"
    then some upstream
    else if name == text "central_spiffe_id"
    then some central_spiffe_id
    else if name == text "workload_api"
    then some workload_api
    else if name == text "cache_size"
    then some cache_size
    else if name == text "node_ip"
    then some node_ip
    else if name == text "edns0_code"
    then some edns0_code
    else none

unfoldable pub set_mode : Str → Config → Result ConfigError Config
set_mode v cfg =
    if v == text "k8s"
    then ok (record cfg { mode = mode_k8s })
    else if v == text "vm"
    then ok (record cfg { mode = mode_vm })
    else err unknown_mode

unfoldable pub set_cache_size : Str → Config → Result ConfigError Config
set_cache_size v cfg = elim (atoi v) [
  | none ↦ err bad_cache_size
  | some z ↦ elim (positive z) [
    | none ↦ err cache_size_not_positive
    | some n ↦ ok (record cfg { cache_size = n })
  ]
]

unfoldable pub set_code : Str → Config → Result ConfigError Config
set_code v cfg = elim (parse_uint 16 v) [
  | none ↦ err bad_code
  | some code ↦
      if ltb code 65001 || ltb 65534 code
      then err code_out_of_range
      else ok (record cfg { edns0_code = code })
]

-- The switch on the mode.
unfoldable pub check_mode : Config → Result ConfigError Config
check_mode cfg = elim cfg.mode [
  | mode_unset ↦ ok cfg
  | mode_vm ↦
      if cfg.zone == []
      then err no_zone
      else if not (Ednszone.valid cfg.zone)
      then err bad_zone
      else if not (cfg.node_name == [])
      then err node_name_in_vm
      else ok cfg
  | mode_k8s ↦
      if cfg.node_name == []
      then err no_node_name
      else if not (cfg.zone == [])
      then err zone_in_k8s
      else ok cfg
]

abbrev is_unset : Mode → Bool
is_unset mode_unset = true
is_unset _ = false

module _ (parse_addr : Str → Option Addr) (parse_url : Str → Option Url) where
  unfoldable pub set_node_ip : ConfigError → Str → Config → Result ConfigError Config
  set_node_ip e v cfg = elim (parse_addr v) [
    | none ↦ err e
    | some addr ↦ ok (record cfg { node_ip = addr })
  ]

  unfoldable pub set_option : OptionName → Str → Config → Result ConfigError Config
  unfolding set_mode set_cache_size set_node_ip set_code
  set_option mode v cfg = set_mode v cfg
  set_option zone v cfg = ok (record cfg { zone = v })
  set_option node_name v cfg = ok (record cfg { node_name = v })
  set_option zone_label v cfg = ok (record cfg { zone_label = v })
  set_option upstream v cfg = ok (record cfg { upstream_url = v })
  set_option central_spiffe_id v cfg = ok (record cfg { central_spiffe_id = v })
  set_option workload_api v cfg = ok (record cfg { workload_api = v })
  set_option cache_size v cfg = set_cache_size v cfg
  set_option node_ip v cfg = set_node_ip bad_node_ip v cfg
  set_option edns0_code v cfg = set_code v cfg

  -- NODE_IP, before the loops.
  unfoldable pub read_env : Str → Result ConfigError Config
  unfolding set_node_ip
  read_env env =
      let parsed = set_node_ip bad_env env default_config in
      if not (env == []) then parsed else ok default_config

  -- The checks after the loops.
  unfoldable pub finish : Config → Result ConfigError Config
  unfolding check_mode
  finish cfg =
      if is_unset cfg.mode
      then err no_mode
      else if cfg.upstream_url == []
      then err no_upstream
      else elim (parse_url cfg.upstream_url) [
        | none ↦ err bad_upstream
        | some u ↦
            if not (u.scheme == text "https")
            then err not_https
            else if not (trim_suffix u.path (text "/") == [])
            then err has_path
            else if cfg.central_spiffe_id == []
            then err no_central_id
            else if cfg.workload_api == []
            then err no_workload_api
            else check_mode cfg
      ]

  module _ (d : Dispenser) where
    open d use {State}

    -- One round of the inner loop, after NextBlock.
    unfoldable pub property : State → Config → Result ConfigError (Config × State)
    unfolding option_named set_option
    property s cfg = elim (option_named (d.val s)) [
      | none ↦ err unknown_property
      | some o ↦
          let (more, s') = d.next_arg s in
          if not more
          then err arg_err
          else elim (set_option o (d.val s') cfg) [ err e ↦ err e | ok cfg' ↦ ok (cfg', s') ]
    ]

    unfoldable pub parse_config : Str → State → Option (Result ConfigError Config)
    unfolding read_env property finish
    parse_config env s = elim (read_env env) [
      | err e ↦ some (err e)
      | ok start ↦ elim (blocks d property (suc (d.left s)) s start) [
        | none ↦ none
        | some (err e) ↦ some (err e)
        | some (ok cfg) ↦ some (finish cfg)
      ]
    ]

-- The agent that `setup` adds, over the watcher that k8s mode runs.
unfoldable pub agent_of : Config → Watcher → (Msg → Option Msg) → Agent
agent_of cfg w up = record {
  resolver = elim cfg.mode [ mode_vm ↦ static_resolver cfg.zone | _ ↦ Podzone.zone w ];
  upstream = up;
  edns0_code = cfg.edns0_code;
  node_ip = cfg.node_ip;
}
