-- ===== src/Ednszone.antt =====
-- internal/ednszone/ednszone.go: the wire format of a zone declaration.
pub mod Laws
use zonedns.Prelude.{
  ℕ, ◌+◌, Bool, true, false, ◌&&◌, ◌||◌, not, Option, none, some, List, [], ◌∷◌, ◌++◌, length, ltb,
  leb, ◌==◌, if◌then◌else◌, nat_eq,
}
use zonedns.Text.{Str, str_eq}
use zonedns.Dns.{EdnsOption, local, other, Msg, MsgLib}

abbrev pub default_code : ℕ
default_code = 65001

abbrev pub max_len : ℕ
max_len = 63

-- The cases of the switch in `Valid` that do not return.
unfoldable pub is_zone_byte : ℕ → Bool
is_zone_byte c =
    if leb b'a' c && leb c b'z'
    then true
    else if leb b'A' c && leb c b'Z'
    then true
    else if leb b'0' c && leb c b'9'
    then true
    else c == b'-' || c == b'_'

-- The loop of `Valid`.
valid_bytes : Str → Bool
valid_bytes [] = true
valid_bytes (c ∷ rest) = if is_zone_byte c then valid_bytes rest else false

unfoldable pub valid : Str → Bool
unfolding valid_bytes is_zone_byte
valid zone = if zone == [] || ltb max_len (length zone) then false else valid_bytes zone

-- `l, isLocal := o.(*dns.EDNS0_LOCAL); isLocal && l.Code == code`, with l.Data.
unfoldable pub declared_by : ℕ → EdnsOption → Option Str
declared_by code (local c payload) = if c == code then some payload else none
declared_by code (other c payload) = none

-- The filtering loop of `Set`, and of `stripZoneOption` in the agent.
unfoldable pub strip : ℕ → List EdnsOption → List EdnsOption
unfolding declared_by
strip code [] = []
strip code (o ∷ os) =
    let kept = strip code os in elim (declared_by code o) [ none ↦ o ∷ kept | some _ ↦ kept ]

-- The loop of `Get`, from the variables zone and matches.
get_from : ℕ → List EdnsOption → Str → ℕ → Option Str
get_from code [] zone matches = if not (matches == 1) || not (valid zone) then none else some zone
get_from code (o ∷ os) zone matches = elim (declared_by code o) [
  | none ↦ get_from code os zone matches
  | some payload ↦ if ltb 1 (matches + 1) then none else get_from code os payload (matches + 1)
]

module _ (lib : MsgLib) where
  -- The message with an OPT record, a new one if it has none.
  ensure_opt : Msg → Msg
  ensure_opt m = elim (lib.edns0_options m) [
    | none ↦ lib.set_edns0 lib.default_msg_size false m
    | some _ ↦ m
  ]

  -- opt.Option; a nil `opt`, which would panic, reads as no option.
  unfoldable pub options_of : Msg → List EdnsOption
  options_of m = elim (lib.edns0_options m) [ none ↦ [] | some os ↦ os ]

  unfoldable pub set : ℕ → Str → Msg → Msg
  unfolding ensure_opt options_of strip
  set code zone m =
      let m' = ensure_opt m in
      lib.store_options (strip code (options_of m') ++ local code zone ∷ []) m'

  -- (zone, true) is `some zone`, ("", false) is none.
  unfoldable pub get : ℕ → Msg → Option Str
  unfolding get_from declared_by valid
  get code m = elim (lib.edns0_options m) [ none ↦ none | some os ↦ get_from code os [] 0 ]
