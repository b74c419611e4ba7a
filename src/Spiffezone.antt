-- ===== src/Spiffezone.antt =====
-- internal/spiffezone/spiffezone.go: the zone in the path of a SPIFFE ID. `url.Parse` is a
-- parameter of `from_id`.
pub mod Laws
use zonedns.Prelude.{
  Bool, ◌||◌, not, Option, none, some, List, [], ◌∷◌, ◌==◌, if◌then◌else◌, Result, ok, err,
}
use zonedns.Text.{Str, str_eq, text, trim_prefix, split}

-- What the program reads of a *url.URL: two fields, and what String returns.
pub record Url : Type 0 where
  pub scheme : Str
  pub path : Str
  pub string : Str

pub data ZoneError : Type 0 where
  no_zone parse_failed not_spiffe : ZoneError

zone_segment : List Str → Result ZoneError Str
zone_segment (first ∷ zone ∷ rest) =
    if not (first == text "zone") || zone == [] then err no_zone else ok zone
zone_segment _ = err no_zone

unfoldable pub from_path : Str → Result ZoneError Str
unfolding zone_segment
from_path path = zone_segment (split (trim_prefix path (text "/")) b'/')

pub from_id : (Str → Option Url) → Str → Result ZoneError Str
unfolding from_path
from_id parse_url id = elim (parse_url id) [
  | none ↦ err parse_failed
  | some u ↦ if not (u.scheme == text "spiffe") then err not_spiffe else from_path u.path
]
