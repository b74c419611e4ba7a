-- ===== src/Zonetable.antt =====
-- internal/zonetable/zonetable.go: the read-only table of zone gateways.
pub mod Laws
use zonedns.Prelude.{ℕ, Option, List, [], ◌∷◌, length}
use zonedns.Text.{Str, str_eq}
use zonedns.Netip.{Addr}
use zonedns.GoMap
use zonedns.GoMap.{Map}

pub record Table : Type 0 where
  pub gw : Map Str Addr

-- The loop of `New`, over the entries in any order.
copy_from : Map Str Addr → Map Str Addr → Map Str Addr
copy_from [] gw = gw
copy_from ((z, a) ∷ rest) gw = copy_from rest (GoMap.insert z a gw)

unfoldable pub new : Map Str Addr → Table
unfolding copy_from
new entries = record { gw = copy_from entries [] }

unfoldable pub gateway : Table → Str → Option Addr
gateway t zone = GoMap.lookup zone t.gw

unfoldable pub len : Table → ℕ
len t = length t.gw
