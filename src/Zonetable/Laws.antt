-- ===== src/Zonetable/Laws.antt =====
-- A table answers as the map that it was built from.
use zonedns.Prelude.{◌≡◌, refl, Option, none, some, [], ◌∷◌, arith, eq_iff, ◌∙◌}
use zonedns.Text.{Str, str_eq}
use zonedns.Netip.{Addr}
use zonedns.GoMap.{Map, insert, lookup}
use zonedns.GoMap.Laws.{IsMap, lookup-insert}
use zonedns.Zonetable.{copy_from, new, gateway}

abbrev or_else : Option Addr → Option Addr → Option Addr
or_else (some a) _ = some a
or_else none b = b

or_else-none : (o : Option Addr) → or_else o none ≡ o
or_else-none none = refl
or_else-none (some a) = refl

lookup-copy_from :
    (zone : Str) (entries gw : Map Str Addr)
    → IsMap entries
    → lookup zone (copy_from entries gw) ≡ or_else (lookup zone entries) (lookup zone gw)
unfolding copy_from lookup
lookup-copy_from zone [] gw h = refl
lookup-copy_from zone ((z, a) ∷ rest) gw (fresh, h) =
    ground (
      arith,
      lookup-copy_from zone rest (insert z a gw) h,
      lookup-insert z zone a gw,
      eq_iff z zone,
    )

-- The table holds a copy of the map, in whatever order the map was walked.
pub gateway-new :
    (entries : Map Str Addr) (zone : Str)
    → IsMap entries
    → gateway (new entries) zone ≡ lookup zone entries
unfolding gateway new lookup
gateway-new entries zone h = lookup-copy_from zone entries [] h ∙ or_else-none (lookup zone entries)
