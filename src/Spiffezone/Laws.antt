-- ===== src/Spiffezone/Laws.antt =====
-- Which paths have a zone.
use zonedns.Prelude.{
  ◌≡◌, ◌≢◌, ◌↔◌, refl, ap, sym, ◌∙◌, ◌⊎◌, inl, inr, List, [], ◌∷◌, ◌++◌, arith, append-nil, eq_iff,
  ok,
}
use zonedns.Text.{Str, str_eq, text, trim_prefix, split, has_prefix, str_beq}
use zonedns.Text.Split.{IsFree, IsSplit, split-free, split-free_more, split_cases}
use zonedns.Text.Laws.{trim_prefix_cases, trim_prefix_self}
use zonedns.Spiffezone.{from_path, zone_segment}

-- `rest` is what may follow the zone: nothing, or a slash and anything.
abbrev IsRest : Str → Type 0
IsRest rest = (rest ≡ []) ⊎ ((tail : Str) × (rest ≡ b'/' ∷ tail))

-- The paths of the convention /zone/<zone>/..., with or without the first slash.
pub record IsZonePath (path zone : Str) : Type 0 where
  pub nonempty : zone ≢ []
  pub free : IsFree b'/' zone
  pub rest : Str
  pub follows : IsRest rest
  pub shape : (path ≡ text "/zone/" ++ zone ++ rest) ⊎ (path ≡ text "zone/" ++ zone ++ rest)

zone-IsFree : IsFree b'/' (text "zone")
zone-IsFree = omega arith

zone_segment_ok :
    (zone : Str) (others : List Str)
    → zone ≢ []
    → zone_segment (text "zone" ∷ zone ∷ others) ≡ ok zone
unfolding zone_segment str_beq
zone_segment_ok [] others h = absurd (h refl)
zone_segment_ok (c ∷ zone) others h = refl

-- The parts behind the first one hold the zone.
segments_zone :
    (zone rest : Str)
    → IsFree b'/' zone
    → IsRest rest
    → zone ≢ []
    → zone_segment (text "zone" ∷ split (zone ++ rest) b'/') ≡ ok zone
segments_zone zone rest f (inl e) ne =
    rw (e, append-nil, split-free zone b'/' f) (zone_segment_ok zone [] ne)
segments_zone zone rest f (inr (tail, e)) ne =
    rw (e, split-free_more zone tail b'/' f) (zone_segment_ok zone (split tail b'/') ne)

trimmed_zone :
    (zone rest : Str)
    → IsFree b'/' zone
    → IsRest rest
    → zone ≢ []
    → zone_segment (split (text "zone/" ++ zone ++ rest) b'/') ≡ ok zone
trimmed_zone zone rest f r ne =
    rw (split-free_more (text "zone") (zone ++ rest) b'/' zone-IsFree)
      (segments_zone zone rest f r ne)

no_slash_trimmed : (s : Str) → trim_prefix (text "zone/" ++ s) (text "/") ≡ text "zone/" ++ s
unfolding trim_prefix has_prefix
no_slash_trimmed s = refl

zone_of_IsZonePath : {path zone : Str} → IsZonePath path zone → from_path path ≡ ok zone
unfolding from_path
zone_of_IsZonePath {path} {zone} k = elim k.shape [
  | inl e ↦
      rw (e, trim_prefix_self b'/' (text "zone/" ++ zone ++ k.rest))
        (trimmed_zone zone k.rest k.free k.follows k.nonempty)
  | inr e ↦
      rw (e, no_slash_trimmed (zone ++ k.rest))
        (trimmed_zone zone k.rest k.free k.follows k.nonempty)
]

zone_segment_cases :
    (segs : List Str) (zone : Str)
    → zone_segment segs ≡ ok zone
    → (others : List Str) × (segs ≡ text "zone" ∷ zone ∷ others) × (zone ≢ [])
unfolding zone_segment
zone_segment_cases [] zone h = cc
zone_segment_cases (first ∷ []) zone h = cc
zone_segment_cases (first ∷ second ∷ others) zone h =
    let e : first ≡ text "zone" = ground (arith, eq_iff first (text "zone")) in
    let same : second ≡ zone = ground arith in
    let ne : second ≢ [] = ground (arith, eq_iff second []) in (others, rw (e, same), rw same at ne)

-- A path whose trimmed form splits into "zone" and the zone.
record IsZoneText (s zone : Str) : Type 0 where
  free : IsFree b'/' zone
  rest : Str
  follows : IsRest rest
  shape : s ≡ text "zone/" ++ zone ++ rest

split_zone :
    (s zone : Str) (others : List Str)
    → split s b'/' ≡ text "zone" ∷ zone ∷ others
    → IsZoneText s zone
split_zone s zone others h = elim (split_cases s b'/' (text "zone") (zone ∷ others) h).rest [
  | inl (e, o) ↦ cc
  | inr (tail, e, o) ↦ zone_tail (split_cases tail b'/' zone others (sym o)) e
]
  where
    zone_tail :
        {tail : Str} → IsSplit tail b'/' zone others → s ≡ text "zone/" ++ tail → IsZoneText s zone
    zone_tail k e = elim k.rest [
      | inl (t, o) ↦ record {
        free = k.free;
        rest = [];
        follows = inl refl;
        shape = rw (e, t, append-nil);
      }
      | inr (more, t, o) ↦ record {
        free = k.free;
        rest = b'/' ∷ more;
        follows = inr (more, refl);
        shape = rw (e, t);
      }
    ]

IsZonePath-zone : (path zone : Str) → from_path path ≡ ok zone → IsZonePath path zone
unfolding from_path
IsZonePath-zone path zone h =
    let (others, e, ne) = zone_segment_cases (split (trim_prefix path (text "/")) b'/') zone h in
    let k = split_zone (trim_prefix path (text "/")) zone others e in
    record {
      nonempty = ne;
      free = k.free;
      rest = k.rest;
      follows = k.follows;
      shape = elim (trim_prefix_cases b'/' path) [
        | inl same ↦ inr (sym same ∙ k.shape)
        | inr slash ↦ inl (slash ∙ ap (λ t. b'/' ∷ t) k.shape)
      ];
    }

-- A path has a zone exactly if it reads /zone/<zone> or zone/<zone>, alone or followed by a slash
-- and anything, where the zone is not empty and has no slash; the result is that zone.
pub from_path_iff : (path zone : Str) → (from_path path ≡ ok zone) ↔ IsZonePath path zone
from_path_iff path zone = (IsZonePath-zone path zone, zone_of_IsZonePath)
