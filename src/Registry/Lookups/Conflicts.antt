-- ===== src/Registry/Lookups/Conflicts.antt =====
-- When the claims of a name in `BuildSnapshot` are in conflict.
pub mod Statistics
use zonedns.Prelude.{
  ℕ, ◌+◌, ◌≡◌, ◌≢◌, ◌↔◌, refl, ap, sym, ◌∙◌, inl, inr, Bool, true, false, not, Option, none, some,
  List, [], ◌∷◌, Memᴰ, arith, ◌==◌, if◌then◌else◌, eq_iff, Bool-cases, Option-cases, filter, length,
  is_some, All, ◌⊎◌, All-mem, mem-All,
}
use zonedns.Text.{Str, str_eq}
use zonedns.GoMap
use zonedns.GoMap.{Map, Set}
use zonedns.GoMap.Laws.{IsMap, IsMap-insert, IsMap-erase}
use zonedns.GoMap.Keys.{keys, length-keys, mem-keys_iff, AreDistinct, keys-AreDistinct}
use zonedns.Registry.{
  Entry, Stats, Build, normalize, entry_zone, add_name, add_names, add_entry, add_entries,
  erase_all, empty, skip, build_snapshot,
}
use zonedns.Registry.Claims.{Claims, zones_claimed, Claims-mem, mem-Claims}
use zonedns.Registry.Lookups.{
  View, view, note, notes, note_same, note_ne, none_yet, settled, settled-view, settled-claims_iff,
  view_of_entries, lookup-erase_all,
}

-- Claims of one name that do not agree.
abbrev HaveDispute : List Str → Type 0
HaveDispute zs = (y : Str) × (z : Str) × Memᴰ y zs × Memᴰ z zs × (y ≢ z)

conflict-notes :
    (zs : List Str) (first : Str) (c : Bool)
    → (notes (record { zone = some first; conflict = c }) zs).conflict ≡ true
    → (c ≡ true) ⊎ ((z : Str) × Memᴰ z zs × (first ≢ z))
unfolding notes
conflict-notes [] first c h = inl h
conflict-notes (z ∷ zs) first c h = elim (Bool-cases (first == z)) [
  | inr e ↦ inr (z, Memᴰ.head refl, λ q. cc (e, (eq_iff first z).1 q))
  | inl e ↦
      elim (conflict-notes zs first c
        (ap (λ v. (notes v zs).conflict) (sym (note_same first z c e)) ∙ h)) [
          | inl q ↦ inl q
          | inr (y, m, ne) ↦ inr (y, Memᴰ.tail m, ne)
        ]
]

conflict-sticky :
    (zs : List Str) (first : Str)
    → (notes (record { zone = some first; conflict = true }) zs).conflict ≡ true
unfolding notes
conflict-sticky [] first = refl
conflict-sticky (z ∷ zs) first = elim (Bool-cases (first == z)) [
  | inl e ↦ ap (λ v. (notes v zs).conflict) (note_same first z true e) ∙ conflict-sticky zs first
  | inr e ↦ ap (λ v. (notes v zs).conflict) (note_ne first z true e) ∙ conflict-sticky zs first
]

notes-conflict :
    (zs : List Str) (first z : Str) (c : Bool)
    → Memᴰ z zs
    → first ≢ z
    → (notes (record { zone = some first; conflict = c }) zs).conflict ≡ true
unfolding notes
notes-conflict [] first z c m ne = elim m [ ]
notes-conflict (y ∷ zs) first z c (Memᴰ.head q) ne =
    let e : (first == y) ≡ false = ground (arith, eq_iff first y, ne, q) in
    ap (λ v. (notes v zs).conflict) (note_ne first y c e) ∙ conflict-sticky zs first
notes-conflict (y ∷ zs) first z c (Memᴰ.tail m) ne = elim (Bool-cases (first == y)) [
  | inl e ↦
      ap (λ v. (notes v zs).conflict) (note_same first y c e) ∙ notes-conflict zs first z c m ne
  | inr e ↦ ap (λ v. (notes v zs).conflict) (note_ne first y c e) ∙ conflict-sticky zs first
]

notes-first :
    (first : Str) (zs : List Str)
    → notes none_yet (first ∷ zs) ≡ notes (record { zone = some first; conflict = false }) zs
unfolding notes note none_yet
notes-first first zs = refl

-- Of two claims that differ, one differs from the first claim.
dispute_first :
    (first : Str) (zs : List Str) → HaveDispute (first ∷ zs) → (z : Str) × Memᴰ z zs × (first ≢ z)
dispute_first first zs (y, z, Memᴰ.head p, Memᴰ.head q, ne) = absurd (ne (p ∙ sym q))
dispute_first first zs (y, z, Memᴰ.head p, Memᴰ.tail m, ne) = (z, m, λ q. ne (p ∙ q))
dispute_first first zs (y, z, Memᴰ.tail m, Memᴰ.head q, ne) = (y, m, λ p. ne (sym p ∙ sym q))
dispute_first first zs (y, z, Memᴰ.tail m, Memᴰ.tail k, ne) = elim (Bool-cases (first == y)) [
  | inl e ↦ (z, k, λ q. ne (sym ((eq_iff first y).0 e) ∙ q))
  | inr e ↦ (y, m, λ q. cc (e, (eq_iff first y).1 q))
]

notes-none : (notes none_yet []).conflict ≡ false
unfolding notes none_yet
notes-none = refl

conflict-claims_iff : (zs : List Str) → ((notes none_yet zs).conflict ≡ true) ↔ HaveDispute zs
conflict-claims_iff [] = (unfold_empty, λ (y, z, my, mz, ne). elim my [ ])
  where
    unfold_empty : (notes none_yet []).conflict ≡ true → HaveDispute []
    unfold_empty h = cc (h, notes-none)
conflict-claims_iff (first ∷ zs) = (
  λ h.
      elim (conflict-notes zs first false
        (ap (λ (v : View). v.conflict) (sym (notes-first first zs)) ∙ h)) [
          | inl q ↦ cc
          | inr (z, m, ne) ↦ (first, z, Memᴰ.head refl, Memᴰ.tail m, ne)
        ],
  λ d.
      let (z, m, ne) = dispute_first first zs d in
      ap (λ (v : View). v.conflict) (notes-first first zs) ∙ notes-conflict zs first z false m ne,
)
