-- ===== src/Registry/Lookups/Conflicts/Statistics.antt =====
-- The statistics of `BuildSnapshot`, against the claims of the entries.
use zonedns.Prelude.{
  ℕ, ◌+◌, ◌≡◌, ◌≢◌, ◌↔◌, refl, ap, sym, ◌∙◌, inl, inr, Bool, true, not, some, List, [], ◌∷◌, Memᴰ,
  arith, ◌==◌, Bool-cases, Option-cases, filter, length, is_some, All-mem, mem-All,
}
use zonedns.Text.{Str, str_eq}
use zonedns.GoMap
use zonedns.GoMap.{Map, Set}
use zonedns.GoMap.Laws.{IsMap, IsMap-insert, IsMap-erase}
use zonedns.GoMap.Keys.{keys, length-keys, mem-keys_iff, AreDistinct, keys-AreDistinct}
use zonedns.Registry.{
  Entry, Build, normalize, entry_zone, add_name, add_names, add_entry, add_entries, erase_all,
  empty, build_snapshot,
}
use zonedns.Registry.Claims.{Claims, zones_claimed, Claims-mem, mem-Claims}
use zonedns.Registry.Lookups.{
  View, view, notes, none_yet, settled, settled-view, settled-claims_iff, view_of_entries,
  lookup-erase_all,
}
use zonedns.Registry.Lookups.Conflicts.{conflict-claims_iff}

-- Both maps of a build are maps.
abbrev AreMaps : Build → Type 0
AreMaps b = IsMap b.zone_of × IsMap b.conflicting

add_name-AreMaps : (zone raw : Str) (b : Build) → AreMaps b → AreMaps (add_name zone raw b)
unfolding add_name
add_name-AreMaps zone raw b (h, k) = elim (Bool-cases (normalize raw == [])) [
  | inl e ↦ rw e (h, k)
  | inr e ↦ elim (Option-cases (GoMap.lookup (normalize raw) b.zone_of)) [
    | inl f ↦ rw (e, f) (IsMap-insert (normalize raw) zone b.zone_of h, k)
    | inr (prev, f) ↦ elim (Bool-cases (prev == zone)) [
      | inl g ↦ rw (e, f, g) (IsMap-insert (normalize raw) zone b.zone_of h, k)
      | inr g ↦ rw (e, f, g) (h, IsMap-insert (normalize raw) tt b.conflicting k)
    ]
  ]
]

add_names-AreMaps :
    (zone : Str) (raws : List Str) (b : Build) → AreMaps b → AreMaps (add_names zone raws b)
unfolding add_names
add_names-AreMaps zone [] b h = h
add_names-AreMaps zone (raw ∷ rest) b h =
    add_names-AreMaps zone rest (add_name zone raw b) (add_name-AreMaps zone raw b h)

add_entry-AreMaps : (e : Entry) (b : Build) → AreMaps b → AreMaps (add_entry e b)
unfolding add_entry
add_entry-AreMaps e b h = elim (Option-cases (entry_zone e)) [
  | inl q ↦ rw (q, add_entry) h
  | inr (zone, q) ↦ rw (q, add_entry) (add_names-AreMaps zone e.dns_names b h)
]

add_entries-AreMaps : (es : List Entry) (b : Build) → AreMaps b → AreMaps (add_entries es b)
unfolding add_entries
add_entries-AreMaps [] b h = h
add_entries-AreMaps (e ∷ rest) b h =
    add_entries-AreMaps rest (add_entry e b) (add_entry-AreMaps e b h)

erase_all-IsMap : (gone : Set Str) (m : Map Str Str) → IsMap m → IsMap (erase_all gone m)
unfolding erase_all
erase_all-IsMap [] m h = h
erase_all-IsMap ((k, u) ∷ rest) m h = erase_all-IsMap rest (GoMap.erase k m) (IsMap-erase k m h)

abbrev pub is_unusable : Entry → Bool
is_unusable e = not (is_some (entry_zone e))

skipped-add_names :
    (zone : Str) (raws : List Str) (b : Build) → (add_names zone raws b).skipped ≡ b.skipped
unfolding add_names add_name
skipped-add_names zone [] b = refl
skipped-add_names zone (raw ∷ rest) b =
    skipped-add_names zone rest (add_name zone raw b) ∙ ground arith

skipped-add_entries :
    (es : List Entry) (b : Build)
    → (add_entries es b).skipped ≡ b.skipped + length (filter is_unusable es)
unfolding add_entries add_entry
skipped-add_entries [] b = omega arith
skipped-add_entries (e ∷ rest) b = elim (Option-cases (entry_zone e)) [
  | inl q ↦ ground (arith, q, skipped-add_entries rest (add_entry e b))
  | inr (zone, q) ↦
      ground
        (arith, q, skipped-add_entries rest (add_entry e b), skipped-add_names zone e.dns_names b)
]

-- A name whose claims agree, and one whose claims do not.
pub record IsAgreed (entries : List Entry) (name : Str) : Type 0 where
  pub zone : Str
  pub claimed : Claims entries name zone
  pub sole : (other : Str) → Claims entries name other → other ≡ zone

pub record IsDisputed (entries : List Entry) (name : Str) : Type 0 where
  pub one : Str
  pub other : Str
  pub claimed_one : Claims entries name one
  pub claimed_other : Claims entries name other
  pub differ : one ≢ other

-- A number that counts the names of a kind, each once.
pub record Counts (P : Str → Type 0) (n : ℕ) : Type 0 where
  pub names : List Str
  pub distinct : AreDistinct names
  pub all : (name : Str) → Memᴰ name names ↔ P name
  pub total : n ≡ length names

-- The keys of a map count.
Counts-keys :
    {V : Type 0} (m : Map Str V) (P : Str → Type 0)
    → IsMap m
    → ((name : Str) → (GoMap.has name m ≡ true) ↔ P name)
    → Counts P (length m)
Counts-keys m P h each = record {
  names = keys m;
  distinct = keys-AreDistinct m h;
  all = λ name. (
    λ i. (each name).0 ((mem-keys_iff name m).0 i),
    λ p. (mem-keys_iff name m).1 ((each name).1 p),
  );
  total = sym (length-keys m);
}

module _ (entries : List Entry) where
  final : Build
  final = add_entries entries empty

  lookup-final :
      (name : Str)
      → GoMap.lookup name (erase_all final.conflicting final.zone_of)
        ≡ settled (notes none_yet (zones_claimed entries name))
  unfolding final
  lookup-final name =
      lookup-erase_all name final.conflicting final.zone_of
      ∙ sym (settled-view name final)
      ∙ ap settled (view_of_entries name entries)

  IsAgreed-of :
      (name zone : Str)
      → GoMap.lookup name (erase_all final.conflicting final.zone_of) ≡ some zone
      → IsAgreed entries name
  IsAgreed-of name zone h =
      let (m, agreed) = (settled-claims_iff _ zone).0 (sym (lookup-final name) ∙ h) in
      record {
        zone = zone;
        claimed = Claims-mem entries name zone m;
        sole = λ other k. All-mem (λ z. z ≡ zone) _ agreed (mem-Claims k);
      }

  lookup_of :
      (name : Str) (k : IsAgreed entries name)
      → GoMap.lookup name (erase_all final.conflicting final.zone_of) ≡ some k.zone
  lookup_of name k =
      lookup-final name
      ∙ (settled-claims_iff _ k.zone).1 (
        mem-Claims k.claimed,
        mem-All (λ z. z ≡ k.zone) _ (λ other m. k.sole other (Claims-mem entries name other m)),
      )

  has-IsAgreed_iff :
      (name : Str)
      → (GoMap.has name (erase_all final.conflicting final.zone_of) ≡ true) ↔ IsAgreed entries name
  unfolding GoMap.has
  has-IsAgreed_iff name = (
    λ h. elim (Option-cases (GoMap.lookup name (erase_all final.conflicting final.zone_of))) [
      | inl e ↦ ground (arith, e)
      | inr (zone, e) ↦ IsAgreed-of name zone e
    ],
    λ k. ground (arith, lookup_of name k),
  )

  has-IsDisputed_iff :
      (name : Str) → (GoMap.has name final.conflicting ≡ true) ↔ IsDisputed entries name
  unfolding view final
  has-IsDisputed_iff name =
      let e : GoMap.has name final.conflicting
          ≡ (notes none_yet (zones_claimed entries name)).conflict =
        ap (λ (v : View). v.conflict) (view_of_entries name entries) in
      (
        λ h.
            let (y, z, my, mz, ne) = (conflict-claims_iff _).0 (sym e ∙ h) in
            record {
              one = y;
              other = z;
              claimed_one = Claims-mem entries name y my;
              claimed_other = Claims-mem entries name z mz;
              differ = ne;
            },
        λ k.
            e
            ∙ (conflict-claims_iff _).1
                (k.one, k.other, mem-Claims k.claimed_one, mem-Claims k.claimed_other, k.differ),
      )

  final-AreMaps : AreMaps final
  unfolding final
  final-AreMaps = add_entries-AreMaps entries empty (tt, tt)

  -- The statistics of a snapshot count what they say: names those names whose claims agree on one
  -- zone, conflicts those that are claimed under two different zones, each name once however it is
  -- spelled and however often it is claimed, and skipped the entries without a usable zone.
  pub build_snapshot-Counts :
      Counts (IsAgreed entries) (build_snapshot entries).1.names
      × Counts (IsDisputed entries) (build_snapshot entries).1.conflicts
      × ((build_snapshot entries).1.skipped ≡ length (filter is_unusable entries))
  unfolding build_snapshot final
  build_snapshot-Counts = (
    Counts-keys (erase_all final.conflicting final.zone_of) (IsAgreed entries)
        (erase_all-IsMap final.conflicting final.zone_of final-AreMaps.0) has-IsAgreed_iff,
    Counts-keys final.conflicting (IsDisputed entries) final-AreMaps.1 has-IsDisputed_iff,
    omega (arith, skipped-add_entries entries empty),
  )
