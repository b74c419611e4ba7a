-- ===== src/Registry/Lookups.antt =====
-- What a built snapshot answers, against the claims of its entries.
pub mod Conflicts
pub mod Reordering
use zonedns.Prelude.{
  ◌≡◌, ◌↔◌, refl, ap, sym, ◌∙◌, inl, inr, Bool, true, false, not, ◌&&◌, Option, none, some, List,
  [], ◌∷◌, ◌++◌, Memᴰ, arith, ◌==◌, if◌then◌else◌, eq_iff, Bool-cases, Option-cases, All, All-mem,
  mem-All,
}
use zonedns.Text.{Str, str_eq}
use zonedns.GoMap
use zonedns.GoMap.{Map, Set}
use zonedns.GoMap.Laws.{lookup-insert, has-insert, lookup-erase}
use zonedns.Registry.{
  Entry, Build, normalize, entry_zone, add_name, add_names, add_entry, add_entries, erase_all,
  empty, build_snapshot, snapshot_lookup,
}
use zonedns.Registry.Claims.{Claims, claims_in, claims_of, zones_claimed, Claims-mem, mem-Claims}

-- What the maps of a build say of one name: its zone so far, and whether it is conflicting.
record View : Type 0 where
  zone : Option Str
  conflict : Bool

view : Str → Build → View
view name b = record { zone = GoMap.lookup name b.zone_of; conflict = GoMap.has name b.conflicting }

-- One more claim about the name.
note : View → Str → View
note v z = elim v.zone [
  | none ↦ record v { zone = some z }
  | some prev ↦ if prev == z then v else record v { conflict = true }
]

notes : View → List Str → View
notes v [] = v
notes v (z ∷ zs) = notes (note v z) zs

notes-append : (v : View) (xs ys : List Str) → notes v (xs ++ ys) ≡ notes (notes v xs) ys
unfolding notes
notes-append v [] ys = refl
notes-append v (x ∷ xs) ys = notes-append (note v x) xs ys

view-add_name :
    (name zone raw : Str) (b : Build)
    → view name (add_name zone raw b)
      ≡ (if normalize raw == name && not (name == []) then note (view name b) zone else view name b)
unfolding view add_name note
view-add_name name zone raw b = elim (Option-cases (GoMap.lookup (normalize raw) b.zone_of)) [
  | inl e ↦ ground (
    arith,
    eq_iff (normalize raw) name,
    eq_iff name [],
    eq_iff (normalize raw) [],
    lookup-insert (normalize raw) name zone b.zone_of,
    has-insert (normalize raw) name tt b.conflicting,
  )
  | inr (prev, e) ↦ ground (
    arith,
    eq_iff (normalize raw) name,
    eq_iff name [],
    eq_iff (normalize raw) [],
    eq_iff prev zone,
    lookup-insert (normalize raw) name zone b.zone_of,
    has-insert (normalize raw) name tt b.conflicting,
  )
]

view-add_names :
    (name zone : Str) (raws : List Str) (b : Build)
    → view name (add_names zone raws b) ≡ notes (view name b) (claims_in zone raws name)
unfolding add_names notes claims_in
view-add_names name zone [] b = refl
view-add_names name zone (raw ∷ rest) b =
    view-add_names name zone rest (add_name zone raw b)
    ∙ ap (λ v. notes v (claims_in zone rest name)) (view-add_name name zone raw b)
    ∙ (elim (Bool-cases (normalize raw == name && not (name == []))) [
      | inl e ↦ rw (e, claims_in)
      | inr e ↦ rw (e, claims_in)
    ])

view-add_entry :
    (name : Str) (e : Entry) (b : Build)
    → view name (add_entry e b) ≡ notes (view name b) (claims_of e name)
unfolding add_entry claims_of
view-add_entry name e b = elim (Option-cases (entry_zone e)) [
  | inl q ↦ rw (q, add_entry, claims_of) (unfold notes view in refl)
  | inr (zone, q) ↦ rw (q, add_entry, claims_of) (view-add_names name zone e.dns_names b)
]

view-add_entries :
    (name : Str) (entries : List Entry) (b : Build)
    → view name (add_entries entries b) ≡ notes (view name b) (zones_claimed entries name)
unfolding add_entries zones_claimed
view-add_entries name [] b = unfold notes in refl
view-add_entries name (e ∷ rest) b =
    view-add_entries name rest (add_entry e b)
    ∙ ap (λ v. notes v (zones_claimed rest name)) (view-add_entry name e b)
    ∙ sym (notes-append (view name b) (claims_of e name) (zones_claimed rest name))

lookup-erase_all :
    (name : Str) (conflicting : Set Str) (zone_of : Map Str Str)
    → GoMap.lookup name (erase_all conflicting zone_of)
      ≡ (if GoMap.has name conflicting then none else GoMap.lookup name zone_of)
unfolding erase_all GoMap.has GoMap.lookup
lookup-erase_all name [] zone_of = refl
lookup-erase_all name ((k, u) ∷ rest) zone_of =
    ground (arith, lookup-erase_all name rest (GoMap.erase k zone_of), lookup-erase k name zone_of)

-- The zone of a view that is not conflicting.
abbrev settled : View → Option Str
settled v = if v.conflict then none else v.zone

none_yet : View
none_yet = record { zone = none; conflict = false }

view-empty : (name : Str) → view name empty ≡ none_yet
unfolding view none_yet GoMap.lookup GoMap.has
view-empty name = refl

view_of_entries :
    (name : Str) (entries : List Entry)
    → view name (add_entries entries empty) ≡ notes none_yet (zones_claimed entries name)
view_of_entries name entries =
    view-add_entries name entries empty
    ∙ ap (λ v. notes v (zones_claimed entries name)) (view-empty name)

settled-view :
    (name : Str) (b : Build)
    → settled (view name b)
      ≡ (if GoMap.has name b.conflicting then none else GoMap.lookup name b.zone_of)
unfolding view
settled-view name b = refl

snapshot_lookup-notes :
    (entries : List Entry) (fqdn : Str)
    → snapshot_lookup (build_snapshot entries).0 fqdn
      ≡ settled (notes none_yet (zones_claimed entries (normalize fqdn)))
unfolding build_snapshot snapshot_lookup
snapshot_lookup-notes entries fqdn =
    lookup-erase_all (normalize fqdn) (add_entries entries empty).conflicting
      (add_entries entries empty).zone_of
    ∙ sym (settled-view (normalize fqdn) (add_entries entries empty))
    ∙ ap settled (view_of_entries (normalize fqdn) entries)

note_same :
    (first z : Str) (c : Bool)
    → (first == z) ≡ true
    → note (record { zone = some first; conflict = c }) z
      ≡ record { zone = some first; conflict = c }
unfolding note
note_same first z c e = rw e

note_ne :
    (first z : Str) (c : Bool)
    → (first == z) ≡ false
    → note (record { zone = some first; conflict = c }) z
      ≡ record { zone = some first; conflict = true }
unfolding note
note_ne first z c e = rw e

-- Claims after the first one: the conflict is sticky, and is raised by any other zone.
settled-notes :
    (zs : List Str) (first zone : Str) (c : Bool)
    → settled (notes (record { zone = some first; conflict = c }) zs) ≡ some zone
    → (c ≡ false) × (first ≡ zone) × All (λ z. z ≡ zone) zs
unfolding notes note
settled-notes [] first zone c h = (ground arith, ground arith, tt)
settled-notes (z ∷ zs) first zone c h = elim (Bool-cases (first == z)) [
  | inl e ↦
      let (no_conflict, same, others) =
        settled-notes zs first zone c
          (ap (λ v. settled (notes v zs)) (sym (note_same first z c e)) ∙ h) in
      (no_conflict, same, (sym ((eq_iff first z).0 e) ∙ same, others))
  | inr e ↦ cc (
      (settled-notes zs first zone true
        (ap (λ v. settled (notes v zs)) (sym (note_ne first z c e)) ∙ h)).0)
]

notes_agreed :
    (zs : List Str) (zone : Str)
    → All (λ z. z ≡ zone) zs
    → notes (record { zone = some zone; conflict = false }) zs
      ≡ record { zone = some zone; conflict = false }
unfolding notes
notes_agreed [] zone h = refl
notes_agreed (z ∷ zs) zone (e, h) =
    ap (λ v. notes v zs) (note_same zone z false ((eq_iff zone z).1 (sym e)))
    ∙ notes_agreed zs zone h

-- What a name's claims come to: their zone, if there are any and they agree.
settled-claims_iff :
    (zs : List Str) (zone : Str)
    → (settled (notes none_yet zs) ≡ some zone) ↔ (Memᴰ zone zs × All (λ z. z ≡ zone) zs)
unfolding notes none_yet
settled-claims_iff [] zone = (λ h. cc, λ h. elim h.0 [ ])
settled-claims_iff (z ∷ zs) zone = (
  λ h.
      let (_, same, others) = settled-notes zs z zone false (unfold note in h) in
      (Memᴰ.head (sym same), (same, others)),
  λ h. unfold note in rw h.1.0 (ap settled (notes_agreed zs zone h.1.1)),
)

-- A name resolves to a zone exactly if some entry with a usable zone lists a spelling of the name
-- under that zone, and none lists one under another zone. The order and repetition of the entries
-- and of their names do not enter.
pub snapshot_lookup_iff :
    (entries : List Entry) (fqdn zone : Str)
    → (snapshot_lookup (build_snapshot entries).0 fqdn ≡ some zone) ↔ (
        Claims entries (normalize fqdn) zone
        × ((other : Str) → Claims entries (normalize fqdn) other → other ≡ zone))
snapshot_lookup_iff entries fqdn zone = (to, of)
  where
    zs : List Str
    zs = zones_claimed entries (normalize fqdn)

    to :
        snapshot_lookup (build_snapshot entries).0 fqdn ≡ some zone
        → Claims entries (normalize fqdn) zone
          × ((other : Str) → Claims entries (normalize fqdn) other → other ≡ zone)
    to h =
        let (m, agreed) =
          (settled-claims_iff zs zone).0 (sym (snapshot_lookup-notes entries fqdn) ∙ h) in
        (
          Claims-mem entries (normalize fqdn) zone m,
          λ other k. All-mem (λ z. z ≡ zone) zs agreed (mem-Claims k),
        )

    of :
        Claims entries (normalize fqdn) zone
          × ((other : Str) → Claims entries (normalize fqdn) other → other ≡ zone)
        → snapshot_lookup (build_snapshot entries).0 fqdn ≡ some zone
    of (k, sole) =
        snapshot_lookup-notes entries fqdn
        ∙ (settled-claims_iff zs zone).1 (
          mem-Claims k,
          mem-All (λ z. z ≡ zone) zs
              (λ other m. sole other (Claims-mem entries (normalize fqdn) other m)),
        )
