-- ===== src/Registry.antt =====
-- internal/registry/registry.go: the mapping from names to zones, and the store of its snapshots.
pub mod Claims
pub mod Lookups
pub mod Poller
use zonedns.Prelude.{
  ℕ, ◌+◌, Bool, true, false, not, Option, none, some, List, [], ◌∷◌, length, ◌==◌, if◌then◌else◌,
  Result, ok, err, is_some,
}
use zonedns.Text.{Str, str_eq, text, to_lower, trim_suffix}
use zonedns.GoMap
use zonedns.GoMap.{Map, Set}
use zonedns.Ednszone
use zonedns.Spiffezone

pub record Entry : Type 0 where
  pub spiffe_id_path : Str
  pub dns_names : List Str

pub record Stats : Type 0 where
  pub names : ℕ
  pub conflicts : ℕ
  pub skipped : ℕ

pub record Snapshot : Type 0 where
  pub zone_of : Map Str Str

unfoldable pub normalize : Str → Str
normalize name = to_lower (trim_suffix name (text "."))

-- The variables of `BuildSnapshot`.
pub record Build : Type 0 where
  pub zone_of : Map Str Str
  pub conflicting : Set Str
  pub skipped : ℕ

-- One round of the inner loop.
add_name : Str → Str → Build → Build
add_name zone raw b =
    let name = normalize raw in
    let stored = record b { zone_of = GoMap.insert name zone b.zone_of } in
    if name == [] then b else elim (GoMap.lookup name b.zone_of) [
      | none ↦ stored
      | some prev ↦
          if not (prev == zone)
          then record b { conflicting = GoMap.insert name tt b.conflicting }
          else stored
    ]

add_names : Str → List Str → Build → Build
add_names zone [] b = b
add_names zone (raw ∷ rest) b = add_names zone rest (add_name zone raw b)

abbrev skip : Build → Build
skip b = record b { skipped = b.skipped + 1 }

-- The zone of an entry that is not skipped.
unfoldable pub entry_zone : Entry → Option Str
entry_zone e = elim (Spiffezone.from_path e.spiffe_id_path) [
  | err _ ↦ none
  | ok zone ↦ if not (Ednszone.valid zone) then none else some zone
]

-- One round of the outer loop.
add_entry : Entry → Build → Build
add_entry e b = elim (entry_zone e) [ none ↦ skip b | some zone ↦ add_names zone e.dns_names b ]

add_entries : List Entry → Build → Build
add_entries [] b = b
add_entries (e ∷ rest) b = add_entries rest (add_entry e b)

-- `for name := range conflicting { delete(zoneOf, name) }`
erase_all : Set Str → Map Str Str → Map Str Str
erase_all [] zone_of = zone_of
erase_all ((name, _) ∷ rest) zone_of = erase_all rest (GoMap.erase name zone_of)

abbrev pub empty : Build
empty = record { zone_of = []; conflicting = []; skipped = 0 }

unfoldable pub build_snapshot : List Entry → Snapshot × Stats
unfolding add_entries add_entry add_names add_name erase_all normalize entry_zone
build_snapshot entries =
    let b = add_entries entries empty in
    let zone_of = erase_all b.conflicting b.zone_of in
    (
      record { zone_of = zone_of },
      record { names = length zone_of; conflicts = length b.conflicting; skipped = b.skipped },
    )

unfoldable pub snapshot_lookup : Snapshot → Str → Option Str
snapshot_lookup s fqdn = GoMap.lookup (normalize fqdn) s.zone_of

-- The atomic pointer of a store: none until the first `Replace`.
pub record Store : Type 0 where
  pub cur : Option Snapshot

abbrev pub new_store : Store
new_store = record { cur = none }

unfoldable pub replace : Store → Snapshot → Store
replace st s = record { cur = some s }

unfoldable pub ready : Store → Bool
ready st = is_some st.cur

unfoldable pub lookup : Store → Str → Option Str
unfolding snapshot_lookup
lookup st fqdn = elim st.cur [ none ↦ none | some s ↦ snapshot_lookup s fqdn ]
