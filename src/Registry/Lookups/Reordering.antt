-- ===== src/Registry/Lookups/Reordering.antt =====
-- The snapshot as a function of the set of entries: what it forgets of their order and paging.
use mathlib.Core.Quot
use mathlib.Core.Quot.{Quot}
use zonedns.Prelude.{◌≡◌, ◌↔◌, refl, ap, sym, ◌∙◌, inl, inr, some, Option, List, Memᴰ, Option-cases}
use zonedns.Text.{Str}
use zonedns.Registry.{
  Entry, Stats, Store, normalize, build_snapshot, snapshot_lookup, replace, lookup,
}
use zonedns.Registry.Claims.{Claims}
use zonedns.Registry.Lookups.{snapshot_lookup_iff}
use zonedns.Registry.Poller.{Lister}
use zonedns.Registry.Poller.Polls.{IsPolled}

-- The same entries, in whatever order and however often.
abbrev pub SameEntries : List Entry → List Entry → Type 0
SameEntries es fs = (e : Entry) → Memᴰ e es ↔ Memᴰ e fs

-- A registry without order or representation: entries up to that relation.
abbrev pub Directory : Type 0
Directory = Quot SameEntries

Claims-same :
    (es fs : List Entry) (name zone : Str)
    → SameEntries es fs
    → Claims es name zone
    → Claims fs name zone
Claims-same es fs name zone same k = record {
  entry = k.entry;
  listed = (same k.entry).0 k.listed;
  usable = k.usable;
  spelling = k.spelling;
  spelled = k.spelled;
  same = k.same;
  nonempty = k.nonempty;
}

found-same :
    (es fs : List Entry) (fqdn zone : Str)
    → SameEntries es fs
    → SameEntries fs es
    → snapshot_lookup (build_snapshot es).0 fqdn ≡ some zone
    → snapshot_lookup (build_snapshot fs).0 fqdn ≡ some zone
found-same es fs fqdn zone same back h =
    let (k, sole) = (snapshot_lookup_iff es fqdn zone).0 h in
    (snapshot_lookup_iff fs fqdn zone).1 (
      Claims-same es fs (normalize fqdn) zone same k,
      λ other j. sole other (Claims-same fs es (normalize fqdn) other back j),
    )

snapshot_lookup-same :
    (es fs : List Entry) (fqdn : Str)
    → SameEntries es fs
    → snapshot_lookup (build_snapshot es).0 fqdn ≡ snapshot_lookup (build_snapshot fs).0 fqdn
snapshot_lookup-same es fs fqdn same =
    let back : SameEntries fs es = λ e. ((same e).1, (same e).0) in
    elim (Option-cases (snapshot_lookup (build_snapshot es).0 fqdn)) [
      | inr (zone, h) ↦ h ∙ sym (found-same es fs fqdn zone same back h)
      | inl h ↦ elim (Option-cases (snapshot_lookup (build_snapshot fs).0 fqdn)) [
        | inl k ↦ h ∙ sym k
        | inr (zone, k) ↦ cc (found-same fs es fqdn zone back same k)
      ]
    ]

-- The abstract registry: what a directory says of a name.
pub resolve : Str → Directory → Option Str
resolve fqdn =
    Quot.lift (hlevel) (λ es. snapshot_lookup (build_snapshot es).0 fqdn)
      (λ es fs same. snapshot_lookup-same es fs fqdn same)

-- A successful poll refines the abstract registry: the store then answers every name as the
-- directory of the entries on SPIRE's pages does.
pub poll_once-resolve :
    (lister : Lister) (st st' : Store) (stats : Stats) (k : IsPolled lister st st' stats)
    (fqdn : Str)
    → lookup st' fqdn ≡ resolve fqdn (Quot.mk k.all)
unfolding resolve lookup replace
poll_once-resolve lister st st' stats k fqdn = rw k.stored refl

-- Neither the paging nor the order nor the repetition of SPIRE's entries matters: two polls whose
-- pages hold the same entries, in whatever way, leave stores that answer every name alike.
pub polls_agree :
    (lister paged : Lister) (st st' other other' : Store) (stats counted : Stats)
    (k : IsPolled lister st st' stats) (j : IsPolled paged other other' counted)
    → SameEntries k.all j.all
    → (fqdn : Str) → lookup st' fqdn ≡ lookup other' fqdn
polls_agree lister paged st st' other other' stats counted k j same fqdn =
    poll_once-resolve lister st st' stats k fqdn
    ∙ ap (resolve fqdn) (Quot.sound same)
    ∙ sym (poll_once-resolve paged other other' counted j fqdn)
