-- ===== src/Examples/Registries.antt =====
-- Snapshots, polls and rounds of the poller.
use zonedns.Prelude.{
  ◌≡◌, ◌≢◌, refl, true, some, [], ◌∷◌, arith, ◌==◌, if◌then◌else◌, ok, err, Memᴰ, filter, length,
}
use zonedns.Text.{Str, str_eq, str_beq, text}
use zonedns.Registry.{
  Entry, Stats, Store, Snapshot, normalize, new_store, build_snapshot, snapshot_lookup, replace,
  entry_zone,
}
use zonedns.Registry.Claims.{Claims, zones_claimed, mem-Claims}
use zonedns.Registry.Lookups.{snapshot_lookup_iff}
use zonedns.Registry.{lookup}
use zonedns.Registry.Lookups.Conflicts.Statistics.{
  Counts, IsAgreed, IsDisputed, is_unusable, build_snapshot-Counts,
}
use zonedns.Registry.Lookups.Reordering.{polls_agree}
use zonedns.Registry.Poller.{list_failed, Lister, poll_once, poll_pages, Poller}
use zonedns.Registry.Poller.Pages.{last, more}
use zonedns.Registry.Poller.Polls.{IsPolled, poll_once_ok_iff}
use zonedns.Registry.Poller.Rounds.{Fails}

abbrev pub entry_a : Entry
entry_a = record { spiffe_id_path = text "/zone/zone-a/web"; dns_names = text "web.test" ∷ [] }

abbrev pub entry_b : Entry
entry_b = record { spiffe_id_path = text "/zone/zone-b/db"; dns_names = text "DB.b.test." ∷ [] }

usable_b : entry_zone entry_b ≡ some (text "zone-b")
unfolding entry_zone zonedns.Spiffezone.from_path zonedns.Text.split zonedns.Text.trim_prefix
    str_beq zonedns.Ednszone.valid
usable_b = refl

same_b : normalize (text "DB.b.test.") ≡ normalize (text "db.B.test")
unfolding normalize zonedns.Text.trim_suffix zonedns.Text.to_lower
same_b = refl

nonempty_b : normalize (text "db.B.test") ≢ []
unfolding normalize zonedns.Text.trim_suffix zonedns.Text.to_lower
nonempty_b h = cc

claimed_b :
    zones_claimed (entry_a ∷ entry_b ∷ []) (normalize (text "db.B.test")) ≡ text "zone-b" ∷ []
unfolding zones_claimed zonedns.Registry.Claims.claims_of entry_zone zonedns.Spiffezone.from_path
    zonedns.Text.split zonedns.Text.trim_prefix str_beq zonedns.Ednszone.valid normalize
    zonedns.Text.to_lower zonedns.Text.trim_suffix
claimed_b = refl

sole_member : {a b : Str} → Memᴰ a (b ∷ []) → a ≡ b
sole_member (Memᴰ.head e) = cc
sole_member (Memᴰ.tail m) = elim m [ ]

pub only_zone_b :
    (other : Str)
    → Claims (entry_a ∷ entry_b ∷ []) (normalize (text "db.B.test")) other
    → other ≡ text "zone-b"
only_zone_b other k =
    let m : Memᴰ other (zones_claimed (entry_a ∷ entry_b ∷ []) (normalize (text "db.B.test"))) =
      mem-Claims k in
    sole_member (rw claimed_b at m)

pub db_claimed : Claims (entry_a ∷ entry_b ∷ []) (normalize (text "db.B.test")) (text "zone-b")
db_claimed = record {
  entry = entry_b;
  listed = Memᴰ.tail (Memᴰ.head refl);
  usable = usable_b;
  spelling = text "DB.b.test.";
  spelled = Memᴰ.head refl;
  same = same_b;
  nonempty = nonempty_b;
}

snapshot_lookup_iff_example :
    snapshot_lookup (build_snapshot (entry_a ∷ entry_b ∷ [])).0 (text "db.B.test")
    ≡ some (text "zone-b")
snapshot_lookup_iff_example =
    (snapshot_lookup_iff (entry_a ∷ entry_b ∷ []) (text "db.B.test") (text "zone-b")).1
      (db_claimed, only_zone_b)

-- Two pages.
pub two_pages : Lister
two_pages n token = if token == [] then ok (entry_a ∷ [], text "next") else ok (entry_b ∷ [], [])

abbrev pub polled : Snapshot × Stats
polled = build_snapshot (entry_a ∷ entry_b ∷ [])

unfoldable pub two_pages-IsPolled :
    (st : Store) → IsPolled two_pages st (replace st polled.0) polled.1
unfolding two_pages str_beq
two_pages-IsPolled st = record {
  all = entry_a ∷ entry_b ∷ [];
  complete = record {
    tokens = text "next" ∷ [];
    pages =
        more {n = 0} {token = []} {next = text "next"} (entry_a ∷ []) (entry_b ∷ []) refl
          (ground arith) (last {n = 1} {token = text "next"} refl) refl;
    few = ground arith;
    distinct = (tt, tt);
  };
  stored = refl;
  counted = refl;
}

poll_once_ok_iff_example : poll_once two_pages new_store ≡ (replace new_store polled.0, ok polled.1)
poll_once_ok_iff_example =
    (poll_once_ok_iff two_pages new_store (replace new_store polled.0) polled.1).1
      (two_pages-IsPolled new_store)

abbrev pub no_server : Lister
no_server n token = err list_failed

pub outage : (st : Store) → (poll_once no_server st).1 ≡ err list_failed
unfolding poll_once poll_pages str_beq
outage st = refl

pub no_server-Fails : Fails no_server
no_server-Fails st = (list_failed, outage st)

abbrev pub poller : Poller
poller = record {
  store = new_store;
  poll_errors = 3;
  has_on_snapshot = true;
  has_on_poll_errors = true;
}

build_snapshot-Counts_example :
    Counts (IsAgreed (entry_a ∷ entry_b ∷ [])) polled.1.names
    × Counts (IsDisputed (entry_a ∷ entry_b ∷ [])) polled.1.conflicts
    × (polled.1.skipped ≡ length (filter is_unusable (entry_a ∷ entry_b ∷ [])))
build_snapshot-Counts_example = build_snapshot-Counts (entry_a ∷ entry_b ∷ [])

-- The same entries on one page, in the other order.
one_page : Lister
one_page n token = ok (entry_b ∷ entry_a ∷ [], [])

abbrev polled_once : Snapshot × Stats
polled_once = build_snapshot (entry_b ∷ entry_a ∷ [])

one_page-IsPolled : IsPolled one_page new_store (replace new_store polled_once.0) polled_once.1
unfolding one_page
one_page-IsPolled = record {
  all = entry_b ∷ entry_a ∷ [];
  complete = record {
    tokens = [];
    pages = last {n = 0} {token = []} refl;
    few = ground arith;
    distinct = tt;
  };
  stored = refl;
  counted = refl;
}

swapped : (x y : Entry) (e : Entry) → Memᴰ e (x ∷ y ∷ []) → Memᴰ e (y ∷ x ∷ [])
swapped x y e (Memᴰ.head q) = Memᴰ.tail (Memᴰ.head q)
swapped x y e (Memᴰ.tail (Memᴰ.head q)) = Memᴰ.head q
swapped x y e (Memᴰ.tail (Memᴰ.tail m)) = elim m [ ]

polls_agree_example :
    lookup (replace new_store polled.0) (text "web.test")
    ≡ lookup (replace new_store polled_once.0) (text "web.test")
unfolding two_pages-IsPolled one_page-IsPolled
polls_agree_example =
    polls_agree two_pages one_page new_store (replace new_store polled.0) new_store
      (replace new_store polled_once.0) polled.1 polled_once.1 (two_pages-IsPolled new_store)
      one_page-IsPolled (λ e. (swapped entry_a entry_b e, swapped entry_b entry_a e))
      (text "web.test")
