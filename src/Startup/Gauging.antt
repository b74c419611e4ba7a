-- ===== src/Startup/Gauging.antt =====
-- The gauges of the central plugin while its poller runs, and what it answers meanwhile.
use zonedns.Prelude.{ℕ, ◌+◌, ◌≡◌, refl, true, none, some, List, [], ◌∷◌, ◌++◌, inl, inr}
use zonedns.Registry.{Entry, Stats, Store, build_snapshot, replace}
use zonedns.Registry.Poller.{
  Lister, Poller, consecutive_poll_errors, Call, on_snapshot, on_poll_errors, round, run,
}
use zonedns.Registry.Poller.Polls.{IsPolled}
use zonedns.Registry.Poller.Rounds.{round_cases}
use zonedns.Startup.{Gauges, publish, publish_all}

-- What the gauges of the registry say of a store: nothing was polled and nothing is claimed, or the
-- store holds the snapshot of some entries and the gauges have their statistics.
pub data Shows (g : Gauges) : Store → Type 0 where
  unpolled : g.registry_ready ≡ 0 → Shows g (record { cur = none })
  polled :
      (all : List Entry)
      → g.registry_ready ≡ 1
      → g.registry_names ≡ (build_snapshot all).1.names
      → g.registry_conflicts ≡ (build_snapshot all).1.conflicts
      → Shows g (record { cur = some (build_snapshot all).0 })

-- The gauges agree with a poller that has both hooks.
pub record IsShown (g : Gauges) (p : Poller) : Type 0 where
  pub hooks : (p.has_on_snapshot ≡ true) × (p.has_on_poll_errors ≡ true)
  pub errors : g.registry_poll_errors ≡ consecutive_poll_errors p
  pub registry : Shows g p.store

pub publish_all-append :
    (cs ds : List Call) (g : Gauges) → publish_all (cs ++ ds) g ≡ publish_all ds (publish_all cs g)
unfolding publish_all
publish_all-append [] ds g = refl
publish_all-append (c ∷ cs) ds g = publish_all-append cs ds (publish c g)

Shows-replaced :
    (lister : Lister) (st st' : Store) (stats : Stats) (g : Gauges)
    → IsPolled lister st st' stats
    → Shows (publish (on_poll_errors 0) (publish (on_snapshot stats) g)) st'
unfolding publish replace
Shows-replaced lister st st' stats g k = rw (k.stored, k.counted) (polled k.all refl refl refl)

Shows-counted :
    (n : ℕ) (st : Store) (g : Gauges) → Shows g st → Shows (publish (on_poll_errors n) g) st
unfolding publish
Shows-counted n st g (unpolled h) = unpolled h
Shows-counted n st g (polled all r m c) = polled all r m c

round-IsShown :
    (p : Poller) (lister : Lister) (g : Gauges)
    → IsShown g p
    → IsShown (publish_all (round p lister).1 g) (round p lister).0
unfolding publish_all publish
round-IsShown p lister g k = elim (round_cases p lister) [
  | inl e ↦
      rw (e, k.hooks.1)
        (record {
          hooks = (k.hooks.0, refl);
          errors = refl;
          registry = Shows-counted (p.poll_errors + 1) p.store g k.registry;
        })
  | inr (st, stats, i, e) ↦
      rw (e, k.hooks.0, k.hooks.1)
        (record {
          hooks = (refl, refl);
          errors = refl;
          registry = Shows-replaced lister p.store st stats g i;
        })
]

pub run-IsShown :
    (p : Poller) (listers : List Lister) (g : Gauges)
    → IsShown g p
    → IsShown (publish_all (run p listers).1 g) (run p listers).0
unfolding run publish_all
run-IsShown p [] g k = k
run-IsShown p (lister ∷ rest) g k = rw (publish_all-append (round p lister).1) (
    run-IsShown (round p lister).0 rest (publish_all (round p lister).1 g)
      (round-IsShown p lister g k))
