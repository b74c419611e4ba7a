-- ===== src/Startup/Courses.antt =====
-- What the polls so far came to, apart from the poller, and that the gauges tell it.
use zonedns.Prelude.{
  ℕ, ◌+◌, ◌≡◌, refl, ◌⊎◌, inl, inr, true, Option, none, some, List, [], ◌∷◌, ◌++◌, append_assoc,
  append-nil, Result-cases, arith,
}
use zonedns.Registry.{Entry, Store, new_store, build_snapshot, replace}
use zonedns.Registry.Poller.{Lister, Poller, max_poll_pages, poll_pages, poll_once, round, run}
use zonedns.Registry.Poller.Paging.{IsComplete, first_pages_iff}
use zonedns.Registry.Poller.Polls.{IsPolled}
use zonedns.Registry.Poller.Rounds.{Fails, round_failed, round_recovers}
use zonedns.Startup.{Gauges, publish, publish_all}
use zonedns.Startup.Gauging.{publish_all-append}

-- What SPIRE has to give is not complete: its pages fail, do not end in time, or repeat a token.
abbrev pub IsFailed : Lister → Type 0
IsFailed lister = (all : List Entry) → ¬ IsComplete lister all

-- `CameTo listers last failures`: of these polls, the latest one last, the last one that succeeded
-- gave the entries `last`, if one did, and `failures` polls failed since.
pub data CameTo : List Lister → Option (List Entry) → ℕ → Type 0 where
  nothing_yet : CameTo [] none 0
  failed :
      {listers : List Lister} {last : Option (List Entry)} {failures : ℕ} (lister : Lister)
      → CameTo listers last failures
      → IsFailed lister
      → CameTo (listers ++ lister ∷ []) last (failures + 1)
  succeeded :
      {listers : List Lister} {last : Option (List Entry)} {failures : ℕ} (lister : Lister)
      (all : List Entry)
      → CameTo listers last failures
      → IsComplete lister all
      → CameTo (listers ++ lister ∷ []) (some all) 0

-- What gauges and a store say of the entries that the last successful poll gave.
abbrev pub Tells : Option (List Entry) → Gauges → Store → Type 0
Tells none g st = (g.registry_ready ≡ 0) × (st ≡ new_store)
Tells (some all) g st =
    (g.registry_ready ≡ 1)
    × (g.registry_names ≡ (build_snapshot all).1.names)
    × (g.registry_conflicts ≡ (build_snapshot all).1.conflicts)
    × (st ≡ record { cur = some (build_snapshot all).0 })

-- A poller with both hooks, its gauges, and what its polls came to.
pub record IsTold (listers : List Lister) (p : Poller) (g : Gauges) : Type 0 where
  pub last : Option (List Entry)
  pub failures : ℕ
  pub course : CameTo listers last failures
  pub hooks : (p.has_on_snapshot ≡ true) × (p.has_on_poll_errors ≡ true)
  pub counter : p.poll_errors ≡ failures
  pub errors : g.registry_poll_errors ≡ failures
  pub registry : Tells last g p.store

lister_cases :
    (lister : Lister)
    → (Fails lister × IsFailed lister) ⊎ ((all : List Entry) × IsComplete lister all)
unfolding poll_once
lister_cases lister = elim (Result-cases (poll_pages lister max_poll_pages 0 [] [] [])) [
  | inl (e, q) ↦
      inl (λ st. (e, rw (q, poll_once) refl), λ all k. cc (q, (first_pages_iff lister all).1 k))
  | inr (all, q) ↦ inr (all, (first_pages_iff lister all).0 q)
]

Tells-counted :
    (last : Option (List Entry)) (n : ℕ) (g : Gauges) (st : Store)
    → Tells last g st
    → Tells last (record g { registry_poll_errors = n }) st
Tells-counted none n g st k = k
Tells-counted (some all) n g st k = k

round-IsTold :
    (listers : List Lister) (lister : Lister) (p : Poller) (g : Gauges)
    → IsTold listers p g
    → IsTold (listers ++ lister ∷ []) (round p lister).0 (publish_all (round p lister).1 g)
unfolding publish_all publish replace
round-IsTold listers lister p g k = elim (lister_cases lister) [
  | inl (fails, incomplete) ↦
      rw (round_failed p lister fails, k.hooks.1)
        (record {
          last = k.last;
          failures = k.failures + 1;
          course = failed lister k.course incomplete;
          hooks = (k.hooks.0, refl);
          counter = omega (arith, k.counter);
          errors = omega (arith, k.counter);
          registry = Tells-counted k.last (p.poll_errors + 1) g p.store k.registry;
        })
  | inr (all, complete) ↦
      let polled : IsPolled lister p.store (replace p.store (build_snapshot all).0)
          (build_snapshot all).1 =
        record { all = all; complete = complete; stored = refl; counted = refl } in
      rw (round_recovers p lister _ _ polled, k.hooks.0, k.hooks.1)
        (record {
          last = some all;
          failures = 0;
          course = succeeded lister all k.course complete;
          hooks = (refl, refl);
          counter = refl;
          errors = refl;
          registry = (refl, refl, refl, refl);
        })
]

pub run-IsTold :
    (before listers : List Lister) (p : Poller) (g : Gauges)
    → IsTold before p g
    → IsTold (before ++ listers) (run p listers).0 (publish_all (run p listers).1 g)
unfolding run publish_all
run-IsTold before [] p g k = rw (append-nil before) k
run-IsTold before (lister ∷ rest) p g k =
    rw (publish_all-append (round p lister).1, ← append_assoc before (lister ∷ []) rest)
      (run-IsTold (before ++ lister ∷ []) rest (round p lister).0 (publish_all (round p lister).1 g)
        (round-IsTold before lister p g k))
