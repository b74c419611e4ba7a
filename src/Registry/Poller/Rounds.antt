-- ===== src/Registry/Poller/Rounds.antt =====
-- The polling loop over an outage and a recovery.
use zonedns.Prelude.{
  ℕ, suc, ◌+◌, ◌≡◌, ap, refl, ◌⊎◌, inl, inr, Result-cases, ok, Bool, List, [], ◌∷◌, ◌++◌, arith,
  err, length, All,
}
use zonedns.Registry.{Stats, Store}
use zonedns.Registry.Poller.{
  PollError, Lister, poll_once, Poller, Call, on_snapshot, on_poll_errors, call_if, settle, round,
  run,
}
use zonedns.Registry.Poller.Polls.{IsPolled, poll_once_error, poll_once_ok_iff}

-- SPIRE fails the poll, whatever the store holds.
abbrev pub Fails : Lister → Type 0
Fails lister = (st : Store) → (e : PollError) × ((poll_once lister st).1 ≡ err e)

-- The calls of OnPollErrors while polls fail, from a count on.
abbrev pub error_calls : Bool → ℕ → List Lister → List Call
error_calls set n [] = []
error_calls set n (_ ∷ rest) = call_if set (on_poll_errors (n + 1)) ++ error_calls set (n + 1) rest

pub round_failed :
    (p : Poller) (lister : Lister)
    → Fails lister
    → round p lister ≡ (
      record p { poll_errors = p.poll_errors + 1 },
      call_if p.has_on_poll_errors (on_poll_errors (p.poll_errors + 1)),
    )
unfolding round settle
round_failed p lister f = let (e, h) = f p.store in rw (poll_once_error lister p.store e h)

-- A round fails and counts, or its poll succeeds and the count is zero.
pub round_cases :
    (p : Poller) (lister : Lister)
    → (round p lister ≡ (
      record p { poll_errors = p.poll_errors + 1 },
      call_if p.has_on_poll_errors (on_poll_errors (p.poll_errors + 1)),
    ))
      ⊎ ((st : Store) × (stats : Stats) × IsPolled lister p.store st stats
          × (round p lister ≡ (
            record p { store = st; poll_errors = 0 },
            call_if p.has_on_snapshot (on_snapshot stats)
                ++ call_if p.has_on_poll_errors (on_poll_errors 0),
          )))
unfolding round settle
round_cases p lister = elim (Result-cases (poll_once lister p.store).1) [
  | inl (e, h) ↦ inl (rw (poll_once_error lister p.store e h) refl)
  | inr (stats, h) ↦
      let q : poll_once lister p.store ≡ ((poll_once lister p.store).0, ok stats) =
        ap (λ r. ((poll_once lister p.store).0, r)) h in
      let k = (poll_once_ok_iff lister p.store _ stats).0 q in inr (_, stats, k, rw q refl)
]

-- In an outage the store stays as it was, and each failed poll counts one more and reports the
-- count; no statistics are reported.
pub run_outage :
    (p : Poller) (listers : List Lister)
    → All Fails listers
    → run p listers ≡ (
      record p { poll_errors = p.poll_errors + length listers },
      error_calls p.has_on_poll_errors p.poll_errors listers,
    )
unfolding run
run_outage p [] h =
    let e : p.poll_errors ≡ p.poll_errors + 0 = omega arith in
    ap (λ n. (record p { poll_errors = n }, [])) e
run_outage p (lister ∷ rest) (f, h) =
    let e : p.poll_errors + 1 + length rest ≡ p.poll_errors + suc (length rest) = omega arith in
    rw (round_failed p lister f)
      (rw (run_outage (record p { poll_errors = p.poll_errors + 1 }) rest h, e))

-- A poll that succeeds ends an outage of any length: the count is zero again, and is reported so.
pub round_recovers :
    (p : Poller) (lister : Lister) (st : Store) (stats : Stats)
    → IsPolled lister p.store st stats
    → round p lister ≡ (
      record p { store = st; poll_errors = 0 },
      call_if p.has_on_snapshot (on_snapshot stats)
          ++ call_if p.has_on_poll_errors (on_poll_errors 0),
    )
unfolding round settle
round_recovers p lister st stats k = rw ((poll_once_ok_iff lister p.store st stats).1 k)
