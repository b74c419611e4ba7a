-- ===== src/Readiness/Instances.antt =====
-- The goroutines of all instances of the agent in one process, interleaved in any order. Each of
-- them takes the mutex once, so that a step is one call of markResolverReady or markResolverStopped.
pub mod Meaning
pub mod Late
use zonedns.Prelude.{ℕ, ◌+◌, ◌≤◌, ◌<◌, ◌≡◌, Bool, true, false, ◌||◌, ◌==◌, if◌then◌else◌, nat_eq}
use zonedns.Readiness.{
  Readiness, next_generation, wire_lifecycle, mark_resolver_ready, mark_resolver_stopped,
  cold_start,
}

-- By generation: whether its watcher has synced, whether it was marked ready, whether its context
-- has ended, and whether it was marked stopped. `late` records that some generation was marked ready after it was marked stopped.
pub record Process : Type 0 where
  pub readiness : Readiness
  pub synced : ℕ → Bool
  pub reported : ℕ → Bool
  pub ended : ℕ → Bool
  pub stopped : ℕ → Bool
  pub late : Bool

abbrev pub mark : ℕ → (ℕ → Bool) → ℕ → Bool
mark gen marks g = if g == gen then true else marks g

abbrev pub started : Process
started = record {
  readiness = cold_start;
  synced = λ g. false;
  reported = λ g. false;
  ended = λ g. false;
  stopped = λ g. false;
  late = false;
}

-- setup in k8s mode and in vm mode; WaitForCacheSync that succeeds, which it does only while the
-- context lasts; OnReady, which is called only after that, perhaps when the context has ended
-- meanwhile; OnShutdown; and the goroutine that waits for the end of the context.
pub data Step (p : Process) : Process → Type 0 where
  set_up_k8s : Step p (record p { readiness = (next_generation p.readiness).0 })
  set_up_vm : Step p (record p {
    readiness = (wire_lifecycle p.readiness).0;
    reported = mark (wire_lifecycle p.readiness).1 p.reported;
  })
  sync :
      (gen : ℕ)
      → 0 < gen
      → gen ≤ p.readiness.generation
      → p.ended gen ≡ false
      → Step p (record p { synced = mark gen p.synced })
  report :
      (gen : ℕ)
      → 0 < gen
      → gen ≤ p.readiness.generation
      → p.synced gen ≡ true
      → p.reported gen ≡ false
      → Step p (record p {
        readiness = mark_resolver_ready gen p.readiness;
        reported = mark gen p.reported;
        late = p.late || p.stopped gen;
      })
  end_context :
      (gen : ℕ)
      → 0 < gen
      → gen ≤ p.readiness.generation
      → Step p (record p { ended = mark gen p.ended })
  stop :
      (gen : ℕ)
      → p.ended gen ≡ true
      → p.stopped gen ≡ false
      → Step p (record p {
        readiness = mark_resolver_stopped gen p.readiness;
        stopped = mark gen p.stopped;
      })

pub data Reach : Process → Type 0 where
  start : Reach started
  later : {p q : Process} → Reach p → Step p q → Reach q
