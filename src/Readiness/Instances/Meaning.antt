-- ===== src/Readiness/Instances/Meaning.antt =====
-- What the gauge says in every state that the goroutines can reach.
use zonedns.Prelude.{
  ℕ, ◌+◌, ◌≤◌, ◌<◌, ◌≡◌, ◌≢◌, ◌↔◌, refl, true, false, arith, nat_eq, eq_iff, ◌⊎◌, inl, inr,
}
use zonedns.Readiness.{next_generation, wire_lifecycle, mark_resolver_ready, mark_resolver_stopped}
use zonedns.Readiness.Instances.{
  Process, started, Step, set_up_k8s, set_up_vm, sync, report, end_context, stop, Reach, start,
  later,
}

-- The generations are those that were handed out, and the gauge is that of the generation that was
-- marked ready last.
pub record Inv (p : Process) : Type 0 where
  pub handed_out : p.readiness.ready_generation ≤ p.readiness.generation
  pub fresh_stopped : (g : ℕ) → p.readiness.generation < g → p.stopped g ≡ false
  pub fresh_reported : (g : ℕ) → p.readiness.generation < g → p.reported g ≡ false
  pub fresh_ended : (g : ℕ) → p.readiness.generation < g → p.ended g ≡ false
  pub binary : p.readiness.gauge ≤ 1
  pub cold : p.readiness.ready_generation ≡ 0 → p.readiness.gauge ≡ 0
  pub zero_running : p.stopped 0 ≡ false
  pub zero_ended : p.ended 0 ≡ false
  pub shown :
      p.late ≡ false
      → p.readiness.ready_generation ≢ 0
      → (p.readiness.gauge ≡ 1) ↔ (p.stopped p.readiness.ready_generation ≡ false)

Inv-started : Inv started
Inv-started = record {
  handed_out = omega arith;
  fresh_stopped = λ g h. refl;
  fresh_reported = λ g h. refl;
  fresh_ended = λ g h. refl;
  binary = omega arith;
  cold = λ h. refl;
  zero_running = refl;
  zero_ended = refl;
  shown = λ l ne. absurd (ne refl);
}

pub Step-Inv : {p q : Process} → Step p q → Inv p → Inv q
unfolding next_generation wire_lifecycle mark_resolver_ready mark_resolver_stopped
Step-Inv {p} set_up_k8s k = record {
  handed_out = omega (arith, k.handed_out);
  fresh_stopped = λ g h. k.fresh_stopped g (omega arith);
  fresh_reported = λ g h. k.fresh_reported g (omega arith);
  fresh_ended = λ g h. k.fresh_ended g (omega arith);
  binary = k.binary;
  cold = k.cold;
  zero_running = k.zero_running;
  zero_ended = k.zero_ended;
  shown = k.shown;
}
Step-Inv {p} set_up_vm k = record {
  handed_out = omega arith;
  fresh_stopped = λ g h. k.fresh_stopped g (omega arith);
  fresh_reported = λ g h. ground (arith, eq_iff g (p.readiness.generation + 1), k.fresh_reported g);
  fresh_ended = λ g h. k.fresh_ended g (omega arith);
  binary = omega arith;
  cold = λ h. omega arith;
  zero_running = k.zero_running;
  zero_ended = k.zero_ended;
  shown = λ l ne. (λ h. k.fresh_stopped (p.readiness.generation + 1) (omega arith), λ h. refl);
}
Step-Inv {p} (sync gen pos le runs) k = record {
  handed_out = k.handed_out;
  fresh_stopped = k.fresh_stopped;
  fresh_reported = k.fresh_reported;
  fresh_ended = k.fresh_ended;
  binary = k.binary;
  cold = k.cold;
  zero_running = k.zero_running;
  zero_ended = k.zero_ended;
  shown = k.shown;
}
Step-Inv {p} (report gen pos le done new) k = record {
  handed_out = le;
  fresh_stopped = k.fresh_stopped;
  fresh_reported = λ g h. ground (arith, eq_iff g gen, k.fresh_reported g h);
  fresh_ended = k.fresh_ended;
  binary = omega arith;
  cold = λ h. omega arith;
  zero_running = k.zero_running;
  zero_ended = k.zero_ended;
  shown = λ l ne. (λ h. ground arith, λ h. refl);
}
Step-Inv {p} (end_context gen pos le) k = record {
  handed_out = k.handed_out;
  fresh_stopped = k.fresh_stopped;
  fresh_reported = k.fresh_reported;
  fresh_ended = λ g h. ground (arith, eq_iff g gen, k.fresh_ended g h);
  binary = k.binary;
  cold = k.cold;
  zero_running = k.zero_running;
  zero_ended = ground (arith, eq_iff 0 gen, k.zero_ended);
  shown = k.shown;
}
Step-Inv {p} (stop gen done running) k = record {
  handed_out = ground (arith, k.handed_out);
  fresh_stopped = λ g h. ground (arith, eq_iff g gen, k.fresh_stopped g, k.fresh_ended g, done);
  fresh_reported = λ g h. ground (arith, k.fresh_reported g);
  fresh_ended = λ g h. ground (arith, k.fresh_ended g);
  binary = ground (arith, k.binary);
  cold = λ h. ground (arith, k.cold);
  zero_running = ground (arith, eq_iff 0 gen, k.zero_running, k.zero_ended);
  zero_ended = k.zero_ended;
  shown = λ l ne. ground (arith, k.shown l, eq_iff p.readiness.ready_generation gen);
}

pub Reach-Inv : {p : Process} → Reach p → Inv p
Reach-Inv start = Inv-started
Reach-Inv (later r st) = Step-Inv st (Reach-Inv r)

-- Every generation that was handed out was marked stopped.
abbrev pub AllStopped : Process → Type 0
AllStopped p = (g : ℕ) → 0 < g → g ≤ p.readiness.generation → p.stopped g ≡ true

-- In every state that the goroutines of any instances can reach, in whatever order they run, unless
-- some generation was marked ready after it was marked stopped: the gauge is 1 exactly if a
-- generation was marked ready and the last such one was not marked stopped. So it is 0 once all
-- generations were.
pub gauge_means :
    (p : Process)
    → Reach p
    → p.late ≡ false
    → ((p.readiness.gauge ≡ 1)
        ↔ ((p.readiness.ready_generation ≢ 0) × (p.stopped p.readiness.ready_generation ≡ false)))
      × (AllStopped p → p.readiness.gauge ≡ 0)
gauge_means p r prompt =
    let k = Reach-Inv r in
    (
      (
        λ h.
            let ne : p.readiness.ready_generation ≢ 0 = λ z. omega (arith, h, k.cold z) in
            (ne, (k.shown prompt ne).0 h),
        λ (ne, running). (k.shown prompt ne).1 running,
      ),
      λ all. elim (zero_or_one p.readiness.gauge k.binary) [
        | inl z ↦ z
        | inr one ↦
            let ne : p.readiness.ready_generation ≢ 0 = λ z. omega (arith, one, k.cold z) in
            absurd (
              cc (
                (k.shown prompt ne).0 one,
                all p.readiness.ready_generation (omega (arith, ne)) k.handed_out,
              ))
      ],
    )
  where
    zero_or_one : (n : ℕ) → n ≤ 1 → (n ≡ 0) ⊎ (n ≡ 1)
    zero_or_one n h = ground arith
