-- ===== src/Readiness/Instances/Late.antt =====
-- A report that comes after its generation was marked stopped.
use zonedns.Prelude.{◌+◌, ◌≡◌, ◌||◌, nat_eq}
use zonedns.Readiness.{next_generation, mark_resolver_ready, mark_resolver_stopped}
use zonedns.Readiness.Instances.{Process, mark, Step}
use zonedns.Readiness.Instances.Meaning.{Inv, AllStopped}

-- Steps without a setup: no generation is handed out.
pub data Quiet (p : Process) : Process → Type 0 where
  done : Quiet p p
  then :
      {q r : Process}
      → Quiet p q
      → Step q r
      → r.readiness.generation ≡ q.readiness.generation
      → Quiet p r

-- The gauge is up over nothing that runs.
pub record IsStuck (p : Process) : Type 0 where
  pub inv : Inv p
  pub stopped : AllStopped p
  pub up : p.readiness.gauge ≡ 1

-- An instance in k8s mode from its setup to its report, which comes last.
abbrev late_instance : Process → Process
late_instance p =
    let gen = p.readiness.generation + 1 in
    record p {
      readiness =
          mark_resolver_ready gen (mark_resolver_stopped gen (next_generation p.readiness).0);
      synced = mark gen p.synced;
      ended = mark gen p.ended;
      stopped = mark gen p.stopped;
      reported = mark gen p.reported;
      late = p.late || mark gen p.stopped gen;
    }
