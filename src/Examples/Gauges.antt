-- ===== src/Examples/Gauges.antt =====
-- Watchers that start, report and stop.
use zonedns.Prelude.{◌≡◌, ◌≢◌, ◌↔◌, refl, false, arith, nat_eq}
use zonedns.Readiness.{next_generation, mark_resolver_ready, mark_resolver_stopped}
use zonedns.Readiness.Instances.{
  Process, mark, started, set_up_k8s, sync, report, Reach, start, later,
}
use zonedns.Readiness.Instances.Meaning.{AllStopped, gauge_means}

-- An instance that is set up, and reports.
abbrev waiting : Process
waiting = record started { readiness = (next_generation started.readiness).0 }

waiting-Reach : Reach waiting
waiting-Reach = later start set_up_k8s

abbrev ready : Process
ready = record waiting {
  readiness = mark_resolver_ready 1 waiting.readiness;
  synced = mark 1 waiting.synced;
  reported = mark 1 waiting.reported;
  late = false;
}

ready-Reach : Reach ready
unfolding next_generation
ready-Reach =
    later (later waiting-Reach (sync 1 (omega arith) (omega arith) refl))
      (report 1 (omega arith) (omega arith) refl refl)

gauge_means_example :
    ((ready.readiness.gauge ≡ 1) ↔ (
      (ready.readiness.ready_generation ≢ 0)
      × (ready.stopped ready.readiness.ready_generation ≡ false)))
    × (AllStopped ready → ready.readiness.gauge ≡ 0)
gauge_means_example = gauge_means ready ready-Reach refl

-- An instance that is shut down before it reports.
abbrev shut : Process
shut = record waiting {
  readiness = mark_resolver_stopped 1 waiting.readiness;
  ended = mark 1 waiting.ended;
  stopped = mark 1 waiting.stopped;
}
