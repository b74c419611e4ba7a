-- ===== src/Readiness.antt =====
-- plugin/zonedns_agent/setup.go: the readiness gauge over reloads. Every function takes a mutex, so
-- an interleaving of watchers is a sequence of these steps.
pub mod Reloads
pub mod Instances
use zonedns.Prelude.{ℕ, ◌+◌, List, [], ◌∷◌, ◌==◌, if◌then◌else◌, nat_eq}

-- The package variables: the counter of generations, the generation that became ready last, and
-- the gauge.
pub record Readiness : Type 0 where
  pub generation : ℕ
  pub ready_generation : ℕ
  pub gauge : ℕ

-- resolverGeneration.Add(1), with its result
unfoldable pub next_generation : Readiness → Readiness × ℕ
next_generation s = (record s { generation = s.generation + 1 }, s.generation + 1)

unfoldable pub mark_resolver_ready : ℕ → Readiness → Readiness
mark_resolver_ready gen s = record s { ready_generation = gen; gauge = 1 }

-- The hook for tests is nil.
unfoldable pub mark_resolver_stopped : ℕ → Readiness → Readiness
mark_resolver_stopped gen s = if s.ready_generation == gen then record s { gauge = 0 } else s

-- wireResolverReadyLifecycle up to its goroutine, with the generation that this stops later.
unfoldable pub wire_lifecycle : Readiness → Readiness × ℕ
unfolding next_generation mark_resolver_ready
wire_lifecycle s = let (s', gen) = next_generation s in (mark_resolver_ready gen s', gen)

-- The steps of all instances of the plugin in one process: an instance is set up, in k8s mode or
-- in vm mode, its watcher becomes ready, its context ends.
pub data Event : Type 0 where
  set_up_k8s set_up_vm : Event
  became_ready : ℕ → Event
  stopped : ℕ → Event

unfoldable pub step : Readiness → Event → Readiness
unfolding next_generation mark_resolver_ready mark_resolver_stopped wire_lifecycle
step s set_up_k8s = (next_generation s).0
step s set_up_vm = (wire_lifecycle s).0
step s (became_ready gen) = mark_resolver_ready gen s
step s (stopped gen) = mark_resolver_stopped gen s

unfoldable pub run : Readiness → List Event → Readiness
unfolding step
run s [] = s
run s (e ∷ es) = run (step s e) es

abbrev pub cold_start : Readiness
cold_start = record { generation = 0; ready_generation = 0; gauge = 0 }
