-- ===== src/Readiness/Reloads.antt =====
-- What the gauge says while instances of the plugin overlap.
use zonedns.Prelude.{
  ℕ, ◌≡◌, ◌≢◌, refl, ap, ◌∙◌, sym, List, [], ◌∷◌, ◌++◌, arith, All, append_assoc, nat_eq,
}
use zonedns.Readiness.{Readiness, Event, set_up_k8s, set_up_vm, became_ready, stopped, step, run}

-- Steps that leave the generation `gen` the last to have become ready, and running.
abbrev pub Spares : ℕ → Event → Type 0
Spares gen set_up_k8s = Unit
Spares gen set_up_vm = ⊥
Spares gen (became_ready g) = ⊥
Spares gen (stopped g) = g ≢ gen

-- The same, once the generation has stopped.
abbrev pub IsQuiet : Event → Type 0
IsQuiet set_up_k8s = Unit
IsQuiet set_up_vm = ⊥
IsQuiet (became_ready g) = ⊥
IsQuiet (stopped g) = Unit

run-append : (s : Readiness) (es fs : List Event) → run s (es ++ fs) ≡ run (run s es) fs
unfolding run
run-append s [] fs = refl
run-append s (e ∷ es) fs = run-append (step s e) es fs

run_spared :
    (gen : ℕ) (s : Readiness) (es : List Event)
    → s.ready_generation ≡ gen
    → s.gauge ≡ 1
    → All (Spares gen) es
    → ((run s es).ready_generation ≡ gen) × ((run s es).gauge ≡ 1)
unfolding run step
run_spared gen s [] g h k = (g, h)
run_spared gen s (set_up_k8s ∷ es) g h (_, k) = run_spared gen (step s set_up_k8s) es g h k
run_spared gen s (set_up_vm ∷ es) g h (n, k) = elim n [ ]
run_spared gen s (became_ready x ∷ es) g h (n, k) = elim n [ ]
run_spared gen s (stopped x ∷ es) g h (ne, k) =
    run_spared gen (step s (stopped x)) es (ground arith) (ground arith) k

run_ready :
    (s : Readiness) (gen : ℕ) (es : List Event)
    → All (Spares gen) es
    → ((run s (became_ready gen ∷ es)).ready_generation ≡ gen)
      × ((run s (became_ready gen ∷ es)).gauge ≡ 1)
unfolding run step
run_ready s gen es k = run_spared gen (step s (became_ready gen)) es refl refl k

-- As long as the generation that became ready last has not stopped and no other becomes ready, the
-- gauge stays 1, whatever other generations stop and whatever instances are set up in k8s mode.
pub gauge_while_running :
    (s : Readiness) (before after : List Event) (gen : ℕ)
    → All (Spares gen) after
    → (run s (before ++ became_ready gen ∷ after)).gauge ≡ 1
gauge_while_running s before after gen k = rw run-append (run_ready (run s before) gen after k).1

run_quiet : (s : Readiness) (es : List Event) → s.gauge ≡ 0 → All IsQuiet es → (run s es).gauge ≡ 0
unfolding run step
run_quiet s [] h k = h
run_quiet s (set_up_k8s ∷ es) h (_, k) = run_quiet (step s set_up_k8s) es h k
run_quiet s (set_up_vm ∷ es) h (n, k) = elim n [ ]
run_quiet s (became_ready x ∷ es) h (n, k) = elim n [ ]
run_quiet s (stopped x ∷ es) h (_, k) = run_quiet (step s (stopped x)) es (ground arith) k

run_stop :
    (s : Readiness) (gen : ℕ) (es : List Event)
    → s.ready_generation ≡ gen
    → All IsQuiet es
    → (run s (stopped gen ∷ es)).gauge ≡ 0
unfolding run step
run_stop s gen es e q = run_quiet (step s (stopped gen)) es (ground arith) q

-- Once the generation that became ready last has stopped, the gauge is 0 until another is ready.
pub gauge_after_stop :
    (s : Readiness) (before during after : List Event) (gen : ℕ)
    → All (Spares gen) during
    → All IsQuiet after
    → (run s (before ++ became_ready gen ∷ during ++ stopped gen ∷ after)).gauge ≡ 0
gauge_after_stop s before during after gen k q =
    rw (run-append s (before ++ became_ready gen ∷ during), run-append s before)
      (run_stop _ gen after (run_ready (run s before) gen during k).0 q)

-- The comment on markResolverStopped fails: a generation that becomes ready after a newer one and
-- stops then clears the gauge, although the newer one has not stopped.
pub gauge_cleared_by_older :
    (s : Readiness) (before between : List Event) (older newer : ℕ)
    → older ≢ newer
    → All (Spares newer) between
    → ((run s (before ++ became_ready newer ∷ between)).gauge ≡ 1)
      × ((run s (
            before
            ++ became_ready newer ∷ between
            ++ became_ready older ∷ stopped older ∷ [])).gauge
          ≡ 0)
gauge_cleared_by_older s before between older newer ne k = (
  gauge_while_running s before between newer k,
  ap (λ es. (run s es).gauge)
        (sym (
          append_assoc (before ++ became_ready newer ∷ between) (became_ready older ∷ [])
            (stopped older ∷ [])))
      ∙ (gauge_after_stop s (before ++ became_ready newer ∷ between) [] [] older tt tt),
)
