-- ===== src/Examples/Start.antt =====
-- Orders of directives, and the readiness gauge.
use zonedns.Prelude.{◌≡◌, none, List, [], ◌∷◌, arith}
use zonedns.Text.{Str, text}
use zonedns.Directives.{check_order, insert_before_cache}
use zonedns.Directives.Insert.{insert_before_cache_accepted}
use zonedns.Readiness.{became_ready, stopped, set_up_k8s, run, cold_start}
use zonedns.Readiness.Reloads.{gauge_cleared_by_older}

abbrev woven : List Str
woven = text "log" ∷ text "zonedns" ∷ text "cache" ∷ text "forward" ∷ []

insert_before_cache_accepted_example :
    (insert_before_cache (text "zonedns") (text "log" ∷ text "cache" ∷ text "forward" ∷ []) ≡ woven)
    × (check_order
          (text "zonedns")
          (insert_before_cache (text "zonedns") (text "log" ∷ text "cache" ∷ text "forward" ∷ []))
        ≡ none)
insert_before_cache_accepted_example =
    insert_before_cache_accepted (text "zonedns") (ground arith) (text "log" ∷ [])
      (text "forward" ∷ []) (ground arith, tt) (ground arith, tt)
      (ground arith, (ground arith, (ground arith, tt)))

gauge_cleared_by_older_example :
    ((run cold_start (set_up_k8s ∷ set_up_k8s ∷ became_ready 2 ∷ [])).gauge ≡ 1)
    × ((run cold_start
          (set_up_k8s ∷ set_up_k8s ∷ became_ready 2 ∷ became_ready 1 ∷ stopped 1 ∷ [])).gauge
        ≡ 0)
gauge_cleared_by_older_example =
    gauge_cleared_by_older cold_start (set_up_k8s ∷ set_up_k8s ∷ []) [] 1 2 (ground arith) tt
