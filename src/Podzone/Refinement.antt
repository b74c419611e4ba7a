-- ===== src/Podzone/Refinement.antt =====
-- Answers of a watcher after any events.
use zonedns.Prelude.{◌≡◌, refl, ◌∙◌, true, Option, none, some, List, [], ◌∷◌, arith}
use zonedns.Text.{Str, str_eq}
use zonedns.GoMap
use zonedns.Netip.{Addr, addr_eq}
use zonedns.Podzone.{
  pod, tombstone, unknown, PodKey, key_eq, pod_key, Watcher, new, index, unindex, Event, added,
  updated, deleted, synced, stopped, step, run, zone,
}
use zonedns.Podzone.Steps.{unindex-index}
use zonedns.Podzone.Tracking.{
  Pods, report, IsSound, IsServed, IsExclusive, index-IsServed, step-IsSound,
}

abbrev pub no_pods : Pods
no_pods k = none

pub label-index :
    (key : PodKey) (w : Watcher) (q : Option (Addr × Str))
    → (index key q w).zone_label ≡ w.zone_label
unfolding index
label-index key w none = ground arith
label-index key w (some (ip, zone)) = refl

label-unindex : (key : PodKey) (w : Watcher) → (unindex key w).zone_label ≡ w.zone_label
label-unindex key w = rw (unindex-index key w) (label-index key w none)

module _ (parse_addr : Str → Option Addr) where
  step-IsServed :
      (pods : Pods) (w : Watcher) (e : Event)
      → IsSound pods w
      → IsExclusive pods
      → IsExclusive (report parse_addr w.zone_label pods e)
      → IsServed pods w
      → IsServed (report parse_addr w.zone_label pods e) (step parse_addr w e)
  unfolding report step
  step-IsServed pods w (added (pod p)) s x x' v = index-IsServed pods w s (pod_key p) _ x x' v
  step-IsServed pods w (updated (pod p)) s x x' v = index-IsServed pods w s (pod_key p) _ x x' v
  step-IsServed pods w (deleted (pod p)) s x x' v =
      rw (unindex-index (pod_key p) w) (index-IsServed pods w s (pod_key p) none x x' v)
  step-IsServed pods w (deleted (tombstone (some p))) s x x' v =
      rw (unindex-index (pod_key p) w) (index-IsServed pods w s (pod_key p) none x x' v)
  step-IsServed pods w (deleted (tombstone none)) s x x' v = v
  step-IsServed pods w (deleted unknown) s x x' v = v
  step-IsServed pods w (added _) s x x' v = v
  step-IsServed pods w (updated _) s x x' v = v
  step-IsServed pods w synced s x x' v = v
  step-IsServed pods w stopped s x x' v = v

  label-step : (w : Watcher) (e : Event) → (step parse_addr w e).zone_label ≡ w.zone_label
  unfolding step
  label-step w (added (pod p)) = label-index (pod_key p) w _
  label-step w (updated (pod p)) = label-index (pod_key p) w _
  label-step w (deleted (pod p)) = label-unindex (pod_key p) w
  label-step w (deleted (tombstone (some p))) = label-unindex (pod_key p) w
  label-step w (deleted (tombstone none)) = refl
  label-step w (deleted unknown) = refl
  label-step w (added _) = refl
  label-step w (updated _) = refl
  label-step w synced = refl
  label-step w stopped = refl

  -- The last reports of all pods after the events, and after each of them no two pods at one
  -- address.
  unfoldable pub reports : Str → Pods → List Event → Pods
  reports label pods [] = pods
  reports label pods (e ∷ es) = reports label (report parse_addr label pods e) es

  abbrev pub IsAlwaysExclusive : Str → Pods → List Event → Type 0
  IsAlwaysExclusive label pods [] = IsExclusive pods
  IsAlwaysExclusive label pods (e ∷ es) =
      IsExclusive pods × IsAlwaysExclusive label (report parse_addr label pods e) es

  IsExclusive-now :
      (label : Str) (pods : Pods) (es : List Event)
      → IsAlwaysExclusive label pods es
      → IsExclusive pods
  IsExclusive-now label pods [] x = x
  IsExclusive-now label pods (e ∷ es) x = x.0

  run-IsSound :
      (label : Str) (pods : Pods) (w : Watcher) (es : List Event)
      → w.zone_label ≡ label
      → IsSound pods w
      → IsSound (reports label pods es) (run parse_addr w es)
  unfolding run reports
  run-IsSound label pods w [] q s = s
  run-IsSound label pods w (e ∷ es) q s =
      run-IsSound label (report parse_addr label pods e) (step parse_addr w e) es
        (label-step w e ∙ q) (rw (← q) (step-IsSound parse_addr pods w e s))

  run-IsServed :
      (label : Str) (pods : Pods) (w : Watcher) (es : List Event)
      → w.zone_label ≡ label
      → IsSound pods w
      → IsAlwaysExclusive label pods es
      → IsServed pods w
      → IsServed (reports label pods es) (run parse_addr w es)
  unfolding run reports
  run-IsServed label pods w [] q s x v = v
  run-IsServed label pods w (e ∷ es) q s (x, xs) v =
      run-IsServed label (report parse_addr label pods e) (step parse_addr w e) es
        (label-step w e ∙ q) (rw (← q) (step-IsSound parse_addr pods w e s)) xs
        (rw (← q) (step-IsServed pods w e s x (rw q (IsExclusive-now label _ es xs)) v))

  new-IsSound : (label : Str) → IsSound no_pods (new label)
  unfolding GoMap.lookup
  new-IsSound label = record { tracked = λ k. refl; owned = λ ip z e. cc }

  -- Whatever events arrive, in whatever order, an address is answered only with the zone of a pod
  -- that was last reported with this address and this zone, and qualifies; and only when ready.
  pub zone_sound :
      (label : Str) (es : List Event) (ip : Addr) (z : Str)
      → zone (run parse_addr (new label) es) ip ≡ some z
      → ((run parse_addr (new label) es).ready ≡ true)
        × ((k : PodKey) × (reports label no_pods es k ≡ some (ip, z)))
  unfolding zone
  zone_sound label es ip z e =
      let s = run-IsSound label no_pods (new label) es refl (new-IsSound label) in
      (ground arith, s.owned ip z (ground arith))

  -- If no two pods were ever reported at one address at the same time, a ready watcher answers for
  -- every pod that was last reported and qualifies.
  pub zone_complete :
      (label : Str) (es : List Event) (ip : Addr) (z : Str) (k : PodKey)
      → IsAlwaysExclusive label no_pods es
      → (run parse_addr (new label) es).ready ≡ true
      → reports label no_pods es k ≡ some (ip, z)
      → zone (run parse_addr (new label) es) ip ≡ some z
  unfolding zone
  zone_complete label es ip z k x r o =
      let v =
        run-IsServed label no_pods (new label) es refl (new-IsSound label) x (λ j a y e. cc) in
      ground (arith, v k ip z o)
