-- ===== src/Podzone/Zones.antt =====
-- Which zones a watcher can give.
use zonedns.Prelude.{
  ◌≡◌, true, inl, inr, Option, none, some, List, [], ◌∷◌, arith, ◌==◌, Option-cases, Bool-cases,
}
use zonedns.Text.{Str, str_eq}
use zonedns.GoMap
use zonedns.Netip.{Addr}
use zonedns.Ednszone
use zonedns.Podzone.{
  Pod, pod, tombstone, unknown, PodKey, key_eq, pod_key, new, qualify, Event, added, updated,
  deleted, synced, stopped, run, zone,
}
use zonedns.Podzone.Tracking.{Pods, set_pod, report}
use zonedns.Podzone.Refinement.{no_pods, reports, zone_sound}

-- All pods have zones that can be declared.
abbrev HasValidZones : Pods → Type 0
HasValidZones pods =
    (k : PodKey) (ip : Addr) (z : Str) → pods k ≡ some (ip, z) → Ednszone.valid z ≡ true

module _ (parse_addr : Str → Option Addr) (label : Str) where
  valid-qualify :
      (p : Pod) (ip : Addr) (z : Str)
      → qualify parse_addr label p ≡ some (ip, z)
      → Ednszone.valid z ≡ true
  unfolding qualify
  valid-qualify p ip z e = elim (Option-cases (GoMap.lookup label p.labels)) [
    | inl n ↦ ground (arith, n)
    | inr (y, n) ↦ elim (Option-cases (parse_addr p.pod_ip)) [
      | inl m ↦ ground (arith, n, m)
      | inr (i, m) ↦ ground (arith, n, m)
    ]
  ]

  set_pod-HasValidZones :
      (pods : Pods) (key : PodKey) (q : Option (Addr × Str))
      → ((ip : Addr) (z : Str) → q ≡ some (ip, z) → Ednszone.valid z ≡ true)
      → HasValidZones pods
      → HasValidZones (set_pod key q pods)
  set_pod-HasValidZones pods key q hq h k ip z e = elim (Bool-cases (key == k)) [
    | inl b ↦ hq ip z (rw b at e)
    | inr b ↦ h k ip z (rw b at e)
  ]

  none-ValidZone :
      (ip : Addr) (z : Str)
      → ◌≡◌ {A = Option (Addr × Str)} none (some (ip, z))
      → Ednszone.valid z ≡ true
  none-ValidZone ip z e = cc

  report-HasValidZones :
      (pods : Pods) (e : Event)
      → HasValidZones pods
      → HasValidZones (report parse_addr label pods e)
  unfolding report
  report-HasValidZones pods (added (pod p)) h =
      set_pod-HasValidZones pods (pod_key p) _ (valid-qualify p) h
  report-HasValidZones pods (updated (pod p)) h =
      set_pod-HasValidZones pods (pod_key p) _ (valid-qualify p) h
  report-HasValidZones pods (deleted (pod p)) h =
      set_pod-HasValidZones pods (pod_key p) none none-ValidZone h
  report-HasValidZones pods (deleted (tombstone (some p))) h =
      set_pod-HasValidZones pods (pod_key p) none none-ValidZone h
  report-HasValidZones pods (deleted (tombstone none)) h = h
  report-HasValidZones pods (deleted unknown) h = h
  report-HasValidZones pods (added _) h = h
  report-HasValidZones pods (updated _) h = h
  report-HasValidZones pods synced h = h
  report-HasValidZones pods stopped h = h

  reports-HasValidZones :
      (pods : Pods) (es : List Event)
      → HasValidZones pods
      → HasValidZones (reports parse_addr label pods es)
  unfolding reports
  reports-HasValidZones pods [] h = h
  reports-HasValidZones pods (e ∷ es) h =
      reports-HasValidZones (report parse_addr label pods e) es (report-HasValidZones pods e h)

  -- Whatever events arrive, every zone that a watcher gives can be declared: central will not
  -- take it for malformed.
  pub zone-IsValid :
      (es : List Event) (ip : Addr) (z : Str)
      → zone (run parse_addr (new label) es) ip ≡ some z
      → Ednszone.valid z ≡ true
  zone-IsValid es ip z e =
      let (_, (k, o)) = zone_sound parse_addr label es ip z e in
      reports-HasValidZones no_pods es (λ j i y n. cc) k ip z o
