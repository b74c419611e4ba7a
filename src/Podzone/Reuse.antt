-- ===== src/Podzone/Reuse.antt =====
-- An address that passes from one pod to another before the first one's deletion arrives.
use zonedns.Prelude.{◌≡◌, ◌≢◌, refl, ◌∙◌, Option, none, some, [], ◌∷◌, arith, eq_iff}
use zonedns.Text.{Str, str_eq}
use zonedns.GoMap
use zonedns.Netip.{Addr, addr_eq}
use zonedns.Podzone.{
  Pod, pod, PodKey, key_eq, pod_key, Watcher, qualify, index, Event, added, updated, deleted, step,
  run,
}
use zonedns.Podzone.Refinement.{label-index}
use zonedns.Podzone.Steps.{unindex-index, by_pod-index, by_ip-index}

module _ (j k : PodKey) (w : Watcher) (ip : Addr) (z : Str)
    (old : GoMap.lookup j w.by_pod ≡ some ip) (ne : j ≢ k) where
  abbrev taken : Watcher
  taken = index k (some (ip, z)) w

  abbrev lost : Watcher
  lost = index j none taken

  old_tracked : GoMap.lookup j taken.by_pod ≡ some ip
  old_tracked = by_pod-index k w (some (ip, z)) j ∙ ground (arith, eq_iff k j, old)

  new_tracked : GoMap.lookup k lost.by_pod ≡ some ip
  new_tracked =
      by_pod-index j taken none k
      ∙ ground (arith, eq_iff j k, by_pod-index k w (some (ip, z)) k, eq_iff k k)

  address_lost : GoMap.lookup ip lost.by_ip ≡ none
  address_lost = by_ip-index j taken none ip ∙ ground (arith, old_tracked, eq_iff ip ip)

  address_healed : GoMap.lookup ip (index k (some (ip, z)) lost).by_ip ≡ some z
  address_healed = by_ip-index k lost (some (ip, z)) ip ∙ ground (arith, eq_iff ip ip)

module _ (parse_addr : Str → Option Addr) (w : Watcher) where
  step-index :
      (p : Pod) (label : Str)
      → w.zone_label ≡ label
      → step parse_addr w (added (pod p)) ≡ index (pod_key p) (qualify parse_addr label p) w
  unfolding step
  step-index p label e = rw e

  step_updated : (p : Pod) → step parse_addr w (updated (pod p)) ≡ step parse_addr w (added (pod p))
  unfolding step
  step_updated p = refl

  step-unindex : (p : Pod) → step parse_addr w (deleted (pod p)) ≡ index (pod_key p) none w
  unfolding step
  step-unindex p = unindex-index (pod_key p) w

  run_two : (a b : Event) → run parse_addr w (a ∷ b ∷ []) ≡ step parse_addr (step parse_addr w a) b
  unfolding run
  run_two a b = refl

  run_three :
      (a b c : Event)
      → run parse_addr w (a ∷ b ∷ c ∷ [])
        ≡ step parse_addr (step parse_addr (step parse_addr w a) b) c
  unfolding run
  run_three a b c = refl

module _ (parse_addr : Str → Option Addr) (w : Watcher) (first second : Pod)
    (q : Option (Addr × Str)) (e : qualify parse_addr w.zone_label second ≡ q) where
  reuse_two :
      run parse_addr w (added (pod second) ∷ deleted (pod first) ∷ [])
      ≡ index (pod_key first) none (index (pod_key second) q w)
  reuse_two = rw (run_two, step-index parse_addr w second w.zone_label refl, e, step-unindex)

  reuse_three :
      run parse_addr w (added (pod second) ∷ deleted (pod first) ∷ updated (pod second) ∷ [])
      ≡ index (pod_key second) q (index (pod_key first) none (index (pod_key second) q w))
  reuse_three =
      let same : (index (pod_key first) none (index (pod_key second) q w)).zone_label
          ≡ w.zone_label =
        label-index (pod_key first) (index (pod_key second) q w) none
        ∙ label-index (pod_key second) w q in
      rw (
        run_three,
        step_updated,
        step-index parse_addr w second w.zone_label refl,
        e,
        step-unindex,
        step-index parse_addr (index (pod_key first) none (index (pod_key second) q w)) second
            w.zone_label same,
        e,
      )

-- If a pod with a zone is added at an address that another pod is tracked at, and the deletion of
-- that one arrives only then, the address answers for nobody although the new pod is tracked
-- there; after the next update of the new pod, such as a resync delivers, it answers with its zone.
pub reuse_heals :
    (parse_addr : Str → Option Addr) (w : Watcher) (first second : Pod) (ip : Addr) (z : Str)
    → GoMap.lookup (pod_key first) w.by_pod ≡ some ip
    → pod_key first ≢ pod_key second
    → qualify parse_addr w.zone_label second ≡ some (ip, z)
    → (GoMap.lookup ip (run parse_addr w (added (pod second) ∷ deleted (pod first) ∷ [])).by_ip
        ≡ none)
      × (GoMap.lookup
            (pod_key second)
            (run parse_addr w (added (pod second) ∷ deleted (pod first) ∷ [])).by_pod
          ≡ some ip)
      × (GoMap.lookup ip
            (run parse_addr w
              (added (pod second) ∷ deleted (pod first) ∷ updated (pod second) ∷ [])).by_ip
          ≡ some z)
reuse_heals parse_addr w first second ip z old ne q =
    let two = reuse_two parse_addr w first second (some (ip, z)) q in
    let three = reuse_three parse_addr w first second (some (ip, z)) q in
    (
      rw two (address_lost (pod_key first) (pod_key second) w ip z old ne),
      rw two (new_tracked (pod_key first) (pod_key second) w ip z old ne),
      rw three (address_healed (pod_key first) (pod_key second) w ip z old ne),
    )
