-- ===== src/Examples/Node.antt =====
-- The watcher of pods.
use zonedns.Prelude.{◌≡◌, refl, Option, none, some, [], ◌∷◌, arith, true, eq_iff}
use zonedns.Text.{Str, str_eq, str_beq, text}
use zonedns.GoMap
use zonedns.Netip.{Addr, addr_eq}
use zonedns.Ednszone
use zonedns.Podzone.{
  PodKey, Watcher, pod_key, Pod, pod, added, deleted, updated, run, new, zone, key_eq, qualify,
}
use zonedns.Podzone.Tracking.{report, set_pod, IsExclusive}
use zonedns.Podzone.Refinement.{no_pods, reports, IsAlwaysExclusive, zone_sound, zone_complete}
use zonedns.Podzone.Reuse.{reuse_heals}
use zonedns.Examples.{parse_addr, address_one, pod_one, events, watched}

watched_zone : zone watched address_one ≡ some (text "zone-a")
unfolding zone run GoMap.lookup str_beq Ednszone.valid parse_addr GoMap.insert
    zonedns.Netip.addr_beq
watched_zone = refl

watched_ready : watched.ready ≡ true
unfolding run
watched_ready = refl

reported :
    reports parse_addr (text "zone") no_pods events (pod_key pod_one)
    ≡ some (address_one, text "zone-a")
unfolding reports zonedns.Podzone.Tracking.report zonedns.Podzone.key_beq str_beq qualify
    GoMap.lookup Ednszone.valid parse_addr
reported = refl

zone_sound_example :
    (watched.ready ≡ true)
    × ((k : PodKey) × (reports parse_addr (text "zone") no_pods events k
          ≡ some (address_one, text "zone-a")))
zone_sound_example =
    zone_sound parse_addr (text "zone") events address_one (text "zone-a") watched_zone

sole_pod-IsExclusive :
    (key : PodKey) (q : Option (Addr × Str)) → IsExclusive (set_pod key q no_pods)
sole_pod-IsExclusive key q j k ip y z a b = ground (arith, eq_iff key j, eq_iff key k)

always_exclusive : IsAlwaysExclusive parse_addr (text "zone") no_pods events
unfolding report
always_exclusive = (λ j k ip y z a b. cc, (sole_pod-IsExclusive _ _, (sole_pod-IsExclusive _ _)))

zone_complete_example : zone watched address_one ≡ some (text "zone-a")
zone_complete_example =
    zone_complete parse_addr (text "zone") events address_one (text "zone-a") (pod_key pod_one)
      always_exclusive watched_ready reported

abbrev pod_two : Pod
pod_two = record pod_one { name = text "db"; labels = (text "zone", text "zone-b") ∷ [] }

first_tracked : GoMap.lookup (pod_key pod_one) watched.by_pod ≡ some address_one
unfolding GoMap.lookup run str_beq Ednszone.valid parse_addr GoMap.insert zonedns.Podzone.key_beq
first_tracked = refl

second_qualifies : qualify parse_addr watched.zone_label pod_two ≡ some (address_one, text "zone-b")
unfolding qualify str_beq GoMap.lookup run Ednszone.valid parse_addr
second_qualifies = refl

reuse_heals_example :
    (GoMap.lookup address_one
        (run parse_addr watched (added (pod pod_two) ∷ deleted (pod pod_one) ∷ [])).by_ip
      ≡ none)
    × (GoMap.lookup
          (pod_key pod_two)
          (run parse_addr watched (added (pod pod_two) ∷ deleted (pod pod_one) ∷ [])).by_pod
        ≡ some address_one)
    × (GoMap.lookup address_one
          (run parse_addr watched
            (added (pod pod_two) ∷ deleted (pod pod_one) ∷ updated (pod pod_two) ∷ [])).by_ip
        ≡ some (text "zone-b"))
reuse_heals_example =
    reuse_heals parse_addr watched pod_one pod_two address_one (text "zone-b") first_tracked
      (ground arith) second_qualifies
