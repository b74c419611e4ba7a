-- ===== src/Podzone/Tracking.antt =====
-- A watcher against the pods as they were last reported.
use zonedns.Prelude.{
  ◌≡◌, ◌≢◌, refl, sym, ◌∙◌, false, inl, inr, Option, none, some, arith, ◌==◌, if◌then◌else◌, eq_iff,
  Bool-cases,
}
use zonedns.Text.{Str, str_eq}
use zonedns.GoMap
use zonedns.Netip.{Addr, addr_eq}
use zonedns.Podzone.{
  pod, tombstone, unknown, PodKey, key_eq, pod_key, Watcher, new, qualify, index, unindex, Event,
  added, updated, deleted, synced, stopped, step, zone,
}
use zonedns.Podzone.Steps.{address_of, holds, zone_at, unindex-index, by_pod-index, by_ip-index}

-- The last reported address and zone of each pod that qualifies.
abbrev pub Pods : Type 0
Pods = PodKey → Option (Addr × Str)

abbrev pub set_pod : PodKey → Option (Addr × Str) → Pods → Pods
set_pod key q pods k = if key == k then q else pods k

module _ (parse_addr : Str → Option Addr) (label : Str) where
  -- The reports, without addresses or maps of them.
  unfoldable pub report : Pods → Event → Pods
  report pods (added (pod p)) = set_pod (pod_key p) (qualify parse_addr label p) pods
  report pods (updated (pod p)) = set_pod (pod_key p) (qualify parse_addr label p) pods
  report pods (deleted (pod p)) = set_pod (pod_key p) none pods
  report pods (deleted (tombstone (some p))) = set_pod (pod_key p) none pods
  report pods _ = pods

-- Each pod is tracked at its address, and an address answers only for a pod that has it, with the
-- zone of that pod.
pub record IsSound (pods : Pods) (w : Watcher) : Type 0 where
  pub tracked : (k : PodKey) → GoMap.lookup k w.by_pod ≡ address_of (pods k)
  pub owned :
      (ip : Addr) (z : Str)
      → GoMap.lookup ip w.by_ip ≡ some z
      → (k : PodKey) × (pods k ≡ some (ip, z))

-- Every pod is answered for at its address.
abbrev pub IsServed : Pods → Watcher → Type 0
IsServed pods w =
    (k : PodKey) (ip : Addr) (z : Str) → pods k ≡ some (ip, z) → GoMap.lookup ip w.by_ip ≡ some z

-- No two pods have one address.
abbrev pub IsExclusive : Pods → Type 0
IsExclusive pods =
    (j k : PodKey) (ip : Addr) (y z : Str) → pods j ≡ some (ip, y) → pods k ≡ some (ip, z) → j ≡ k

module _ (pods : Pods) (w : Watcher) (s : IsSound pods w) (key : PodKey) where
  -- An address whose answer is kept by `index`.
  owned_kept :
      (q : Option (Addr × Str)) (ip : Addr) (z : Str)
      → (if holds (GoMap.lookup key w.by_pod) ip then none else GoMap.lookup ip w.by_ip) ≡ some z
      → (k : PodKey) × (set_pod key q pods k ≡ some (ip, z))
  owned_kept q ip z e =
      let (k, o) = s.owned ip z (ground arith) in
      let ne : (key == k) ≡ false = ground (arith, eq_iff key k, s.tracked key, o, eq_iff ip ip) in
      (k, rw ne o)

  owned-index :
      (q : Option (Addr × Str)) (ip : Addr) (z : Str)
      → zone_at q ip
          (if holds (GoMap.lookup key w.by_pod) ip then none else GoMap.lookup ip w.by_ip)
        ≡ some z
      → (k : PodKey) × (set_pod key q pods k ≡ some (ip, z))
  owned-index none ip z e = owned_kept none ip z e
  owned-index (some (new, zone)) ip z e = elim (Bool-cases (new == ip)) [
    | inl here ↦ (key, ground (arith, eq_iff key key, eq_iff new ip))
    | inr there ↦ owned_kept (some (new, zone)) ip z (ground arith)
  ]

  pub index-IsSound : (q : Option (Addr × Str)) → IsSound (set_pod key q pods) (index key q w)
  index-IsSound q = record {
    tracked = λ k. by_pod-index key w q k ∙ ground (arith, s.tracked k);
    owned = λ ip z e. owned-index q ip z (sym (by_ip-index key w q ip) ∙ e);
  }

  -- A pod other than the reported one has another address than that had and gets.
  module _ (k : PodKey) (ip : Addr) (z : Str) (ne : (key == k) ≡ false)
      (o : pods k ≡ some (ip, z)) where
    apart : key ≢ k
    apart e = cc (ne, (eq_iff key k).1 e)

    old_apart :
        IsExclusive pods
        → (entry : Option (Addr × Str)) → pods key ≡ entry
        → holds (address_of entry) ip ≡ false
    old_apart x none h = refl
    old_apart x (some (old, y)) h = elim (Bool-cases (old == ip)) [
      | inl e ↦ absurd (apart (x key k ip y z (rw ((eq_iff old ip).0 e) at h) o))
      | inr e ↦ e
    ]

    new_apart :
        (new : Addr) (y : Str)
        → IsExclusive (set_pod key (some (new, y)) pods)
        → (new == ip) ≡ false
    new_apart new y x = elim (Bool-cases (new == ip)) [
      | inl e ↦
          absurd (apart (x key k ip y z (ground (arith, eq_iff key key, eq_iff new ip)) (rw ne o)))
      | inr e ↦ e
    ]

    served_kept :
        (q : Option (Addr × Str))
        → IsExclusive pods
        → IsExclusive (set_pod key q pods)
        → IsServed pods w
        → GoMap.lookup ip (index key q w).by_ip ≡ some z
    served_kept none x x' served =
        by_ip-index key w none ip
        ∙ ground (arith, s.tracked key, old_apart x (pods key) refl, served k ip z o)
    served_kept (some (new, y)) x x' served =
        by_ip-index key w (some (new, y)) ip
        ∙ ground
            (arith, s.tracked key, old_apart x (pods key) refl, new_apart new y x', served k ip z o)

  pub index-IsServed :
      (q : Option (Addr × Str))
      → IsExclusive pods
      → IsExclusive (set_pod key q pods)
      → IsServed pods w
      → IsServed (set_pod key q pods) (index key q w)
  index-IsServed q x x' served k ip z o = elim (Bool-cases (key == k)) [
    | inl e ↦ by_ip-index key w q ip ∙ ground (arith, eq_iff ip ip)
    | inr e ↦ served_kept k ip z e (ground arith) q x x' served
  ]

module _ (parse_addr : Str → Option Addr) where
  unindex-IsSound :
      (pods : Pods) (w : Watcher) (key : PodKey)
      → IsSound pods w
      → IsSound (set_pod key none pods) (unindex key w)
  unindex-IsSound pods w key s = rw (unindex-index key w) (index-IsSound pods w s key none)

  pub step-IsSound :
      (pods : Pods) (w : Watcher) (e : Event)
      → IsSound pods w
      → IsSound (report parse_addr w.zone_label pods e) (step parse_addr w e)
  unfolding report step
  step-IsSound pods w (added (pod p)) s = index-IsSound pods w s (pod_key p) _
  step-IsSound pods w (updated (pod p)) s = index-IsSound pods w s (pod_key p) _
  step-IsSound pods w (deleted (pod p)) s = unindex-IsSound pods w (pod_key p) s
  step-IsSound pods w (deleted (tombstone (some p))) s = unindex-IsSound pods w (pod_key p) s
  step-IsSound pods w (deleted (tombstone none)) s = s
  step-IsSound pods w (deleted unknown) s = s
  step-IsSound pods w (added _) s = s
  step-IsSound pods w (updated _) s = s
  step-IsSound pods w synced s = record { tracked = s.tracked; owned = s.owned }
  step-IsSound pods w stopped s = record { tracked = s.tracked; owned = s.owned }
