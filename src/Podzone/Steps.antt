-- ===== src/Podzone/Steps.antt =====
-- The maps of a watcher after one event, in closed form.
use zonedns.Prelude.{
  ◌≡◌, Bool, false, Option, none, some, arith, ◌==◌, if◌then◌else◌, eq_iff, Option-cases, inl, inr,
}
use zonedns.Text.{Str, str_eq}
use zonedns.GoMap
use zonedns.GoMap.Laws.{lookup-insert, lookup-erase}
use zonedns.Netip.{Addr, addr_eq}
use zonedns.Podzone.{PodKey, key_eq, Watcher, index, unindex}

abbrev pub address_of : Option (Addr × Str) → Option Addr
address_of none = none
address_of (some (ip, zone)) = some ip

-- The address is the one that an entry holds.
abbrev pub holds : Option Addr → Addr → Bool
holds none ip = false
holds (some old) ip = old == ip

-- What an entry says of an address, and what else is said of it.
abbrev pub zone_at : Option (Addr × Str) → Addr → Option Str → Option Str
zone_at none ip rest = rest
zone_at (some (new, zone)) ip rest = if new == ip then some zone else rest

module _ (key : PodKey) (w : Watcher) where
  pub unindex-index : unindex key w ≡ index key none w
  unfolding unindex index
  unindex-index = ground arith

  pub by_pod-index :
      (q : Option (Addr × Str)) (k : PodKey)
      → GoMap.lookup k (index key q w).by_pod
        ≡ (if key == k then address_of q else GoMap.lookup k w.by_pod)
  unfolding index
  by_pod-index none k = ground (arith, lookup-erase key k w.by_pod, eq_iff key k)
  by_pod-index (some (ip, zone)) k = ground (arith, lookup-insert key k ip w.by_pod)

  pub by_ip-index :
      (q : Option (Addr × Str)) (ip : Addr)
      → GoMap.lookup ip (index key q w).by_ip
        ≡ zone_at q ip
            (if holds (GoMap.lookup key w.by_pod) ip then none else GoMap.lookup ip w.by_ip)
  unfolding index
  by_ip-index none ip = elim (Option-cases (GoMap.lookup key w.by_pod)) [
    | inl e ↦ ground arith
    | inr (old, e) ↦ ground (arith, lookup-erase old ip w.by_ip)
  ]
  by_ip-index (some (new, zone)) ip = elim (Option-cases (GoMap.lookup key w.by_pod)) [
    | inl e ↦ ground (arith, lookup-insert new ip zone w.by_ip)
    | inr (old, e) ↦ ground (
      arith,
      lookup-erase old ip w.by_ip,
      lookup-insert new ip zone (GoMap.erase old w.by_ip),
      lookup-insert new ip zone w.by_ip,
      eq_iff old new,
      eq_iff old ip,
      eq_iff new ip,
    )
  ]
