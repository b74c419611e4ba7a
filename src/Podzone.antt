-- ===== src/Podzone.antt =====
-- internal/podzone/podzone.go: the zones of the pods on a node, kept from the events of a
-- Kubernetes informer. netip.ParseAddr is the parameter `parse_addr`.
pub mod Steps
pub mod Tracking
pub mod Refinement
pub mod Reuse
pub mod Zones
use zonedns.Prelude.{
  ℕ, ◌≡◌, refl, ◌↔◌, Bool, true, false, not, ◌&&◌, ◌||◌, Option, none, some, List, [], ◌∷◌, length,
  arith, ◌==◌, if◌then◌else◌, Eq, eq_iff,
}
use zonedns.Text.{Str, str_beq, str_eq}
use zonedns.GoMap
use zonedns.GoMap.{Map}
use zonedns.Netip.{Addr, addr_eq}
use zonedns.Ednszone

pub record PodKey : Type 0 where
  pub namespace : Str
  pub name : Str

unfoldable pub key_beq : PodKey → PodKey → Bool
key_beq j k = str_beq j.namespace k.namespace && str_beq j.name k.name

pub key_beq_iff : (j k : PodKey) → (key_beq j k ≡ true) ↔ (j ≡ k)
unfolding key_beq
key_beq_iff j k = (
  λ h. ground (arith, eq_iff j.namespace k.namespace, eq_iff j.name k.name),
  λ e. ground (arith, eq_iff j.namespace k.namespace, eq_iff j.name k.name),
)

instance abbrev pub key_eq : Eq PodKey
key_eq = record { same = key_beq; same_iff = key_beq_iff }

-- What the program reads of a *corev1.Pod.
pub record Pod : Type 0 where
  pub namespace : Str
  pub name : Str
  pub labels : Map Str Str
  pub host_network : Bool
  pub pod_ip : Str

-- What an event hands over: a pod, a DeletedFinalStateUnknown around a pod or around something
-- else, or something else.
pub data Object : Type 0 where
  pod : Pod → Object
  tombstone : Option Pod → Object
  unknown : Object

pub record Watcher : Type 0 where
  pub zone_label : Str
  pub by_pod : Map PodKey Addr
  pub by_ip : Map Addr Str
  pub ready : Bool

abbrev pub new : Str → Watcher
new zone_label = record { zone_label = zone_label; by_pod = []; by_ip = []; ready = false }

abbrev pub pod_key : Pod → PodKey
pod_key p = record { namespace = p.namespace; name = p.name }

module _ (parse_addr : Str → Option Addr) where
  -- The address and the zone of a pod that qualifies.
  unfoldable pub qualify : Str → Pod → Option (Addr × Str)
  qualify zone_label p =
      if p.host_network || p.pod_ip == [] then none else elim (GoMap.lookup zone_label p.labels) [
        | none ↦ none
        | some z ↦
            if z == [] || not (Ednszone.valid z)
            then none
            else elim (parse_addr p.pod_ip) [ none ↦ none | some ip ↦ some (ip, z) ]
      ]

abbrev drop_pod : PodKey → Option Addr → Watcher → Watcher
drop_pod key none w = w
drop_pod key (some old) w = record w {
  by_ip = GoMap.erase old w.by_ip;
  by_pod = GoMap.erase key w.by_pod;
}

abbrev move_pod : Option Addr → Addr → Map Addr Str → Map Addr Str
move_pod none ip by_ip = by_ip
move_pod (some old) ip by_ip = if not (old == ip) then GoMap.erase old by_ip else by_ip

-- The part of `upsert` under the lock.
unfoldable pub index : PodKey → Option (Addr × Str) → Watcher → Watcher
index key none w = drop_pod key (GoMap.lookup key w.by_pod) w
index key (some (ip, zone)) w = record w {
  by_ip = GoMap.insert ip zone (move_pod (GoMap.lookup key w.by_pod) ip w.by_ip);
  by_pod = GoMap.insert key ip w.by_pod;
}

-- The part of `remove` under the lock.
unfoldable pub unindex : PodKey → Watcher → Watcher
unindex key w = elim (GoMap.lookup key w.by_pod) [
  | some ip ↦ record w { by_ip = GoMap.erase ip w.by_ip; by_pod = GoMap.erase key w.by_pod }
  | none ↦ w
]

module _ (parse_addr : Str → Option Addr) where
  unfoldable pub upsert : Object → Watcher → Watcher
  unfolding qualify index
  upsert (pod p) w = index (pod_key p) (qualify parse_addr w.zone_label p) w
  upsert _ w = w

unfoldable pub remove : Object → Watcher → Watcher
unfolding unindex
remove (pod p) w = unindex (pod_key p) w
remove (tombstone (some p)) w = unindex (pod_key p) w
remove _ w = w

-- What happens to a watcher: the informer's events, and the two ends of `Run`.
pub data Event : Type 0 where
  added updated deleted : Object → Event
  synced stopped : Event

module _ (parse_addr : Str → Option Addr) where
  unfoldable pub step : Watcher → Event → Watcher
  unfolding upsert remove
  step w (added o) = upsert parse_addr o w
  step w (updated o) = upsert parse_addr o w
  step w (deleted o) = remove o w
  step w synced = record w { ready = true }
  step w stopped = record w { ready = false }

  unfoldable pub run : Watcher → List Event → Watcher
  unfolding step
  run w [] = w
  run w (e ∷ es) = run (step w e) es

unfoldable pub zone : Watcher → Addr → Option Str
zone w ip = if not w.ready then none else GoMap.lookup ip w.by_ip

unfoldable pub len : Watcher → ℕ
len w = length w.by_ip
