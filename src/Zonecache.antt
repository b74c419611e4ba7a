-- ===== src/Zonecache.antt =====
-- internal/zonecache/zonecache.go: the answer cache keyed by name, type and zone. The LRU table of
-- github.com/hashicorp/golang-lru is a parameter. Times and durations are numbers of nanoseconds.
pub mod Ttls
pub mod Lifetimes
use zonedns.Prelude.{
  ℕ, ◌+◌, ◌-◌, ◌*◌, ◌/◌, ◌%◌, ◌^◌, ◌≡◌, ◌≢◌, ◌↔◌, refl, Bool, true, false, not, ◌&&◌, ◌⊎◌, Option,
  none, some, List, [], ◌∷◌, map, arith, ltb, leb, ◌==◌, if◌then◌else◌, nat_beq, nat_eq, Eq, eq_iff,
}
use zonedns.Text.{Str, str_beq, str_eq, to_lower}
use zonedns.Dns.{Msg, Rr, type_opt}

pub record Key : Type 0 where
  pub qname : Str
  pub qtype : ℕ
  pub zone : Str

unfoldable pub key_beq : Key → Key → Bool
key_beq j k = str_beq j.qname k.qname && nat_beq j.qtype k.qtype && str_beq j.zone k.zone

pub key_beq_iff : (j k : Key) → (key_beq j k ≡ true) ↔ (j ≡ k)
unfolding key_beq
key_beq_iff j k = (
  λ h. ground (arith, eq_iff j.qname k.qname, eq_iff j.zone k.zone),
  λ e. ground (arith, eq_iff j.qname k.qname, eq_iff j.zone k.zone),
)

instance abbrev pub key_eq : Eq Key
key_eq = record { same = key_beq; same_iff = key_beq_iff }

pub record Entry : Type 0 where
  pub msg : Msg
  pub expiry : ℕ

-- What the program relies on of lru.Cache[key, entry]. `get` also marks the key as used; `size` is
-- the capacity that lru.New was given.
pub record Lru : Type 1 where
  pub Table : Type 0
  pub new : ℕ → Table
  pub add : Key → Entry → Table → Table
  pub get : Key → Table → Option Entry × Table
  pub len : Table → ℕ
  pub get-new : (size : ℕ) (k : Key) → (get k (new size)).0 ≡ none
  -- What was just added is there; whatever else is there was there before.
  pub get-add_self : (k : Key) (e : Entry) (t : Table) → (get k (add k e t)).0 ≡ some e
  pub get-add_other :
      (k j : Key) (e x : Entry) (t : Table)
      → k ≢ j
      → (get j (add k e t)).0 ≡ some x
      → (get j t).0 ≡ some x
  -- A lookup changes no entry.
  pub get-get : (k j : Key) (t : Table) → (get j (get k t).1).0 ≡ (get j t).0

-- time.Second
abbrev pub second : ℕ
second = 1000000000

abbrev pub max_ttl : ℕ
max_ttl = 30 * second

unfoldable pub make_key : Str → ℕ → Str → Key
make_key qname qtype zone = record { qname = to_lower qname; qtype = qtype; zone = zone }

-- The loop over the answers after the first.
min_ttl_from : ℕ → List Rr → ℕ
min_ttl_from least [] = least
min_ttl_from least (rr ∷ rest) =
    min_ttl_from (if ltb rr.header.ttl least then rr.header.ttl else least) rest

-- How long the answers of a message may live, in nanoseconds; none if it is not cached.
unfoldable pub lifetime : List Rr → Option ℕ
unfolding min_ttl_from
lifetime [] = none
lifetime (rr ∷ rest) =
    let least = min_ttl_from rr.header.ttl rest in
    let ttl = least * second in
    if least == 0 then none else some (if ltb max_ttl ttl then max_ttl else ttl)

abbrev pub with_ttl : ℕ → Rr → Rr
with_ttl ttl rr = record rr { header = record rr.header { ttl = ttl } }

-- The three loops of `Get`, on a copy of the message.
unfoldable pub set_ttls : ℕ → Msg → Msg
set_ttls ttl m = record m {
  answer = map (with_ttl ttl) m.answer;
  ns = map (with_ttl ttl) m.ns;
  extra = map (λ rr. if not (rr.header.rrtype == type_opt) then with_ttl ttl rr else rr) m.extra;
}

-- What `Get` makes of an entry; remaining <= 0 is expiry <= now.
unfoldable pub revive : ℕ → Entry → Option Msg
unfolding set_ttls
revive now e =
    if leb e.expiry now then none else some (set_ttls ((e.expiry - now) / second % 2 ^ 32) e.msg)

module _ (lru : Lru) where
  open lru use {Table}

  -- none is the error of a number that is not positive, which a negative one is too
  unfoldable pub new : ℕ → Option Table
  new max_entries = if leb max_entries 0 then none else some (lru.new max_entries)

  -- A nil message is none.
  unfoldable pub put : Str → ℕ → Str → Option Msg → ℕ → Table → Table
  unfolding lifetime
  put qname qtype zone none now t = t
  put qname qtype zone (some m) now t = elim (lifetime m.answer) [
    | none ↦ t
    | some ttl ↦ lru.add (make_key qname qtype zone) (record { msg = m; expiry = now + ttl }) t
  ]

  unfoldable pub get : Str → ℕ → Str → ℕ → Table → Option Msg × Table
  unfolding revive
  get qname qtype zone now t =
      let (found, t') = lru.get (make_key qname qtype zone) t in
      (elim found [ none ↦ none | some e ↦ revive now e ], t')

  pub len : Table → ℕ
  len t = lru.len t
