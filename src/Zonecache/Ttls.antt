-- ===== src/Zonecache/Ttls.antt =====
-- How long an answer lives, and the TTLs that it is returned with.
use zonedns.Prelude.{
  ℕ, ◌+◌, ◌-◌, ◌*◌, ◌/◌, ◌%◌, ◌^◌, ◌<◌, ◌≤◌, ◌≡◌, ◌≢◌, refl, not, some, List, [], ◌∷◌, map, arith,
  All, ltb, ◌==◌, if◌then◌else◌, nat_eq, subst, sym,
}
use zonedns.Dns.{Msg, Rr, type_opt}
use zonedns.Zonecache.{Entry, second, max_ttl, min_ttl_from, lifetime, with_ttl, set_ttls, revive}

min_ttl_from-le : (least : ℕ) (rest : List Rr) → min_ttl_from least rest ≤ least
unfolding min_ttl_from
min_ttl_from-le least [] = omega arith
min_ttl_from-le least (rr ∷ rest) =
    ground (arith, min_ttl_from-le (if ltb rr.header.ttl least then rr.header.ttl else least) rest)

min_ttl_from-le-All :
    (least : ℕ) (rest : List Rr) → All (λ rr. min_ttl_from least rest ≤ rr.header.ttl) rest
unfolding min_ttl_from
min_ttl_from-le-All least [] = tt
min_ttl_from-le-All least (rr ∷ rest) = (
  ground (arith, min_ttl_from-le (if ltb rr.header.ttl least then rr.header.ttl else least) rest),
  min_ttl_from-le-All (if ltb rr.header.ttl least then rr.header.ttl else least) rest,
)

-- A lifetime of answers: it is positive, at most 30 seconds, and at most the TTL of every answer.
pub record IsLifetime (answers : List Rr) (ttl : ℕ) : Type 0 where
  pub positive : 0 < ttl
  pub bounded : ttl ≤ max_ttl
  pub honoured : All (λ rr. ttl ≤ rr.header.ttl * second) answers

All-scaled :
    (least ttl : ℕ) (rest : List Rr)
    → ttl ≤ least * second
    → All (λ rr. least ≤ rr.header.ttl) rest
    → All (λ rr. ttl ≤ rr.header.ttl * second) rest
All-scaled least ttl [] h k = tt
All-scaled least ttl (rr ∷ rest) h (le, k) = (omega arith, All-scaled least ttl rest h k)

-- Answers are kept for a positive time, at most 30 seconds and at most any of their TTLs.
pub lifetime-IsLifetime :
    (answers : List Rr) (ttl : ℕ) → lifetime answers ≡ some ttl → IsLifetime answers ttl
unfolding lifetime
lifetime-IsLifetime [] ttl h = cc
lifetime-IsLifetime (rr ∷ rest) ttl h =
    let least = min_ttl_from rr.header.ttl rest in
    let le : ttl ≤ least * second = ground arith in
    let first : least ≤ rr.header.ttl = min_ttl_from-le rr.header.ttl rest in
    record {
      positive = ground arith;
      bounded = ground arith;
      honoured =
          (omega arith, All-scaled least ttl rest le (min_ttl_from-le-All rr.header.ttl rest));
    }

-- Every TTL that is returned is the same; only OPT records keep the field, which is none there.
abbrev pub HasTtls : ℕ → Msg → Type 0
HasTtls ttl m =
    All (λ rr. rr.header.ttl ≡ ttl) m.answer
    × All (λ rr. rr.header.ttl ≡ ttl) m.ns
    × All (λ rr. (rr.header.rrtype ≢ type_opt) → rr.header.ttl ≡ ttl) m.extra

All-with_ttl : (ttl : ℕ) (rrs : List Rr) → All (λ rr. rr.header.ttl ≡ ttl) (map (with_ttl ttl) rrs)
All-with_ttl ttl [] = tt
All-with_ttl ttl (rr ∷ rrs) = (refl, All-with_ttl ttl rrs)

abbrev extra_with_ttl : ℕ → Rr → Rr
extra_with_ttl ttl rr = if not (rr.header.rrtype == type_opt) then with_ttl ttl rr else rr

extra_ttl :
    (ttl : ℕ) (rr : Rr)
    → (extra_with_ttl ttl rr).header.rrtype ≢ type_opt
    → (extra_with_ttl ttl rr).header.ttl ≡ ttl
extra_ttl ttl rr h = ground arith

All-extra_with_ttl :
    (ttl : ℕ) (rrs : List Rr)
    → All (λ rr. (rr.header.rrtype ≢ type_opt) → rr.header.ttl ≡ ttl) (map (extra_with_ttl ttl) rrs)
All-extra_with_ttl ttl [] = tt
All-extra_with_ttl ttl (rr ∷ rrs) = (extra_ttl ttl rr, All-extra_with_ttl ttl rrs)

pub set_ttls-HasTtls : (ttl : ℕ) (m : Msg) → HasTtls ttl (set_ttls ttl m)
unfolding set_ttls
set_ttls-HasTtls ttl m =
    (All-with_ttl ttl m.answer, All-with_ttl ttl m.ns, All-extra_with_ttl ttl m.extra)

-- An entry is returned only before its expiry, and then with the whole seconds left as its TTLs.
pub revive-HasTtls :
    (now : ℕ) (e : Entry) (m : Msg)
    → e.expiry ≤ now + max_ttl
    → revive now e ≡ some m
    → (now < e.expiry) × HasTtls ((e.expiry - now) / second) m
unfolding revive
revive-HasTtls now e m le h =
    let live : now < e.expiry = ground arith in
    let whole : (e.expiry - now) / second % 2 ^ 32 ≡ (e.expiry - now) / second = omega arith in
    let same : set_ttls ((e.expiry - now) / second % 2 ^ 32) e.msg ≡ m = ground arith in
    (
      live,
      subst (λ x. HasTtls ((e.expiry - now) / second) x) same
          (subst (λ t. HasTtls ((e.expiry - now) / second) (set_ttls t e.msg)) (sym whole)
            (set_ttls-HasTtls ((e.expiry - now) / second) e.msg)),
    )
