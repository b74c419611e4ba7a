-- ===== src/Zonecache/Lifetimes.antt =====
-- Which answers a cache gives back, after any calls.
use zonedns.Prelude.{
  ℕ, ◌+◌, ◌-◌, ◌/◌, ◌%◌, ◌^◌, ◌<◌, ◌≡◌, refl, ap, sym, ◌∙◌, none, some, List, [], ◌∷◌, arith, Memᴰ,
  ◌==◌, eq_iff, inl, inr, Bool-cases, Option-cases,
}
use zonedns.Text.{Str, str_eq, to_lower}
use zonedns.Dns.{Msg}
use zonedns.Zonecache.Ttls.{HasTtls, set_ttls-HasTtls}
use zonedns.Zonecache.{
  Key, key_eq, Entry, Lru, second, make_key, lifetime, set_ttls, revive, put, get,
}

pub record Query : Type 0 where
  pub qname : Str
  pub qtype : ℕ
  pub zone : Str

-- Calls of a cache: an answer is put in at a time, or asked for.
pub data Call : Type 0 where
  stored : Query → Msg → ℕ → Call
  asked : Query → ℕ → Call

abbrev pub key_of : Query → Key
key_of q = make_key q.qname q.qtype q.zone

-- Where an entry comes from: a call that stored it under its key, with a lifetime.
pub record IsOrigin (calls : List Call) (k : Key) (e : Entry) : Type 0 where
  pub question : Query
  pub msg : Msg
  pub time : ℕ
  pub ttl : ℕ
  pub called : Memᴰ (stored question msg time) calls
  pub under : key_of question ≡ k
  pub lives : lifetime msg.answer ≡ some ttl
  pub held : e ≡ record { msg = msg; expiry = time + ttl }

IsOrigin-cons :
    {calls : List Call} {k : Key} {e : Entry} (c : Call)
    → IsOrigin calls k e
    → IsOrigin (c ∷ calls) k e
IsOrigin-cons c o = record {
  question = o.question;
  msg = o.msg;
  time = o.time;
  ttl = o.ttl;
  called = Memᴰ.tail o.called;
  under = o.under;
  lives = o.lives;
  held = o.held;
}

module _ (lru : Lru) where
  open lru use {Table}

  unfoldable pub call : Call → Table → Table
  call (stored q m now) t = put lru q.qname q.qtype q.zone (some m) now t
  call (asked q now) t = (get lru q.qname q.qtype q.zone now t).1

  -- The table after some calls, the latest one first.
  unfoldable pub after : ℕ → List Call → Table
  after size [] = lru.new size
  after size (c ∷ calls) = call c (after size calls)

  abbrev HasOrigins : List Call → Table → Type 0
  HasOrigins calls t = (k : Key) (e : Entry) → (lru.get k t).0 ≡ some e → IsOrigin calls k e

  module _ (q : Query) (m : Msg) (now : ℕ) (t : Table) where
    pub put_skips : lifetime m.answer ≡ none → put lru q.qname q.qtype q.zone (some m) now t ≡ t
    unfolding put
    put_skips z = rw (z, put)

    pub put_adds :
        (ttl : ℕ)
        → lifetime m.answer ≡ some ttl
        → put lru q.qname q.qtype q.zone (some m) now t
          ≡ lru.add (key_of q) (record { msg = m; expiry = now + ttl }) t
    unfolding put
    put_adds ttl z = rw (z, put)

  added-HasOrigins :
      (q : Query) (m : Msg) (now ttl : ℕ) (calls : List Call) (t : Table)
      → lifetime m.answer ≡ some ttl
      → HasOrigins calls t
      → HasOrigins
          (stored q m now ∷ calls)
          (lru.add (key_of q) (record { msg = m; expiry = now + ttl }) t)
  added-HasOrigins q m now ttl calls t z h k e found = elim (Bool-cases (key_of q == k)) [
    | inl same ↦ record {
      question = q;
      msg = m;
      time = now;
      ttl = ttl;
      called = Memᴰ.head refl;
      under = (eq_iff (key_of q) k).0 same;
      lives = z;
      held = ground (
        arith,
        lru.get-add_self (key_of q) (record { msg = m; expiry = now + ttl }) t,
        found,
        eq_iff (key_of q) k,
      );
    }
    | inr other ↦ IsOrigin-cons (stored q m now) (
        h k e
          (lru.get-add_other (key_of q) k _ e t (λ p. cc (other, (eq_iff (key_of q) k).1 p)) found))
  ]

  stored-HasOrigins :
      (q : Query) (m : Msg) (now : ℕ) (calls : List Call) (t : Table)
      → HasOrigins calls t
      → HasOrigins (stored q m now ∷ calls) (put lru q.qname q.qtype q.zone (some m) now t)
  stored-HasOrigins q m now calls t h = elim (Option-cases (lifetime m.answer)) [
    | inl z ↦ rw (put_skips q m now t z) (λ k e found. IsOrigin-cons (stored q m now) (h k e found))
    | inr (ttl, z) ↦ rw (put_adds q m now t ttl z) (added-HasOrigins q m now ttl calls t z h)
  ]

  call-HasOrigins :
      (c : Call) (calls : List Call) (t : Table)
      → HasOrigins calls t
      → HasOrigins (c ∷ calls) (call c t)
  unfolding call get
  call-HasOrigins (stored q m now) calls t h = stored-HasOrigins q m now calls t h
  call-HasOrigins (asked q now) calls t h =
      λ k e found. IsOrigin-cons (asked q now) (h k e (sym (lru.get-get (key_of q) k t) ∙ found))

  after-HasOrigins : (size : ℕ) (calls : List Call) → HasOrigins calls (after size calls)
  unfolding after
  after-HasOrigins size [] = λ k e found. cc (found, lru.get-new size k)
  after-HasOrigins size (c ∷ calls) =
      call-HasOrigins c calls (after size calls) (after-HasOrigins size calls)

  pub get-revive :
      (q : Query) (now : ℕ) (t : Table) (out : Msg)
      → (get lru q.qname q.qtype q.zone now t).0 ≡ some out
      → (e : Entry) × ((lru.get (key_of q) t).0 ≡ some e) × (revive now e ≡ some out)
  unfolding get
  get-revive q now t out h = elim (Option-cases (lru.get (key_of q) t).0) [
    | inl e ↦ cc (rw (e, get) at h)
    | inr (e, found) ↦ (e, found, rw (found, get) at h)
  ]

  -- Whatever was put in and asked for before, an answer that is given back was put in for the same
  -- zone, the same type and the same name up to case, it has not outlived its lifetime, and nothing
  -- but its TTLs is changed. These are the whole seconds left of the lifetime, the same in every
  -- record that is no OPT record, whatever TTL the record had: it is not the record's own TTL less
  -- the time gone by.
  pub get_origin :
      (size : ℕ) (calls : List Call) (q : Query) (now : ℕ) (out : Msg)
      → (get lru q.qname q.qtype q.zone now (after size calls)).0 ≡ some out
      → (p : Query) × (m : Msg) × (time : ℕ) × (ttl : ℕ) × Memᴰ (stored p m time) calls
        × (p.zone ≡ q.zone)
        × (p.qtype ≡ q.qtype)
        × (to_lower p.qname ≡ to_lower q.qname)
        × (lifetime m.answer ≡ some ttl)
        × (now < time + ttl)
        × (out ≡ set_ttls ((time + ttl - now) / second % 2 ^ 32) m)
  unfolding make_key revive
  get_origin size calls q now out h =
      let (e, found, back) = get-revive q now (after size calls) out h in
      let o = after-HasOrigins size calls (key_of q) e found in
      (
        o.question,
        o.msg,
        o.time,
        o.ttl,
        o.called,
        ap (λ (k : Key). k.zone) o.under,
        ap (λ (k : Key). k.qtype) o.under,
        ap (λ (k : Key). k.qname) o.under,
        o.lives,
        ground (arith, back, o.held),
        ground (arith, back, o.held),
      )

  -- An answer with a lifetime that was just put in is given back until the lifetime is over, under
  -- every spelling of its name. Every record of it but an OPT record, also one of the authority
  -- section whose own TTL was lower, then has the whole seconds left of the lifetime as its TTL.
  pub get-put :
      (q : Query) (m : Msg) (time ttl now : ℕ) (qname : Str) (t : Table)
      → lifetime m.answer ≡ some ttl
      → now < time + ttl
      → to_lower qname ≡ to_lower q.qname
      → ((get lru qname q.qtype q.zone now (put lru q.qname q.qtype q.zone (some m) time t)).0
          ≡ some (set_ttls ((time + ttl - now) / second % 2 ^ 32) m))
        × HasTtls
            ((time + ttl - now) / second % 2 ^ 32)
            (set_ttls ((time + ttl - now) / second % 2 ^ 32) m)
  unfolding get make_key revive
  get-put q m time ttl now qname t z live same =
      let e : Entry = record { msg = m; expiry = time + ttl } in
      (
        rw (put_adds q m time t ttl z, same)
            (rw (lru.get-add_self (key_of q) e t, get) (ground arith)),
        set_ttls-HasTtls _ m,
      )
