-- ===== src/Agent/Ages.antt =====
-- Queries with their times, and the age of a cached answer.
use zonedns.Prelude.{
  ℕ, ◌+◌, ◌-◌, ◌*◌, ◌/◌, ◌%◌, ◌^◌, ◌<◌, ◌≤◌, ◌≡◌, refl, some, List, [], ◌∷◌, All, arith,
}
use zonedns.Text.{Str}
use zonedns.Dns.{Msg, Rr}
use zonedns.Zonecache.{lifetime, set_ttls, revive, second}
use zonedns.Zonecache.Ttls.{lifetime-IsLifetime}

-- A query that the agent got.
pub record Asked : Type 0 where
  pub src_ip : Str
  pub now : ℕ
  pub msg : Msg

-- A message out of the cache, made from an answer to an earlier query: the lifetime of the answer is
-- not over, every record has the whole seconds that are left of it as its TTL, and if time went
-- forward, these are no more than any TTL that an answer record had.
pub record IsAged (p q : Asked) (answer m : Msg) : Type 0 where
  pub life : ℕ
  pub lives : lifetime answer.answer ≡ some life
  pub live : q.now < p.now + life
  pub ttl : ℕ
  pub counted : ttl ≡ (p.now + life - q.now) / second % 2 ^ 32
  pub aged : m ≡ set_ttls ttl answer
  pub lower : p.now ≤ q.now → All (λ rr. ttl ≤ rr.header.ttl) answer.answer

All-lower :
    (life ttl : ℕ) (rest : List Rr)
    → ttl * second ≤ life
    → All (λ rr. life ≤ rr.header.ttl * second) rest
    → All (λ rr. ttl ≤ rr.header.ttl) rest
All-lower life ttl [] h k = tt
All-lower life ttl (rr ∷ rest) h (le, k) = (omega arith, All-lower life ttl rest h k)

pub revived-IsAged :
    (p q : Asked) (answer m : Msg) (life : ℕ)
    → lifetime answer.answer ≡ some life
    → revive q.now (record { msg = answer; expiry = p.now + life }) ≡ some m
    → IsAged p q answer m
unfolding revive
revived-IsAged p q answer m life lives back =
    let ttl = (p.now + life - q.now) / second % 2 ^ 32 in
    record {
      life = life;
      lives = lives;
      live = ground arith;
      ttl = ttl;
      counted = refl;
      aged = ground arith;
      lower = λ le.
          All-lower life ttl answer.answer (omega arith)
            (lifetime-IsLifetime answer.answer life lives).honoured;
    }
