-- ===== src/Agent/Histories.antt =====
-- The agent over many queries: where a cached answer comes from.
use zonedns.Prelude.{
  ℕ, true, ◌↔◌, ◌+◌, ◌≡◌, refl, ap, sym, ◌∙◌, ◌⊎◌, inl, inr, Option, some, List, [], ◌∷◌, Memᴰ,
  arith, ◌==◌, eq_iff, Option-cases, Bool-cases,
}
use zonedns.Text.{Str, str_eq, to_lower}
use zonedns.Dns.{Msg, MsgLib, RequestLib}
use zonedns.Netip.{Addr}
use zonedns.Zonecache
use zonedns.Zonecache.{Lru, Key, key_eq, Entry, make_key, lifetime, set_ttls, revive, second}
use zonedns.Zonecache.Lifetimes.{Query, put_skips, put_adds, get-revive}
use zonedns.Agent.{Agent, answers_question, serve_dns}
use zonedns.Agent.Ages.{Asked, IsAged, revived-IsAged}
use zonedns.Agent.Questions.{AreSame, answers_question_iff}
use zonedns.Agent.Replies.{
  zone_of, sent_for, cached_for, IsRelayed, serve_dns_hit, serve_dns_relayed, serve_dns_refused,
}

module _ (lru : Lru) where
  -- A cached message was just put in under this key, or was there before.
  get-put_cases :
      (q : Query) (m : Msg) (now : ℕ) (t : lru.Table) (k : Key) (e : Entry)
      → (lru.get k (Zonecache.put lru q.qname q.qtype q.zone (some m) now t)).0 ≡ some e
      → ((make_key q.qname q.qtype q.zone ≡ k)
          × ((life : ℕ) × (lifetime m.answer ≡ some life)
              × (e ≡ record { msg = m; expiry = now + life })))
        ⊎ ((lru.get k t).0 ≡ some e)
  get-put_cases q m now t k e h = elim (Option-cases (lifetime m.answer)) [
    | inl z ↦ inr (rw (put_skips lru q m now t z) at h)
    | inr (ttl, z) ↦
        let key = make_key q.qname q.qtype q.zone in
        let entry : Entry = record { msg = m; expiry = now + ttl } in
        let found : (lru.get k (lru.add key entry t)).0 ≡ some e =
          rw (put_adds lru q m now t ttl z) at h in
        elim (Bool-cases (key == k)) [
          | inl same ↦ inl (
            (eq_iff key k).0 same,
            (ttl, z, ground (arith, lru.get-add_self key entry t, found, eq_iff key k)),
          )
          | inr other ↦
              inr (lru.get-add_other key k entry e t (λ p. cc (other, (eq_iff key k).1 p)) found)
        ]
  ]

module _ (lib : MsgLib) (req : RequestLib) (lru : Lru) (parse_addr : Str → Option Addr)
    (a : Agent) where
  open lru use {Table}

  -- The cache after some queries, the latest one first.
  unfoldable pub history : ℕ → List Asked → Table
  history size [] = lru.new size
  history size (q ∷ qs) =
      (serve_dns lib req lru parse_addr a q.src_ip q.now q.msg (history size qs)).1

  abbrev key_for : Asked → Key
  key_for q =
      make_key (req.name q.msg.question) (req.qtype q.msg.question)
        (zone_of lib req lru parse_addr a q.src_ip)

  -- An entry with what the upstream gave in answer to one of the queries, under that query's key,
  -- until its lifetime is over.
  pub record IsReceived (qs : List Asked) (k : Key) (e : Entry) : Type 0 where
    pub asked : Asked
    pub among : Memᴰ asked qs
    pub under : key_for asked ≡ k
    pub answer : Msg
    pub relayed : IsRelayed lib req lru parse_addr a asked.src_ip asked.msg answer
    pub life : ℕ
    pub lives : lifetime answer.answer ≡ some life
    pub held : e ≡ record { msg = answer; expiry = asked.now + life }

  IsReceived-cons :
      {qs : List Asked} {k : Key} {e : Entry} (q : Asked)
      → IsReceived qs k e
      → IsReceived (q ∷ qs) k e
  IsReceived-cons q r = record {
    asked = r.asked;
    among = Memᴰ.tail r.among;
    under = r.under;
    answer = r.answer;
    relayed = r.relayed;
    life = r.life;
    lives = r.lives;
    held = r.held;
  }

  abbrev AreReceived : List Asked → Table → Type 0
  AreReceived qs t = (k : Key) (e : Entry) → (lru.get k t).0 ≡ some e → IsReceived qs k e

  cached-AreReceived :
      (qs : List Asked) (q : Asked) (t : Table)
      → AreReceived qs t
      → AreReceived qs (cached_for lib req lru parse_addr a q.src_ip q.now q.msg t).1
  unfolding Zonecache.get
  cached-AreReceived qs q t h k e found = h k e (sym (lru.get-get (key_for q) k t) ∙ found)

  -- The table is only read.
  read_only-AreReceived :
      (qs : List Asked) (q : Asked) (t t' : Table)
      → t' ≡ (cached_for lib req lru parse_addr a q.src_ip q.now q.msg t).1
      → AreReceived qs t
      → AreReceived (q ∷ qs) t'
  read_only-AreReceived qs q t t' same h k e found =
      IsReceived-cons q (cached-AreReceived qs q t h k e (rw same at found))

  relayed-AreReceived :
      (qs : List Asked) (q : Asked) (t t' : Table) (answer : Msg)
      → IsRelayed lib req lru parse_addr a q.src_ip q.msg answer
      → t'
        ≡ Zonecache.put lru
            (req.name q.msg.question)
            (req.qtype q.msg.question)
            (zone_of lib req lru parse_addr a q.src_ip)
            (some answer)
            q.now
            (cached_for lib req lru parse_addr a q.src_ip q.now q.msg t).1
      → AreReceived qs t
      → AreReceived (q ∷ qs) t'
  relayed-AreReceived qs q t t' answer r same h k e found =
      let key : Query = record {
        qname = req.name q.msg.question;
        qtype = req.qtype q.msg.question;
        zone = zone_of lib req lru parse_addr a q.src_ip;
      } in
      elim (get-put_cases lru key answer q.now _ k e (rw same at found)) [
        | inl (under, (life, lives, held)) ↦ record {
          asked = q;
          among = Memᴰ.head refl;
          under = under;
          answer = answer;
          relayed = r;
          life = life;
          lives = lives;
          held = held;
        }
        | inr old ↦ IsReceived-cons q (cached-AreReceived qs q t h k e old)
      ]

  right_iff :
      (q : Asked) (answer : Msg)
      → (answers_question (sent_for lib req lru parse_addr a q.src_ip q.msg) answer ≡ true)
        ↔ AreSame (sent_for lib req lru parse_addr a q.src_ip q.msg).question answer.question
  right_iff q answer =
      answers_question_iff (sent_for lib req lru parse_addr a q.src_ip q.msg) answer

  serve_dns-AreReceived :
      (qs : List Asked) (q : Asked) (t : Table)
      → AreReceived qs t
      → AreReceived (q ∷ qs) (serve_dns lib req lru parse_addr a q.src_ip q.now q.msg t).1
  serve_dns-AreReceived qs q t h =
      elim (Option-cases (cached_for lib req lru parse_addr a q.src_ip q.now q.msg t).0) [
        | inr (m, hit) ↦
            read_only-AreReceived qs q t _
              (serve_dns_hit lib req lru parse_addr a q.src_ip q.now q.msg m t hit).table h
        | inl miss ↦
            elim (Option-cases (a.upstream (sent_for lib req lru parse_addr a q.src_ip q.msg))) [
              | inl up ↦
                  read_only-AreReceived qs q t _
                    (serve_dns_refused lib req lru parse_addr a q.src_ip q.now q.msg t miss
                      (λ answer r. cc (up, r.0))).1
                    h
              | inr (answer, up) ↦
                  elim (Bool-cases
                    (answers_question (sent_for lib req lru parse_addr a q.src_ip q.msg) answer)) [
                      | inl right ↦
                          relayed-AreReceived qs q t _ answer (up, (right_iff q answer).0 right)
                            (serve_dns_relayed lib req lru parse_addr a q.src_ip q.now q.msg answer
                              t miss (up, (right_iff q answer).0 right)).table
                            h
                      | inr wrong ↦
                          read_only-AreReceived qs q t _
                            (serve_dns_refused lib req lru parse_addr a q.src_ip q.now q.msg t miss
                              (λ other r. cc (up, wrong, r.0, (right_iff q other).1 r.1))).1
                            h
                    ]
            ]
      ]

  history-AreReceived : (size : ℕ) (qs : List Asked) → AreReceived qs (history size qs)
  unfolding history
  history-AreReceived size [] = λ k e found. cc (found, lru.get-new size k)
  history-AreReceived size (q ∷ qs) =
      serve_dns-AreReceived qs q (history size qs) (history-AreReceived size qs)

  -- Whatever queries an agent got before, from whatever sources and over whatever failures: a
  -- cached message that it answers with is, its TTLs apart, what the upstream answered to the very
  -- question of an earlier query, which came from a source of the same zone, with the same type and
  -- the same name up to case. The lifetime of that answer is not over, and every record has the whole
  -- seconds that are left of it as its TTL, which are no more than any TTL of the answer section was
  -- if time went forward.
  pub history_separates :
      (size : ℕ) (qs : List Asked) (q : Asked) (m : Msg)
      → (cached_for lib req lru parse_addr a q.src_ip q.now q.msg (history size qs)).0 ≡ some m
      → (p : Asked) × (answer : Msg) × Memᴰ p qs
        × IsRelayed lib req lru parse_addr a p.src_ip p.msg answer
        × (zone_of lib req lru parse_addr a p.src_ip ≡ zone_of lib req lru parse_addr a q.src_ip)
        × (req.qtype p.msg.question ≡ req.qtype q.msg.question)
        × (to_lower (req.name p.msg.question) ≡ to_lower (req.name q.msg.question))
        × IsAged p q answer m
  unfolding make_key
  history_separates size qs q m h =
      let (e, found, back) =
        get-revive lru
          (record {
            qname = req.name q.msg.question;
            qtype = req.qtype q.msg.question;
            zone = zone_of lib req lru parse_addr a q.src_ip;
          })
          q.now (history size qs) m h in
      let r = history-AreReceived size qs (key_for q) e found in
      (
        r.asked,
        r.answer,
        r.among,
        r.relayed,
        ap (λ (k : Key). k.zone) r.under,
        ap (λ (k : Key). k.qtype) r.under,
        ap (λ (k : Key). k.qname) r.under,
        revived-IsAged r.asked q r.answer m r.life r.lives (rw r.held at back),
      )
