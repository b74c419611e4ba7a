-- ===== src/Agent/Repeats.antt =====
-- Two queries in a row: the second one out of the cache.
use zonedns.Prelude.{
  ℕ, Option, ◌+◌, ◌-◌, ◌/◌, ◌%◌, ◌^◌, ◌<◌, ◌≡◌, ◌∙◌, ap, true, none, some, inl, inr, Bool-cases,
  arith,
}
use zonedns.Text.{Str, to_lower}
use zonedns.Dns.{Msg, MsgLib, RequestLib}
use zonedns.Netip.{Addr}
use zonedns.Zonecache
use zonedns.Zonecache.{Lru, lifetime, set_ttls, second}
use zonedns.Zonecache.Lifetimes.{get-put}
use zonedns.Agent.{Agent, Served, answers_question, replied, serve_dns}
use zonedns.Agent.Ages.{Asked}
use zonedns.Agent.Questions.{AreSame, answers_question_iff}
use zonedns.Agent.Replies.{
  zone_of, sent_for, cached_for, IsReply, IsAnswered, serve_dns_hit, serve_dns_relayed,
  serve_dns_refused,
}

module _ (lib : MsgLib) (req : RequestLib) (lru : Lru) (parse_addr : Str → Option Addr)
    (a : Agent) where
  abbrev served : Asked → lru.Table → Served × lru.Table
  served q t = serve_dns lib req lru parse_addr a q.src_ip q.now q.msg t

  abbrev cached : Asked → lru.Table → Option Msg
  cached q t = (cached_for lib req lru parse_addr a q.src_ip q.now q.msg t).0

  -- A query that the cache answers alike: from a source of the same zone, of the same type, for the
  -- same name up to case.
  pub record IsRepeat (p q : Asked) : Type 0 where
    pub zone : zone_of lib req lru parse_addr a q.src_ip ≡ zone_of lib req lru parse_addr a p.src_ip
    pub qtype : req.qtype q.msg.question ≡ req.qtype p.msg.question
    pub name : to_lower (req.name q.msg.question) ≡ to_lower (req.name p.msg.question)

  cached-repeat :
      (p q : Asked) (answer : Msg) (life : ℕ) (t : lru.Table)
      → IsRepeat p q
      → lifetime answer.answer ≡ some life
      → q.now < p.now + life
      → cached q (
          Zonecache.put lru
            (req.name p.msg.question)
            (req.qtype p.msg.question)
            (zone_of lib req lru parse_addr a p.src_ip)
            (some answer)
            p.now
            t)
        ≡ some (set_ttls ((p.now + life - q.now) / second % 2 ^ 32) answer)
  unfolding Zonecache.get set_ttls
  cached-repeat p q answer life t k lives live =
      rw (k.zone, k.qtype)
        (get-put lru
          (record {
            qname = req.name p.msg.question;
            qtype = req.qtype p.msg.question;
            zone = zone_of lib req lru parse_addr a p.src_ip;
          })
          answer p.now life q.now (req.name q.msg.question) t lives live k.name).0

  -- What two queries in a row come to: the first one had the very questions answered that were sent
  -- on, and the second one is answered with the same, at its age, without a message to the upstream.
  pub record IsShared (p q : Asked) (answer written m : Msg) (t : lru.Table) : Type 0 where
    pub same : AreSame (sent_for lib req lru parse_addr a p.src_ip p.msg).question answer.question
    pub first : IsReply lib req lru parse_addr a p.msg answer written
    pub again :
        IsAnswered lib req lru parse_addr a q.msg m none
          (cached_for lib req lru parse_addr a q.src_ip q.now q.msg (served p t).1).1
          (served q (served p t).1)

  module _ (p q : Asked) (answer written : Msg) (life : ℕ) (t : lru.Table) where
    IsShared-of_right :
        cached p t ≡ none
        → a.upstream (sent_for lib req lru parse_addr a p.src_ip p.msg) ≡ some answer
        → answers_question (sent_for lib req lru parse_addr a p.src_ip p.msg) answer ≡ true
        → (served p t).0.outcome ≡ replied written
        → IsRepeat p q
        → lifetime answer.answer ≡ some life
        → q.now < p.now + life
        → IsShared p q answer written (set_ttls ((p.now + life - q.now) / second % 2 ^ 32) answer) t
    IsShared-of_right miss up right h k lives live =
        let same =
          (answers_question_iff (sent_for lib req lru parse_addr a p.src_ip p.msg) answer).0
            right in
        let n =
          serve_dns_relayed lib req lru parse_addr a p.src_ip p.now p.msg answer t miss
            (up, same) in
        let e : n.written ≡ written = ground (arith, n.outcome, h) in
        record {
          same = same;
          first = rw (← e) n.is_reply;
          again =
              serve_dns_hit lib req lru parse_addr a q.src_ip q.now q.msg _ (served p t).1
                (ap (cached q) n.table ∙ cached-repeat p q answer life _ k lives live);
        }

    -- On a miss, an answer of the upstream is relayed only if it is to the very questions that were
    -- sent on, which are then answered with its records and its code under the number of the query.
    -- Until its lifetime is over, the next query from a source of the same zone, of the same type
    -- and for the same name up to case is answered from the cache, with the same records and code
    -- under its own number and the whole seconds left as their TTLs; nothing goes to the upstream.
    pub serve_dns_repeated :
        cached p t ≡ none
        → a.upstream (sent_for lib req lru parse_addr a p.src_ip p.msg) ≡ some answer
        → (served p t).0.outcome ≡ replied written
        → IsRepeat p q
        → lifetime answer.answer ≡ some life
        → q.now < p.now + life
        → IsShared p q answer written (set_ttls ((p.now + life - q.now) / second % 2 ^ 32) answer) t
    serve_dns_repeated miss up h k lives live =
        let sent = sent_for lib req lru parse_addr a p.src_ip p.msg in
        elim (Bool-cases (answers_question sent answer)) [
          | inl right ↦ IsShared-of_right miss up right h k lives live
          | inr wrong ↦
              let refused =
                serve_dns_refused lib req lru parse_addr a p.src_ip p.now p.msg t miss
                  (λ other r. cc (up, wrong, r.0, (answers_question_iff sent other).1 r.1)) in
              cc (h, refused.0)
        ]
