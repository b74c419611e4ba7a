-- ===== src/Agent/Replies.antt =====
-- ServeDNS of the agent: what the client gets, and what the cache keeps.
use zonedns.Prelude.{
  ℕ, ◌≡◌, refl, true, Option, none, some, arith, Option-cases, Bool-cases, inl, inr, nat_eq,
}
use zonedns.Text.{Str}
use zonedns.Dns.{Msg, MsgLib, RequestLib, rcode_server_failure}
use zonedns.Netip.{Addr}
use zonedns.Zonecache
use zonedns.Zonecache.{Lru}
use zonedns.Agent.Questions.{AreSame, answers_question_iff}
use zonedns.Agent.{
  Agent, replied, returned, Served, outbound, reply, resolve_zone, zone_or_empty, answers_question,
  finish, serve_dns,
}

module _ (lib : MsgLib) (req : RequestLib) (lru : Lru) (parse_addr : Str → Option Addr)
    (a : Agent) where
  open lru use {Table}

  -- The zone under which a query is cached, "" for none.
  abbrev pub zone_of : Str → Str
  zone_of src_ip = zone_or_empty (resolve_zone parse_addr a src_ip).0

  -- The message that a query is sent on as.
  abbrev pub sent_for : Str → Msg → Msg
  sent_for src_ip r = outbound lib a.edns0_code (resolve_zone parse_addr a src_ip).0 r

  -- What the cache has for a query.
  abbrev pub cached_for : Str → ℕ → Msg → Table → Option Msg × Table
  cached_for src_ip now r t =
      Zonecache.get lru (req.name r.question) (req.qtype r.question) (zone_of src_ip) now t

  -- What is relayed: what the upstream gave for this query, if its questions are the very ones that
  -- were sent.
  abbrev pub IsRelayed : Str → Msg → Msg → Type 0
  IsRelayed src_ip r answer =
      (a.upstream (sent_for src_ip r) ≡ some answer)
      × AreSame (sent_for src_ip r).question answer.question

  -- A reply to a request with the answers and the code of a message.
  pub record IsReply (r m p : Msg) : Type 0 where
    pub id : p.id ≡ r.id
    pub rcode : p.rcode ≡ m.rcode
    pub answer : p.answer ≡ m.answer

  reply-IsReply : (r m : Msg) → IsReply r m (reply lib r m)
  unfolding reply
  reply-IsReply r m = record {
    id = lib.id-set_reply m r;
    rcode = refl;
    answer = lib.answer-set_reply m r;
  }

  -- What one query comes to: the client gets the answers and the code of a message, and the cache
  -- is left as a table.
  pub record IsAnswered (r m : Msg) (upward : Option Msg) (t : Table) (result : Served × Table)
      : Type 0 where
    pub written : Msg
    pub outcome : result.0.outcome ≡ replied written
    pub is_reply : IsReply r m written
    pub sent : result.0.sent ≡ upward
    pub table : result.1 ≡ t

  -- On a hit the client gets the answers and the code of the cached message under the number of
  -- its own query, nothing goes to the upstream, and the cache is only read.
  pub serve_dns_hit :
      (src_ip : Str) (now : ℕ) (r m : Msg) (t : Table)
      → (cached_for src_ip now r t).0 ≡ some m
      → IsAnswered r m none
          (cached_for src_ip now r t).1
          (serve_dns lib req lru parse_addr a src_ip now r t)
  unfolding serve_dns
  serve_dns_hit src_ip now r m t h = record {
    written = reply lib r m;
    outcome = ground (arith, h);
    is_reply = reply-IsReply r m;
    sent = ground (arith, h);
    table = ground (arith, h);
  }

  -- On a miss the answer of the upstream to the very question is relayed, whatever its code, and
  -- cached under the zone of the source.
  pub serve_dns_relayed :
      (src_ip : Str) (now : ℕ) (r answer : Msg) (t : Table)
      → (cached_for src_ip now r t).0 ≡ none
      → IsRelayed src_ip r answer
      → IsAnswered r answer
          (some (sent_for src_ip r))
          (Zonecache.put lru
            (req.name r.question)
            (req.qtype r.question)
            (zone_of src_ip)
            (some answer)
            now
            (cached_for src_ip now r t).1)
          (serve_dns lib req lru parse_addr a src_ip now r t)
  unfolding serve_dns finish
  serve_dns_relayed src_ip now r answer t h (up, same) =
      let right : answers_question (sent_for src_ip r) answer ≡ true =
        (answers_question_iff (sent_for src_ip r) answer).1 same in
      record {
        written = reply lib r answer;
        outcome = ground (arith, h, up, right);
        is_reply = reply-IsReply r answer;
        sent = ground (arith, h, up, right);
        table = ground (arith, h, up, right);
      }

  -- On a miss, if the upstream fails or what it gives is to other questions than were sent, in
  -- number, order, type, class or name up to case, the client gets SERVFAIL, and nothing is cached.
  pub serve_dns_refused :
      (src_ip : Str) (now : ℕ) (r : Msg) (t : Table)
      → (cached_for src_ip now r t).0 ≡ none
      → ((answer : Msg) → ¬ IsRelayed src_ip r answer)
      → let (served, t') = serve_dns lib req lru parse_addr a src_ip now r t in
        (served.outcome ≡ returned rcode_server_failure) × (t' ≡ (cached_for src_ip now r t).1)
  unfolding serve_dns finish
  serve_dns_refused src_ip now r t h never = elim (Option-cases (a.upstream (sent_for src_ip r))) [
    | inl up ↦ (ground (arith, h, up), ground (arith, h, up))
    | inr (answer, up) ↦ elim (Bool-cases (answers_question (sent_for src_ip r) answer)) [
      | inl e ↦ absurd (never answer (up, (answers_question_iff (sent_for src_ip r) answer).0 e))
      | inr e ↦ (ground (arith, h, up, e), ground (arith, h, up, e))
    ]
  ]
