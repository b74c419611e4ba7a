-- ===== src/Central/Answers.antt =====
-- The message of a gateway answer.
use zonedns.Prelude.{
  ℕ, ◌/◌, ◌^◌, ◌≡◌, ◌≢◌, refl, ◌∙◌, true, false, none, some, List, [], ◌∷◌, arith, ◌==◌,
  if◌then◌else◌, nat_eq, eq_iff, not, ◌%◌, inl, inr, Bool-cases,
}
use zonedns.Text.{Str, str_eq}
use zonedns.Dns.{
  Msg, MsgLib, RequestLib, Header, Rr, a, aaaa, type_a, type_aaaa, rcode_success, blank,
}
use zonedns.Netip.{Addr, v4, v6, invalid, ip4, ip16, parse_ip, to4, to16}
use zonedns.Central.{ZoneDns, header, gateway_reply}

-- The records that a gateway address gives a query of a type: an address of the other family
-- gives none.
abbrev pub gateway_records : (ℕ → Header) → ℕ → Addr → List Rr
gateway_records head qtype (v4 bits) =
    if qtype == type_a then record { header = head type_a; rdata = a (some bits) } ∷ [] else []
gateway_records head qtype (v6 bits scope) =
    if qtype == type_aaaa
    then record { header = head type_aaaa; rdata = aaaa (some bits) } ∷ []
    else []
gateway_records head qtype invalid = []

-- The records for every gateway address, whatever net.ParseIP makes of its text: a mapped IPv4
-- address counts as the IPv4 address; with a scope zone, or of the zero Addr, there is no address
-- to give, and an AAAA query gets a record without one.
abbrev pub records_of : (ℕ → Header) → ℕ → Addr → List Rr
records_of head qtype (v4 bits) = gateway_records head qtype (v4 bits)
records_of head qtype (v6 bits scope) =
    if not (scope == [])
    then (if qtype == type_aaaa
        then record { header = head type_aaaa; rdata = aaaa none } ∷ []
        else [])
    else gateway_records head qtype
        (if bits / 2 ^ 32 == 0xffff then v4 (bits % 2 ^ 32) else v6 bits [])
records_of head qtype invalid =
    if qtype == type_aaaa then record { header = head type_aaaa; rdata = aaaa none } ∷ [] else []

-- An IPv6 address proper: no scope zone, and not in the range of the mapped IPv4 addresses.
abbrev pub IsPlain : Addr → Type 0
IsPlain invalid = ⊥
IsPlain (v4 bits) = Unit
IsPlain (v6 bits scope) = (scope ≡ []) × ((bits / 2 ^ 32 == 0xffff) ≡ false)

parse_ip_v4 : (bits : ℕ) → parse_ip (v4 bits) ≡ ip4 bits
unfolding parse_ip
parse_ip_v4 bits = refl

parse_ip_plain :
    (bits : ℕ) (scope : Str) → IsPlain (v6 bits scope) → parse_ip (v6 bits scope) ≡ ip16 bits
unfolding parse_ip
parse_ip_plain bits scope h = ground (arith, eq_iff scope [], h.0, h.1)

module _ (lib : MsgLib) (req : RequestLib) (z : ZoneDns) (r : Msg) where
  abbrev pub bare_reply : Msg
  bare_reply = lib.size_and_do r (record (lib.set_reply blank r) { authoritative = true })

  bare_reply-answer : bare_reply.answer ≡ []
  bare_reply-answer = lib.answer-size_and_do r _ ∙ lib.answer-set_reply blank r

  bare_reply-rcode : bare_reply.rcode ≡ rcode_success
  bare_reply-rcode = lib.rcode-size_and_do r _ ∙ lib.rcode-set_reply blank r

  -- A plain gateway address answers a query of its own family with exactly that address, and a
  -- query of the other family with no record, in both cases with code success.
  pub gateway_reply-answer :
      (gw : Addr)
      → IsPlain gw
      → ((gateway_reply lib req z r gw).answer
          ≡ gateway_records (header lib req z r) (req.qtype r.question) gw)
        × ((gateway_reply lib req z r gw).rcode ≡ rcode_success)
  unfolding gateway_reply to4 to16
  gateway_reply-answer (v4 bits) h = (
    ground (arith, bare_reply-answer, parse_ip_v4 bits),
    ground (arith, bare_reply-rcode, parse_ip_v4 bits),
  )
  gateway_reply-answer (v6 bits scope) h = (
    ground (arith, bare_reply-answer, parse_ip_plain bits scope h),
    ground (arith, bare_reply-rcode, parse_ip_plain bits scope h),
  )
  gateway_reply-answer invalid h = elim h [ ]

  pub gateway_reply-records_of :
      (gw : Addr)
      → ((gateway_reply lib req z r gw).answer
          ≡ records_of (header lib req z r) (req.qtype r.question) gw)
        × ((gateway_reply lib req z r gw).rcode ≡ rcode_success)
  unfolding gateway_reply parse_ip to4 to16
  gateway_reply-records_of (v4 bits) =
      (ground (arith, bare_reply-answer), ground (arith, bare_reply-rcode))
  gateway_reply-records_of (v6 bits scope) = elim (Bool-cases (scope == [])) [
    | inr s ↦ (ground (arith, bare_reply-answer, s), ground (arith, bare_reply-rcode, s))
    | inl s ↦ elim (Bool-cases (bits / 2 ^ 32 == 0xffff)) [
      | inl m ↦ (ground (arith, bare_reply-answer, s, m), ground (arith, bare_reply-rcode, s, m))
      | inr m ↦ (ground (arith, bare_reply-answer, s, m), ground (arith, bare_reply-rcode, s, m))
    ]
  ]
  gateway_reply-records_of invalid =
      (ground (arith, bare_reply-answer), ground (arith, bare_reply-rcode))

  -- A gateway with an IPv6 scope zone answers an AAAA query with a record whose address is nil, and
  -- every other query with no record.
  pub gateway_reply_scoped :
      (bits : ℕ) (scope : Str)
      → scope ≢ []
      → (gateway_reply lib req z r (v6 bits scope)).answer ≡ (
          if req.qtype r.question == type_aaaa
          then record { header = header lib req z r type_aaaa; rdata = aaaa none } ∷ []
          else [])
  unfolding gateway_reply parse_ip to4 to16
  gateway_reply_scoped bits scope ne = ground (arith, bare_reply-answer, eq_iff scope [])
