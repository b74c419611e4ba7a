-- ===== src/Dns.antt =====
-- What the program reads and writes of github.com/miekg/dns: the fields of a message, and the
-- methods of the library as a parameter with the behaviour that the program relies on.
use zonedns.Prelude.{ℕ, ◌≡◌, ◌≢◌, Bool, false, Option, none, some, List, []}
use zonedns.Text.{Str}

-- dns.EDNS0: `local` is *dns.EDNS0_LOCAL, `other` is every other option.
pub data EdnsOption : Type 0 where
  local : (code : ℕ) (payload : Str) → EdnsOption
  other : (code : ℕ) (payload : Str) → EdnsOption

pub record Question : Type 0 where
  pub name : Str
  pub qtype : ℕ
  pub qclass : ℕ

-- dns.RR_Header
pub record Header : Type 0 where
  pub name : Str
  pub rrtype : ℕ
  pub class : ℕ
  pub ttl : ℕ

-- The part of a record behind its header; an address is a number of 32 or 128 bits, none for a nil
-- slice.
pub data Rdata : Type 0 where
  a : Option ℕ → Rdata
  aaaa : Option ℕ → Rdata
  opt : List EdnsOption → Rdata
  raw : Str → Rdata

pub record Rr : Type 0 where
  pub header : Header
  pub rdata : Rdata

pub record Msg : Type 0 where
  pub id : ℕ
  pub response : Bool
  pub authoritative : Bool
  pub rcode : ℕ
  pub question : List Question
  pub answer : List Rr
  pub ns : List Rr
  pub extra : List Rr

abbrev pub type_a : ℕ
type_a = 1

abbrev pub type_aaaa : ℕ
type_aaaa = 28

abbrev pub type_opt : ℕ
type_opt = 41

abbrev pub class_inet : ℕ
class_inet = 1

abbrev pub rcode_success : ℕ
rcode_success = 0

abbrev pub rcode_server_failure : ℕ
rcode_server_failure = 2

-- The methods of *dns.Msg. `edns0_options m` is the field Option of the record that m.IsEdns0()
-- points to, none where it returns nil; `store_options os m` is m after that field was assigned.
-- `set_reply m request` is m after m.SetReply(request), and `size_and_do request m` is m after
-- SizeAndDo of a request.Request for `request`.
pub record MsgLib : Type 0 where
  pub default_msg_size : ℕ
  pub edns0_options : Msg → Option (List EdnsOption)
  pub store_options : List EdnsOption → Msg → Msg
  pub set_edns0 : ℕ → Bool → Msg → Msg
  pub set_reply : Msg → Msg → Msg
  pub size_and_do : Msg → Msg → Msg
  pub options-store :
      (os : List EdnsOption) (m : Msg)
      → edns0_options m ≢ none
      → edns0_options (store_options os m) ≡ some os
  pub question-store : (os : List EdnsOption) (m : Msg) → (store_options os m).question ≡ m.question
  pub options-set_edns0 :
      (size : ℕ) (secure : Bool) (m : Msg)
      → edns0_options m ≡ none
      → edns0_options (set_edns0 size secure m) ≡ some []
  pub question-set_edns0 :
      (size : ℕ) (secure : Bool) (m : Msg) → (set_edns0 size secure m).question ≡ m.question
  pub answer-set_reply : (m request : Msg) → (set_reply m request).answer ≡ m.answer
  pub rcode-set_reply : (m request : Msg) → (set_reply m request).rcode ≡ rcode_success
  pub id-set_reply : (m request : Msg) → (set_reply m request).id ≡ request.id
  pub answer-size_and_do : (request m : Msg) → (size_and_do request m).answer ≡ m.answer
  pub rcode-size_and_do : (request m : Msg) → (size_and_do request m).rcode ≡ m.rcode

-- request.Request of github.com/coredns/coredns: its methods read the question section alone.
-- `name` is the name of the question normalised, `qname` as it was asked.
pub record RequestLib : Type 0 where
  pub qtype : List Question → ℕ
  pub name : List Question → Str
  pub qname : List Question → Str

-- new(dns.Msg)
abbrev pub blank : Msg
blank = record {
  id = 0;
  response = false;
  authoritative = false;
  rcode = rcode_success;
  question = [];
  answer = [];
  ns = [];
  extra = [];
}
