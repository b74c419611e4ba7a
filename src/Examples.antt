-- ===== src/Examples.antt =====
-- Concrete data for the tests: a message library, a cache of one entry, an address parser, and a
-- small cluster.
pub mod Wire
pub mod Registries
pub mod Node
pub mod Answers
pub mod Caches
pub mod Start
pub mod Central
pub mod Journey
pub mod Drifts
pub mod Corefiles
pub mod Clusters
pub mod Gateways
pub mod Gauges
use zonedns.Prelude.{
  ℕ, ◌≡◌, ◌≢◌, refl, Bool, true, false, Option, none, some, List, [], ◌∷◌, arith, ◌==◌,
  if◌then◌else◌, eq_iff, inl, inr, Bool-cases, nat_eq,
}
use zonedns.Text.{Str, str_eq, text}
use zonedns.Dns.{
  EdnsOption, local, other, Question, Header, Rdata, a, opt, raw, Rr, Msg, MsgLib, RequestLib,
  blank, type_a, type_opt, class_inet, rcode_success,
}
use zonedns.Netip.{Addr, v4}
use zonedns.Spiffezone.{Url}
use zonedns.Identity.{Cert, TlsState, Transport, Config, new_config}
use zonedns.Podzone
use zonedns.Podzone.{Pod}
use zonedns.Agent.{Agent, Resolver}
use zonedns.Zonecache.{Key, key_eq, Entry, Lru}

options_in_extra : List Rr → Option (List EdnsOption)
options_in_extra [] = none
options_in_extra (rr ∷ rest) = elim rr.rdata [ opt os ↦ some os | _ ↦ options_in_extra rest ]

store_in_extra : List EdnsOption → List Rr → List Rr
store_in_extra os [] = []
store_in_extra os (rr ∷ rest) =
    let rest' = store_in_extra os rest in
    elim rr.rdata [ opt _ ↦ record rr { rdata = opt os } ∷ rest | _ ↦ rr ∷ rest' ]

options-store_in_extra :
    (os : List EdnsOption) (rrs : List Rr)
    → options_in_extra rrs ≢ none
    → options_in_extra (store_in_extra os rrs) ≡ some os
unfolding options_in_extra store_in_extra
options-store_in_extra os [] h = absurd (h refl)
options-store_in_extra os (rr ∷ rest) h = ground (arith, options-store_in_extra os rest)

abbrev opt_record : ℕ → Rr
opt_record size = record {
  header = record { name = text "."; rrtype = type_opt; class = size; ttl = 0 };
  rdata = opt [];
}

-- The message library, over the first OPT record of the additional section.
pub msg_lib : MsgLib
unfolding options_in_extra
msg_lib = record {
  default_msg_size = 4096;
  edns0_options = λ m. options_in_extra m.extra;
  store_options = λ os m. record m { extra = store_in_extra os m.extra };
  set_edns0 = λ size secure m. record m { extra = opt_record size ∷ m.extra };
  set_reply = λ m request. record m {
    id = request.id;
    response = true;
    rcode = rcode_success;
    question = request.question;
  };
  size_and_do = λ request m. m;
  options-store = λ os m h. options-store_in_extra os m.extra h;
  question-store = λ os m. refl;
  options-set_edns0 = λ size secure m h. refl;
  question-set_edns0 = λ size secure m. refl;
  answer-set_reply = λ m request. refl;
  rcode-set_reply = λ m request. refl;
  id-set_reply = λ m request. refl;
  answer-size_and_do = λ request m. refl;
  rcode-size_and_do = λ request m. refl;
}

abbrev pub no_question : Question
no_question = record { name = []; qtype = 0; qclass = 0 }

first_question : List Question → Question
first_question [] = no_question
first_question (q ∷ _) = q

pub request_lib : RequestLib
unfolding first_question
request_lib = record {
  qtype = λ qs. (first_question qs).qtype;
  name = λ qs. (first_question qs).name;
  qname = λ qs. (first_question qs).name;
}

-- A cache of one entry, for any capacity.
find_slot : Key → Option (Key × Entry) → Option Entry
find_slot k none = none
find_slot k (some (j, e)) = if j == k then some e else none

pub one_slot : Lru
unfolding find_slot
one_slot = record {
  Table = Option (Key × Entry);
  new = λ size. none;
  add = λ k e t. some (k, e);
  get = λ k t. (find_slot k t, t);
  len = λ t. elim t [ none ↦ 0 | some _ ↦ 1 ];
  get-new = λ size k. refl;
  get-add_self = λ k e t. ground (arith, eq_iff k k);
  get-add_other = λ k j e x t ne h. ground (arith, eq_iff k j);
  get-get = λ k j t. refl;
}

-- An address parser that knows two addresses.
abbrev pub address_one : Addr
address_one = v4 167772161

abbrev pub address_two : Addr
address_two = v4 167772162

pub parse_addr : Str → Option Addr
parse_addr s =
    if s == text "10.0.0.1"
    then some address_one
    else if s == text "10.0.0.2"
    then some address_two
    else none

-- A query for a name in zone-b, and what a client might declare.
abbrev pub query : Msg
query = record blank {
  id = 7;
  question = record { name = text "db.b.test."; qtype = type_a; qclass = class_inet } ∷ [];
}

abbrev pub forged : Msg
forged = record query {
  extra =
      record (opt_record 1232) {
        rdata = opt (local 65001 (text "zone-b") ∷ other 10 [] ∷ local 65002 (text "x") ∷ []);
      }
      ∷ [];
}

abbrev pub answer_to : ℕ → Msg → Msg
answer_to ttl m = record m {
  response = true;
  rcode = 0;
  answer =
      record {
        header = record {
          name = text "db.b.test.";
          rrtype = type_a;
          class = class_inet;
          ttl = ttl;
        };
        rdata = a (some 167772417);
      }
      ∷ [];
}

-- The identity of an agent, central's configuration, and a connection.
abbrev pub agent_url : Url
agent_url = record {
  scheme = text "spiffe";
  path = text "/zone/zone-a/agent";
  string = text "spiffe://test/zone/zone-a/agent";
}

abbrev pub config : Config
config = new_config (agent_url.string ∷ []) 65001

abbrev pub transport : Transport
transport = record {
  http_request = none;
  connection_state =
      some (some (record { peer_certificates = record { uris = some agent_url ∷ [] } ∷ [] }));
}

-- A pod, and the events that report it.
abbrev pub pod_one : Pod
pod_one = record {
  namespace = text "default";
  name = text "web";
  labels = (text "zone", text "zone-a") ∷ [];
  host_network = false;
  pod_ip = text "10.0.0.1";
}

abbrev pub events : List Podzone.Event
events = Podzone.added (Podzone.pod pod_one) ∷ Podzone.synced ∷ []

abbrev pub watched : Podzone.Watcher
watched = Podzone.run parse_addr (Podzone.new (text "zone")) events

abbrev pub relay : Msg → Option Msg
relay m = some (answer_to 20 m)

-- An agent at the second address, with a resolver and an upstream.
abbrev pub agent_with : Resolver → (Msg → Option Msg) → Agent
agent_with resolver upstream = record {
  resolver = resolver;
  upstream = upstream;
  edns0_code = 65001;
  node_ip = address_two;
}
