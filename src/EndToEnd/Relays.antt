-- ===== src/EndToEnd/Relays.antt =====
-- From setup to a reply: plugin/zonedns_agent over internal/dohupstream. Where the replies of an
-- agent come from.
use zonedns.Prelude.{◌≡◌, ◌⊎◌, Option, List, Memᴰ}
use zonedns.Text.{Str, to_lower}
use zonedns.Dns.{Msg, MsgLib, RequestLib}
use zonedns.Netip.{Addr}
use zonedns.Kube.{Kube}
use zonedns.Readiness.{Readiness}
use zonedns.Zonecache.{Lru}
use zonedns.Agent.{Agent}
use zonedns.Agent.Replies.{zone_of, IsRelayed, IsReply}
use zonedns.Agent.Ages.{Asked, IsAged}

module _ (lib : MsgLib) (req : RequestLib) (lru : Lru) (parse_addr : Str → Option Addr) where
  -- An earlier query from the same zone, of the same type, for the same name up to case.
  pub record IsAlike (a : Agent) (p q : Asked) : Type 0 where
    pub zone : zone_of lib req lru parse_addr a p.src_ip ≡ zone_of lib req lru parse_addr a q.src_ip
    pub qtype : req.qtype p.msg.question ≡ req.qtype q.msg.question
    pub name : to_lower (req.name p.msg.question) ≡ to_lower (req.name q.msg.question)

  -- The upstream's answer to one of the queries, from which a reply is made.
  pub record HasOrigin (a : Agent) (qs : List Asked) (q : Asked) (written : Msg) : Type 0 where
    pub asked : Asked
    pub among : Memᴰ asked qs
    pub alike : IsAlike a asked q
    pub answer : Msg
    pub relayed : IsRelayed lib req lru parse_addr a asked.src_ip asked.msg answer
    pub adjusted : Msg
    pub aged : (adjusted ≡ answer) ⊎ IsAged asked q answer adjusted
    pub is_reply : IsReply lib req lru parse_addr a q.msg adjusted written
