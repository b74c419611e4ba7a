-- ===== src/Examples/Caches.antt =====
-- The answer cache.
use zonedns.Prelude.{ℕ, ◌+◌, ◌-◌, ◌*◌, ◌/◌, ◌%◌, ◌^◌, ◌<◌, ◌≡◌, refl, some, [], ◌∷◌, arith, Memᴰ}
use zonedns.Text.{text, to_lower, str_beq}
use zonedns.Dns.{Msg, type_a}
use zonedns.Zonecache.{second, max_ttl, lifetime, set_ttls, revive, put, get, Entry}
use zonedns.Zonecache.Ttls.{HasTtls, IsLifetime, lifetime-IsLifetime}
use zonedns.Zonecache.Lifetimes.{Query, Call, stored, asked, after, get_origin, get-put}
use zonedns.Examples.{one_slot, query, answer_to}

abbrev answered : Msg
answered = answer_to 20 query

twenty_seconds : lifetime answered.answer ≡ some (20 * second)
unfolding lifetime
twenty_seconds = refl

abbrev asked_db : Query
asked_db = record { qname = text "db.b.test."; qtype = type_a; zone = text "zone-a" }

lifetime-IsLifetime_example : IsLifetime answered.answer (20 * second)
lifetime-IsLifetime_example = lifetime-IsLifetime answered.answer (20 * second) twenty_seconds

spelled : to_lower (text "DB.b.test.") ≡ to_lower asked_db.qname
unfolding to_lower
spelled = refl

get-put_example :
    ((get one_slot (text "DB.b.test.") type_a (text "zone-a") (5 * second) (
        put one_slot
          (text "db.b.test.")
          type_a
          (text "zone-a")
          (some answered)
          0
          (one_slot.new 8))).0
      ≡ some (set_ttls 15 answered))
    × HasTtls 15 (set_ttls 15 answered)
get-put_example =
    get-put one_slot asked_db answered 0 (20 * second) (5 * second) (text "DB.b.test.")
      (one_slot.new 8) twenty_seconds (omega arith) spelled

found :
    (get one_slot
      (text "db.b.test.")
      type_a
      (text "zone-a")
      (5 * second)
      (after one_slot 8 (stored asked_db answered 0 ∷ []))).0
    ≡ some (set_ttls 15 answered)
unfolding get one_slot after zonedns.Zonecache.Lifetimes.call put zonedns.Zonecache.key_beq str_beq
    zonedns.Zonecache.make_key to_lower
found = refl

get_origin_example :
    (p : Query) × (m : Msg) × (time : ℕ) × (ttl : ℕ) × Memᴰ
      (stored p m time)
      (stored asked_db answered 0 ∷ [])
    × (p.zone ≡ text "zone-a")
    × (p.qtype ≡ type_a)
    × (to_lower p.qname ≡ to_lower (text "db.b.test."))
    × (lifetime m.answer ≡ some ttl)
    × (5 * second < time + ttl)
    × (set_ttls 15 answered ≡ set_ttls ((time + ttl - 5 * second) / second % 2 ^ 32) m)
get_origin_example =
    get_origin one_slot 8 (stored asked_db answered 0 ∷ []) asked_db (5 * second)
      (set_ttls 15 answered) found
