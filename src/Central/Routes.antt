-- ===== src/Central/Routes.antt =====
-- Which way a query to the central plugin goes.
use zonedns.Prelude.{
  ◌≡◌, ◌≢◌, ◌↔◌, refl, ◌∙◌, ap, Option, true, false, inl, inr, none, some, arith, eq_iff,
  Option-cases, Bool-cases,
}
use zonedns.Text.{Str, str_eq}
use zonedns.Dns.{Msg, MsgLib, RequestLib, rcode_server_failure, rcode_success, class_inet}
use zonedns.Identity.{Transport, Reason, reason_ok, source_zone}
use zonedns.Identity.Trust.{IsTrusted}
use zonedns.Identity.Laws.{source_zone_iff}
use zonedns.Netip.{Addr}
use zonedns.Registry
use zonedns.Zonetable
use zonedns.Decision.{pass_through, decide}
use zonedns.Decision.Laws.{IsCrossZone, pass_through_iff}
use zonedns.Central.{
  ZoneDns, Outcome, header, next_plugin, replied, returned, is_address_query, gateway_reply, act,
  is_ok, input, serve_dns,
}
use zonedns.Central.Answers.{records_of, gateway_reply-records_of}

module _ (lib : MsgLib) (req : RequestLib) (z : ZoneDns) (t : Transport) (r : Msg) where
  -- The query is an address query of one zone for a name of another: the source zone is believed,
  -- the registry knows the name, and the two differ.
  pub record IsBetweenZones (source dest : Str) : Type 0 where
    pub address : is_address_query req r ≡ true
    pub trusted : IsTrusted lib z.identity t r source
    pub known : Registry.lookup z.registry (req.name r.question) ≡ some dest
    pub differ : dest ≢ source

  cross_of_between :
      {source dest : Str} → IsBetweenZones source dest → IsCrossZone (input lib req z t r)
  unfolding input is_ok
  cross_of_between {source} {dest} k =
      let e = (source_zone_iff lib z.identity t r source).1 k.trusted in
      record {
        source_known = ground (arith, e);
        dest_known = ground (arith, e, k.known);
        differ = ground (arith, e, k.known, k.differ);
      }

  eq_ok : (why : Reason) → is_ok why ≡ true → why ≡ reason_ok
  unfolding is_ok
  eq_ok why h = ground arith

  between_of_cross :
      is_address_query req r ≡ true
      → IsCrossZone (input lib req z t r)
      → (source : Str) × (dest : Str) × IsBetweenZones source dest
  unfolding input
  between_of_cross a c = elim (Option-cases (Registry.lookup z.registry (req.name r.question))) [
    | inl e ↦ cc (c.dest_known, e)
    | inr (dest, e) ↦ (
      (source_zone lib z.identity t r).0,
      dest,
      record {
        address = a;
        trusted =
            (source_zone_iff lib z.identity t r _).0 (
              ap (λ reason. ((source_zone lib z.identity t r).0, reason)) (eq_ok _ c.source_known));
        known = e;
        differ = ground (arith, c.differ, e);
      },
    )
  ]

  pub serve_dns-crossed :
      (source dest : Str)
      → IsBetweenZones source dest
      → (serve_dns lib req z t r).outcome ≡ elim (Zonetable.gateway z.zones dest) [
        | none ↦ returned rcode_server_failure
        | some gw ↦ replied (gateway_reply lib req z r gw)
      ]
  unfolding serve_dns decide act input is_ok
  serve_dns-crossed source dest k =
      let e = (source_zone_iff lib z.identity t r source).1 k.trusted in
      ground (arith, e, k.known, k.differ, k.address, eq_iff dest source)

  -- The outcome for the gateway of the zone asked for, if it has one.
  abbrev pub Answers : Option Addr → Outcome → Type 0
  Answers none outcome = outcome ≡ returned rcode_server_failure
  Answers (some gw) outcome =
      (written : Msg) × (outcome ≡ replied written)
      × (written.rcode ≡ rcode_success)
      × (written.answer
          ≡ records_of
              (λ rrtype. record {
                name = req.qname r.question;
                rrtype = rrtype;
                class = class_inet;
                ttl = z.ttl;
              })
              (req.qtype r.question) gw)

  -- A query between two zones is never left to the next plugin. If the zone asked for has no
  -- gateway, it gets SERVFAIL. Else it is answered with code success and the address of that gateway
  -- under the name as asked, with the plugin's TTL, if the query is of the address's family, and
  -- with no record if it is not; a mapped IPv4 address counts as IPv4, and an address with a scope
  -- zone is of the IPv6 family and leaves a record without an address.
  pub serve_dns_between :
      (source dest : Str)
      → IsBetweenZones source dest
      → Answers (Zonetable.gateway z.zones dest) (serve_dns lib req z t r).outcome
  unfolding header
  serve_dns_between source dest k = elim (Option-cases (Zonetable.gateway z.zones dest)) [
    | inl e ↦ rw e (serve_dns-crossed source dest k ∙ rw e refl)
    | inr (gw, e) ↦
        let (records, success) = gateway_reply-records_of lib req z r gw in
        rw e (
          gateway_reply lib req z r gw,
          serve_dns-crossed source dest k ∙ rw e refl,
          success,
          records,
        )
  ]

  serve_dns_other_type :
      is_address_query req r ≡ false → (serve_dns lib req z t r).outcome ≡ next_plugin
  unfolding serve_dns
  serve_dns_other_type h = ground arith

  serve_dns_passed :
      (decide (input lib req z t r) (Zonetable.gateway z.zones)).action ≡ pass_through
      → (serve_dns lib req z t r).outcome ≡ next_plugin
  unfolding serve_dns act
  serve_dns_passed h = ground arith

  -- The query is left to the next plugin exactly if it is no query between two zones: another
  -- type, an asker that is not believed, a name that the registry does not know, the same zone.
  pub serve_dns-next_iff :
      ((serve_dns lib req z t r).outcome ≡ next_plugin)
      ↔ ((source dest : Str) → ¬ IsBetweenZones source dest)
  serve_dns-next_iff = (
    λ h source dest k. ground (arith, serve_dns-crossed source dest k),
    λ h. elim (Bool-cases (is_address_query req r)) [
      | inl e ↦ serve_dns_passed (
          (pass_through_iff (input lib req z t r) _).1
            (λ c. let (source, dest, k) = between_of_cross e c in h source dest k))
      | inr e ↦ serve_dns_other_type e
    ],
  )
