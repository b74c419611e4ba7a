-- ===== src/Decision/Laws.antt =====
-- The decision table, row by row and as a whole.
use zonedns.Prelude.{
  ◌≡◌, ◌≢◌, ◌↔◌, true, false, ◌⊎◌, inl, inr, Option, none, some, arith, ◌==◌, eq_iff, Bool-cases,
}
use zonedns.Text.{Str, str_eq}
use zonedns.Netip.{Addr}
use zonedns.Decision.{pass_through, answer_gateway, serv_fail, Input, decide}

-- A query between two zones: both are known and they differ.
pub record IsCrossZone (i : Input) : Type 0 where
  pub source_known : i.source_ok ≡ true
  pub dest_known : i.dest_ok ≡ true
  pub differ : i.dest_zone ≢ i.source_zone

module _ (i : Input) (gateway : Str → Option Addr) where
  -- A gateway is answered exactly between two zones, and it is the gateway of the zone asked for.
  pub answer_gateway_iff :
      (gw : Addr)
      → (decide i gateway ≡ record { action = answer_gateway; gateway = gw })
        ↔ (IsCrossZone i × (gateway i.dest_zone ≡ some gw))
  unfolding decide
  answer_gateway_iff gw = (
    λ h. (
      record {
        source_known = ground arith;
        dest_known = ground arith;
        differ = ground (arith, eq_iff i.dest_zone i.source_zone);
      },
      ground arith,
    ),
    λ h. ground (arith, eq_iff i.dest_zone i.source_zone),
  )

  -- The query fails exactly between two zones of which the one asked for has no gateway.
  pub serv_fail_iff :
      ((decide i gateway).action ≡ serv_fail) ↔ (IsCrossZone i × (gateway i.dest_zone ≡ none))
  unfolding decide
  serv_fail_iff = (
    λ h. (
      record {
        source_known = ground arith;
        dest_known = ground arith;
        differ = ground (arith, eq_iff i.dest_zone i.source_zone);
      },
      ground arith,
    ),
    λ h. ground (arith, eq_iff i.dest_zone i.source_zone),
  )

  pass_of_not_cross :
      ((i.source_ok ≡ true) ⊎ (i.source_ok ≡ false))
      → ((i.dest_ok ≡ true) ⊎ (i.dest_ok ≡ false))
      → (((i.dest_zone == i.source_zone) ≡ true) ⊎ ((i.dest_zone == i.source_zone) ≡ false))
      → ¬ IsCrossZone i
      → (decide i gateway).action ≡ pass_through
  unfolding decide
  pass_of_not_cross (inl s) (inl d) (inr e) h = absurd (
      h (record {
        source_known = s;
        dest_known = d;
        differ = ground (arith, eq_iff i.dest_zone i.source_zone);
      }))
  pass_of_not_cross (inr s) d e h = ground arith
  pass_of_not_cross (inl s) (inr d) e h = ground arith
  pass_of_not_cross (inl s) (inl d) (inl e) h = ground arith

  -- The query passes through exactly if it is not between two zones, whatever the gateways are.
  pub pass_through_iff : ((decide i gateway).action ≡ pass_through) ↔ ¬ IsCrossZone i
  unfolding decide
  pass_through_iff = (
    λ h x. ground (arith, eq_iff i.dest_zone i.source_zone),
    λ h.
        pass_of_not_cross (Bool-cases i.source_ok) (Bool-cases i.dest_ok)
          (Bool-cases (i.dest_zone == i.source_zone)) h,
  )
