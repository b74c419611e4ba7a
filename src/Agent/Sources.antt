-- ===== src/Agent/Sources.antt =====
-- resolveZone: which source gets a zone.
use zonedns.Prelude.{◌≡◌, ◌≢◌, ◌↔◌, true, Option, none, some, arith, Option-cases, inl, inr, eq_iff}
use zonedns.Text.{Str}
use zonedns.Netip.{Addr, addr_eq, is_valid}
use zonedns.Agent.{Agent, resolved, resolve_zone}

-- The address belongs to the node itself.
abbrev pub IsNode : Agent → Addr → Type 0
IsNode a src = (is_valid a.node_ip ≡ true) × (src ≡ a.node_ip)

-- The source is attributed to a zone.
abbrev pub IsAttributed : (Str → Option Addr) → Agent → Str → Str → Type 0
IsAttributed parse_addr a src_ip zone =
    (src : Addr) × ((parse_addr src_ip ≡ some src)
      × (¬ (IsNode a src) × (a.resolver src ≡ some zone)))

module _ (parse_addr : Str → Option Addr) (a : Agent) where
  from_known :
      (src : Addr) (zone : Str) (src_ip : Str)
      → parse_addr src_ip ≡ some src
      → ((resolve_zone parse_addr a src_ip).0 ≡ some zone)
        ↔ (¬ (IsNode a src) × (a.resolver src ≡ some zone))
  unfolding resolve_zone
  from_known src zone src_ip e = elim (Option-cases (a.resolver src)) [
    | inl n ↦ (
      λ h. ground (arith, e, n, eq_iff src a.node_ip),
      λ h. ground (arith, e, n, eq_iff src a.node_ip),
    )
    | inr (z, n) ↦ (
      λ h. (
        λ k. ground (arith, e, n, eq_iff src a.node_ip, k.0, k.1),
        ground (arith, e, n, eq_iff src a.node_ip),
      ),
      λ h. ground (arith, e, n, eq_iff src a.node_ip),
    )
  ]

  -- A query gets a zone exactly if its source parses as an address that is not the node's own and
  -- that the resolver knows, and then it gets the zone of that address.
  pub resolve_zone_iff :
      (src_ip zone : Str)
      → ((resolve_zone parse_addr a src_ip).0 ≡ some zone) ↔ IsAttributed parse_addr a src_ip zone
  unfolding resolve_zone
  resolve_zone_iff src_ip zone = elim (Option-cases (parse_addr src_ip)) [
    | inl e ↦ (λ h. ground (arith, e), λ (src, (p, rest)). cc)
    | inr (src, e) ↦ (
      λ h. (src, (e, (from_known src zone src_ip e).0 h)),
      λ (other, (p, rest)). (from_known other zone src_ip p).1 rest,
    )
  ]

  -- The counter reads "ok" exactly for the queries that get a zone.
  pub resolution_iff :
      (src_ip : Str)
      → ((resolve_zone parse_addr a src_ip).1 ≡ resolved)
        ↔ ((resolve_zone parse_addr a src_ip).0 ≢ none)
  unfolding resolve_zone
  resolution_iff src_ip = (λ h. ground (arith), λ h. ground (arith))
