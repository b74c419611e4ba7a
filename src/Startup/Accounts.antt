-- ===== src/Startup/Accounts.antt =====
-- `setup`: what it leaves open, and what it installs.
use zonedns.Prelude.{
  ◌≡◌, ◌≢◌, refl, inl, inr, Option, none, some, List, [], arith, ◌==◌, Option-cases, Bool-cases,
  Result-cases,
}
use zonedns.Text.{Str, str_eq, text, has_prefix}
use zonedns.Netip.{Addr}
use zonedns.Resources.{Resource, Spiffe, IsTidy}
use zonedns.Caddy.{Dispenser, ℤ}
use zonedns.Directives.{check_central}
use zonedns.Setup.{Config, parse_config}
use zonedns.Setup.Checks.{parse_config-IsAccepted}
use zonedns.Startup.{
  insecure, mtls, Grpc, workload_api_dial_timeout, dial_mutual, dial_spire, connect, connected,
  Gauges, Started, setup,
}

module _ (spiffe : Spiffe) (grpc : Grpc spiffe) where
  open grpc use {Conn, new_client}

  connect-IsTidy : (cfg : Config) (held : List Resource) → IsTidy held (connect spiffe grpc cfg)
  unfolding connect dial_spire dial_mutual connected
  connect-IsTidy cfg held = elim (Bool-cases (has_prefix cfg.spire_server (text "unix://"))) [
    | inl u ↦ elim (Option-cases (new_client cfg.spire_server insecure)) [
      | inl n ↦ rw (u, n) refl
      | inr (c, n) ↦ rw (u, n) refl
    ]
    | inr u ↦ elim (Bool-cases (cfg.workload_api == [])) [
      | inl w ↦ rw (u, w) refl
      | inr w ↦ elim (Option-cases (spiffe.from_string cfg.spire_server_id)) [
        | inl n ↦ rw (u, w, n) refl
        | inr (id, n) ↦
            elim (Option-cases
              (spiffe.new_x509_source cfg.workload_api workload_api_dial_timeout)) [
                | inl m ↦ rw (u, w, n, dial_mutual, m) refl
                | inr (source, m) ↦
                    elim (Option-cases (
                      new_client cfg.spire_server
                        (mtls (record { certificates = source; authorized = id })))) [
                          | inl c ↦ rw (u, w, n, dial_mutual, m, c) refl
                          | inr (conn, c) ↦ rw (u, w, n, dial_mutual, m, c) refl
                        ]
              ]
      ]
    ]
  ]

  module _ (parse_duration : Str → Option ℤ) (parse_addr : Str → Option Addr) (d : Dispenser)
      (directives : List Str) (transport : Str) (s : d.State) (g : Gauges) where
    -- Setup ends on every Corefile. If it fails, in whatever way, it leaves nothing open: neither
    -- the dial context nor the source nor a connection. If it succeeds, what it opened is closed
    -- by the shutdown hook, all of it and nothing else.
    pub setup_accounts :
        (held : List Resource)
        → (setup spiffe grpc parse_duration parse_addr d directives transport s g ≢ none)
          × ((out : Started spiffe grpc)
              → setup spiffe grpc parse_duration parse_addr d directives transport s g ≡ some out
              → IsTidy held out.outcome)
    unfolding setup
    setup_accounts held = elim (Option-cases (check_central directives)) [
      | inr (e, o) ↦ (λ h. ground (arith, o), λ out h. tidy (rw (setup, o) at h) refl)
      | inl o ↦ elim (Option-cases (parse_config parse_duration parse_addr d s)) [
        | inl n ↦ absurd ((parse_config-IsAccepted parse_duration parse_addr d s).0 n)
        | inr (r, n) ↦ elim (Result-cases r) [
          | inl (e, f) ↦
              (λ h. ground (arith, o, n, f), λ out h. tidy (rw (setup, o, n, f) at h) refl)
          | inr (cfg, f) ↦ (
            λ h. ground (arith, o, n, f),
            λ out h. tidy (rw (setup, o, n, f) at h) (connect-IsTidy cfg held),
          )
        ]
      ]
    ]
      where
        tidy :
            {x out : Started spiffe grpc}
            → some x ≡ some out
            → IsTidy held x.outcome
            → IsTidy held out.outcome
        tidy {x} {out} h k = let e : x ≡ out = cc in rw (← e) k
