-- ===== src/Startup/Dialling.antt =====
-- `dialSPIRE`: to whom a connection is, and what dialling leaves open.
use zonedns.Prelude.{
  ◌≡◌, ◌≢◌, ◌↔◌, refl, ◌⊎◌, inl, inr, true, false, some, List, [], ◌∷◌, arith, ◌==◌, eq_iff,
  Option-cases, Bool-cases, ok,
}
use zonedns.Text.{str_eq, text, has_prefix}
use zonedns.Resources.{Action, closed, x509_source, Spiffe}
use zonedns.Setup.{Config}
use zonedns.Startup.{insecure, mtls, Grpc, workload_api_dial_timeout, dial_mutual, dial_spire}

module _ (spiffe : Spiffe) (grpc : Grpc spiffe) (cfg : Config) where
  open grpc use {Conn, new_client}

  -- The local socket of the SPIRE server, without TLS.
  pub record IsLocal (conn : Conn) (cleanup : List Action) : Type 0 where
    pub unix : has_prefix cfg.spire_server (text "unix://") ≡ true
    pub connected : new_client cfg.spire_server insecure ≡ some conn
    pub nothing : cleanup ≡ []

  -- From the source on.
  pub record IsMutual (id : spiffe.SpiffeId) (conn : Conn) (cleanup : List Action) : Type 0 where
    pub source : spiffe.Source
    pub obtained : spiffe.new_x509_source cfg.workload_api workload_api_dial_timeout ≡ some source
    pub connected :
        new_client cfg.spire_server (mtls (record { certificates = source; authorized = id }))
        ≡ some conn
    pub source_closed : cleanup ≡ closed x509_source ∷ []

  -- A network address, over TLS in both directions with no other server than the named one.
  pub record IsPinned (conn : Conn) (cleanup : List Action) : Type 0 where
    pub network : has_prefix cfg.spire_server (text "unix://") ≡ false
    pub has_workload_api : cfg.workload_api ≢ []
    pub id : spiffe.SpiffeId
    pub parsed : spiffe.from_string cfg.spire_server_id ≡ some id
    pub secured : IsMutual id conn cleanup

  dial_mutual_iff :
      (id : spiffe.SpiffeId) (conn : Conn) (cleanup : List Action)
      → ((dial_mutual spiffe grpc cfg id).1 ≡ ok (conn, cleanup)) ↔ IsMutual id conn cleanup
  unfolding dial_mutual
  dial_mutual_iff id conn cleanup = (
    λ h. elim (Option-cases (spiffe.new_x509_source cfg.workload_api workload_api_dial_timeout)) [
      | inl n ↦ ground (arith, n)
      | inr (source, n) ↦
          elim (Option-cases (
            new_client cfg.spire_server
              (mtls (record { certificates = source; authorized = id })))) [
                | inl m ↦ ground (arith, n, m)
                | inr (c, m) ↦ record {
                  source = source;
                  obtained = n;
                  connected = ground (arith, n, m);
                  source_closed = ground (arith, n, m);
                }
              ]
    ],
    λ k. rw (dial_mutual, k.obtained, k.connected, k.source_closed) refl,
  )

  -- Dialling succeeds exactly if the server is a local socket to which gRPC connects, without TLS,
  -- or if it is a network address, the Workload API hands over a source within 10 seconds, and gRPC
  -- connects with the certificates of that source and no other authorized server than the one that
  -- spire_server_id names. The cleanup closes the source.
  pub dial_spire_iff :
      (conn : Conn) (cleanup : List Action)
      → ((dial_spire spiffe grpc cfg).1 ≡ ok (conn, cleanup))
        ↔ (IsLocal conn cleanup ⊎ IsPinned conn cleanup)
  unfolding dial_spire
  dial_spire_iff conn cleanup = (to, from)
    where
      local_only :
          has_prefix cfg.spire_server (text "unix://") ≡ true
          → (dial_spire spiffe grpc cfg).1 ≡ ok (conn, cleanup)
          → IsLocal conn cleanup
      local_only u h = elim (Option-cases (new_client cfg.spire_server insecure)) [
        | inl n ↦ ground (arith, u, n)
        | inr (c, n) ↦ record {
          unix = u;
          connected = ground (arith, u, n);
          nothing = ground (arith, u, n);
        }
      ]

      pinned_only :
          has_prefix cfg.spire_server (text "unix://") ≡ false
          → (dial_spire spiffe grpc cfg).1 ≡ ok (conn, cleanup)
          → IsPinned conn cleanup
      pinned_only u h = elim (Bool-cases (cfg.workload_api == [])) [
        | inl w ↦ ground (arith, u, w)
        | inr w ↦ elim (Option-cases (spiffe.from_string cfg.spire_server_id)) [
          | inl n ↦ ground (arith, u, w, n)
          | inr (id, n) ↦ record {
            network = u;
            has_workload_api = ground (arith, w, eq_iff cfg.workload_api []);
            id = id;
            parsed = n;
            secured = (dial_mutual_iff id conn cleanup).0 (ground (arith, u, w, n));
          }
        ]
      ]

      to :
          (dial_spire spiffe grpc cfg).1 ≡ ok (conn, cleanup)
          → IsLocal conn cleanup ⊎ IsPinned conn cleanup
      to h = elim (Bool-cases (has_prefix cfg.spire_server (text "unix://"))) [
        | inl u ↦ inl (local_only u h)
        | inr u ↦ inr (pinned_only u h)
      ]

      from :
          IsLocal conn cleanup ⊎ IsPinned conn cleanup
          → (dial_spire spiffe grpc cfg).1 ≡ ok (conn, cleanup)
      from (inl k) = rw (dial_spire, k.unix, k.connected, k.nothing) refl
      from (inr k) =
          let w : (cfg.workload_api == []) ≡ false =
            ground (arith, k.has_workload_api, eq_iff cfg.workload_api []) in
          rw (dial_spire, k.network, w, k.parsed) ((dial_mutual_iff k.id conn cleanup).1 k.secured)
