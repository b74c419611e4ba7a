-- ===== src/Dohupstream/Mtls/Pinning.antt =====
-- What a client that was built is pinned to, and what building leaves open.
use zonedns.Prelude.{
  ◌≡◌, ◌≢◌, ◌↔◌, refl, inl, inr, Option, none, some, List, [], ◌∷◌, arith, ◌==◌, eq_iff, nat_eq,
  Option-cases, Bool-cases, Result, ok, err,
}
use zonedns.Text.{str_eq}
use zonedns.Resources.{Resource, Action, Spiffe, opened, dial_context, closed, x509_source, IsTidy}
use zonedns.Dohupstream.Mtls.{
  Config, MtlsError, default_dial_timeout, default_query_timeout, or_default, Client, new_mtls,
}

-- The ways in which building goes.
pub data IsBuilt (spiffe : Spiffe)
    : List Action × Result MtlsError (Client spiffe × List Action) → Type 0 where
  refused : (e : MtlsError) → IsBuilt spiffe ([], err e)
  timed_out :
      (e : MtlsError) → IsBuilt spiffe (opened dial_context ∷ closed dial_context ∷ [], err e)
  built :
      (c : Client spiffe)
      → IsBuilt spiffe (
        opened dial_context ∷ opened x509_source ∷ closed dial_context ∷ [],
        ok (c, closed x509_source ∷ []),
      )

module _ (spiffe : Spiffe) (cfg : Config) where
  -- A client that presents the SVIDs of the workload and talks to no other server than central.
  pub record IsPinned (client : Client spiffe) : Type 0 where
    pub id : spiffe.SpiffeId
    pub named : cfg.central_spiffe_id ≢ []
    pub parsed : spiffe.from_string cfg.central_spiffe_id ≡ some id
    pub source : spiffe.Source
    pub obtained :
        spiffe.new_x509_source cfg.workload_api_addr
          (or_default default_dial_timeout cfg.dial_timeout)
        ≡ some source
    pub built : client ≡ record {
      url = cfg.url;
      hc = record {
        tls = record { certificates = source; authorized = id };
        timeout = or_default default_query_timeout cfg.timeout;
      };
    }

  -- Building succeeds exactly if central's SPIFFE ID is set and parses and the Workload API hands
  -- over a source within the dial timeout, which is 10 seconds if it is zero. The client then sends
  -- to the URL, authorizes that ID and no other, and gives a query the timeout of the
  -- configuration, or 5 seconds if it is zero; its cleanup closes the source.
  pub new_mtls_iff :
      (client : Client spiffe)
      → ((new_mtls spiffe cfg).1 ≡ ok (client, closed x509_source ∷ [])) ↔ IsPinned client
  unfolding new_mtls
  new_mtls_iff client = (
    to (spiffe.from_string cfg.central_spiffe_id) refl,
    λ k. ground (arith, k.named, k.parsed, k.obtained, k.built, eq_iff cfg.central_spiffe_id []),
  )
    where
      to :
          (found : Option spiffe.SpiffeId)
          → spiffe.from_string cfg.central_spiffe_id ≡ found
          → (new_mtls spiffe cfg).1 ≡ ok (client, closed x509_source ∷ [])
          → IsPinned client
      to none q h = ground (arith, q)
      to (some id) q h =
          elim (Option-cases (
            spiffe.new_x509_source cfg.workload_api_addr
              (or_default default_dial_timeout cfg.dial_timeout))) [
                | inl n ↦ ground (arith, q, n)
                | inr (source, n) ↦ record {
                  id = id;
                  named = ground (arith, eq_iff cfg.central_spiffe_id []);
                  parsed = q;
                  source = source;
                  obtained = n;
                  built = ground (arith, q, n);
                }
              ]

  pub new_mtls-IsBuilt : IsBuilt spiffe (new_mtls spiffe cfg)
  unfolding new_mtls
  new_mtls-IsBuilt = elim (Bool-cases (cfg.central_spiffe_id == [])) [
    | inl e ↦ rw e (refused _)
    | inr e ↦ elim (Option-cases (spiffe.from_string cfg.central_spiffe_id)) [
      | inl f ↦ rw (e, f) (refused _)
      | inr (id, f) ↦
          elim (Option-cases (
            spiffe.new_x509_source cfg.workload_api_addr
              (or_default default_dial_timeout cfg.dial_timeout))) [
                | inl n ↦ rw (e, f, n) (timed_out _)
                | inr (source, n) ↦ rw (e, f, n) (built _)
              ]
    ]
  ]

  -- A failed build leaves nothing open, and the cleanup of a successful one closes what it opened.
  pub new_mtls-IsTidy : (held : List Resource) → IsTidy held (new_mtls spiffe cfg)
  new_mtls-IsTidy held = tidy new_mtls-IsBuilt
    where
      tidy :
          {x : List Action × Result MtlsError (Client spiffe × List Action)}
          → IsBuilt spiffe x
          → IsTidy held x
      tidy (refused e) = refl
      tidy (timed_out e) = refl
      tidy (built c) = refl
