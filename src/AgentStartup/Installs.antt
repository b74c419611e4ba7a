-- ===== src/AgentStartup/Installs.antt =====
-- `setup` of the agent: the instance that it installs.
use zonedns.Prelude.{
  ◌≡◌, refl, inl, inr, Option, none, some, List, [], ◌∷◌, arith, Result, ok, Result-cases,
  Option-cases,
}
use zonedns.Text.{Str}
use zonedns.Netip.{Addr}
use zonedns.Spiffezone.{Url}
use zonedns.Resources.{Action, closed, x509_source, Spiffe}
use zonedns.Kube.{Kube}
use zonedns.Caddy.{Dispenser}
use zonedns.Directives.{check_agent}
use zonedns.Readiness.{Readiness}
use zonedns.Podzone
use zonedns.Zonecache
use zonedns.Zonecache.{Lru}
use zonedns.Dohupstream.Mtls.{MtlsError, Client}
use zonedns.Dohupstream.Mtls.Pinning.{
  IsPinned, IsBuilt, refused, timed_out, built, new_mtls-IsBuilt, new_mtls_iff,
}
use zonedns.AgentSetup.{Config, Mode, mode_unset, mode_k8s, mode_vm, parse_config}
use zonedns.AgentSetup.Checks.{IsAccepted, agent_config-IsAccepted}
use zonedns.AgentStartup.{
  Started, Instance, with_clientset, with_rest_config, resolve, wired, wire, setup, upstream_config,
}

module _ (spiffe : Spiffe) (kube : Kube) (lru : Lru) where
  open lru use {Table}

  -- The instance of a configuration, a client and an empty cache.
  pub record IsInstance (cfg : Config) (c : Client spiffe) (table : Table)
      (i : Instance spiffe kube lru) : Type 0 where
    pub configured : i.cfg ≡ cfg
    pub client : i.client ≡ c
    pub cached : i.cache ≡ table
    pub unstarted : i.watcher ≡ Podzone.new cfg.zone_label

  module _ (cfg : Config) (c : Client spiffe) (table : Table) (rd : Readiness)
      (done cleanup down : List Action) (i : Instance spiffe kube lru) where
    with_clientset-IsInstance :
        (found : Option kube.Clientset)
        → (with_clientset spiffe kube lru cfg c table done cleanup rd found).outcome.1
          ≡ ok (i, down)
        → IsInstance cfg c table i
    unfolding with_clientset
    with_clientset-IsInstance none h = cc
    with_clientset-IsInstance (some client) h = record {
      configured = ground arith;
      client = ground arith;
      cached = ground arith;
      unstarted = ground arith;
    }

    with_rest_config-IsInstance :
        (found : Option kube.RestConfig)
        → (with_rest_config spiffe kube lru cfg c table done cleanup rd found).outcome.1
          ≡ ok (i, down)
        → IsInstance cfg c table i
    unfolding with_rest_config
    with_rest_config-IsInstance none h = cc
    with_rest_config-IsInstance (some rest_cfg) h =
        with_clientset-IsInstance (kube.new_clientset rest_cfg) h

    resolve-IsInstance :
        (m : Mode)
        → (resolve spiffe kube lru m cfg c table done cleanup rd).outcome.1 ≡ ok (i, down)
        → IsInstance cfg c table i
    unfolding resolve
    resolve-IsInstance mode_k8s h = with_rest_config-IsInstance kube.in_cluster_config h
    resolve-IsInstance mode_vm h = record {
      configured = ground arith;
      client = ground arith;
      cached = ground arith;
      unstarted = ground arith;
    }
    resolve-IsInstance mode_unset h = record {
      configured = ground arith;
      client = ground arith;
      cached = ground arith;
      unstarted = ground arith;
    }

  wired-IsInstance :
      (cfg : Config) (table : Table) (rd : Readiness) (down : List Action)
      (i : Instance spiffe kube lru)
      {x : List Action × Result MtlsError (Client spiffe × List Action)}
      → IsBuilt spiffe x
      → (wired spiffe kube lru cfg table rd x).outcome.1 ≡ ok (i, down)
      → (c : Client spiffe) × (x.1 ≡ ok (c, closed x509_source ∷ [])) × IsInstance cfg c table i
  unfolding wired
  wired-IsInstance cfg table rd down i (refused e) h = cc
  wired-IsInstance cfg table rd down i (timed_out e) h = cc
  wired-IsInstance cfg table rd down i (built c) h =
      (c, refl, resolve-IsInstance cfg c table rd _ _ down i cfg.mode h)

  module _ (parse_addr : Str → Option Addr) (parse_url : Str → Option Url) (d : Dispenser)
      (directives : List Str) (env : Str) (s : d.State) (rd : Readiness) where
    pub record IsInstalled (i : Instance spiffe kube lru) : Type 0 where
      pub ordered : check_agent directives ≡ none
      pub parsed : parse_config parse_addr parse_url d env s ≡ some (ok i.cfg)
      pub accepted : IsAccepted parse_url i.cfg
      pub pinned : IsPinned spiffe (upstream_config i.cfg) i.client
      pub cached : Zonecache.new lru i.cfg.cache_size ≡ some i.cache
      pub unstarted : i.watcher ≡ Podzone.new i.cfg.zone_label

    -- If setup succeeds, then the directives are in order, the configuration is accepted, the
    -- client talks to the central server of that SPIFFE ID and no other, the cache is empty and has
    -- the configured size, and the watcher has not started.
    pub agent_setup_installs :
        (out : Started spiffe kube lru) (i : Instance spiffe kube lru) (down : List Action)
        → setup spiffe kube lru parse_addr parse_url d directives env s rd ≡ some out
        → out.outcome.1 ≡ ok (i, down)
        → IsInstalled i
    unfolding setup wire
    agent_setup_installs out i down h k = elim (Option-cases (check_agent directives)) [
      | inr (e, o) ↦ ground (arith, o)
      | inl o ↦ elim (Option-cases (parse_config parse_addr parse_url d env s)) [
        | inl n ↦ ground (arith, o, n)
        | inr (r, n) ↦ elim (Result-cases r) [
          | inl (e, f) ↦ ground (arith, o, n, f)
          | inr (cfg, f) ↦ elim (Option-cases (Zonecache.new lru cfg.cache_size)) [
            | inl c ↦ ground (arith, o, n, f, c)
            | inr (table, c) ↦
                let (client, b, m) =
                  wired-IsInstance cfg table rd down i
                    (new_mtls-IsBuilt spiffe (upstream_config cfg)) (ground (arith, o, n, f, c)) in
                let p : parse_config parse_addr parse_url d env s ≡ some (ok i.cfg) =
                  rw (n, f, m.configured) refl in
                record {
                  ordered = o;
                  parsed = p;
                  accepted = (agent_config-IsAccepted parse_addr parse_url d env s).1 i.cfg p;
                  pinned =
                      rw (m.configured, m.client)
                        ((new_mtls_iff spiffe (upstream_config cfg) client).0 b);
                  cached = rw (m.configured, m.cached) c;
                  unstarted = rw (m.configured) m.unstarted;
                }
          ]
        ]
      ]
    ]
