-- ===== src/AgentStartup/Accounts.antt =====
-- `setup` of the agent: what it leaves open, and what it does to the gauge.
use zonedns.Prelude.{
  ◌≡◌, ◌≢◌, refl, inl, inr, Option, none, some, List, [], ◌∷◌, arith, Result, ok, err, Result-cases,
  Option-cases,
}
use zonedns.Text.{Str}
use zonedns.Netip.{Addr}
use zonedns.Spiffezone.{Url}
use zonedns.Resources.{Resource, Action, opened, closed, dial_context, x509_source, Spiffe, IsTidy}
use zonedns.Kube.{Kube}
use zonedns.Caddy.{Dispenser}
use zonedns.Directives.{check_agent}
use zonedns.Readiness
use zonedns.Readiness.{
  Readiness, next_generation, wire_lifecycle, mark_resolver_ready, set_up_k8s, set_up_vm,
}
use zonedns.Zonecache
use zonedns.Zonecache.{Lru}
use zonedns.Dohupstream.Mtls.{MtlsError, Client}
use zonedns.Dohupstream.Mtls.Pinning.{IsBuilt, refused, timed_out, built, new_mtls-IsBuilt}
use zonedns.AgentSetup.{Config, Mode, mode_unset, mode_k8s, mode_vm, parse_config}
use zonedns.AgentSetup.Checks.{agent_config-IsAccepted}
use zonedns.AgentStartup.{
  Started, SetupError, Instance, with_clientset, with_rest_config, resolve, wired, wire, setup,
  upstream_config,
}

abbrev svid_opened : List Action
svid_opened = opened dial_context ∷ opened x509_source ∷ closed dial_context ∷ []

abbrev svid_closed : List Action
svid_closed = closed x509_source ∷ []

module _ (spiffe : Spiffe) (kube : Kube) (lru : Lru) where
  open lru use {Table}

  -- The gauge after a setup: untouched by one that fails; by one that succeeds in k8s mode a
  -- generation is counted, and in vm mode that generation is ready at once.
  abbrev pub IsGauged :
      Readiness → Readiness → Result SetupError (Instance spiffe kube lru × List Action) → Type 0
  IsGauged rd rd' (err e) = rd' ≡ rd
  IsGauged rd rd' (ok (i, _)) = elim i.cfg.mode [
    | mode_k8s ↦ (rd' ≡ Readiness.step rd set_up_k8s) × (i.generation ≡ some rd'.generation)
    | mode_vm ↦ (rd' ≡ Readiness.step rd set_up_vm) × (i.generation ≡ some rd'.generation)
    | mode_unset ↦ rd' ≡ rd
  ]

  -- What becomes of the gauge and of the resources.
  abbrev pub IsSettled : List Resource → Readiness → Started spiffe kube lru → Type 0
  IsSettled held rd out = IsTidy held out.outcome × IsGauged rd out.readiness out.outcome.1

  module _ (cfg : Config) (c : Client spiffe) (table : Table) (rd : Readiness)
      (held : List Resource) where
    with_clientset-IsSettled :
        (found : Option kube.Clientset)
        → cfg.mode ≡ mode_k8s
        → IsSettled held rd
            (with_clientset spiffe kube lru cfg c table svid_opened svid_closed rd found)
    unfolding with_clientset next_generation Readiness.step
    with_clientset-IsSettled none q = (refl, refl)
    with_clientset-IsSettled (some client) q = rw q (refl, (refl, refl))

    with_rest_config-IsSettled :
        (found : Option kube.RestConfig)
        → cfg.mode ≡ mode_k8s
        → IsSettled held rd
            (with_rest_config spiffe kube lru cfg c table svid_opened svid_closed rd found)
    unfolding with_rest_config
    with_rest_config-IsSettled none q = (refl, refl)
    with_rest_config-IsSettled (some rest_cfg) q =
        with_clientset-IsSettled (kube.new_clientset rest_cfg) q

    resolve-IsSettled :
        (m : Mode)
        → cfg.mode ≡ m
        → IsSettled held rd (resolve spiffe kube lru m cfg c table svid_opened svid_closed rd)
    unfolding resolve wire_lifecycle next_generation mark_resolver_ready Readiness.step
    resolve-IsSettled mode_unset q = rw q (refl, refl)
    resolve-IsSettled mode_vm q = rw q (refl, (refl, refl))
    resolve-IsSettled mode_k8s q = with_rest_config-IsSettled kube.in_cluster_config q

  wired-IsSettled :
      (cfg : Config) (table : Table) (rd : Readiness) (held : List Resource)
      {x : List Action × Result MtlsError (Client spiffe × List Action)}
      → IsBuilt spiffe x
      → IsSettled held rd (wired spiffe kube lru cfg table rd x)
  unfolding wired
  wired-IsSettled cfg table rd held (refused e) = (refl, refl)
  wired-IsSettled cfg table rd held (timed_out e) = (refl, refl)
  wired-IsSettled cfg table rd held (built c) = resolve-IsSettled cfg c table rd held cfg.mode refl

  wire-IsSettled :
      (cfg : Config) (table : Table) (rd : Readiness) (held : List Resource)
      → IsSettled held rd (wire spiffe kube lru cfg table rd)
  unfolding wire
  wire-IsSettled cfg table rd held =
      wired-IsSettled cfg table rd held (new_mtls-IsBuilt spiffe (upstream_config cfg))

  module _ (parse_addr : Str → Option Addr) (parse_url : Str → Option Url) (d : Dispenser)
      (directives : List Str) (env : Str) (s : d.State) (rd : Readiness) where
    -- Setup ends on every Corefile, and settles its accounts. If it fails, in whatever way, it
    -- leaves nothing open and the gauge and its generations as they were. If it succeeds, the
    -- shutdown hook closes all that it opened and nothing else; in vm mode the instance is ready
    -- under a new generation, and in k8s mode a generation is counted and no more.
    pub agent_setup_accounts :
        (held : List Resource)
        → (setup spiffe kube lru parse_addr parse_url d directives env s rd ≢ none)
          × ((out : Started spiffe kube lru)
              → setup spiffe kube lru parse_addr parse_url d directives env s rd ≡ some out
              → IsSettled held rd out)
    unfolding setup
    agent_setup_accounts held = elim (Option-cases (check_agent directives)) [
      | inr (e, o) ↦ (λ h. ground (arith, o), λ out h. settled (rw (setup, o) at h) (refl, refl))
      | inl o ↦ elim (Option-cases (parse_config parse_addr parse_url d env s)) [
        | inl n ↦ absurd ((agent_config-IsAccepted parse_addr parse_url d env s).0 n)
        | inr (r, n) ↦ elim (Result-cases r) [
          | inl (e, f) ↦ (
            λ h. ground (arith, o, n, f),
            λ out h. settled (rw (setup, o, n, f) at h) (refl, refl),
          )
          | inr (cfg, f) ↦ elim (Option-cases (Zonecache.new lru cfg.cache_size)) [
            | inl c ↦ (
              λ h. ground (arith, o, n, f, c),
              λ out h. settled (rw (setup, o, n, f, c) at h) (refl, refl),
            )
            | inr (table, c) ↦ (
              λ h. ground (arith, o, n, f, c),
              λ out h. settled (rw (setup, o, n, f, c) at h) (wire-IsSettled cfg table rd held),
            )
          ]
        ]
      ]
    ]
      where
        settled :
            {x out : Started spiffe kube lru}
            → some x ≡ some out
            → IsSettled held rd x
            → IsSettled held rd out
        settled {x} {out} h k = let e : x ≡ out = cc in rw (← e) k
