-- ===== src/Dohupstream/Mtls.antt =====
-- internal/dohupstream/dohupstream.go: building the client. The HTTP client that speaks through a
-- TLS configuration is a parameter.
pub mod Pinning
use zonedns.Prelude.{
  ℕ, ◌*◌, Option, none, some, List, [], ◌∷◌, ◌==◌, if◌then◌else◌, nat_eq, Result, ok, err,
}
use zonedns.Text.{Str, str_eq}
use zonedns.Dns.{Msg}
use zonedns.Resources.{Action, opened, closed, dial_context, x509_source, Spiffe, Mtls}
use zonedns.Dohupstream.{Http, as_upstream}

-- Config
pub record Config : Type 0 where
  pub url : Str
  pub workload_api_addr : Str
  pub central_spiffe_id : Str
  pub dial_timeout : ℕ
  pub timeout : ℕ

abbrev pub default_dial_timeout : ℕ
default_dial_timeout = 10 * 1000000000

abbrev pub default_query_timeout : ℕ
default_query_timeout = 5 * 1000000000

pub data MtlsError : Type 0 where
  no_central_id bad_central_id no_svid : MtlsError

-- The timeout that is used: of the dial in `NewMTLS`, and of a query in `buildHTTPClient`.
abbrev pub or_default : ℕ → ℕ → ℕ
or_default default timeout = if timeout == 0 then default else timeout

module _ (spiffe : Spiffe) where
  -- What an http.Client is built from.
  pub record HttpClient : Type 0 where
    pub tls : Mtls spiffe
    pub timeout : ℕ

  pub record Client : Type 0 where
    pub url : Str
    pub hc : HttpClient

  abbrev pub new_with_http_client : Str → HttpClient → Client
  new_with_http_client url hc = record { url = url; hc = hc }

  abbrev pub build_http_client : Mtls spiffe → ℕ → HttpClient
  build_http_client tls timeout = record {
    tls = tls;
    timeout = or_default default_query_timeout timeout;
  }

  -- What was done, and the client with what its cleanup does.
  unfoldable pub new_mtls : Config → List Action × Result MtlsError (Client × List Action)
  new_mtls cfg =
      if cfg.central_spiffe_id == []
      then ([], err no_central_id)
      else elim (spiffe.from_string cfg.central_spiffe_id) [
        | none ↦ ([], err bad_central_id)
        | some id ↦
            elim (spiffe.new_x509_source cfg.workload_api_addr
              (or_default default_dial_timeout cfg.dial_timeout)) [
                | none ↦ (opened dial_context ∷ closed dial_context ∷ [], err no_svid)
                | some source ↦ (
                  opened dial_context ∷ opened x509_source ∷ closed dial_context ∷ [],
                  ok (
                    record {
                      url = cfg.url;
                      hc =
                          build_http_client (record { certificates = source; authorized = id })
                            cfg.timeout;
                    },
                    closed x509_source ∷ [],
                  ),
                )
              ]
      ]

  -- The client as the agent's upstream.
  abbrev pub upstream_of : (HttpClient → Http) → Client → Msg → Option Msg
  upstream_of speak c = as_upstream (speak c.hc) c.url
