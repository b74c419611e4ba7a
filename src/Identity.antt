-- ===== src/Identity.antt =====
-- internal/identity: the trust boundary (identity.go, peercert.go).
pub mod Trust
pub mod Laws
use zonedns.Prelude.{
  ℕ, String, Bool, not, ◌||◌, Option, none, some, List, [], ◌∷◌, ◌==◌, if◌then◌else◌, is_some,
}
use zonedns.Text.{Str, str_eq, text}
use zonedns.GoMap
use zonedns.GoMap.{Set}
use zonedns.Dns.{Msg, MsgLib}
use zonedns.Spiffezone.{Url}
use zonedns.Ednszone

-- *x509.Certificate; a URI may be a nil pointer.
pub record Cert : Type 0 where
  pub uris : List (Option Url)

-- *tls.ConnectionState
pub record TlsState : Type 0 where
  pub peer_certificates : List Cert

-- What `PeerCertificates` can see of a query: the field TLS of the *http.Request in the context
-- (none for no request, or a nil one), and ConnectionState() of the writer (none for a writer that
-- is no dns.ConnectionStater). The inner option is a nil pointer.
pub record Transport : Type 0 where
  pub http_request : Option (Option TlsState)
  pub connection_state : Option (Option TlsState)

certs_from_state : Option TlsState → Option (List Cert)
certs_from_state none = none
certs_from_state (some st) = elim st.peer_certificates [ [] ↦ none | c ∷ cs ↦ some (c ∷ cs) ]

unfoldable pub peer_certificates : Transport → Option (List Cert)
unfolding certs_from_state
peer_certificates t = elim t.http_request [
  | some tls ↦ certs_from_state tls
  | none ↦ elim t.connection_state [ some st ↦ certs_from_state st | none ↦ none ]
]

sole_uri : List (Option Url) → Option Str
sole_uri (some u ∷ []) = if not (u.scheme == text "spiffe") then none else some u.string
sole_uri _ = none

unfoldable pub spiffe_id_from_cert : Cert → Option Str
unfolding sole_uri
spiffe_id_from_cert cert = sole_uri cert.uris

pub data Reason : Type 0 where
  reason_ok no_tls unauthorized_agent no_declaration : Reason

pub reason_string : Reason → String
reason_string reason_ok = "ok"
reason_string no_tls = "no_tls"
reason_string unauthorized_agent = "unauthorized_agent"
reason_string no_declaration = "no_declaration"

pub record Config : Type 0 where
  pub authorized : Set Str
  pub code : ℕ

authorize : List Str → Set Str → Set Str
authorize [] set = set
authorize (a ∷ agents) set = authorize agents (GoMap.insert a tt set)

unfoldable pub new_config : List Str → ℕ → Config
unfolding authorize
new_config agents code = record { authorized = authorize agents []; code = code }

module _ (lib : MsgLib) (c : Config) where
  -- Steps 4 and 5.
  declared_zone : Msg → Str × Reason
  declared_zone r = elim (Ednszone.get lib c.code r) [
    | none ↦ ([], no_declaration)
    | some zone ↦ (zone, reason_ok)
  ]

  -- From step 3 on, with the leaf certificate.
  zone_of_leaf : Cert → Msg → Str × Reason
  unfolding declared_zone
  zone_of_leaf leaf r = elim (spiffe_id_from_cert leaf) [
    | none ↦ ([], unauthorized_agent)
    | some id ↦
        if not (GoMap.has id c.authorized) then ([], unauthorized_agent) else declared_zone r
  ]

  -- `peer_certificates` returns no empty chain, of which certs[0] would panic.
  zone_of_chain : Option (List Cert) → Msg → Str × Reason
  unfolding zone_of_leaf
  zone_of_chain (some (leaf ∷ chain)) r = zone_of_leaf leaf r
  zone_of_chain _ r = ([], no_tls)

  unfoldable pub source_zone : Transport → Msg → Str × Reason
  unfolding zone_of_chain peer_certificates spiffe_id_from_cert
  source_zone t r = zone_of_chain (peer_certificates t) r
