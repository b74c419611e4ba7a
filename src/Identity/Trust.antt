-- ===== src/Identity/Trust.antt =====
-- What it takes to be believed about a source zone, apart from the code that decides it.
use zonedns.Prelude.{
  ℕ, ◌≡◌, ◌↔◌, refl, ap, sym, inl, inr, Option-cases, ◌∙◌, true, Option, none, some, List, [], ◌∷◌,
  arith, eq_iff,
}
use zonedns.Text.{Str, str_eq, text}
use zonedns.GoMap
use zonedns.Dns.{Msg, MsgLib}
use zonedns.Spiffezone.{Url}
use zonedns.Ednszone
use zonedns.Ednszone.Laws.{sole, carried, get_sole}
use zonedns.Identity.{
  Cert, TlsState, Transport, peer_certificates, certs_from_state, sole_uri, spiffe_id_from_cert,
  Config,
}

-- A certificate has a SPIFFE ID exactly if it has one URI SAN, of the scheme spiffe; the ID is that
-- URI. Any second URI SAN, of whatever scheme and at whatever place, takes the identity away.
pub spiffe_id_from_cert_iff :
    (cert : Cert) (id : Str)
    → (spiffe_id_from_cert cert ≡ some id)
      ↔ ((u : Url) × (cert.uris ≡ some u ∷ []) × (u.scheme ≡ text "spiffe") × (u.string ≡ id))
unfolding spiffe_id_from_cert
spiffe_id_from_cert_iff cert id =
    (to cert.uris, λ (u, e, scheme, string). rw e (ground (arith, eq_iff u.scheme (text "spiffe"))))
  where
    to :
        (uris : List (Option Url))
        → sole_uri uris ≡ some id
        → (u : Url) × (uris ≡ some u ∷ []) × (u.scheme ≡ text "spiffe") × (u.string ≡ id)
    to [] h = cc
    to (none ∷ []) h = cc
    to (none ∷ u ∷ us) h = cc
    to (some u ∷ v ∷ us) h = cc
    to (some u ∷ []) h = (
      u,
      refl,
      ground (arith, eq_iff u.scheme (text "spiffe")),
      ground (arith, eq_iff u.scheme (text "spiffe")),
    )

-- The TLS state of a connection: that of the HTTP request, if there is one, and else that of the
-- writer.
pub data Speaks (t : Transport) (st : TlsState) : Type 0 where
  over_https : t.http_request ≡ some (some st) → Speaks t st
  over_tls : t.http_request ≡ none → t.connection_state ≡ some (some st) → Speaks t st

certs_from_state_lem :
    (tls : Option TlsState) (leaf : Cert) (chain : List Cert)
    → certs_from_state tls ≡ some (leaf ∷ chain)
    → (st : TlsState) × (tls ≡ some st) × (st.peer_certificates ≡ leaf ∷ chain)
unfolding certs_from_state
certs_from_state_lem none leaf chain h = cc
certs_from_state_lem (some st) leaf chain h = (st, refl, ground arith)

pub state-Speaks :
    (t : Transport) (leaf : Cert) (chain : List Cert)
    → peer_certificates t ≡ some (leaf ∷ chain)
    → (st : TlsState) × Speaks t st × (st.peer_certificates ≡ leaf ∷ chain)
unfolding peer_certificates
state-Speaks t leaf chain h = elim (Option-cases t.http_request) [
  | inr (tls, e) ↦
      let (st, q, certs) = certs_from_state_lem tls leaf chain (rw (e, peer_certificates) at h) in
      (st, over_https (e ∙ ap some q), certs)
  | inl e ↦ elim (Option-cases t.connection_state) [
    | inl f ↦ ground (arith, e, f)
    | inr (tls, f) ↦
        let (st, q, certs) =
          certs_from_state_lem tls leaf chain (rw (e, f, peer_certificates) at h) in
        (st, over_tls e (f ∙ ap some q), certs)
  ]
]

pub Speaks-state :
    {t : Transport} {st : TlsState} {leaf : Cert} {chain : List Cert}
    → Speaks t st
    → st.peer_certificates ≡ leaf ∷ chain
    → peer_certificates t ≡ some (leaf ∷ chain)
unfolding peer_certificates certs_from_state
Speaks-state (over_https e) c = rw (e, peer_certificates, certs_from_state, c) refl
Speaks-state (over_tls e f) c = rw (e, f, peer_certificates, certs_from_state, c) refl

module _ (lib : MsgLib) where
  pub get_iff :
      (code : ℕ) (m : Msg) (zone : Str)
      → (Ednszone.get lib code m ≡ some zone)
        ↔ ((carried lib code m ≡ zone ∷ []) × (Ednszone.valid zone ≡ true))
  get_iff code m zone = (
    λ h. of_sole (carried lib code m) (sym (get_sole lib code m) ∙ h),
    λ (one, well_formed). get_sole lib code m ∙ rw one (ground (arith, well_formed)),
  )
    where
      of_sole :
          (zones : List Str)
          → sole zones ≡ some zone
          → (zones ≡ zone ∷ []) × (Ednszone.valid zone ≡ true)
      of_sole [] h = cc
      of_sole (z ∷ []) h = (ground arith, ground arith)
      of_sole (z ∷ y ∷ rest) h = cc

  -- What it takes to be believed: the leaf certificate of the connection has one URI SAN and no
  -- other, of the scheme spiffe, which is authorized as it stands, and the message carries one
  -- declaration and no other, well formed, of the zone.
  pub record IsTrusted (c : Config) (t : Transport) (r : Msg) (zone : Str) : Type 0 where
    pub state : TlsState
    pub speaks : Speaks t state
    pub leaf : Cert
    pub chain : List Cert
    pub presented : state.peer_certificates ≡ leaf ∷ chain
    pub uri : Url
    pub only : leaf.uris ≡ some uri ∷ []
    pub scheme : uri.scheme ≡ text "spiffe"
    pub authorized : GoMap.has uri.string c.authorized ≡ true
    pub declared : (carried lib c.code r ≡ zone ∷ []) × (Ednszone.valid zone ≡ true)
