-- ===== src/Identity/Laws.antt =====
-- Who is believed about a source zone, and what the verdicts mean.
use zonedns.Prelude.{
  ℕ, ◌≡◌, ◌≢◌, ◌↔◌, refl, true, ◌⊎◌, inl, inr, Option, none, some, List, [], ◌∷◌, Memᴰ, arith, ◌==◌,
  eq_iff, Bool-cases, Option-cases,
}
use zonedns.Text.{Str, str_eq}
use zonedns.GoMap
use zonedns.GoMap.{Set}
use zonedns.GoMap.Laws.{has-insert}
use zonedns.Dns.{Msg, MsgLib}
use zonedns.Ednszone
use zonedns.Identity.Trust.{state-Speaks, Speaks-state, spiffe_id_from_cert_iff, get_iff, IsTrusted}
use zonedns.Identity.{
  Cert, Transport, peer_certificates, certs_from_state, spiffe_id_from_cert, reason_ok, no_tls,
  unauthorized_agent, no_declaration, declared_zone, Config, authorize, new_config, zone_of_chain,
  zone_of_leaf, source_zone,
}

-- An accepted chain has a leaf.
pub peer_certificates-ne-nil : (t : Transport) → peer_certificates t ≢ some []
unfolding peer_certificates certs_from_state
peer_certificates-ne-nil t h = ground arith

has-authorize :
    (id : Str) (agents : List Str) (set : Set Str)
    → GoMap.has id (authorize agents set) ≡ true
    → Memᴰ id agents ⊎ (GoMap.has id set ≡ true)
unfolding authorize
has-authorize id [] set h = inr h
has-authorize id (a ∷ agents) set h = elim (has-authorize id agents (GoMap.insert a tt set) h) [
  | inl m ↦ inl (Memᴰ.tail m)
  | inr old ↦ elim (Bool-cases (a == id)) [
    | inl e ↦ inl (Memᴰ.head ((eq_iff id a).0 (ground (arith, eq_iff a id, eq_iff id a))))
    | inr e ↦ inr (ground (arith, has-insert a id tt set))
  ]
]

authorize-has :
    (id : Str) (agents : List Str) (set : Set Str)
    → Memᴰ id agents ⊎ (GoMap.has id set ≡ true)
    → GoMap.has id (authorize agents set) ≡ true
unfolding authorize
authorize-has id [] set (inl m) = elim m [ ]
authorize-has id [] set (inr h) = h
authorize-has id (a ∷ agents) set (inl (Memᴰ.head e)) =
    authorize-has id agents _ (inr (ground (arith, has-insert a id tt set, eq_iff a id)))
authorize-has id (a ∷ agents) set (inl (Memᴰ.tail m)) = authorize-has id agents _ (inl m)
authorize-has id (a ∷ agents) set (inr h) =
    authorize-has id agents _ (inr (ground (arith, has-insert a id tt set)))

has-nil : (id : Str) (none_yet : Set Str) → none_yet ≡ [] → GoMap.has id none_yet ≢ true
unfolding GoMap.has GoMap.lookup
has-nil id set e h = ground arith

-- Exactly the agents of the configuration are authorized; of an empty list that is nobody.
pub authorized-new_config_iff :
    (agents : List Str) (code : ℕ) (id : Str)
    → (GoMap.has id (new_config agents code).authorized ≡ true) ↔ Memᴰ id agents
unfolding new_config
authorized-new_config_iff agents code id = (to, λ m. authorize-has id agents [] (inl m))
  where
    to : GoMap.has id (authorize agents []) ≡ true → Memᴰ id agents
    to h = elim (has-authorize id agents [] h) [ inl m ↦ m | inr n ↦ absurd (has-nil id [] refl n) ]

module _ (lib : MsgLib) where
  module _ (c : Config) (t : Transport) where
    leaf-IsTrusted :
        (leaf : Cert) (chain : List Cert) (r : Msg) (zone : Str)
        → peer_certificates t ≡ some (leaf ∷ chain)
        → zone_of_leaf lib c leaf r ≡ (zone, reason_ok)
        → IsTrusted lib c t r zone
    unfolding zone_of_leaf declared_zone
    leaf-IsTrusted leaf chain r zone p h = elim (Option-cases (spiffe_id_from_cert leaf)) [
      | inl e ↦ ground arith
      | inr (id, e) ↦
          let (state, speaks, presented) = state-Speaks t leaf chain p in
          let (uri, only, scheme, string) = (spiffe_id_from_cert_iff leaf id).0 e in
          let read : Ednszone.get lib c.code r ≡ some zone = ground arith in
          let listed : GoMap.has id c.authorized ≡ true = ground arith in
          record {
            state = state;
            speaks = speaks;
            leaf = leaf;
            chain = chain;
            presented = presented;
            uri = uri;
            only = only;
            scheme = scheme;
            authorized = rw string listed;
            declared = (get_iff lib c.code r zone).0 read;
          }
    ]

    chain-IsTrusted :
        (certs : Option (List Cert)) (r : Msg) (zone : Str)
        → peer_certificates t ≡ certs
        → zone_of_chain lib c certs r ≡ (zone, reason_ok)
        → IsTrusted lib c t r zone
    unfolding zone_of_chain
    chain-IsTrusted (some (leaf ∷ chain)) r zone p h = leaf-IsTrusted leaf chain r zone p h
    chain-IsTrusted (some []) r zone p h = ground arith
    chain-IsTrusted none r zone p h = ground arith

    leaf-verdict :
        {r : Msg} {zone : Str} (k : IsTrusted lib c t r zone)
        → zone_of_leaf lib c k.leaf r ≡ (zone, reason_ok)
    unfolding zone_of_leaf declared_zone
    leaf-verdict {r} {zone} k =
        let identified : spiffe_id_from_cert k.leaf ≡ some k.uri.string =
          (spiffe_id_from_cert_iff k.leaf k.uri.string).1 (k.uri, k.only, k.scheme, refl) in
        ground (arith, identified, k.authorized, (get_iff lib c.code r zone).1 k.declared)

    -- A source zone is believed exactly if the leaf certificate of the connection, that of the HTTP
    -- request if there is one and else that of the writer, has one URI SAN and no other, of the
    -- scheme spiffe and authorized as it stands, and the message carries one declaration and no
    -- other, well formed, of that zone.
    pub source_zone_iff :
        (r : Msg) (zone : Str)
        → (source_zone lib c t r ≡ (zone, reason_ok)) ↔ IsTrusted lib c t r zone
    unfolding source_zone
    source_zone_iff r zone = (
      chain-IsTrusted (peer_certificates t) r zone refl,
      λ k. rw (Speaks-state k.speaks k.presented, zone_of_chain) (leaf-verdict k),
    )

    leaf-ignores_message :
        (leaf : Cert) (r s : Msg)
        → (zone_of_leaf lib c leaf r).1 ≡ unauthorized_agent
        → zone_of_leaf lib c leaf s ≡ zone_of_leaf lib c leaf r
    unfolding zone_of_leaf
    leaf-ignores_message leaf r s h = ground arith

    chain-ignores_message :
        (certs : Option (List Cert)) (r s : Msg)
        → ((zone_of_chain lib c certs r).1 ≡ no_tls)
          ⊎ ((zone_of_chain lib c certs r).1 ≡ unauthorized_agent)
        → zone_of_chain lib c certs s ≡ zone_of_chain lib c certs r
    unfolding zone_of_chain
    chain-ignores_message (some (leaf ∷ chain)) r s h = ground (arith)
    chain-ignores_message (some []) r s h = refl
    chain-ignores_message none r s h = refl

    -- The verdicts no_tls and unauthorized_agent, with their empty zone, are reached without the
    -- message: every other message has the same verdict then.
    pub source_zone_ignores_message :
        (r s : Msg)
        → ((source_zone lib c t r).1 ≡ no_tls) ⊎ ((source_zone lib c t r).1 ≡ unauthorized_agent)
        → source_zone lib c t s ≡ source_zone lib c t r
    unfolding source_zone
    source_zone_ignores_message r s h = chain-ignores_message (peer_certificates t) r s h

    leaf-identified :
        (leaf : Cert) (id : Str) (r : Msg)
        → spiffe_id_from_cert leaf ≡ some id
        → GoMap.has id c.authorized ≡ true
        → zone_of_leaf lib c leaf r ≡ declared_zone lib c r
    unfolding zone_of_leaf
    leaf-identified leaf id r e h = ground (arith, e, h)

    -- From an authorized leaf the verdict is that of the message.
    pub source_zone-identified :
        (leaf : Cert) (chain : List Cert) (id : Str) (r : Msg)
        → peer_certificates t ≡ some (leaf ∷ chain)
        → spiffe_id_from_cert leaf ≡ some id
        → GoMap.has id c.authorized ≡ true
        → source_zone lib c t r ≡ elim (Ednszone.get lib c.code r) [
          | none ↦ ([], no_declaration)
          | some zone ↦ (zone, reason_ok)
        ]
    unfolding source_zone declared_zone
    source_zone-identified leaf chain id r p e h =
        rw (p, zone_of_chain) (leaf-identified leaf id r e h)
