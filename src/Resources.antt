-- ===== src/Resources.antt =====
-- What the setup of both plugins and internal/dohupstream opens and closes, in order. The Workload
-- API of go-spiffe is the interface Spiffe.
use zonedns.Prelude.{
  ℕ, Bool, true, false, Option, List, [], ◌∷◌, ◌++◌, if◌then◌else◌, ◌≡◌, Result, ok, err,
}
use zonedns.Text.{Str}

-- The context of a dial with its timer, an X509Source, a gRPC connection, the context of an
-- instance of a plugin.
pub data Resource : Type 0 where
  dial_context x509_source connection run_context : Resource

pub data Action : Type 0 where
  opened closed : Resource → Action

abbrev pub is_same : Resource → Resource → Bool
is_same dial_context dial_context = true
is_same x509_source x509_source = true
is_same connection connection = true
is_same run_context run_context = true
is_same _ _ = false

abbrev pub drop_first : Resource → List Resource → List Resource
drop_first r [] = []
drop_first r (s ∷ rest) = let kept = drop_first r rest in if is_same r s then rest else s ∷ kept

-- What is open after the actions, if these are open before.
abbrev pub open_after : List Resource → List Action → List Resource
open_after held [] = held
open_after held (opened r ∷ rest) = open_after (r ∷ held) rest
open_after held (closed r ∷ rest) = open_after (drop_first r held) rest

-- spiffeid.FromString, and workloadapi.NewX509Source at an address within a time in nanoseconds;
-- none is an error.
pub record Spiffe : Type 1 where
  pub SpiffeId : Type 0
  pub Source : Type 0
  pub from_string : Str → Option SpiffeId
  pub new_x509_source : (addr : Str) → (within : ℕ) → Option Source

-- MTLSClientConfig and MTLSClientCredentials, with the source for both the own certificate and
-- the roots, and tlsconfig.AuthorizeID.
pub record Mtls (spiffe : Spiffe) : Type 0 where
  pub certificates : spiffe.Source
  pub authorized : spiffe.SpiffeId

-- What was done, and a result with the cleanup that its caller must run: nothing stays open if it
-- failed, and with the cleanup nothing more than before.
abbrev pub IsTidy {ℓ} :
    {E : Type 0} {A : Type ℓ} → List Resource → List Action × Result E (A × List Action) → Type 0
IsTidy held (done, err _) = open_after held done ≡ held
IsTidy held (done, ok (_, cleanup)) = open_after held (done ++ cleanup) ≡ held
