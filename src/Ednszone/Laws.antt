-- ===== src/Ednszone/Laws.antt =====
-- The declarations of a message, and what `get` reads after `set`.
use zonedns.Prelude.{
  ℕ, ◌≡◌, ◌≢◌, refl, false, Option, none, some, List, [], ◌∷◌, ◌++◌, arith, if◌then◌else◌,
  append-nil, Option-cases, inl, inr, nat_eq,
}
use zonedns.Text.{Str}
use zonedns.Dns.{EdnsOption, local, other, Msg, MsgLib}
use zonedns.Ednszone.{valid, declared_by, strip, get_from, ensure_opt, options_of, set, get}

-- The payloads of all declarations under a code.
unfoldable pub declarations : ℕ → List EdnsOption → List Str
declarations code [] = []
declarations code (o ∷ os) =
    let rest = declarations code os in
    elim (declared_by code o) [ none ↦ rest | some payload ↦ payload ∷ rest ]

-- What a list of declarations means: one well-formed zone, or nothing.
abbrev pub sole : List Str → Option Str
sole [] = none
sole (zone ∷ []) = if valid zone then some zone else none
sole (zone ∷ next ∷ rest) = none

get_from_one :
    (code : ℕ) (os : List EdnsOption) (zone : Str)
    → get_from code os zone 1 ≡ sole (zone ∷ declarations code os)
unfolding get_from declarations
get_from_one code [] zone = ground arith
get_from_one code (o ∷ os) zone = ground (arith, get_from_one code os zone)

get_from_none :
    (code : ℕ) (os : List EdnsOption) → get_from code os [] 0 ≡ sole (declarations code os)
unfolding get_from declarations
get_from_none code [] = ground arith
get_from_none code (o ∷ os) = elim (Option-cases (declared_by code o)) [
  | inl e ↦ ground (arith, get_from_none code os)
  | inr (payload, e) ↦ ground (arith, get_from_one code os payload)
]

pub declarations-append :
    (code : ℕ) (os ps : List EdnsOption)
    → declarations code (os ++ ps) ≡ declarations code os ++ declarations code ps
unfolding declarations
declarations-append code [] ps = refl
declarations-append code (o ∷ os) ps = ground (arith, declarations-append code os ps)

pub declarations-strip : (code : ℕ) (os : List EdnsOption) → declarations code (strip code os) ≡ []
unfolding declarations strip
declarations-strip code [] = refl
declarations-strip code (o ∷ os) = ground (arith, declarations-strip code os)

declared_by_ne :
    (code kept : ℕ) (o : EdnsOption) {payload : Str}
    → code ≢ kept
    → declared_by code o ≡ some payload
    → declared_by kept o ≡ none
unfolding declared_by
declared_by_ne code kept (local c payload) ne e = ground arith
declared_by_ne code kept (other c payload) ne e = refl

pub declarations-strip_ne :
    (code kept : ℕ) (os : List EdnsOption)
    → code ≢ kept
    → declarations kept (strip code os) ≡ declarations kept os
unfolding declarations strip
declarations-strip_ne code kept [] ne = refl
declarations-strip_ne code kept (o ∷ os) ne = elim (Option-cases (declared_by code o)) [
  | inl e ↦ ground (arith, declarations-strip_ne code kept os ne)
  | inr (payload, e) ↦
      ground (arith, declarations-strip_ne code kept os ne, declared_by_ne code kept o ne e)
]

declarations_local : (code : ℕ) (zone : Str) → declarations code (local code zone ∷ []) ≡ zone ∷ []
unfolding declarations declared_by
declarations_local code zone = ground arith

declarations_local_ne :
    (code kept : ℕ) (zone : Str) → code ≢ kept → declarations kept (local code zone ∷ []) ≡ []
unfolding declarations declared_by
declarations_local_ne code kept zone ne = ground arith

module _ (lib : MsgLib) where
  -- The declarations that a message carries.
  abbrev pub carried : ℕ → Msg → List Str
  carried code m = declarations code (options_of lib m)

  -- Reading a message accepts exactly a sole declaration that is well formed: no OPT record, no
  -- declaration, a malformed one, and two or more of them, well formed or not, all read as none.
  pub get_sole : (code : ℕ) (m : Msg) → get lib code m ≡ sole (carried code m)
  unfolding get options_of declarations
  get_sole code m = elim (Option-cases (lib.edns0_options m)) [
    | inl e ↦ rw (e, get, options_of)
    | inr (os, e) ↦ rw (e, get, options_of) (get_from_none code os)
  ]

  ensure_opt-ne-none : (m : Msg) → lib.edns0_options (ensure_opt lib m) ≢ none
  unfolding ensure_opt
  ensure_opt-ne-none m = ground (arith, lib.options-set_edns0 lib.default_msg_size false m)

  options_of-ensure_opt : (m : Msg) → options_of lib (ensure_opt lib m) ≡ options_of lib m
  unfolding options_of ensure_opt
  options_of-ensure_opt m = ground (arith, lib.options-set_edns0 lib.default_msg_size false m)

  pub options_of-store :
      (os : List EdnsOption) (m : Msg)
      → lib.edns0_options m ≢ none
      → options_of lib (lib.store_options os m) ≡ os
  unfolding options_of
  options_of-store os m h = rw (lib.options-store os m h, options_of)

  pub options_of-set :
      (code : ℕ) (zone : Str) (m : Msg)
      → options_of lib (set lib code zone m) ≡ strip code (options_of lib m) ++ local code zone ∷ []
  unfolding set
  options_of-set code zone m =
      rw (← options_of-ensure_opt m) (options_of-store _ _ (ensure_opt-ne-none m))

  pub carried-set :
      (code : ℕ) (zone : Str) (m : Msg) → carried code (set lib code zone m) ≡ zone ∷ []
  carried-set code zone m =
      rw (options_of-set, declarations-append, declarations-strip, declarations_local)

  -- Whatever declarations a message carries, after a zone was set the message reads as that zone
  -- if it is well formed, and as none if it is not.
  pub get-set :
      (code : ℕ) (zone : Str) (m : Msg)
      → get lib code (set lib code zone m) ≡ (if valid zone then some zone else none)
  get-set code zone m = rw (get_sole, carried-set)

  -- Setting a zone under one code leaves the declarations under every other code as they were.
  pub carried-set_ne :
      (code kept : ℕ) (zone : Str) (m : Msg)
      → code ≢ kept
      → carried kept (set lib code zone m) ≡ carried kept m
  carried-set_ne code kept zone m ne =
      rw
        (
          options_of-set,
          declarations-append,
          declarations-strip_ne code kept _ ne,
          declarations_local_ne code kept zone ne,
        )
        (append-nil _)

  pub question-set : (code : ℕ) (zone : Str) (m : Msg) → (set lib code zone m).question ≡ m.question
  unfolding set ensure_opt
  question-set code zone m =
      rw lib.question-store (ground (arith, lib.question-set_edns0 lib.default_msg_size false m))
