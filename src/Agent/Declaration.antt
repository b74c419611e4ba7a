-- ===== src/Agent/Declaration.antt =====
-- stripZoneOption, and the declaration on the message for the upstream.
use zonedns.Prelude.{
  ℕ, ◌≡◌, ◌≢◌, refl, Option, none, some, List, [], ◌∷◌, arith, Option-cases, inl, inr, ◌∙◌,
}
use zonedns.Text.{Str}
use zonedns.Dns.{Msg, MsgLib}
use zonedns.Ednszone.{strip, options_of}
use zonedns.Ednszone.Laws.{
  carried, carried-set, carried-set_ne, declarations-strip, declarations-strip_ne, options_of-store,
  question-set,
}
use zonedns.Agent.{strip_zone_option, outbound}

-- The declarations that stand for a zone.
abbrev pub declared : Option Str → List Str
declared none = []
declared (some zone) = zone ∷ []

module _ (lib : MsgLib) where
  options_of-strip :
      (code : ℕ) (m : Msg)
      → options_of lib (strip_zone_option lib code m) ≡ strip code (options_of lib m)
  unfolding strip_zone_option options_of strip
  options_of-strip code m = elim (Option-cases (lib.edns0_options m)) [
    | inl e ↦ rw (e, strip_zone_option, options_of, e) refl
    | inr (os, e) ↦
        rw (e, strip_zone_option, options_of)
          (options_of-store lib (strip code os) m (ground (arith, e)))
  ]

  carried-strip : (code : ℕ) (m : Msg) → carried lib code (strip_zone_option lib code m) ≡ []
  carried-strip code m = rw (options_of-strip, declarations-strip)

  question-strip : (code : ℕ) (m : Msg) → (strip_zone_option lib code m).question ≡ m.question
  unfolding strip_zone_option
  question-strip code m = elim (Option-cases (lib.edns0_options m)) [
    | inl e ↦ rw (e, strip_zone_option)
    | inr (os, e) ↦ rw (e, strip_zone_option) (lib.question-store (strip code os) m)
  ]

  -- Whatever declarations a client attached under the agent's code, the message for the upstream
  -- carries the agent's own one and no other, or none at all if the agent has no zone.
  pub carried-outbound :
      (code : ℕ) (zone : Option Str) (m : Msg)
      → carried lib code (outbound lib code zone m) ≡ declared zone
  unfolding outbound
  carried-outbound code none m = carried-strip code m
  carried-outbound code (some zone) m = carried-set lib code zone (strip_zone_option lib code m)

  -- The declarations under every other code reach the upstream as the client sent them.
  pub carried-outbound_ne :
      (code kept : ℕ) (zone : Option Str) (m : Msg)
      → code ≢ kept
      → carried lib kept (outbound lib code zone m) ≡ carried lib kept m
  unfolding outbound
  carried-outbound_ne code kept none m ne =
      rw (options_of-strip) (declarations-strip_ne code kept _ ne)
  carried-outbound_ne code kept (some zone) m ne =
      carried-set_ne lib code kept zone (strip_zone_option lib code m) ne
      ∙ rw (options_of-strip) (declarations-strip_ne code kept _ ne)

  pub question-outbound :
      (code : ℕ) (zone : Option Str) (m : Msg) → (outbound lib code zone m).question ≡ m.question
  unfolding outbound
  question-outbound code none m = question-strip code m
  question-outbound code (some zone) m =
      question-set lib code zone (strip_zone_option lib code m) ∙ question-strip code m
