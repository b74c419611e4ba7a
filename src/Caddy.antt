-- ===== src/Caddy.antt =====
-- The tokens of a Corefile: github.com/coredns/caddy's dispenser as an interface, and the numbers
-- that options are parsed to.
pub mod Loops
pub mod Numbers
use zonedns.Prelude.{
  ℕ, ◌+◌, ◌-◌, ◌*◌, ◌^◌, ◌<◌, ◌≤◌, ◌≡◌, Bool, true, ◌&&◌, Option, none, some, List, [], ◌∷◌, ltb,
  leb, if◌then◌else◌, zero, suc, ◌==◌, nat_eq, Result, ok, err,
}
use zonedns.Text.{Str}

-- Next, NextBlock and NextArg with their results, Val, RemainingArgs. A dispenser moves forward
-- over finitely many tokens, of which `left` are left; a Next or a NextBlock that returns true has
-- moved on.
pub record Dispenser : Type 1 where
  pub State : Type 0
  pub next : State → Bool × State
  pub next_block : State → Bool × State
  pub next_arg : State → Bool × State
  pub val : State → Str
  pub remaining_args : State → List Str × State
  pub left : State → ℕ
  pub left-next : (s : State) → (next s).0 ≡ true → left (next s).1 < left s
  pub left-next_block : (s : State) → (next_block s).0 ≡ true → left (next_block s).1 < left s
  pub left-block_end : (s : State) → left (next_block s).1 ≤ left s
  pub left-next_arg : (s : State) → left (next_arg s).1 ≤ left s
  pub left-remaining_args : (s : State) → left (remaining_args s).1 ≤ left s

-- The two loops of both parsers, over what one round of the inner loop does after NextBlock.
module _ (d : Dispenser) {C E : Type 0} (property : d.State → C → Result E (C × d.State)) where
  open d use {State}

  -- `for c.NextBlock()`, on fuel; none if it runs out.
  unfoldable pub block : ℕ → State → C → Option (Result E (C × State))
  block zero s cfg = none
  block (suc n) s cfg =
      let (more, s') = d.next_block s in
      let rest : Option (Result E (C × State)) = elim (property s' cfg) [
        | err e ↦ some (err e)
        | ok (cfg', s'') ↦ block n s'' cfg'
      ] in
      if more then rest else some (ok (cfg, s'))

  -- `for c.Next()`
  unfoldable pub blocks : ℕ → State → C → Option (Result E C)
  unfolding block
  blocks zero s cfg = none
  blocks (suc n) s cfg =
      let (more, s') = d.next s in
      let rest : Option (Result E C) = elim (block (suc (d.left s')) s' cfg) [
        | none ↦ none
        | some (err e) ↦ some (err e)
        | some (ok (cfg', s'')) ↦ blocks n s'' cfg'
      ] in
      if more then rest else some (ok cfg)

pub data ℤ : Type 0 where
  pos : ℕ → ℤ
  negsuc : ℕ → ℤ

-- The number if it is positive.
abbrev pub positive : ℤ → Option ℕ
positive (pos n) = if leb n 0 then none else some n
positive (negsuc n) = none

-- The digits of a decimal number, read on from the number before them.
unfoldable pub digits_from : ℕ → Str → Option ℕ
digits_from n [] = some n
digits_from n (c ∷ s) =
    let rest = digits_from (n * 10 + (c - b'0')) s in
    if leb b'0' c && leb c b'9' then rest else none

-- strconv.ParseUint in base 10
unfoldable pub parse_uint : ℕ → Str → Option ℕ
unfolding digits_from
parse_uint bits [] = none
parse_uint bits (c ∷ s) = elim (digits_from 0 (c ∷ s)) [
  | none ↦ none
  | some n ↦ if ltb n (2 ^ bits) then some n else none
]

-- One or more digits
unfoldable pub magnitude : Str → Option ℕ
unfolding digits_from
magnitude [] = none
magnitude (c ∷ s) = digits_from 0 (c ∷ s)

abbrev pub negated : ℕ → ℤ
negated zero = pos 0
negated (suc n) = negsuc n

-- strconv.Atoi, for a 64-bit int
unfoldable pub atoi : Str → Option ℤ
unfolding magnitude
atoi [] = none
atoi (c ∷ s) =
    if c == b'-'
    then elim (magnitude s) [
      | none ↦ none
      | some n ↦ if leb n (2 ^ 63) then some (negated n) else none
    ]
    else elim (magnitude (if c == b'+' then s else c ∷ s)) [
      | none ↦ none
      | some n ↦ if ltb n (2 ^ 63) then some (pos n) else none
    ]
