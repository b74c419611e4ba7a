-- ===== src/Caddy/Numbers.antt =====
-- Bounds of the numbers that options are parsed to.
use zonedns.Prelude.{ℕ, ◌^◌, ◌<◌, ◌≡◌, some, [], ◌∷◌, arith, Option-cases, inl, inr}
use zonedns.Text.{Str}
use zonedns.Caddy.{ℤ, pos, negsuc, positive, digits_from, parse_uint}

pub positive-positive : (z : ℤ) (n : ℕ) → positive z ≡ some n → 0 < n
positive-positive (pos m) n h = ground arith
positive-positive (negsuc m) n h = ground arith

pub parse_uint-bound : (bits n : ℕ) (s : Str) → parse_uint bits s ≡ some n → n < 2 ^ bits
unfolding parse_uint
parse_uint-bound bits n [] h = ground arith
parse_uint-bound bits n (c ∷ s) h = elim (Option-cases (digits_from 0 (c ∷ s))) [
  | inl e ↦ ground (arith, e)
  | inr (m, e) ↦ ground (arith, e)
]
