-- ===== src/Text/Laws.antt =====
-- Laws of the string functions.
use mathlib.Core.List.{reverse, reverse-append}
use zonedns.Prelude.{
  ℕ, ◌-◌, ◌≡◌, refl, ◌⊎◌, inl, true, [], ◌∷◌, ◌++◌, arith, length, take, length-append, take-append,
}
use zonedns.Text.{
  equal_fold, str_beq_iff, Str, has_prefix, has_suffix, drop, trim_prefix, trim_suffix, to_lower,
  lower_byte,
}

lower_byte-lower_byte : (c : ℕ) → lower_byte (lower_byte c) ≡ lower_byte c
unfolding lower_byte
lower_byte-lower_byte c = ground arith

pub to_lower-to_lower : (s : Str) → to_lower (to_lower s) ≡ to_lower s
unfolding to_lower
to_lower-to_lower [] = refl
to_lower-to_lower (c ∷ s) = rw (lower_byte-lower_byte, to_lower-to_lower s)

has_prefix-append : (p s : Str) → has_prefix (p ++ s) p ≡ true
unfolding has_prefix
has_prefix-append [] [] = refl
has_prefix-append [] (c ∷ s) = refl
has_prefix-append (d ∷ p) s = ground (arith, has_prefix-append p s)

pub has_suffix-append : (s p : Str) → has_suffix (s ++ p) p ≡ true
unfolding has_suffix
has_suffix-append s p = rw reverse-append (has_prefix-append (reverse p) (reverse s))

take_but : (s p : Str) → take (length (s ++ p) - length p) (s ++ p) ≡ s
take_but s p =
    let e : length (s ++ p) - length p ≡ length s = omega (arith, length-append s p) in
    rw e (take-append s p)

-- What was appended is trimmed.
pub trim_suffix-append : (s p : Str) → trim_suffix (s ++ p) p ≡ s
unfolding trim_suffix
trim_suffix-append s p = rw has_suffix-append (take_but s p)

drop_zero : (s : Str) → drop 0 s ≡ s
unfolding drop
drop_zero [] = refl
drop_zero (c ∷ s) = refl

pub trim_prefix_self : (d : ℕ) (s : Str) → trim_prefix (d ∷ s) (d ∷ []) ≡ s
unfolding trim_prefix
trim_prefix_self d s = ground (arith, drop_zero s)

-- A trimmed string was either without the byte, or had it in front.
pub trim_prefix_cases :
    (d : ℕ) (s : Str) → (trim_prefix s (d ∷ []) ≡ s) ⊎ (s ≡ d ∷ trim_prefix s (d ∷ []))
unfolding trim_prefix
trim_prefix_cases d [] = inl refl
trim_prefix_cases d (c ∷ s) = ground (arith, drop_zero s)

pub equal_fold_self : (s : Str) → equal_fold s s ≡ true
unfolding equal_fold
equal_fold_self s = (str_beq_iff (to_lower s) (to_lower s)).1 refl
