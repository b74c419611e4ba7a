-- ===== src/Text.antt =====
-- Go strings: sequences of bytes, with the functions of package strings that the program calls.
-- `to_lower` and `equal_fold` are those functions on ASCII text, which DNS names are; bytes from
-- 128 on are left alone.
pub mod Laws
pub mod Split
use Prim.Native.Char.{code}
use mathlib.Core.List.{reverse}
use zonedns.Prelude.{
  ℕ, suc, ◌+◌, ◌-◌, String, ◌≡◌, refl, ap, ◌↔◌, Bool, true, false, ◌&&◌, ◌||◌, List, [], ◌∷◌, arith,
  length, take, ltb, leb, nat_beq, if◌then◌else◌, Eq, Bool-cases,
}

abbrev pub Str : Type 0
Str = List ℕ

-- The bytes of an ASCII literal.
abbrev pub text : (literal : String) → Str
text String.[] = []
text (String.◌∷◌ first others) = code first ∷ text others

unfoldable pub str_beq : Str → Str → Bool
str_beq [] [] = true
str_beq (c ∷ s) (d ∷ t) = nat_beq c d && str_beq s t
str_beq _ _ = false

str_beq-eq : (s t : Str) → str_beq s t ≡ true → s ≡ t
unfolding str_beq
str_beq-eq [] [] h = refl
str_beq-eq (c ∷ s) (d ∷ t) h = ground (arith, str_beq-eq s t)
str_beq-eq [] (d ∷ t) h = cc
str_beq-eq (c ∷ s) [] h = cc

str_beq_self : (s : Str) → str_beq s s ≡ true
unfolding str_beq
str_beq_self [] = refl
str_beq_self (c ∷ s) = ground (arith, str_beq_self s)

pub str_beq_iff : (s t : Str) → (str_beq s t ≡ true) ↔ (s ≡ t)
str_beq_iff s t = (str_beq-eq s t, λ e. rw e (str_beq_self t))

instance abbrev pub str_eq : Eq Str
str_eq = record { same = str_beq; same_iff = str_beq_iff }

-- strings.HasPrefix
unfoldable pub has_prefix : Str → Str → Bool
has_prefix s [] = true
has_prefix [] (d ∷ p) = false
has_prefix (c ∷ s) (d ∷ p) = nat_beq c d && has_prefix s p

-- strings.HasSuffix
unfoldable pub has_suffix : Str → Str → Bool
unfolding has_prefix
has_suffix s p = has_prefix (reverse s) (reverse p)

drop : ℕ → Str → Str
drop n [] = []
drop ℕ.zero s = s
drop (suc n) (c ∷ s) = drop n s

-- strings.TrimPrefix
unfoldable pub trim_prefix : Str → Str → Str
unfolding has_prefix drop
trim_prefix s p = if has_prefix s p then drop (length p) s else s

-- strings.TrimSuffix
unfoldable pub trim_suffix : Str → Str → Str
unfolding has_suffix
trim_suffix s p = if has_suffix s p then take (length s - length p) s else s

-- strings.Contains, for a needle of one byte
unfoldable pub contains_byte : Str → ℕ → Bool
contains_byte [] d = false
contains_byte (c ∷ s) d = nat_beq c d || contains_byte s d

abbrev prepend : ℕ → List Str → List Str
prepend c [] = (c ∷ []) ∷ []
prepend c (p ∷ ps) = (c ∷ p) ∷ ps

-- strings.Split, for a separator of one byte
unfoldable pub split : Str → ℕ → List Str
split [] d = [] ∷ []
split (c ∷ s) d = let rest = split s d in if nat_beq c d then [] ∷ rest else prepend c rest

unfoldable pub lower_byte : ℕ → ℕ
lower_byte c = if leb b'A' c && leb c b'Z' then c + 32 else c

-- strings.ToLower
unfoldable pub to_lower : Str → Str
unfolding lower_byte
to_lower [] = []
to_lower (c ∷ s) = lower_byte c ∷ to_lower s

-- strings.EqualFold
unfoldable pub equal_fold : Str → Str → Bool
unfolding to_lower str_beq
equal_fold s t = str_beq (to_lower s) (to_lower t)
