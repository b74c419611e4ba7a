-- ===== src/Text/Split.antt =====
-- Splitting a string at a byte, and joining it again.
use zonedns.Prelude.{
  ℕ, ◌≡◌, ◌≢◌, refl, ap, ◌⊎◌, inl, inr, List, [], ◌∷◌, ◌++◌, arith, nat_beq, nat_beq_iff, All,
  Bool-cases,
}
use zonedns.Text.{Str, split, prepend}

-- No byte of the string is the separator.
abbrev pub IsFree : ℕ → Str → Type 0
IsFree d = All (λ c. c ≢ d)

pub split-free : (s : Str) (d : ℕ) → IsFree d s → split s d ≡ s ∷ []
unfolding split
split-free [] d h = refl
split-free (c ∷ s) d (ne, h) = rw (split-free s d h) (ground arith)

pub split-free_more :
    (s rest : Str) (d : ℕ) → IsFree d s → split (s ++ d ∷ rest) d ≡ s ∷ split rest d
unfolding split
split-free_more [] rest d h = ground arith
split-free_more (c ∷ s) rest d (ne, h) = rw (split-free_more s rest d h) (ground arith)

-- How a string begins that splits into a first part and others.
pub record IsSplit (s : Str) (d : ℕ) (first : Str) (others : List Str) : Type 0 where
  pub free : IsFree d first
  pub rest :
      ((s ≡ first) × (others ≡ []))
      ⊎ ((tail : Str) × (s ≡ first ++ d ∷ tail) × (others ≡ split tail d))

IsSplit-cons :
    (c d : ℕ) (s first : Str) (others : List Str)
    → c ≢ d
    → IsSplit s d first others
    → IsSplit (c ∷ s) d (c ∷ first) others
IsSplit-cons c d s first others ne k = record {
  free = (ne, k.free);
  rest = elim k.rest [
    | inl (e, o) ↦ inl (ap (λ t. c ∷ t) e, o)
    | inr (tail, e, o) ↦ inr (tail, ap (λ t. c ∷ t) e, o)
  ];
}

abbrev first_part : List Str → Str
first_part [] = []
first_part (p ∷ ps) = p

abbrev other_parts : List Str → List Str
other_parts [] = []
other_parts (p ∷ ps) = ps

first_part-prepend : (c : ℕ) (ps : List Str) → first_part (prepend c ps) ≡ c ∷ first_part ps
first_part-prepend c [] = refl
first_part-prepend c (p ∷ ps) = refl

other_parts-prepend : (c : ℕ) (ps : List Str) → other_parts (prepend c ps) ≡ other_parts ps
other_parts-prepend c [] = refl
other_parts-prepend c (p ∷ ps) = refl

split-IsSplit : (s : Str) (d : ℕ) → IsSplit s d (first_part (split s d)) (other_parts (split s d))
unfolding split
split-IsSplit [] d = record { free = tt; rest = inl (refl, refl) }
split-IsSplit (c ∷ s) d = elim (Bool-cases (nat_beq c d)) [
  | inl e ↦
      rw e (record { free = tt; rest = inr (s, ap (λ t. t ∷ s) ((nat_beq_iff c d).0 e), refl) })
  | inr e ↦
      rw (e, first_part-prepend, other_parts-prepend)
        (IsSplit-cons c d s _ _ (ground arith) (split-IsSplit s d))
]

pub split_cases :
    (s : Str) (d : ℕ) (first : Str) (others : List Str)
    → split s d ≡ first ∷ others
    → IsSplit s d first others
split_cases s d first others h = rw h at (split-IsSplit s d)
