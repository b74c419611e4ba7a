-- ===== src/Drift/Sorting.antt =====
-- sort.Strings: the order of strings, and what sorting keeps.
use zonedns.Prelude.{
  ◌≡◌, ◌↔◌, refl, inl, inr, true, false, List, [], ◌∷◌, Memᴰ, arith, All, Bool-cases, nat_eq,
}
use zonedns.Text.{Str}
use zonedns.Drift.{str_leb, insert_sorted, sort_strings}

str_leb_flip : (s t : Str) → str_leb s t ≡ false → str_leb t s ≡ true
unfolding str_leb
str_leb_flip [] t h = cc
str_leb_flip (c ∷ s) [] h = refl
str_leb_flip (c ∷ s) (d ∷ t) h = ground (arith, str_leb_flip s t)

str_leb_trans : (s t u : Str) → str_leb s t ≡ true → str_leb t u ≡ true → str_leb s u ≡ true
unfolding str_leb
str_leb_trans [] t u h k = refl
str_leb_trans (c ∷ s) [] u h k = cc
str_leb_trans (c ∷ s) (d ∷ t) [] h k = cc
str_leb_trans (c ∷ s) (d ∷ t) (e ∷ u) h k = ground (arith, str_leb_trans s t u)

-- Every string stands before all that follow it, or equals them.
abbrev pub IsSorted : List Str → Type 0
IsSorted [] = Unit
IsSorted (s ∷ rest) = All (λ t. str_leb s t ≡ true) rest × IsSorted rest

All-insert_sorted :
    (least s : Str) (ss : List Str)
    → str_leb least s ≡ true
    → All (λ t. str_leb least t ≡ true) ss
    → All (λ t. str_leb least t ≡ true) (insert_sorted s ss)
unfolding insert_sorted
All-insert_sorted least s [] h k = (h, tt)
All-insert_sorted least s (t ∷ rest) h (k, ks) = elim (Bool-cases (str_leb s t)) [
  | inl e ↦ rw e (h, (k, ks))
  | inr e ↦ rw e (k, All-insert_sorted least s rest h ks)
]

All-trans :
    (s t : Str) (ss : List Str)
    → str_leb s t ≡ true
    → All (λ u. str_leb t u ≡ true) ss
    → All (λ u. str_leb s u ≡ true) ss
All-trans s t [] h k = tt
All-trans s t (u ∷ us) h (k, ks) = (str_leb_trans s t u h k, All-trans s t us h ks)

insert_sorted-IsSorted : (s : Str) (ss : List Str) → IsSorted ss → IsSorted (insert_sorted s ss)
unfolding insert_sorted
insert_sorted-IsSorted s [] h = (tt, tt)
insert_sorted-IsSorted s (t ∷ rest) (h, hs) = elim (Bool-cases (str_leb s t)) [
  | inl e ↦ rw e ((e, All-trans s t rest e h), (h, hs))
  | inr e ↦
      rw e (All-insert_sorted t s rest (str_leb_flip s t e) h, insert_sorted-IsSorted s rest hs)
]

pub sort_strings-IsSorted : (ss : List Str) → IsSorted (sort_strings ss)
unfolding sort_strings
sort_strings-IsSorted [] = tt
sort_strings-IsSorted (s ∷ rest) =
    insert_sorted-IsSorted s (sort_strings rest) (sort_strings-IsSorted rest)

mem-insert_sorted : (x s : Str) (ss : List Str) → Memᴰ x (insert_sorted s ss) ↔ Memᴰ x (s ∷ ss)
unfolding insert_sorted
mem-insert_sorted x s [] = (λ m. m, λ m. m)
mem-insert_sorted x s (t ∷ rest) = elim (Bool-cases (str_leb s t)) [
  | inl e ↦ rw e (λ m. m, λ m. m)
  | inr e ↦ rw e (swap_in (mem-insert_sorted x s rest).0, swap_out (mem-insert_sorted x s rest).1)
]
  where
    swap_in :
        (Memᴰ x (insert_sorted s rest) → Memᴰ x (s ∷ rest))
        → Memᴰ x (t ∷ insert_sorted s rest)
        → Memᴰ x (s ∷ t ∷ rest)
    swap_in ih (Memᴰ.head e) = Memᴰ.tail (Memᴰ.head e)
    swap_in ih (Memᴰ.tail m) = elim (ih m) [
      | Memᴰ.head e ↦ Memᴰ.head e
      | Memᴰ.tail n ↦ Memᴰ.tail (Memᴰ.tail n)
    ]

    swap_out :
        (Memᴰ x (s ∷ rest) → Memᴰ x (insert_sorted s rest))
        → Memᴰ x (s ∷ t ∷ rest)
        → Memᴰ x (t ∷ insert_sorted s rest)
    swap_out ih (Memᴰ.head e) = Memᴰ.tail (ih (Memᴰ.head e))
    swap_out ih (Memᴰ.tail (Memᴰ.head e)) = Memᴰ.head e
    swap_out ih (Memᴰ.tail (Memᴰ.tail m)) = Memᴰ.tail (ih (Memᴰ.tail m))

pub mem-sort_strings : (x : Str) (ss : List Str) → Memᴰ x (sort_strings ss) ↔ Memᴰ x ss
unfolding sort_strings
mem-sort_strings x [] = (λ m. m, λ m. m)
mem-sort_strings x (s ∷ rest) = (
  λ m. over (mem-sort_strings x rest).0 ((mem-insert_sorted x s (sort_strings rest)).0 m),
  λ m. (mem-insert_sorted x s (sort_strings rest)).1 (over (mem-sort_strings x rest).1 m),
)
  where
    over : {ss ts : List Str} → (Memᴰ x ss → Memᴰ x ts) → Memᴰ x (s ∷ ss) → Memᴰ x (s ∷ ts)
    over f (Memᴰ.head e) = Memᴰ.head e
    over f (Memᴰ.tail m) = Memᴰ.tail (f m)
