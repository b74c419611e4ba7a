-- ===== src/Drift/Sets.antt =====
-- `Compare` against membership in the two lists.
use zonedns.Prelude.{
  ◌≡◌, ◌≢◌, ◌↔◌, refl, ◌⊎◌, inl, inr, true, false, List, [], ◌∷◌, Memᴰ, arith, Bool-cases, ◌==◌,
  eq_iff, if◌then◌else◌, sym,
}
use zonedns.Text.{Str, str_eq}
use zonedns.GoMap
use zonedns.GoMap.{Set}
use zonedns.GoMap.Laws.{has-insert}
use zonedns.Drift.{add_all, to_set, missing_from, compare, sort_strings}
use zonedns.Drift.Sorting.{IsSorted, sort_strings-IsSorted, mem-sort_strings}

abbrev Holds : Str → List Str → Type 0
Holds h names = (h ≢ []) × Memᴰ h names

abbrev Found : Str → List Str → Set Str → Type 0
Found h names out = Holds h names ⊎ (GoMap.has h out ≡ true)

-- One round of `add_all`.
Found-before :
    (h s : Str) (rest : List Str) (out : Set Str)
    → Found h rest (if s == [] then out else GoMap.insert s tt out)
    → Found h (s ∷ rest) out
Found-before h s rest out (inl (ne, m)) = inl (ne, Memᴰ.tail m)
Found-before h s rest out (inr k) = elim (Bool-cases (s == [])) [
  | inl e ↦ inr (rw e at k)
  | inr e ↦ elim (Bool-cases (s == h)) [
    | inl q ↦ inl (ground (arith, eq_iff s [], eq_iff s h), Memᴰ.head (sym ((eq_iff s h).0 q)))
    | inr q ↦ inr (ground (arith, k, has-insert s h tt out))
  ]
]

Found-after :
    (h s : Str) (rest : List Str) (out : Set Str)
    → Found h (s ∷ rest) out
    → Found h rest (if s == [] then out else GoMap.insert s tt out)
Found-after h s rest out (inl (ne, Memᴰ.head p)) =
    inr (ground (arith, eq_iff s [], eq_iff s h, has-insert s h tt out))
Found-after h s rest out (inl (ne, Memᴰ.tail m)) = inl (ne, m)
Found-after h s rest out (inr k) = inr (ground (arith, k, has-insert s h tt out))

has-add_all :
    (h : Str) (names : List Str) (out : Set Str)
    → (GoMap.has h (add_all names out) ≡ true) ↔ Found h names out
unfolding add_all
has-add_all h [] out = (λ e. inr e, λ c. elim c [ inl (_, m) ↦ elim m [ ] | inr e ↦ e ])
has-add_all h (s ∷ rest) out =
    let ih = has-add_all h rest (if s == [] then out else GoMap.insert s tt out) in
    (λ e. Found-before h s rest out (ih.0 e), λ c. ih.1 (Found-after h s rest out c))

has-empty : (h : Str) → GoMap.has {V = Unit {0}} h [] ≡ false
unfolding GoMap.has GoMap.lookup
has-empty h = refl

-- A name is a key of the set exactly if it is in the list and not empty.
has-to_set : (h : Str) (names : List Str) → (GoMap.has h (to_set names) ≡ true) ↔ Holds h names
unfolding to_set
has-to_set h names = (
  λ e. elim ((has-add_all h names []).0 e) [ inl m ↦ m | inr k ↦ cc (k, has-empty h) ],
  λ m. (has-add_all h names []).1 (inl m),
)

keys_of : Set Str → List Str
keys_of [] = []
keys_of ((h, _) ∷ rest) = h ∷ keys_of rest

has-key :
    (h k : Str) (set : Set Str)
    → (GoMap.has h ((k, tt) ∷ set) ≡ true) ↔ ((k ≡ h) ⊎ (GoMap.has h set ≡ true))
unfolding GoMap.has GoMap.lookup
has-key h k set = elim (Bool-cases (k == h)) [
  | inl e ↦ (λ m. inl ((eq_iff k h).0 e), λ c. ground (arith, e))
  | inr e ↦ (λ m. inr (ground (arith, m, e)), λ c. ground (arith, e, eq_iff k h))
]

has-keys : (h : Str) (set : Set Str) → (GoMap.has h set ≡ true) ↔ Memᴰ h (keys_of set)
unfolding keys_of
has-keys h [] = (λ e. cc (e, has-empty h), λ m. elim m [ ])
has-keys h ((k, _) ∷ rest) = (
  λ e. elim ((has-key h k rest).0 e) [
    | inl q ↦ Memᴰ.head (sym q)
    | inr q ↦ Memᴰ.tail ((has-keys h rest).0 q)
  ],
  λ m.
      (has-key h k rest).1
        (elim m [ Memᴰ.head q ↦ inl (sym q) | Memᴰ.tail n ↦ inr ((has-keys h rest).1 n) ]),
)

abbrev Missing : Str → Set Str → List Str → Type 0
Missing h other keys = Memᴰ h keys × (GoMap.has h other ≡ false)

mem-missing_from :
    (h : Str) (other set : Set Str)
    → Memᴰ h (missing_from other set) ↔ Missing h other (keys_of set)
unfolding missing_from keys_of
mem-missing_from h other [] = (λ m. elim m [ ], λ (m, _). m)
mem-missing_from h other ((k, _) ∷ rest) = elim (Bool-cases (GoMap.has k other)) [
  | inl e ↦ rw e (skip (mem-missing_from h other rest).0, keep e (mem-missing_from h other rest).1)
  | inr e ↦ rw e (add e (mem-missing_from h other rest).0, found (mem-missing_from h other rest).1)
]
  where
    skip :
        (Memᴰ h (missing_from other rest) → Missing h other (keys_of rest))
        → Memᴰ h (missing_from other rest)
        → Missing h other (k ∷ keys_of rest)
    skip ih m = let (n, e) = ih m in (Memᴰ.tail n, e)

    keep :
        GoMap.has k other ≡ true
        → (Missing h other (keys_of rest) → Memᴰ h (missing_from other rest))
        → Missing h other (k ∷ keys_of rest)
        → Memᴰ h (missing_from other rest)
    keep e ih (Memᴰ.head q, z) = ground (arith, e, z, eq_iff h k)
    keep e ih (Memᴰ.tail m, z) = ih (m, z)

    add :
        GoMap.has k other ≡ false
        → (Memᴰ h (missing_from other rest) → Missing h other (keys_of rest))
        → Memᴰ h (k ∷ missing_from other rest)
        → Missing h other (k ∷ keys_of rest)
    add e ih (Memᴰ.head q) = (Memᴰ.head q, rw q e)
    add e ih (Memᴰ.tail m) = let (n, z) = ih m in (Memᴰ.tail n, z)

    found :
        (Missing h other (keys_of rest) → Memᴰ h (missing_from other rest))
        → Missing h other (k ∷ keys_of rest)
        → Memᴰ h (k ∷ missing_from other rest)
    found ih (Memᴰ.head q, z) = Memᴰ.head q
    found ih (Memᴰ.tail m, z) = Memᴰ.tail (ih (m, z))

-- Names of one list that are not in the other.
abbrev pub IsOnlyIn : Str → List Str → List Str → Type 0
IsOnlyIn h names others = (h ≢ []) × Memᴰ h names × ¬ Memᴰ h others

mem-difference :
    (h : Str) (names others : List Str)
    → Memᴰ h (sort_strings (missing_from (to_set others) (to_set names))) ↔ IsOnlyIn h names others
mem-difference h names others = (
  λ m.
      let (k, z) =
        (mem-missing_from h (to_set others) (to_set names)).0 ((mem-sort_strings h _).0 m) in
      let (ne, n) = (has-to_set h names).0 ((has-keys h (to_set names)).1 k) in
      (ne, n, λ o. cc ((has-to_set h others).1 (ne, o), z)),
  λ (ne, n, out). (mem-sort_strings h _).1 (
      (mem-missing_from h (to_set others) (to_set names)).1 (
        (has-keys h (to_set names)).0 ((has-to_set h names).1 (ne, n)),
        elim (Bool-cases (GoMap.has h (to_set others))) [
          | inl e ↦ absurd (out ((has-to_set h others).0 e).1)
          | inr e ↦ e
        ],
      )),
)

-- The report lists exactly the hosts that no pod claims and exactly the labels that no host has,
-- the empty name apart, each of the two in the order of strings.
pub compare_iff :
    (hosts labels : List Str) (h : Str)
    → (Memᴰ h (compare hosts labels).unclaimed_hosts ↔ IsOnlyIn h hosts labels)
      × (Memᴰ h (compare hosts labels).unrouted_labels ↔ IsOnlyIn h labels hosts)
      × IsSorted (compare hosts labels).unclaimed_hosts
      × IsSorted (compare hosts labels).unrouted_labels
unfolding compare
compare_iff hosts labels h = (
  mem-difference h hosts labels,
  mem-difference h labels hosts,
  sort_strings-IsSorted _,
  sort_strings-IsSorted _,
)
