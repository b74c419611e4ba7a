-- ===== src/Drift/Runs.antt =====
-- When a report is clean: the hosts and the labels are the same names.
use zonedns.Prelude.{
  ◌≡◌, ◌≢◌, ◌↔◌, refl, sym, ◌⊎◌, inl, inr, true, List, [], ◌∷◌, Memᴰ, arith, length, Bool-cases,
  ◌==◌, eq_iff, nat_eq,
}
use zonedns.Text.{Str, str_eq}
use zonedns.Drift.{is_ok, compare}
use zonedns.Drift.Sets.{IsOnlyIn, compare_iff}

mem_cases : (h : Str) (names : List Str) → Memᴰ h names ⊎ ¬ Memᴰ h names
mem_cases h [] = inr (λ m. elim m [ ])
mem_cases h (n ∷ rest) = elim (Bool-cases (n == h)) [
  | inl e ↦ inl (Memᴰ.head (sym ((eq_iff n h).0 e)))
  | inr e ↦ elim (mem_cases h rest) [
    | inl m ↦ inl (Memᴰ.tail m)
    | inr m ↦ inr (λ k. elim k [ Memᴰ.head q ↦ cc (e, (eq_iff n h).1 (sym q)) | Memᴰ.tail t ↦ m t ])
  ]
]

-- Two lists have the same names, the empty one apart.
abbrev pub HaveSameNames : List Str → List Str → Type 0
HaveSameNames hosts labels = (h : Str) → h ≢ [] → (Memᴰ h hosts ↔ Memᴰ h labels)

covered :
    (names others : List Str)
    → ((h : Str) → ¬ IsOnlyIn h names others)
    → (h : Str) → h ≢ []
    → Memᴰ h names
    → Memᴰ h others
covered names others nowhere h ne m = elim (mem_cases h others) [
  | inl k ↦ k
  | inr k ↦ absurd (nowhere h (ne, m, k))
]

no_member : (names : List Str) → (length names == 0) ≡ true → (h : Str) → ¬ Memᴰ h names
no_member [] e h m = elim m [ ]
no_member (n ∷ rest) e h m = ground (arith, e, eq_iff (length (n ∷ rest)) 0)

is_empty : (names : List Str) → ((h : Str) → ¬ Memᴰ h names) → (length names == 0) ≡ true
is_empty [] nobody = refl
is_empty (n ∷ rest) nobody = absurd (nobody n (Memᴰ.head refl))

pub is_ok-compare_iff :
    (hosts labels : List Str) → (is_ok (compare hosts labels) ≡ true) ↔ HaveSameNames hosts labels
unfolding is_ok
is_ok-compare_iff hosts labels = (
  λ e h ne. (
    covered hosts labels
        (λ g k.
          no_member (compare hosts labels).unclaimed_hosts (ground arith) g
            ((compare_iff hosts labels g).0.1 k))
        h ne,
    covered labels hosts
        (λ g k.
          no_member (compare hosts labels).unrouted_labels (ground arith) g
            ((compare_iff hosts labels g).1.1 k))
        h ne,
  ),
  λ same.
      let no_host : (length (compare hosts labels).unclaimed_hosts == 0) ≡ true =
        is_empty _
          (λ h m. let (ne, n, out) = (compare_iff hosts labels h).0.0 m in out ((same h ne).0 n)) in
      let no_label : (length (compare hosts labels).unrouted_labels == 0) ≡ true =
        is_empty _
          (λ h m. let (ne, n, out) = (compare_iff hosts labels h).1.0 m in out ((same h ne).1 n)) in
      ground (arith, no_host, no_label),
)
