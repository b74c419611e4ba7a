-- ===== src/Directives/Order.antt =====
-- Which orders of directives the check refuses and accepts.
use zonedns.Prelude.{
  ℕ, ◌+◌, ◌<◌, ◌≡◌, ◌≢◌, refl, ap, ◌∙◌, Option, none, some, List, [], ◌∷◌, ◌++◌, arith, eq_iff, All,
  length, suc, Memᴰ,
}
use zonedns.Text.{Str, str_eq, text}
use zonedns.Directives.{Places, not_registered, place, scan, judge, check_order}

abbrev start : Places
start = record { plugin_at = none; cache_at = none }

scan-append :
    (name : Str) (i : ℕ) (p : Places) (ds es : List Str)
    → scan name i p (ds ++ es) ≡ scan name (i + length ds) (scan name i p ds) es
unfolding scan
scan-append name i p [] es = let e : i ≡ i + 0 = omega arith in ap (λ j. scan name j p es) e
scan-append name i p (d ∷ ds) es =
    let e : i + 1 + length ds ≡ i + suc (length ds) = omega arith in
    scan-append name (i + 1) (place name i d p) ds es
    ∙ ap (λ j. scan name j (scan name (i + 1) (place name i d p) ds) es) e

abbrev IsBefore : ℕ → Option ℕ → Type 0
IsBefore i none = ⊥
IsBefore i (some c) = c < i

abbrev AreOrdered : Option ℕ → Option ℕ → Type 0
AreOrdered (some k) (some c) = k < c
AreOrdered _ _ = ⊥

-- A cache was met before the index; the plugin stands behind the last cache, or in front of it.
abbrev IsCached : ℕ → Places → Type 0
IsCached i p = IsBefore i p.cache_at

abbrev IsLate : Places → Type 0
IsLate p = AreOrdered p.cache_at p.plugin_at

abbrev IsEarly : Places → Type 0
IsEarly p = AreOrdered p.plugin_at p.cache_at

module _ (name : Str) where
  scan-IsCached :
      (i : ℕ) (p : Places) (ds : List Str)
      → IsCached i p
      → IsCached (i + length ds) (scan name i p ds)
  unfolding scan
  scan-IsCached i p [] h = ground arith
  scan-IsCached i p (d ∷ ds) h =
      let e : i + 1 + length ds ≡ i + suc (length ds) = omega arith in
      rw (← e) (scan-IsCached (i + 1) (place name i d p) ds (unfold place in ground arith))

  -- Once the cache is met in a list it stays met.
  scan-met :
      name ≢ text "cache"
      → (i : ℕ) (p : Places) (ds : List Str) → Memᴰ (text "cache") ds
      → IsCached (i + length ds) (scan name i p ds)
  unfolding scan
  scan-met ne i p [] m = elim m [ ]
  scan-met ne i p (d ∷ ds) (Memᴰ.head q) =
      let e : i + 1 + length ds ≡ i + suc (length ds) = omega arith in
      rw (← e) (
        scan-IsCached (i + 1) (place name i d p) ds
          (unfold place in ground (arith, eq_iff d name, eq_iff d (text "cache"))))
  scan-met ne i p (d ∷ ds) (Memᴰ.tail m) =
      let e : i + 1 + length ds ≡ i + suc (length ds) = omega arith in
      rw (← e) (scan-met ne (i + 1) (place name i d p) ds m)

  scan-IsLate :
      (i : ℕ) (p : Places) (ds : List Str)
      → All (λ d. d ≢ text "cache") ds
      → IsLate p
      → IsCached i p
      → IsLate (scan name i p ds)
  unfolding scan
  scan-IsLate i p [] h late c = late
  scan-IsLate i p (d ∷ ds) (ne, h) late c =
      scan-IsLate (i + 1) (place name i d p) ds h
        (unfold place in ground (arith, eq_iff d (text "cache")))
        (unfold place in ground (arith, eq_iff d (text "cache")))

  judge-IsLate : (p : Places) → IsLate p → judge p ≢ none
  unfolding judge
  judge-IsLate p late h = ground arith

  -- The plugin's own directive, at an index behind a cache that was met.
  place-IsLate : (i : ℕ) (p : Places) → IsCached i p → IsLate (place name i name p)
  unfolding place
  place-IsLate i p c = ground (arith, eq_iff name name)

  place-IsCached : (i : ℕ) (p : Places) → IsCached i p → IsCached (i + 1) (place name i name p)
  unfolding place
  place-IsCached i p c = ground (arith, eq_iff name name)

  -- A list with a cache in front of the plugin, and none behind it, is refused.
  pub check_order_refuses :
      name ≢ text "cache"
      → (front back : List Str) → Memᴰ (text "cache") front
      → All (λ d. d ≢ text "cache") back
      → check_order name (front ++ name ∷ back) ≢ none
  unfolding check_order
  check_order_refuses ne front back m h =
      let p = scan name 0 start front in
      let c : IsCached (0 + length front) p = scan-met ne 0 _ front m in
      let late : IsLate (scan name (0 + length front) p (name ∷ back)) =
        scan-IsLate _ _ back h (place-IsLate _ p c) (place-IsCached _ p c) in
      judge-IsLate (scan name 0 start (front ++ name ∷ back)) (rw scan-append late)

  -- No cache so far, and then the plugin: what comes later can only put a cache behind it.
  abbrev IsFine : ℕ → Places → Type 0
  IsFine i p = elim p.plugin_at [
    | none ↦ ⊥
    | some k ↦ (k < i) × elim p.cache_at [ none ↦ Unit | some c ↦ k < c ]
  ]

  scan-IsFine :
      (i : ℕ) (p : Places) (ds : List Str)
      → All (λ d. d ≢ name) ds
      → IsFine i p
      → IsFine (i + length ds) (scan name i p ds)
  unfolding scan
  scan-IsFine i p [] h fine = ground arith
  scan-IsFine i p (d ∷ ds) (ne, h) fine =
      let e : i + 1 + length ds ≡ i + suc (length ds) = omega arith in
      rw (← e) (
        scan-IsFine (i + 1) (place name i d p) ds h (unfold place in ground (arith, eq_iff d name)))

  scan-cache_less :
      (i : ℕ) (p : Places) (ds : List Str)
      → All (λ d. d ≢ text "cache") ds
      → p.cache_at ≡ none
      → (scan name i p ds).cache_at ≡ none
  unfolding scan
  scan-cache_less i p [] h e = e
  scan-cache_less i p (d ∷ ds) (ne, h) e =
      scan-cache_less (i + 1) (place name i d p) ds h
        (unfold place in ground (arith, eq_iff d (text "cache")))

  place-IsFine : (i : ℕ) (p : Places) → p.cache_at ≡ none → IsFine (i + 1) (place name i name p)
  unfolding place
  place-IsFine i p e = ground (arith, eq_iff name name)

  judge-IsFine : (i : ℕ) (p : Places) → IsFine i p → judge p ≡ none
  unfolding judge
  judge-IsFine i p h = ground arith

  -- A list with no cache in front of the plugin, which stands there once, is accepted.
  pub check_order_accepts :
      (front back : List Str)
      → All (λ d. d ≢ text "cache") front
      → All (λ d. d ≢ name) back
      → check_order name (front ++ name ∷ back) ≡ none
  unfolding check_order
  check_order_accepts front back h k =
      let p = scan name 0 start front in
      let e : p.cache_at ≡ none = scan-cache_less 0 _ front h refl in
      let fine : IsFine _ (scan name (0 + length front) p (name ∷ back)) =
        scan-IsFine _ _ back k (place-IsFine (0 + length front) p e) in
      judge-IsFine (0 + length front + 1 + length back) (scan name 0 start (front ++ name ∷ back))
        (rw scan-append fine)

scan-plugin_less :
    (name : Str) (i : ℕ) (p : Places) (ds : List Str)
    → All (λ d. d ≢ name) ds
    → p.plugin_at ≡ none
    → (scan name i p ds).plugin_at ≡ none
unfolding scan
scan-plugin_less name i p [] h e = e
scan-plugin_less name i p (d ∷ ds) (ne, h) e =
    scan-plugin_less name (i + 1) (place name i d p) ds h
      (unfold place in ground (arith, eq_iff d name))

judge-unregistered : (p : Places) → p.plugin_at ≡ none → judge p ≡ some not_registered
unfolding judge
judge-unregistered p e = ground arith

-- A list without the plugin is refused as such.
pub check_order_missing :
    (name : Str) (ds : List Str)
    → All (λ d. d ≢ name) ds
    → check_order name ds ≡ some not_registered
unfolding check_order
check_order_missing name ds h =
    judge-unregistered (scan name 0 start ds) (scan-plugin_less name 0 start ds h refl)
