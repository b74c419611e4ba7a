-- ===== src/GoMap/Laws.antt =====
-- Laws of Go maps, in the form that `simp` and `ground` read.
use zonedns.Prelude.{
  ◌≡◌, refl, false, none, some, [], ◌∷◌, arith, if◌then◌else◌, Eq, ◌==◌, eq_iff, ◌||◌, Bool-cases,
  inl, inr,
}
use zonedns.GoMap.{Map, lookup, insert, erase, has}

module _ {ℓ κ} {K : Type ℓ} {V : Type κ} ⦃e : Eq K⦄ where
  pub lookup-erase :
      (gone asked : K) (m : Map K V)
      → lookup asked (erase gone m) ≡ (if gone == asked then none else lookup asked m)
  unfolding lookup erase
  lookup-erase gone asked [] = ground arith
  lookup-erase gone asked ((held, v) ∷ others) = ground (
    arith,
    lookup-erase gone asked others,
    eq_iff held asked,
    eq_iff gone asked,
    eq_iff held gone,
  )

  pub lookup-insert :
      (set asked : K) (value : V) (m : Map K V)
      → lookup asked (insert set value m) ≡ (if set == asked then some value else lookup asked m)
  unfolding insert lookup
  lookup-insert set asked value [] = refl
  lookup-insert set asked value ((held, v) ∷ others) = ground (
    arith,
    lookup-insert set asked value others,
    eq_iff held asked,
    eq_iff set asked,
    eq_iff held set,
  )

  pub has-insert : (k j : K) (v : V) (m : Map K V) → has j (insert k v m) ≡ (k == j || has j m)
  unfolding has
  has-insert k j v m = ground (arith, lookup-insert k j v m)

  pub has-erase : (k j : K) (m : Map K V) → has j (erase k m) ≡ (if k == j then false else has j m)
  unfolding has
  has-erase k j m = ground (arith, lookup-erase k j m)

  -- Every key stands once, as in a Go map: `length` then counts the keys.
  abbrev pub IsMap : Map K V → Type (ℓ ⊔ κ)
  IsMap [] = Unit
  IsMap ((k, v) ∷ m) = (lookup k m ≡ none) × IsMap m

  pub IsMap-insert : (k : K) (v : V) (m : Map K V) → IsMap m → IsMap (insert k v m)
  unfolding insert lookup
  IsMap-insert k v [] h = (refl, tt)
  IsMap-insert k v ((j, w) ∷ m) (fresh, h) = elim (Bool-cases (j == k)) [
    | inl e ↦ rw e (rw (← (eq_iff j k).0 e) fresh, h)
    | inr e ↦
        rw e (ground (arith, lookup-insert k j v m, eq_iff k j, eq_iff j k), IsMap-insert k v m h)
  ]

  pub IsMap-erase : (k : K) (m : Map K V) → IsMap m → IsMap (erase k m)
  unfolding erase
  IsMap-erase k [] h = tt
  IsMap-erase k ((j, w) ∷ m) (fresh, h) = elim (Bool-cases (j == k)) [
    | inl e ↦ rw e (IsMap-erase k m h)
    | inr e ↦ rw e (ground (arith, lookup-erase k j m), IsMap-erase k m h)
  ]
