-- ===== src/GoMap/Keys.antt =====
-- The keys of a Go map: `len` counts them.
use zonedns.Prelude.{
  ◌≡◌, ◌↔◌, refl, sym, true, List, [], ◌∷◌, arith, length, Memᴰ, Eq, ◌==◌, eq_iff, Bool-cases, inl,
  inr,
}
use zonedns.GoMap.{Map, lookup, has}
use zonedns.GoMap.Laws.{IsMap}

module _ {ℓ κ} {K : Type ℓ} {V : Type κ} ⦃e : Eq K⦄ where
  abbrev pub keys : Map K V → List K
  keys [] = []
  keys ((k, v) ∷ m) = k ∷ keys m

  pub length-keys : (m : Map K V) → length (keys m) ≡ length m
  length-keys [] = refl
  length-keys ((k, v) ∷ m) = omega (arith, length-keys m)

  pub mem-keys_iff : (k : K) (m : Map K V) → Memᴰ k (keys m) ↔ (has k m ≡ true)
  unfolding has lookup
  mem-keys_iff k [] = (λ m. elim m [ ], λ h. cc)
  mem-keys_iff k ((j, v) ∷ m) = (
    λ i. elim i [
      | Memᴰ.head q ↦ ground (arith, (eq_iff j k).1 (sym q))
      | Memᴰ.tail t ↦ ground (arith, (mem-keys_iff k m).0 t)
    ],
    λ h. elim (Bool-cases (j == k)) [
      | inl q ↦ Memᴰ.head (sym ((eq_iff j k).0 q))
      | inr q ↦ Memᴰ.tail ((mem-keys_iff k m).1 (ground (arith, q)))
    ],
  )

-- No value stands twice.
abbrev pub AreDistinct {ℓ} : {A : Type ℓ} → List A → Type ℓ
AreDistinct [] = Unit
AreDistinct (x ∷ xs) = (¬ Memᴰ x xs) × AreDistinct xs

module _ {ℓ κ} {K : Type ℓ} {V : Type κ} ⦃e : Eq K⦄ where
  pub keys-AreDistinct : (m : Map K V) → IsMap m → AreDistinct (keys m)
  unfolding has
  keys-AreDistinct [] h = tt
  keys-AreDistinct ((k, v) ∷ m) (fresh, h) =
      (λ i. ground (arith, (mem-keys_iff k m).0 i, fresh), keys-AreDistinct m h)
