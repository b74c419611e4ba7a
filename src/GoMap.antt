-- ===== src/GoMap.antt =====
-- Go maps as association lists without order: `lookup`, `insert`, `erase` and `length` are
-- m[k], m[k] = v, delete(m, k) and len(m).
pub mod Laws
pub mod Keys
use zonedns.Prelude.{
  ℕ, ◌≡◌, refl, Bool, true, false, Option, none, some, List, [], ◌∷◌, arith, map, is_some,
  if◌then◌else◌, Eq, ◌==◌, eq_iff,
}

abbrev pub Map {ℓ κ} : Type ℓ → Type κ → Type (ℓ ⊔ κ)
Map K V = List (K × V)

-- map[K]struct{}
abbrev pub Set {ℓ} : Type ℓ → Type ℓ
Set K = Map K (Unit {0})

module _ {ℓ κ} {K : Type ℓ} {V : Type κ} ⦃e : Eq K⦄ where
  unfoldable pub lookup : (key : K) → Map K V → Option V
  lookup key [] = none
  lookup key ((held, v) ∷ others) = if held == key then some v else lookup key others

  unfoldable pub erase : (key : K) → Map K V → Map K V
  erase key [] = []
  erase key ((held, v) ∷ others) =
      let kept = erase key others in if held == key then kept else (held, v) ∷ kept

  unfoldable pub insert : (key : K) (value : V) → Map K V → Map K V
  insert key value [] = (key, value) ∷ []
  insert key value ((held, v) ∷ others) =
      if held == key then (key, value) ∷ others else (held, v) ∷ insert key value others

  -- `_, ok := m[k]`
  unfoldable pub has : K → Map K V → Bool
  unfolding lookup
  has k m = is_some (lookup k m)
