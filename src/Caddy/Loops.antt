-- ===== src/Caddy/Loops.antt =====
-- The loops of the parsers: what every round keeps holds at the end, and the fuel is enough.
use zonedns.Prelude.{
  ℕ, zero, suc, ◌<◌, ◌≤◌, ◌≡◌, ◌≢◌, inl, inr, Option, none, some, arith, Option-cases, Bool-cases,
  Result-cases, Result, ok,
}
use zonedns.Caddy.{Dispenser, block, blocks}

-- A round keeps a property of the configuration, and does not move back.
abbrev pub Moves :
    (d : Dispenser) {C : Type 0} (P : C → Type 0) → d.State → C → C → d.State → Type 0
Moves d P s cfg cfg' s' = (P cfg → P cfg') × (d.left s' ≤ d.left s)

module _ (d : Dispenser) {C E : Type 0} (property : d.State → C → Result E (C × d.State))
    (P : C → Type 0)
    (moves : (s s' : d.State) (cfg cfg' : C)
      → property s cfg ≡ ok (cfg', s')
      → Moves d P s cfg cfg' s') where
  open d use {State}

  block-Moves :
      (n : ℕ) (s s' : State) (cfg cfg' : C)
      → block d property n s cfg ≡ some (ok (cfg', s'))
      → Moves d P s cfg cfg' s'
  unfolding block
  block-Moves zero s s' cfg cfg' h = ground arith
  block-Moves (suc n) s s' cfg cfg' h = elim (Bool-cases (d.next_block s).0) [
    | inr e ↦
        let q : cfg ≡ cfg' = ground (arith, e) in
        (λ k. rw (← q) k, ground (arith, e, d.left-block_end s))
    | inl e ↦ elim (Result-cases (property (d.next_block s).1 cfg)) [
      | inl (x, f) ↦ ground (arith, e, f)
      | inr ((mid, t), f) ↦
          let first = moves (d.next_block s).1 t cfg mid f in
          let later = block-Moves n t s' mid cfg' (ground (arith, e, f)) in
          (λ k. later.0 (first.0 k), ground (arith, first.1, later.1, d.left-block_end s))
    ]
  ]

  block-ne-none : (n : ℕ) (s : State) (cfg : C) → d.left s < n → block d property n s cfg ≢ none
  unfolding block
  block-ne-none zero s cfg l h = omega arith
  block-ne-none (suc n) s cfg l h = elim (Bool-cases (d.next_block s).0) [
    | inr e ↦ ground (arith, e)
    | inl e ↦ elim (Result-cases (property (d.next_block s).1 cfg)) [
      | inl (x, f) ↦ ground (arith, e, f)
      | inr ((mid, t), f) ↦
          block-ne-none n t mid
            (ground (arith, (moves (d.next_block s).1 t cfg mid f).1, d.left-next_block s e))
            (ground (arith, e, f))
    ]
  ]

  -- The block behind the next directive.
  abbrev whole : State → C → Option (Result E (C × State))
  whole s cfg = block d property (suc (d.left (d.next s).1)) (d.next s).1 cfg

  blocks-kept :
      (n : ℕ) (s : State) (cfg out : C) → blocks d property n s cfg ≡ some (ok out) → P cfg → P out
  unfolding blocks
  blocks-kept zero s cfg out h k = ground arith
  blocks-kept (suc n) s cfg out h k = elim (Bool-cases (d.next s).0) [
    | inr e ↦ (let q : cfg ≡ out = ground (arith, e) in rw (← q) k)
    | inl e ↦ elim (Option-cases (whole s cfg)) [
      | inl f ↦ ground (arith, e, f)
      | inr (r, f) ↦ elim (Result-cases r) [
        | inl (x, g) ↦ ground (arith, e, f, g)
        | inr ((mid, t), g) ↦ blocks-kept n t mid out (ground (arith, e, f, g)) (
            (block-Moves (suc (d.left (d.next s).1)) (d.next s).1 t cfg mid
                (ground (arith, f, g))).0
              k)
      ]
    ]
  ]

  blocks-ne-none : (n : ℕ) (s : State) (cfg : C) → d.left s < n → blocks d property n s cfg ≢ none
  unfolding blocks
  blocks-ne-none zero s cfg l h = omega arith
  blocks-ne-none (suc n) s cfg l h = elim (Bool-cases (d.next s).0) [
    | inr e ↦ ground (arith, e)
    | inl e ↦ elim (Option-cases (whole s cfg)) [
      | inl f ↦ block-ne-none (suc (d.left (d.next s).1)) (d.next s).1 cfg (omega arith) f
      | inr (r, f) ↦ elim (Result-cases r) [
        | inl (x, g) ↦ ground (arith, e, f, g)
        | inr ((mid, t), g) ↦
            blocks-ne-none n t mid
              (ground (
                arith,
                d.left-next s e,
                (block-Moves (suc (d.left (d.next s).1)) (d.next s).1 t cfg mid
                    (ground (arith, f, g))).1,
              ))
              (ground (arith, e, f, g))
      ]
    ]
  ]

  -- With as much fuel as there are tokens the loops end, and keep the property.
  pub blocks_lem :
      (s : State) (cfg : C)
      → P cfg
      → (blocks d property (suc (d.left s)) s cfg ≢ none)
        × ((out : C) → blocks d property (suc (d.left s)) s cfg ≡ some (ok out) → P out)
  blocks_lem s cfg k = (
    blocks-ne-none (suc (d.left s)) s cfg (omega arith),
    λ out h. blocks-kept (suc (d.left s)) s cfg out h k,
  )
