-- ===== src/Levels/Count.antt =====
-- The counting loop of `generate_level_bounds` and the sizes of the levels.
use flatcitybuf.Prelude.{
  ℕ, zero, suc, ◌+◌, ◌-◌, ◌*◌, ◌≤◌, ◌<◌, ◌≡◌, refl, arith, Bool, true, false, List, [], ◌∷◌,
  Bool-cases, inl, inr,
}
use flatcitybuf.Error.{ok}
use flatcitybuf.Levels.{div_ceil, sum, upper_counts}

div_ceil-lt : (b n : ℕ) → 2 ≤ b → 2 ≤ n → div_ceil n b < n
div_ceil-lt b n h k = grind arith

div_ceil-pos : (b n : ℕ) → 2 ≤ b → 1 ≤ n → 1 ≤ div_ceil n b
div_ceil-pos b n h k = grind arith

div_ceil-one : (b : ℕ) → 2 ≤ b → div_ceil 1 b ≡ 1
div_ceil-one b h = grind arith

div_ceil-le : (b n : ℕ) → 2 ≤ b → 1 ≤ n → div_ceil n b ≤ n
div_ceil-le b n h k = grind arith

half_of_product : (c q n : ℕ) → (2 + c) * q ≤ n + (2 + c) - 1 → 1 ≤ n → 2 * q ≤ n + 1
half_of_product c zero n h p = omega arith
half_of_product c (suc q) n h p =
    let split : (2 + c) * suc q ≡ 2 * suc q + (c * q + c) = grind arith in omega arith

div_ceil-half : (b n : ℕ) → 2 ≤ b → 1 ≤ n → 2 * div_ceil n b ≤ n + 1
div_ceil-half zero n h p = absurd (omega arith)
div_ceil-half (suc zero) n h p = absurd (omega arith)
div_ceil-half (suc (suc c)) n h p = half_of_product c (div_ceil n (suc (suc c))) n (grind arith) p

div_ceil-shrinks : (b n : ℕ) → 2 ≤ b → 1 ≤ n → 2 ≤ div_ceil n b → div_ceil n b < n
div_ceil-shrinks b zero h k two = absurd (omega arith)
div_ceil-shrinks b (suc zero) h k two = absurd (omega (arith, div_ceil-one b h))
div_ceil-shrinks b (suc (suc n)) h k two = div_ceil-lt b (suc (suc n)) h (omega arith)

-- The levels above one of `n` nodes: each is the one below divided by `b` and rounded up, and the
-- loop ends at the first that `stop` accepts.
abbrev pub Above : (ℕ → Bool) → ℕ → ℕ → List ℕ → Type 0
Above stop b n [] = ⊥
Above stop b n (m ∷ []) = (m ≡ div_ceil n b) × (stop m ≡ true)
Above stop b n (m ∷ m' ∷ ms) = (m ≡ div_ceil n b) × (stop m ≡ false) × Above stop b m (m' ∷ ms)

Above-cons :
    (stop : ℕ → Bool) (b n : ℕ) (ms : List ℕ)
    → stop (div_ceil n b) ≡ false
    → Above stop b (div_ceil n b) ms
    → Above stop b n (div_ceil n b ∷ ms)
Above-cons stop b n [] s h = absurd h
Above-cons stop b n (m ∷ ms) s h = (refl, s, h)

module _ (stop : ℕ → Bool) (stops : (m : ℕ) → 1 ≤ m → stop m ≡ false → 2 ≤ m) (b : ℕ)
    (wide : 2 ≤ b) where
  -- The levels above have no more than twice the nodes together.
  pub Above-sum : (n : ℕ) (ms : List ℕ) → 1 ≤ n → Above stop b n ms → sum ms ≤ 2 * n
  Above-sum n [] p h = absurd h
  Above-sum n (m ∷ []) p (e, s) = omega (arith, div_ceil-le b n wide p)
  Above-sum n (m ∷ m' ∷ ms) p (e, s, h) =
      let some_node : 1 ≤ m = omega (arith, div_ceil-pos b n wide p) in
      omega
        (arith, div_ceil-half b n wide p, stops m some_node s, Above-sum m (m' ∷ ms) some_node h)

  -- With as many rounds as nodes the loop ends, and finds the levels above.
  pub upper_counts-Above :
      (fuel n : ℕ)
      → 1 ≤ n
      → n ≤ fuel
      → (ms : List ℕ) × (upper_counts stop fuel b n ≡ ok ms) × Above stop b n ms
  unfolding upper_counts
  upper_counts-Above zero n p h = absurd (omega arith)
  upper_counts-Above (suc fuel) n p h = elim (Bool-cases (stop (div_ceil n b))) [
    | inl e ↦ (div_ceil n b ∷ [], rw e refl, (refl, e))
    | inr e ↦
        let m = div_ceil n b in
        let two : 2 ≤ m = stops m (div_ceil-pos b n wide p) e in
        let (ms, found, above) =
          upper_counts-Above fuel m (div_ceil-pos b n wide p)
            (omega (arith, div_ceil-shrinks b n wide p two)) in
        (m ∷ ms, rw (e, found) refl, Above-cons stop b n ms e above)
  ]
