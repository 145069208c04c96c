-- ===== src/Array/Slices.antt =====
-- Slices in range, by their items.
use flatcitybuf.Prelude.{
  ℕ, zero, suc, ◌+◌, ◌-◌, ◌≤◌, ◌<◌, ◌≡◌, refl, ap, arith, List, [], ◌∷◌, length, get_or, take, drop,
  min, ◌∙◌, le→leb,
}
use flatcitybuf.Error.{ok}
use flatcitybuf.Array.{slice_range}

module _ {ℓ} {A : Type ℓ} where
  length-take : (xs : List A) (n : ℕ) → length (take n xs) ≡ min n (length xs)
  length-take xs zero = omega arith
  length-take [] (suc n) = omega arith
  length-take (x ∷ xs) (suc n) = omega (arith, length-take xs n)

  pub length-drop : (xs : List A) (n : ℕ) → length (drop n xs) ≡ length xs - n
  length-drop xs zero = omega arith
  length-drop [] (suc n) = omega arith
  length-drop (x ∷ xs) (suc n) = omega (arith, length-drop xs n)

  get_or-take : (xs : List A) (n i : ℕ) (d : A) → i < n → get_or (take n xs) i d ≡ get_or xs i d
  get_or-take xs zero i d h = absurd (omega arith)
  get_or-take [] (suc n) i d h = refl
  get_or-take (x ∷ xs) (suc n) zero d h = refl
  get_or-take (x ∷ xs) (suc n) (suc i) d h = get_or-take xs n i d (omega arith)

  get_or-drop : (xs : List A) (n i : ℕ) (d : A) → get_or (drop n xs) i d ≡ get_or xs (n + i) d
  get_or-drop xs zero i d = ap (λ (j : ℕ). get_or xs j d) (omega arith)
  get_or-drop [] (suc n) i d = refl
  get_or-drop (x ∷ xs) (suc n) i d =
      let e : suc n + i ≡ suc (n + i) = omega arith in rw e (get_or-drop xs n i d)

  -- A slice in range has the items from its start on.
  abbrev pub IsSlice : List A → ℕ → ℕ → A → List A → Type ℓ
  IsSlice xs start n d ys =
      (length ys ≡ n) × ((i : ℕ) → i < n → get_or ys i d ≡ get_or xs (start + i) d)

  pub slice_range-IsSlice :
      (xs : List A) (start end : ℕ) (d : A)
      → start ≤ end
      → end ≤ length xs
      → (ys : List A) × (slice_range xs start end ≡ ok ys) × IsSlice xs start (end - start) d ys
  unfolding slice_range
  slice_range-IsSlice xs start end d h k = (
    take (end - start) (drop start xs),
    rw (le→leb start end h, le→leb end (length xs) k) refl,
    (
      omega (arith, length-take (drop start xs) (end - start), length-drop xs start),
      λ i lt. get_or-take (drop start xs) (end - start) i d lt ∙ get_or-drop xs start i d,
    ),
  )
