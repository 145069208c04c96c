-- ===== src/Array/Reads.antt =====
-- Reads and writes that stay in range.
use flatcitybuf.Prelude.{
  ℕ, zero, suc, ◌<◌, ◌≡◌, refl, ap, arith, List, [], ◌∷◌, length, get_or, ◌==◌, if◌then◌else◌,
}
use flatcitybuf.Error.{ok}
use flatcitybuf.Array.{at, put, first}

module _ {ℓ} {A : Type ℓ} where
  pub at-get_or : (xs : List A) (i : ℕ) (d : A) → i < length xs → at xs i ≡ ok (get_or xs i d)
  unfolding at
  at-get_or [] i d h = absurd (omega arith)
  at-get_or (x ∷ xs) zero d h = refl
  at-get_or (x ∷ xs) (suc i) d h = at-get_or xs i d (omega arith)

  pub first-get_or : (xs : List A) (d : A) → 0 < length xs → first xs ≡ ok (get_or xs 0 d)
  unfolding first
  first-get_or [] d h = absurd (omega arith)
  first-get_or (x ∷ xs) d h = refl

  -- What a list is after a write at place `i`.
  abbrev pub Written : List A → ℕ → A → A → List A → Type ℓ
  Written xs i v d ys =
      (length ys ≡ length xs) × ((j : ℕ) → get_or ys j d ≡ (if j == i then v else get_or xs j d))

  pub put-Written :
      (xs : List A) (i : ℕ) (v d : A)
      → i < length xs
      → (ys : List A) × (put xs i v ≡ ok ys) × Written xs i v d ys
  unfolding put
  put-Written [] i v d h = absurd (omega arith)
  put-Written (x ∷ xs) zero v d h = (v ∷ xs, refl, (refl, read))
    where
      read : (j : ℕ) → get_or (v ∷ xs) j d ≡ (if j == 0 then v else get_or (x ∷ xs) j d)
      read zero = refl
      read (suc j) = ground arith
  put-Written (x ∷ xs) (suc i) v d h =
      let (ys, written, (same, read)) = put-Written xs i v d (omega arith) in
      (x ∷ ys, rw written refl, (ap suc same, read_cons ys read))
    where
      read_cons :
          (ys : List A)
          → ((j : ℕ) → get_or ys j d ≡ (if j == i then v else get_or xs j d))
          → (j : ℕ) → get_or (x ∷ ys) j d ≡ (if j == suc i then v else get_or (x ∷ xs) j d)
      read_cons ys read zero = ground arith
      read_cons ys read (suc j) = ground (arith, read j)
