-- ===== src/Array.antt =====
-- Indexing of vectors and slices as Rust does it: out of range it panics.
pub mod Reads
pub mod Slices
use flatcitybuf.Prelude.{
  ℕ, zero, suc, ◌-◌, ◌&&◌, List, [], ◌∷◌, length, take, drop, leb, if◌then◌else◌,
}
use flatcitybuf.Error.{Result, ok, panic, map_ok}

-- An index out of range panics.
unfoldable pub at {ℓ} : {A : Type ℓ} → List A → ℕ → Result A
at [] i = panic
at (x ∷ xs) zero = ok x
at (x ∷ xs) (suc i) = at xs i

unfoldable pub put {ℓ} : {A : Type ℓ} → List A → ℕ → A → Result (List A)
put [] i v = panic
put (x ∷ xs) zero v = ok (v ∷ xs)
put (x ∷ xs) (suc i) v = map_ok (λ ys. x ∷ ys) (put xs i v)

-- `&xs[start..end]`
unfoldable pub slice_range {ℓ} : {A : Type ℓ} → List A → ℕ → ℕ → Result (List A)
slice_range xs start end =
    if leb start end && leb end (length xs) then ok (take (end - start) (drop start xs)) else panic

unfoldable pub first {ℓ} : {A : Type ℓ} → List A → Result A
first [] = panic
first (r ∷ rs) = ok r
