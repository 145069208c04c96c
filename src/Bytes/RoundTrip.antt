-- ===== src/Bytes/RoundTrip.antt =====
-- Reading back what was written, for every width.
use flatcitybuf.Prelude.{
  ℕ, zero, suc, ◌/◌, ◌^◌, ◌<◌, ◌≡◌, refl, ap, arith, List, [], ◌∷◌, ◌++◌, length, All,
}
use flatcitybuf.Error.{ok, err, io_error}
use flatcitybuf.Bytes.{write_le, read_le}
use native.Mathlib.Nat.{pow-suc}

pub length-write_le : (width n : ℕ) → length (write_le width n) ≡ width
unfolding write_le
length-write_le zero n = refl
length-write_le (suc width) n = ap suc (length-write_le width (n / 256))

pub write_le-bytes : (width n : ℕ) → All (λ b. b < 256) (write_le width n)
unfolding write_le
write_le-bytes zero n = tt
write_le-bytes (suc width) n = (omega arith, write_le-bytes width (n / 256))

pub read_le-write_le :
    (width n : ℕ) (rest : List ℕ)
    → n < 256 ^ width
    → read_le width (write_le width n ++ rest) ≡ ok (n, rest)
unfolding read_le write_le
read_le-write_le zero n rest h = ap (λ (t : ℕ). ok (t, rest)) (omega arith)
read_le-write_le (suc width) n rest h =
    rw (read_le-write_le width (n / 256) rest (omega (arith, pow-suc 256 width)))
      (ap (λ (t : ℕ). ok (t, rest)) (omega arith))

-- A reader that is too short gives an error, never a number.
pub read_le-short :
    (width : ℕ) (bytes : List ℕ) → length bytes < width → read_le width bytes ≡ err io_error
unfolding read_le
read_le-short zero bytes h = absurd (omega arith)
read_le-short (suc width) [] h = refl
read_le-short (suc width) (b ∷ bytes) h = rw (read_le-short width bytes (omega arith))
