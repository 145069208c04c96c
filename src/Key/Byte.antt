-- ===== src/Key/Byte.antt =====
-- The `u8` keys of rust/fcb_core/src/static_btree/key.rs.
use Prim.Native.Nat.{Ordering, compare}
use Prim.Native.Nat.compare
use flatcitybuf.Prelude.{ℕ, zero, suc, ◌≡◌, refl, ap, arith, true, false}
use mathlib.Core.Bool.{false≢true}
use mathlib.Core.Path.{subst}
use flatcitybuf.Key.{Key, IsConsistent, opposite, key_eq}
use flatcitybuf.Key.Order.{IsLinear}

instance abbrev pub byte_key : Key ℕ
byte_key = record { cmp = compare; default = 0; max_value = 255; min_value = 0 }

compare-flip : (a b : ℕ) → compare b a ≡ opposite (compare a b)
compare-flip zero zero = rw compare.zero-zero refl
compare-flip zero (suc b) = rw (compare.zero-suc b, compare.suc-zero b) refl
compare-flip (suc a) zero = rw (compare.zero-suc a, compare.suc-zero a) refl
compare-flip (suc a) (suc b) = rw (compare.suc-suc a b, compare.suc-suc b a) (compare-flip a b)

pub byte_key-IsConsistent : IsConsistent byte_key
byte_key-IsConsistent = record { flip = compare-flip }

pub byte_key-exact : (a b : ℕ) → key_eq a b ≡ true → a ≡ b
byte_key-exact zero zero h = refl
byte_key-exact zero (suc b) h = absurd (false≢true (rw (key_eq, compare.zero-suc b) at h))
byte_key-exact (suc a) zero h = absurd (false≢true (rw (key_eq, compare.suc-zero a) at h))
byte_key-exact (suc a) (suc b) h = ap suc (
    byte_key-exact a b
      (subst (λ c. (elim c [ Ordering.eq ↦ true | _ ↦ false ]) ≡ true) (compare.suc-suc a b) h))

pub byte_key-IsLinear : IsLinear byte_key
byte_key-IsLinear = record {
  consistent = byte_key-IsConsistent;
  exact = byte_key-exact;
  trans = λ a b c h k. ground arith;
}
