-- ===== src/Key/Order.antt =====
-- The linear order of the keys, as the `Ord` of the key types documents it.
use Prim.Native.Nat.{Ordering}
use flatcitybuf.Prelude.{◌≡◌, refl, sym, ◌∙◌, true, false}
use mathlib.Core.Path.{subst}
use mathlib.Core.Bool.{false≢true}
use flatcitybuf.Key.{Key, IsConsistent, opposite, key_lt, key_eq}

-- A strict total order, whose equal keys are the same key.
pub record IsLinear {K : Type 0} (key : Key K) : Type 0 where
  pub consistent : IsConsistent key
  pub exact : (a b : K) → key_eq ⦃key = key⦄ a b ≡ true → a ≡ b
  pub trans :
      (a b c : K)
      → key_lt ⦃key = key⦄ a b ≡ true
      → key_lt ⦃key = key⦄ b c ≡ true
      → key_lt ⦃key = key⦄ a c ≡ true

module _ {K : Type 0} ⦃key : Key K⦄ (linear : IsLinear key) where
  self_opposite : (c : Ordering) → c ≡ opposite c → c ≡ Ordering.eq
  self_opposite Ordering.lt h = cc
  self_opposite Ordering.eq h = refl
  self_opposite Ordering.gt h = cc

  pub cmp_refl : (a : K) → key.cmp a a ≡ Ordering.eq
  cmp_refl a = self_opposite (key.cmp a a) (linear.consistent.flip a a)

  pub cmp-eq : (a b : K) → key.cmp a b ≡ Ordering.eq → a ≡ b
  cmp-eq a b h = linear.exact a b (rw (key_eq, h) refl)

  pub lt_of_cmp-lt : (a b : K) → key.cmp a b ≡ Ordering.lt → key_lt a b ≡ true
  lt_of_cmp-lt a b h = rw (key_lt, h) refl

  pub lt_of_cmp-gt : (a b : K) → key.cmp a b ≡ Ordering.gt → key_lt b a ≡ true
  lt_of_cmp-gt a b h = rw (key_lt, linear.consistent.flip a b, h) refl

  pub lt_irrefl : (a : K) → key_lt a a ≡ false
  lt_irrefl a = rw (key_lt, cmp_refl a) refl

  pub lt_asym : (a b : K) → key_lt a b ≡ true → key_lt b a ≡ true → ⊥
  lt_asym a b h k = false≢true (sym (lt_irrefl a) ∙ linear.trans a b a h k)

  pub lt-ne : (a b : K) → key_lt a b ≡ true → ¬ (a ≡ b)
  lt-ne a b h e = false≢true (sym (lt_irrefl b) ∙ subst (λ x. key_lt x b ≡ true) e h)
