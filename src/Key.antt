-- ===== src/Key.antt =====
-- The trait `Key` of rust/fcb_core/src/static_btree/key.rs, for the trees: the order, the two
-- extreme values and the default. `cmp` is the key's `Ord`; `==` on keys agrees with it.
pub mod Byte
pub mod Order
use Prim.Native.Nat.{Ordering}
use flatcitybuf.Prelude.{◌≡◌, refl, sym, Bool, true, false}

pub record Key (K : Type 0) : Type 0 where
  pub cmp : K → K → Ordering
  pub default : K
  pub max_value : K
  pub min_value : K

module _ {K : Type 0} ⦃key : Key K⦄ where
  -- `a < b`, `a <= b`, `a == b` on keys.
  abbrev pub key_lt : K → K → Bool
  key_lt a b = elim (key.cmp a b) [ Ordering.lt ↦ true | _ ↦ false ]

  abbrev pub key_le : K → K → Bool
  key_le a b = elim (key.cmp a b) [ Ordering.gt ↦ false | _ ↦ true ]

  abbrev pub key_eq : K → K → Bool
  key_eq a b = elim (key.cmp a b) [ Ordering.eq ↦ true | _ ↦ false ]

abbrev pub opposite : Ordering → Ordering
opposite Ordering.lt = Ordering.gt
opposite Ordering.eq = Ordering.eq
opposite Ordering.gt = Ordering.lt

-- The comparison of two keys the other way round, as `Ord` documents it.
pub record IsConsistent {K : Type 0} (key : Key K) : Type 0 where
  pub flip : (a b : K) → key.cmp b a ≡ opposite (key.cmp a b)

module _ {K : Type 0} ⦃key : Key K⦄ (law : IsConsistent key) where
  -- A key that is not before `a` and not equal to it is behind it.
  pub key_lt_of_le : (a b : K) → key_le a b ≡ true → key_eq b a ≡ false → key_lt a b ≡ true
  key_lt_of_le a b h ne = strict (key.cmp a b) h (rw (← law.flip a b) ne)
    where
      strict :
          (c : Ordering)
          → (elim c [ Ordering.gt ↦ false | _ ↦ true ]) ≡ true
          → (elim (opposite c) [ Ordering.eq ↦ true | _ ↦ false ]) ≡ false
          → (elim c [ Ordering.lt ↦ true | _ ↦ false ]) ≡ true
      strict Ordering.lt h ne = refl
      strict Ordering.eq h ne = sym ne
      strict Ordering.gt h ne = h

  -- Of two keys one is not behind the other.
  pub key_le_total : (a b : K) → key_le a b ≡ false → key_le b a ≡ true
  key_le_total a b h = rw (key_le, law.flip a b) (total (key.cmp a b) h)
    where
      total :
          (c : Ordering)
          → (elim c [ Ordering.gt ↦ false | _ ↦ true ]) ≡ false
          → (elim (opposite c) [ Ordering.gt ↦ false | _ ↦ true ]) ≡ true
      total Ordering.lt h = sym h
      total Ordering.eq h = refl
      total Ordering.gt h = refl
