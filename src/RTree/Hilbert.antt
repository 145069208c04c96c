-- ===== src/RTree/Hilbert.antt =====
-- The order of the leaves of rust/fcb_core/src/packed_rtree/mod.rs along a Hilbert curve:
-- `hilbert`, `hilbert_bbox`, `hilbert_sort`. The arithmetic of `f64` is a parameter.
use Prim.Native.Nat.{bit_and, bit_or, bit_xor}
use mathlib.Core.List.{Perm}
use mathlib.Core.List.Perm
use flatcitybuf.Prelude.{
  ℕ, suc, ◌*◌, ◌/◌, ◌%◌, ◌^◌, ◌≡◌, refl, ap, ◌∙◌, length, List, [], ◌∷◌, leb, if◌then◌else◌,
  Bool-cases, inl, inr,
}
use flatcitybuf.RTree.{NodeItem}

-- `f64`: the arithmetic, the number 2.0, and the casts `as f64` and `.floor() as u32`.
pub record Arith (F : Type 0) : Type 0 where
  pub add : F → F → F
  pub sub : F → F → F
  pub mul : F → F → F
  pub div : F → F → F
  pub of_u32 : ℕ → F
  pub floor_as_u32 : F → ℕ

-- `>>` and `<<` on `u32`.
abbrev shr : ℕ → ℕ → ℕ
shr x n = x / 2 ^ n

abbrev shl : ℕ → ℕ → ℕ
shl x n = x * 2 ^ n % 0x1_0000_0000

-- The variables `a`, `b`, `c`, `d` of `hilbert`.
pub record Curve : Type 0 where
  pub a : ℕ
  pub b : ℕ
  pub c : ℕ
  pub d : ℕ

curve_start : ℕ → ℕ → Curve
curve_start x y =
    let a = bit_xor x y in
    let b = bit_xor 0xffff a in
    let c = bit_xor 0xffff (bit_or x y) in
    let d = bit_and x (bit_xor y 0xffff) in
    record {
      a = bit_or a (shr b 1);
      b = bit_xor (shr a 1) a;
      c = bit_xor (bit_xor (shr c 1) (bit_and b (shr d 1))) c;
      d = bit_xor (bit_xor (bit_and a (shr c 1)) (shr d 1)) d;
    }

-- `cc` and `dd` of a step by `n` bits, with the `a`, `b`, `c`, `d` in front of it.
curve_cc : ℕ → Curve → ℕ
curve_cc n r = bit_xor r.c (bit_xor (bit_and r.a (shr r.c n)) (bit_and r.b (shr r.d n)))

curve_dd : ℕ → Curve → ℕ
curve_dd n r =
    bit_xor r.d (bit_xor (bit_and r.b (shr r.c n)) (bit_and (bit_xor r.a r.b) (shr r.d n)))

curve_step : ℕ → Curve → Curve
curve_step n r = record {
  a = bit_xor (bit_and r.a (shr r.a n)) (bit_and r.b (shr r.b n));
  b = bit_xor (bit_and r.a (shr r.b n)) (bit_and r.b (shr (bit_xor r.a r.b) n));
  c = curve_cc n r;
  d = curve_dd n r;
}

-- The bits of a 16-bit number at the even places.
interleave : ℕ → ℕ
interleave i =
    let i = bit_and (bit_or i (shl i 8)) 0x00ff00ff in
    let i = bit_and (bit_or i (shl i 4)) 0x0f0f0f0f in
    let i = bit_and (bit_or i (shl i 2)) 0x33333333 in bit_and (bit_or i (shl i 1)) 0x55555555

unfoldable pub hilbert : ℕ → ℕ → ℕ
unfolding curve_start curve_step curve_cc curve_dd interleave
hilbert x y =
    let r = curve_step 4 (curve_step 2 (curve_start x y)) in
    let c = curve_cc 8 r in
    let d = curve_dd 8 r in
    let a = bit_xor c (shr c 1) in
    let b = bit_xor d (shr d 1) in
    let i0 = bit_xor x y in
    let i1 = bit_or b (bit_xor 0xffff (bit_or i0 a)) in
    bit_or (shl (interleave i1) 1) (interleave i0)

-- `HILBERT_MAX`
abbrev pub hilbert_max : ℕ
hilbert_max = 0xffff

module _ {F : Type 0} ⦃ops : Arith F⦄ where
  -- `NodeItem::width` and `NodeItem::height`.
  abbrev pub width : NodeItem F → F
  width r = ops.sub r.max_x r.min_x

  abbrev pub height : NodeItem F → F
  height r = ops.sub r.max_y r.min_y

  -- One coordinate of the centre of a box, scaled to the grid.
  pub grid : F → F → F → F → ℕ → ℕ
  grid low high extent_low extent_size max = ops.floor_as_u32 (
      ops.div
        (ops.mul (ops.of_u32 max) (ops.sub (ops.div (ops.add low high) (ops.of_u32 2)) extent_low))
        extent_size)

  unfoldable pub hilbert_bbox : NodeItem F → ℕ → NodeItem F → ℕ
  unfolding grid hilbert
  hilbert_bbox r max extent =
      hilbert (grid r.min_x r.max_x extent.min_x (width extent) max)
        (grid r.min_y r.max_y extent.min_y (height extent) max)

  -- `sort_by` is stable: an item goes in front of the first that does not come before it.
  unfoldable pub insert_item : NodeItem F → NodeItem F → List (NodeItem F) → List (NodeItem F)
  insert_item extent e [] = e ∷ []
  insert_item extent e (x ∷ xs) =
      if leb (hilbert_bbox x hilbert_max extent) (hilbert_bbox e hilbert_max extent)
      then e ∷ x ∷ xs
      else x ∷ insert_item extent e xs

  unfoldable pub hilbert_sort : NodeItem F → List (NodeItem F) → List (NodeItem F)
  unfolding insert_item
  hilbert_sort extent [] = []
  hilbert_sort extent (e ∷ es) = insert_item extent e (hilbert_sort extent es)

  module _ (extent : NodeItem F) where
    insert_item-Perm :
        (e : NodeItem F) (es : List (NodeItem F)) → Perm (insert_item extent e es) (e ∷ es)
    unfolding insert_item
    insert_item-Perm e [] = Perm.refl _
    insert_item-Perm e (x ∷ xs) =
        elim (Bool-cases
          (leb (hilbert_bbox x hilbert_max extent) (hilbert_bbox e hilbert_max extent))) [
            | inl le ↦ rw le (Perm.refl _)
            | inr more ↦
                rw more (Perm.trans (Perm.cons x (insert_item-Perm e xs)) (Perm.swap e x xs))
          ]

    length-insert_item :
        (e : NodeItem F) (es : List (NodeItem F))
        → length (insert_item extent e es) ≡ suc (length es)
    unfolding insert_item
    length-insert_item e [] = refl
    length-insert_item e (x ∷ xs) =
        elim (Bool-cases
          (leb (hilbert_bbox x hilbert_max extent) (hilbert_bbox e hilbert_max extent))) [
            | inl le ↦ rw le refl
            | inr more ↦ rw more (ap suc (length-insert_item e xs))
          ]

    pub length-hilbert_sort : (es : List (NodeItem F)) → length (hilbert_sort extent es) ≡ length es
    unfolding hilbert_sort
    length-hilbert_sort [] = refl
    length-hilbert_sort (e ∷ es) =
        length-insert_item e (hilbert_sort extent es) ∙ ap suc (length-hilbert_sort es)

    pub hilbert_sort-Perm : (es : List (NodeItem F)) → Perm (hilbert_sort extent es) es
    unfolding hilbert_sort
    hilbert_sort-Perm [] = Perm.refl _
    hilbert_sort-Perm (e ∷ es) =
        Perm.trans (insert_item-Perm e (hilbert_sort extent es))
          (Perm.cons e (hilbert_sort-Perm es))
