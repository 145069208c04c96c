-- ===== src/RTree/Search/Window.antt =====
-- Runs of places, counted: the arithmetic of the search loop of mod.rs.
use flatcitybuf.Prelude.{
  ℕ, suc, ◌+◌, ◌-◌, ◌*◌, ◌/◌, ◌≤◌, ◌<◌, ◌≡◌, refl, arith, Bool, true, false, ◌&&◌, List, [], ◌∷◌,
  ◌++◌, ltb, leb, ◌==◌, if◌then◌else◌, min,
}
use flatcitybuf.Levels.{div_ceil}
use flatcitybuf.RTree.{SearchResultItem}

-- 1 where `x` is one of the `n` places from `pos` on, else 0.
abbrev pub window : ℕ → ℕ → ℕ → ℕ
window pos n x = if leb pos x && ltb x (pos + n) then 1 else 0

pub window_ne : (pos x : ℕ) → ¬ (x ≡ pos) → window pos 1 x ≡ 0
window_ne pos x h = ground arith

pub window-suc : (pos n x : ℕ) → window pos (suc n) x ≡ window pos 1 x + window (pos + 1) n x
window-suc pos n x = ground arith

-- How many of the items have index `p`.
abbrev pub count_index : ℕ → List SearchResultItem → ℕ
count_index p [] = 0
count_index p (r ∷ rs) = (if r.index == p then 1 else 0) + count_index p rs

pub count_index-append :
    (p : ℕ) (rs ss : List SearchResultItem)
    → count_index p (rs ++ ss) ≡ count_index p rs + count_index p ss
count_index-append p [] ss = omega arith
count_index-append p (r ∷ rs) ss = omega (arith, count_index-append p rs ss)

pub div_bounds : (b x : ℕ) → 1 ≤ b → (x / b * b ≤ x) × (x < x / b * b + b)
div_bounds b x h = (grind arith, grind arith)

pub div_unique : (b x i : ℕ) → 1 ≤ b → i * b ≤ x → x < i * b + b → x / b ≡ i
div_unique b x i h p q = grind arith

pub div_bounds_at : (b x i : ℕ) → 1 ≤ b → x / b ≡ i → (i * b ≤ x) × (x < i * b + b)
div_bounds_at b x i h e = rw (← e) (div_bounds b x h)

pub mul-lt_of_lt_div_ceil : (b i n : ℕ) → 1 ≤ b → i < div_ceil n b → i * b < n
mul-lt_of_lt_div_ceil b i n h k = grind arith

-- The children from i * b on, cut at the end of the level, hold child x exactly if i = x / b.
pub child_window :
    (b x i start end parents : ℕ)
    → 1 ≤ b
    → start + x < end
    → window (start + i * b) (min (start + i * b + b) end - (start + i * b)) (start + x)
      ≡ window (parents + i) 1 (parents + x / b)
child_window b x i start end parents h k = ground (arith, div_unique b x i, div_bounds_at b x i)

pub window_zero : (pos x : ℕ) → window pos 0 x ≡ 0
window_zero pos x = ground arith

-- A number that counts only if the leaf is hit.
abbrev pub counted : Bool → ℕ → ℕ
counted true n = n
counted false n = 0

pub counted_add :
    (h : Bool) (a b : ℕ) {x y c : ℕ}
    → x ≡ y
    → counted h a ≡ counted h b
    → c ≡ y + b
    → counted h (x + a) ≡ counted h c
counted_add true a b p q r = omega arith
counted_add false a b p q r = refl

pub counted_skip :
    (h : Bool) (y a b : ℕ) {c : ℕ}
    → counted h y ≡ 0
    → counted h a ≡ counted h b
    → c ≡ y + b
    → counted h a ≡ counted h c
counted_skip true y a b p q r = omega arith
counted_skip false y a b p q r = refl
