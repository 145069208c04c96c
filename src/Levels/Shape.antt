-- ===== src/Levels/Shape.antt =====
-- The levels of a packed tree, from the ranges that `generate_level_bounds` of mod.rs or stree.rs
-- makes.
use mathlib.Core.Path.{subst}
use flatcitybuf.Prelude.{
  ℕ, zero, suc, ◌+◌, ◌-◌, ◌<◌, ◌≡◌, ap, arith, Bool, true, List, [], ◌∷◌, length, get_or,
}
use flatcitybuf.Levels.{Range, div_ceil}
use flatcitybuf.Levels.Count.{Above}
use flatcitybuf.Levels.Bounds.{Tiles}

-- Each level ends where the one below it starts and has its parents; the last stands at 0 and has a
-- number of items that is small enough.
abbrev pub Shape : (ℕ → Type 0) → ℕ → List Range → Type 0
Shape root b [] = ⊥
Shape root b (r ∷ []) = (r.start ≡ 0) × root r.end
Shape root b (r ∷ p ∷ rs) =
    (p.end ≡ r.start) × (p.start + div_ceil (r.end - r.start) b ≡ p.end) × Shape root b (p ∷ rs)

pub Tiles-Shape :
    (stop : ℕ → Bool) (root : ℕ → Type 0)
    → ((m : ℕ) → stop m ≡ true → root m)
    → (b n total : ℕ) (ms : List ℕ) (r : Range) (rs : List Range) → Above stop b n ms
    → Tiles total (n ∷ ms) (r ∷ rs)
    → Shape root b (r ∷ rs)
Tiles-Shape stop root small b n total [] r rs a t = absurd a
Tiles-Shape stop root small b n total (m ∷ ms) r [] a (e, s, t) = absurd t
Tiles-Shape stop root small b n total (m ∷ []) r (p ∷ p' ∷ rs) a (e, s, (e', s', t)) = absurd t
Tiles-Shape stop root small b n total (m ∷ []) r (p ∷ []) (up, last) (e, s, (e', s', z)) =
    let size : n ≡ r.end - r.start = omega arith in
    (
      e',
      omega (arith, ap (λ (k : ℕ). div_ceil k b) size),
      (omega arith, subst root (omega arith) (small m last)),
    )
Tiles-Shape stop root small b n total (m ∷ m' ∷ ms) r (p ∷ rs) (up, more, a) (e, s, (e', s', t)) =
    let size : n ≡ r.end - r.start = omega arith in
    (
      e',
      omega (arith, ap (λ (k : ℕ). div_ceil k b) size),
      Tiles-Shape stop root small b m r.start (m' ∷ ms) p rs a (e', s', t),
    )

-- The range that a lookup out of bounds gives.
abbrev pub no_range : Range
no_range = record { start = 0; end = 0 }

pub Shape-link :
    (root : ℕ → Type 0) (b : ℕ) (rs : List Range) (l : ℕ)
    → Shape root b rs
    → suc l < length rs
    → ((get_or rs (suc l) no_range).end ≡ (get_or rs l no_range).start)
      × ((get_or rs (suc l) no_range).start
            + div_ceil ((get_or rs l no_range).end - (get_or rs l no_range).start) b
          ≡ (get_or rs (suc l) no_range).end)
Shape-link root b [] l s h = absurd s
Shape-link root b (r ∷ []) l s h = absurd (omega arith)
Shape-link root b (r ∷ p ∷ rs) zero (e, s, rest) h = (e, s)
Shape-link root b (r ∷ p ∷ rs) (suc l) (e, s, rest) h =
    Shape-link root b (p ∷ rs) l rest (omega arith)

pub Shape-root :
    (root : ℕ → Type 0) (b : ℕ) (rs : List Range) (top : ℕ)
    → Shape root b rs
    → length rs ≡ suc top
    → ((get_or rs top no_range).start ≡ 0) × root (get_or rs top no_range).end
Shape-root root b [] top s h = absurd s
Shape-root root b (r ∷ []) zero s h = s
Shape-root root b (r ∷ []) (suc top) s h = absurd (omega arith)
Shape-root root b (r ∷ p ∷ rs) zero s h = absurd (omega arith)
Shape-root root b (r ∷ p ∷ rs) (suc top) (e, s, rest) h =
    Shape-root root b (p ∷ rs) top rest (omega arith)
