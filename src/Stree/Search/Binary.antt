-- ===== src/Stree/Search/Binary.antt =====
-- What `binary_search_by` finds, for the nodes of stree.rs.
use Prim.Native.Nat.{Ordering}
use flatcitybuf.Prelude.{
  ℕ, zero, suc, ◌≤◌, ◌<◌, ◌≡◌, refl, arith, true, List, [], ◌∷◌, length, get_or,
}
use flatcitybuf.Key.{Key, key_lt}
use flatcitybuf.Key.Order.{IsLinear, cmp-eq, lt_of_cmp-lt, lt_of_cmp-gt}
use flatcitybuf.Stree.{Entry, Found, found, missing, later, binary_search}
use flatcitybuf.Stree.Shape.{no_entry}

module _ {K : Type 0} ⦃key : Key K⦄ where
  -- The first `i` entries are before `k`.
  abbrev pub Before : List (Entry K) → K → ℕ → Type 0
  Before es k i = (j : ℕ) → j < i → key_lt (get_or es j no_entry).key k ≡ true

  -- The entry with key `k`, or the place where it would be inserted.
  abbrev pub Located : List (Entry K) → K → Found → Type 0
  Located es k (found i) = (i < length es) × ((get_or es i no_entry).key ≡ k) × Before es k i
  Located es k (missing i) =
      (i ≤ length es) × (i < length es → key_lt k (get_or es i no_entry).key ≡ true) × Before es k i

  module _ (linear : IsLinear key) where
    Before-cons :
        (e : Entry K) (es : List (Entry K)) (k : K) (i : ℕ)
        → key_lt e.key k ≡ true
        → Before es k i
        → Before (e ∷ es) k (suc i)
    Before-cons e es k i h hs zero lt = h
    Before-cons e es k i h hs (suc j) lt = hs j (omega arith)

    Located-later :
        (e : Entry K) (es : List (Entry K)) (k : K) (f : Found)
        → key_lt e.key k ≡ true
        → Located es k f
        → Located (e ∷ es) k (later f)
    Located-later e es k (found i) h (a, b, c) = (omega arith, b, Before-cons e es k i h c)
    Located-later e es k (missing i) h (a, b, c) =
        (omega arith, λ lt. b (omega arith), Before-cons e es k i h c)

    Located-cons :
        (e : Entry K) (es : List (Entry K)) (k : K) (c : Ordering)
        → key.cmp e.key k ≡ c
        → Located es k (binary_search es k)
        → Located (e ∷ es) k (binary_search (e ∷ es) k)
    unfolding binary_search
    Located-cons e es k Ordering.lt h hs =
        rw (binary_search, h)
          (Located-later e es k (binary_search es k) (lt_of_cmp-lt linear e.key k h) hs)
    Located-cons e es k Ordering.eq h hs =
        rw (binary_search, h) (omega arith, cmp-eq linear e.key k h, λ j lt. absurd (omega arith))
    Located-cons e es k Ordering.gt h hs =
        rw (binary_search, h)
          (omega arith, λ lt. lt_of_cmp-gt linear e.key k h, λ j lt. absurd (omega arith))

    pub binary_search-Located : (es : List (Entry K)) (k : K) → Located es k (binary_search es k)
    unfolding binary_search
    binary_search-Located [] k =
        (omega arith, λ lt. absurd (omega arith), λ j lt. absurd (omega arith))
    binary_search-Located (e ∷ es) k =
        Located-cons e es k (key.cmp e.key k) refl (binary_search-Located es k)
