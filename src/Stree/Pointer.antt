-- ===== src/Stree/Pointer.antt =====
-- The tagged pointers of rust/fcb_core/src/static_btree/stree.rs and the payloads behind them.
use flatcitybuf.Prelude.{
  ℕ, zero, suc, ◌-◌, ◌<◌, ◌≡◌, refl, ap, arith, true, false, List, [], ◌∷◌, ◌++◌, length, take,
  drop, length-append, drop-append_length, Bool-cases, inl, inr,
}
use flatcitybuf.Error.{ok}
use flatcitybuf.Array.{slice_range}
use flatcitybuf.Key.{Key}
use flatcitybuf.Payload.{PayloadEntry, serialize}
use flatcitybuf.Payload.RoundTrip.{IsValid, deserialize-serialize}
use flatcitybuf.Stree.{Stree, payload_tag, is_tagged, untag, tag}
use flatcitybuf.Stree.Search.{with_index, resolve}

pub is_tagged-small : (off : ℕ) → off < payload_tag → is_tagged off ≡ false
is_tagged-small off h = grind arith

pub is_tagged-tag : (rel : ℕ) → rel < payload_tag → is_tagged (tag rel) ≡ true
is_tagged-tag rel h = grind arith

pub untag-tag : (rel : ℕ) → rel < payload_tag → untag (tag rel) ≡ rel
untag-tag rel h = grind arith

take-length : (xs : List ℕ) (m : ℕ) → length xs ≡ m → take m xs ≡ xs
take-length [] zero h = refl
take-length [] (suc m) h = absurd (omega arith)
take-length (x ∷ xs) zero h = absurd (omega arith)
take-length (x ∷ xs) (suc m) h = ap (λ (t : List ℕ). x ∷ t) (take-length xs m (omega arith))

drop-prefix : (pre xs : List ℕ) (n : ℕ) → length pre ≡ n → drop n (pre ++ xs) ≡ xs
drop-prefix pre xs n h = rw (← h) (drop-append_length pre xs)

pub slice_range-suffix :
    (pre xs : List ℕ) (n : ℕ)
    → length pre ≡ n
    → slice_range (pre ++ xs) n (length (pre ++ xs)) ≡ ok xs
unfolding slice_range
slice_range-suffix pre xs n h =
    ground
      (arith, length-append pre xs, drop-prefix pre xs n h, take-length xs (length (pre ++ xs) - n))

module _ {K : Type 0} ⦃key : Key K⦄ (t : Stree K) (i : ℕ) where
  -- An offset without the tag is a result itself.
  pub resolve-small :
      (off : ℕ) → off < payload_tag → resolve t off i ≡ ok (record { offset = off; index = i } ∷ [])
  unfolding resolve
  resolve-small off h = elim (Bool-cases t.payload_initialized) [
    | inl e ↦ rw (e, is_tagged-small off h) refl
    | inr e ↦ rw e refl
  ]

  -- A tagged pointer to a payload that was written gives the offsets of the payload.
  pub resolve-tag :
      (p : PayloadEntry) (pre post : List ℕ)
      → t.payload_initialized ≡ true
      → t.payload_data ≡ pre ++ (serialize p ++ post)
      → length pre < payload_tag
      → IsValid p
      → resolve t (tag (length pre)) i ≡ ok (with_index i p.offsets)
  unfolding resolve
  resolve-tag p pre post on stored small valid =
      rw
        (
          on,
          is_tagged-tag (length pre) small,
          untag-tag (length pre) small,
          stored,
          slice_range-suffix pre (serialize p ++ post) (length pre) refl,
          (deserialize-serialize p post valid).0,
        )
        refl
