-- ===== src/Stree/Codec/RoundTrip.antt =====
-- `from_buf` after `stream_write`, in stree.rs.
use flatcitybuf.Prelude.{
  ℕ, ◌≤◌, ◌<◌, ◌^◌, ◌≡◌, refl, arith, true, not, ◌&&◌, List, [], ◌∷◌, ◌++◌, append_assoc, length,
  All, if◌then◌else◌,
}
use flatcitybuf.Error.{ok}
use flatcitybuf.Array.{first}
use flatcitybuf.Bytes.{write_le}
use flatcitybuf.Bytes.RoundTrip.{read_le-write_le}
use flatcitybuf.Levels.{Range}
use flatcitybuf.Stree.{Entry, Stree, generate_level_bounds, clamp_factor}
use flatcitybuf.Stree.Codec.{
  KeyCodec, int_codec, no_bytes, write_entry, read_entry, read_entries, write_entries, stream_write,
  from_buf,
}

-- A key that `fits` is read back from its bytes.
pub record IsCodec {K : Type 0} (codec : KeyCodec K) (fits : K → Type 0) : Type 0 where
  pub back :
      (k : K) (rest : List ℕ) → fits k → codec.read_from (codec.write_to k ++ rest) ≡ ok (k, rest)

-- The codec of the unsigned integers reads back every number of its width.
pub int_codec-IsCodec : (width : ℕ) → IsCodec (int_codec width) (λ n. n < 256 ^ width)
int_codec-IsCodec width = record { back = read_le-write_le width }

module _ {K : Type 0} ⦃codec : KeyCodec K⦄ {fits : K → Type 0} (law : IsCodec codec fits) where
  -- The key fits its codec and the offset its 64 bits.
  abbrev pub Fits : Entry K → Type 0
  Fits e = fits e.key × (e.offset < 256 ^ 8)

  read_entry-write_entry :
      (e : Entry K) (rest : List ℕ) → Fits e → read_entry (write_entry e ++ rest) ≡ ok (e, rest)
  unfolding read_entry write_entry
  read_entry-write_entry e rest (h, k) =
      rw
        (
          append_assoc (codec.write_to e.key) (write_le 8 e.offset) rest,
          law.back e.key (write_le 8 e.offset ++ rest) h,
          read_le-write_le 8 e.offset rest k,
        )
        refl

  read_entries-write_entries :
      (es : List (Entry K)) (rest : List ℕ)
      → All Fits es
      → read_entries (length es) (write_entries es ++ rest) ≡ ok (es, rest)
  unfolding read_entries write_entries
  read_entries-write_entries [] rest hs = refl
  read_entries-write_entries (e ∷ es) rest (h, hs) =
      rw
        (
          append_assoc (write_entry e) (write_entries es) rest,
          read_entry-write_entry e (write_entries es ++ rest) h,
          read_entries-write_entries es rest hs,
        )
        refl

  written_payload :
      (t : Stree K)
      → t.payload_initialized ≡ true
      → (if t.payload_initialized && not (no_bytes t.payload_data) then t.payload_data else [])
        ≡ t.payload_data
  written_payload t on = rw on (all_or_nothing t.payload_data)
    where
      all_or_nothing :
          (bytes : List ℕ) → (if true && not (no_bytes bytes) then bytes else []) ≡ bytes
      all_or_nothing [] = refl
      all_or_nothing (b ∷ bytes) = refl

  -- A tree with its payload section in memory, whose levels are those of its leaf count and its
  -- branching factor, with an item for each place of the levels and entries that fit, is read
  -- back from the bytes that `stream_write` writes; an empty payload section counts as absent.
  pub from_buf-stream_write-payload :
      (t : Stree K) (leaves : Range)
      → t.payload_initialized ≡ true
      → 2 ≤ t.branching_factor
      → t.branching_factor ≤ 65535
      → generate_level_bounds t.num_leaf_nodes t.branching_factor ≡ ok t.level_bounds
      → first t.level_bounds ≡ ok leaves
      → leaves.end ≡ length t.node_items
      → All Fits t.node_items
      → from_buf (stream_write t) t.num_leaf_nodes t.branching_factor
        ≡ ok (record t { payload_initialized = not (no_bytes t.payload_data) })
  unfolding from_buf stream_write
  from_buf-stream_write-payload t leaves on wide narrow bounds start end fit =
      let same : clamp_factor t.branching_factor ≡ t.branching_factor = ground arith in
      rw
        (
          same,
          written_payload t on,
          bounds,
          start,
          end,
          read_entries-write_entries t.node_items t.payload_data fit,
        )
        refl
