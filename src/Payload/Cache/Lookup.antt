-- ===== src/Payload/Cache/Lookup.antt =====
-- Looking up entries in a cache of a part of the payload section.
use flatcitybuf.Prelude.{
  ℕ, ◌+◌, ◌-◌, ◌<◌, ◌≡◌, refl, arith, true, false, List, [], ◌∷◌, ◌++◌, some, length, length-append,
}
use flatcitybuf.Error.{Result, ok, err, io_error}
use flatcitybuf.Bytes.RoundTrip.{read_le-short}
use flatcitybuf.Payload.{PayloadEntry, serialize, deserialize}
use flatcitybuf.Payload.RoundTrip.{IsValid, deserialize-serialize}
use flatcitybuf.Payload.Cache.{
  PayloadCache, is_empty, contains, get_entry, update, read_payload_entry,
}
use flatcitybuf.Stree.Pointer.{slice_range-suffix}

not_empty : (bytes : List ℕ) → 0 < length bytes → is_empty bytes ≡ false
not_empty [] h = absurd (omega arith)
not_empty (b ∷ bytes) h = refl

-- After an update the cache contains exactly the offsets of its bytes.
contains-update :
    (cache : PayloadCache) (start : ℕ) (pre bytes : List ℕ)
    → 0 < length bytes
    → contains (update cache start (pre ++ bytes)) (start + length pre) ≡ true
unfolding contains update
contains-update cache start pre bytes h =
    let size = length-append pre bytes in ground (arith, not_empty (pre ++ bytes) (omega arith))

updated :
    (cache : PayloadCache) (start : ℕ) (bytes : List ℕ)
    → update cache start bytes
      ≡ record { bytes = bytes; start_offset = start; end_offset = start + length bytes }
unfolding update
updated cache start bytes = refl

at_pre : (start : ℕ) (pre : List ℕ) → start + length pre - start ≡ length pre
at_pre start pre = omega arith

module _ (cache : PayloadCache) (fetch : ℕ → Result PayloadEntry) (start : ℕ) (pre : List ℕ) where
  -- An entry that lies in the cache as a whole is returned from there.
  pub read_payload_entry-update :
      (entry : PayloadEntry) (post : List ℕ)
      → IsValid entry
      → read_payload_entry fetch
          (start + length pre)
          (some (update cache start (pre ++ (serialize entry ++ post))))
        ≡ ok entry
  unfolding read_payload_entry get_entry
  read_payload_entry-update entry post valid =
      let bytes = serialize entry ++ post in
      let stored : 0 < length bytes =
        omega (
          arith,
          length-append (serialize entry) post,
          (deserialize-serialize entry post valid).1,
        ) in
      rw (contains-update cache start pre bytes stored) (
        rw
          (
            updated cache start (pre ++ bytes),
            at_pre start pre,
            slice_range-suffix pre bytes (length pre) refl,
            (deserialize-serialize entry post valid).0,
          )
          refl)

  -- Where the cache ends inside the counter of an entry, the entry is not fetched: reading it
  -- fails.
  pub read_payload_entry-short :
      (bytes : List ℕ)
      → 0 < length bytes
      → length bytes < 4
      → read_payload_entry fetch (start + length pre) (some (update cache start (pre ++ bytes)))
        ≡ err io_error
  unfolding read_payload_entry get_entry deserialize
  read_payload_entry-short bytes stored short = rw (contains-update cache start pre bytes stored) (
      rw
        (
          updated cache start (pre ++ bytes),
          at_pre start pre,
          slice_range-suffix pre bytes (length pre) refl,
          read_le-short 4 bytes short,
        )
        refl)
