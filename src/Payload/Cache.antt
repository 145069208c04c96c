-- ===== src/Payload/Cache.antt =====
-- `PayloadCache` and `read_payload_entry` of rust/fcb_core/src/static_btree/stree.rs. What fetches
-- an entry over HTTP is a parameter.
pub mod Lookup
use flatcitybuf.Prelude.{
  ℕ, ◌+◌, ◌-◌, Bool, true, false, not, ◌&&◌, List, [], ◌∷◌, Option, none, some, length, leb, ltb,
  if◌then◌else◌,
}
use flatcitybuf.Error.{Result, ok, err, payload_offset_not_in_cache, ◌>>=◌}
use flatcitybuf.Array.{slice_range}
use flatcitybuf.Payload.{PayloadEntry, deserialize}

pub record PayloadCache : Type 0 where
  pub bytes : List ℕ
  pub start_offset : ℕ
  pub end_offset : ℕ

unfoldable pub empty_cache : PayloadCache
empty_cache = record { bytes = []; start_offset = 0; end_offset = 0 }

abbrev pub is_empty : List ℕ → Bool
is_empty [] = true
is_empty (b ∷ bs) = false

unfoldable pub contains : PayloadCache → ℕ → Bool
contains cache offset =
    not (is_empty cache.bytes) && (leb cache.start_offset offset && ltb offset cache.end_offset)

unfoldable pub get_entry : PayloadCache → ℕ → Result PayloadEntry
unfolding contains slice_range
get_entry cache offset =
    let found = (do
      bytes ← slice_range cache.bytes (offset - cache.start_offset) (length cache.bytes)
      ((entry, n), rest) ← deserialize bytes
      ok entry) in
    if contains cache offset then found else err payload_offset_not_in_cache

unfoldable pub update : PayloadCache → ℕ → List ℕ → PayloadCache
update cache start_offset bytes = record {
  bytes = bytes;
  start_offset = start_offset;
  end_offset = start_offset + length bytes;
}

-- `fetch` is `read_http_payload_data` on the client.
unfoldable pub read_payload_entry :
    (ℕ → Result PayloadEntry) → ℕ → Option PayloadCache → Result PayloadEntry
unfolding get_entry
read_payload_entry fetch offset none = fetch offset
read_payload_entry fetch offset (some cache) =
    if contains cache offset then get_entry cache offset else fetch offset
