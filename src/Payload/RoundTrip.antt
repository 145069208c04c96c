-- ===== src/Payload/RoundTrip.antt =====
-- `deserialize` of payload.rs after `serialize`, and the sizes that both report.
use flatcitybuf.Prelude.{
  ℕ, ◌+◌, ◌*◌, ◌^◌, ◌<◌, ◌≡◌, refl, sym, arith, List, [], ◌∷◌, ◌++◌, append_assoc, length,
  length-append, All, IsU32,
}
use mathlib.Core.Path.{subst}
use flatcitybuf.Error.{ok}
use flatcitybuf.Bytes.{write_le}
use flatcitybuf.Bytes.RoundTrip.{read_le-write_le, length-write_le}
use flatcitybuf.Payload.{
  PayloadEntry, new, add_offset, serialized_size, write_offsets, serialize, read_offsets,
  deserialize,
}

abbrev pub IsU64 : ℕ → Type 0
IsU64 n = n < 256 ^ 8

-- The invariant of an entry: the counter counts the offsets, and all of them are machine words.
pub record IsValid (entry : PayloadEntry) : Type 0 where
  pub counted : entry.count ≡ length entry.offsets
  pub words : All IsU64 entry.offsets
  pub small : IsU32 entry.count

-- An entry filled by `add_offset` from a list of offsets.
unfoldable pub add_offsets : PayloadEntry → List ℕ → PayloadEntry
unfolding add_offset
add_offsets entry [] = entry
add_offsets entry (o ∷ os) = add_offsets (add_offset entry o) os

All-append {ℓ} : (P : ℕ → Type ℓ) (xs ys : List ℕ) → All P xs → All P ys → All P (xs ++ ys)
All-append P [] ys hs ks = ks
All-append P (x ∷ xs) ys (h, hs) ks = (h, All-append P xs ys hs ks)

pub new-IsValid : IsValid new
unfolding new
new-IsValid = record { counted = refl; words = tt; small = omega arith }

-- `add_offset` keeps the invariant as long as the counter does not wrap.
pub add_offset-IsValid :
    (entry : PayloadEntry) (o : ℕ)
    → IsValid entry
    → IsU64 o
    → entry.count + 1 < 0x1_0000_0000
    → IsValid (add_offset entry o)
unfolding add_offset
add_offset-IsValid entry o v w h = record {
  counted = omega (arith, v.counted, length-append entry.offsets (o ∷ []));
  words = All-append _ entry.offsets (o ∷ []) v.words (w, tt);
  small = omega arith;
}

length-write_offsets : (os : List ℕ) → length (write_offsets os) ≡ 8 * length os
unfolding write_offsets
length-write_offsets [] = refl
length-write_offsets (o ∷ os) = omega (
  arith,
  length-append (write_le 8 o) (write_offsets os),
  length-write_le 8 o,
  length-write_offsets os,
)

serialized_size_lem : (entry : PayloadEntry) → serialized_size entry ≡ entry.count * 8 + 4
unfolding serialized_size
serialized_size_lem entry = omega arith

-- `serialize` writes as many bytes as `serialized_size` says.
pub length-serialize :
    (entry : PayloadEntry) → IsValid entry → length (serialize entry) ≡ serialized_size entry
unfolding serialize serialized_size
length-serialize entry v = omega (
  arith,
  length-append (write_le 4 entry.count) (write_offsets entry.offsets),
  length-write_le 4 entry.count,
  length-write_offsets entry.offsets,
  v.counted,
)

read_offsets-write_offsets :
    (os rest : List ℕ)
    → All IsU64 os
    → read_offsets (length os) (write_offsets os ++ rest) ≡ ok (os, rest)
unfolding read_offsets write_offsets
read_offsets-write_offsets [] rest h = refl
read_offsets-write_offsets (o ∷ os) rest (h, hs) = rw (
  append_assoc (write_le 8 o) (write_offsets os) rest,
  read_le-write_le 8 o (write_offsets os ++ rest) h,
  read_offsets-write_offsets os rest hs,
)

deserialize-parts :
    (os rest : List ℕ)
    → All IsU64 os
    → IsU32 (length os)
    → deserialize (serialize (record { count = length os; offsets = os }) ++ rest)
      ≡ ok ((record { count = length os; offsets = os }, length os * 8), rest)
unfolding serialize deserialize
deserialize-parts os rest h small = rw (
  append_assoc (write_le 4 (length os)) (write_offsets os) rest,
  read_le-write_le 4 (length os) (write_offsets os ++ rest) small,
  read_offsets-write_offsets os rest h,
)

-- `deserialize` reads back a valid entry that `serialize` wrote, leaves what follows it in the
-- reader, and reports the bytes of the offsets alone: four less than were read.
pub deserialize-serialize :
    (entry : PayloadEntry) (rest : List ℕ)
    → IsValid entry
    → (deserialize (serialize entry ++ rest) ≡ ok ((entry, length entry.offsets * 8), rest))
      × (length (serialize entry) ≡ length entry.offsets * 8 + 4)
deserialize-serialize entry rest v = (
  subst (λ e. deserialize (serialize e ++ rest) ≡ ok ((e, length entry.offsets * 8), rest))
      (λ i. record { count = sym v.counted i; offsets = entry.offsets })
      (deserialize-parts entry.offsets rest v.words (subst IsU32 v.counted v.small)),
  omega (arith, length-serialize entry v, v.counted, serialized_size_lem entry),
)
