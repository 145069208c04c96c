-- ===== src/Bytes.antt =====
-- Little-endian numbers in byte buffers, as the crate byteorder reads and writes them for
-- rust/fcb_core/src/static_btree/payload.rs and entry.rs. A byte is a number below 256.
pub mod RoundTrip
use flatcitybuf.Prelude.{ℕ, zero, suc, ◌+◌, ◌*◌, ◌/◌, ◌%◌, List, [], ◌∷◌}
use flatcitybuf.Error.{Result, ok, err, io_error, ◌>>=◌}

-- The lowest `width` bytes of `n`, lowest first.
unfoldable pub write_le : ℕ → ℕ → List ℕ
write_le zero n = []
write_le (suc width) n = (n % 256) ∷ write_le width (n / 256)

-- `width` bytes from the front of a reader, and the rest; a short reader is an error.
unfoldable pub read_le : ℕ → List ℕ → Result (ℕ × List ℕ)
read_le zero bytes = ok (0, bytes)
read_le (suc width) [] = err io_error
read_le (suc width) (b ∷ bytes) = do (high, rest) ← read_le width bytes; ok (b + 256 * high, rest)
