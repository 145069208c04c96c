-- ===== src/Geometry.antt =====
-- The flattening of CityJSON boundaries: `encode_boundaries` of
-- rust/fcb_core/src/writer/geom_encoder.rs and `decode` of rust/fcb_core/src/reader/geom_decoder.rs.
-- `none` is a panic: an index or a slice out of range.
pub mod Flat
pub mod Encode
pub mod Decode
pub mod RoundTrip
mod Tests
use flatcitybuf.Prelude.{
  ℕ, zero, suc, ◌+◌, max, Option, none, some, Bool, List, [], ◌∷◌, ◌++◌, length, get_elem?, take,
  drop, leb, ◌==◌, if◌then◌else◌, as_u32,
}

-- The nested arrays of the crate cjseq, with the two constructors that the code matches on.
mutual
  pub data Boundaries : Type 0 where
    indices : List ℕ → Boundaries
    nested : Subs → Boundaries

  pub data Subs : Type 0 where
    nil : Subs
    cons : Boundaries → Subs → Subs

abbrev pub length_subs : Subs → ℕ
length_subs nil = 0
length_subs (cons b bs) = suc (length_subs bs)

pub record GmBoundaries : Type 0 where
  pub solids : List ℕ
  pub shells : List ℕ
  pub surfaces : List ℕ
  pub strings : List ℕ
  pub index_list : List ℕ

-- The count of a nested level goes to the array that the depth of its children names.
pub push_count : ℕ → ℕ → GmBoundaries → GmBoundaries
push_count max_depth n wip =
    if max_depth == 1
    then record wip { surfaces = wip.surfaces ++ (as_u32 n ∷ []) }
    else if max_depth == 2
    then record wip { shells = wip.shells ++ (as_u32 n ∷ []) }
    else if max_depth == 3
    then record wip { solids = wip.solids ++ (as_u32 n ∷ []) }
    else wip

abbrev pub push_ring : List ℕ → GmBoundaries → GmBoundaries
push_ring ring wip = record wip {
  index_list = wip.index_list ++ ring;
  strings = wip.strings ++ (as_u32 (length ring) ∷ []);
}

-- The depth that is returned, and the arrays. `encode_subs` is the loop over the children.
unfoldable mutual
  pub encode_boundaries : Boundaries → GmBoundaries → ℕ × GmBoundaries
  encode_boundaries (indices ring) wip = (1, push_ring ring wip)
  encode_boundaries (nested subs) wip =
      let (max_depth, wip') = encode_subs subs 0 wip in
      (max_depth + 1, push_count max_depth (length_subs subs) wip')

  pub encode_subs : Subs → ℕ → GmBoundaries → ℕ × GmBoundaries
  encode_subs nil max_depth wip = (max_depth, wip)
  encode_subs (cons b bs) max_depth wip =
      let (d, wip') = encode_boundaries b wip in encode_subs bs (max max_depth d) wip'

abbrev pub empty_boundaries : GmBoundaries
empty_boundaries = record { solids = []; shells = []; surfaces = []; strings = []; index_list = [] }

-- The part of `encode` that writes the boundaries.
unfoldable pub encode : Boundaries → GmBoundaries
unfolding encode_boundaries
encode b = (encode_boundaries b empty_boundaries).1

pub record Cursors : Type 0 where
  pub shell_cursor : ℕ
  pub surface_cursor : ℕ
  pub ring_cursor : ℕ
  pub index_cursor : ℕ

-- State passing over the cursors.
abbrev pub M : Type 0 → Type 0
M A = Cursors → Option (A × Cursors)

infixl 5 ◌>>=◌
abbrev pub ◌>>=◌ : {A B : Type 0} → M A → (A → M B) → M B
◌>>=◌ m f c = elim (m c) [ none ↦ none | some (a, c') ↦ f a c' ]

abbrev pub pure : {A : Type 0} → A → M A
pure a c = some (a, c)

-- `for _ in 0..n`, pushing what the body makes.
unfoldable pub repeat : ℕ → M Boundaries → M Subs
repeat zero body = pure nil
repeat (suc n) body = do b ← body; bs ← repeat n body; pure (cons b bs)

-- `for &n in counts.iter()`, pushing what the body makes.
unfoldable pub for_each : List ℕ → (ℕ → M Boundaries) → M Subs
for_each [] body = pure nil
for_each (n ∷ ns) body = do b ← body n; bs ← for_each ns body; pure (cons b bs)

-- `&xs[start..start + n]`
pub slice : List ℕ → ℕ → ℕ → Option (List ℕ)
slice xs start n = if leb (start + n) (length xs) then some (take n (drop start xs)) else none

module _ (gm : GmBoundaries) where
  -- The body that cuts `ring_size` indices out of the flat list.
  pub take_ring : ℕ → M Boundaries
  take_ring ring_size c = elim (slice gm.index_list c.index_cursor ring_size) [
    | none ↦ none
    | some ring ↦ some (indices ring, record c { index_cursor = c.index_cursor + ring_size })
  ]

  pub decode_ring : M Boundaries
  decode_ring c = elim (get_elem? gm.strings c.ring_cursor) [
    | none ↦ none
    | some ring_size ↦ take_ring ring_size (record c { ring_cursor = c.ring_cursor + 1 })
  ]

  pub decode_rings : ℕ → M Boundaries
  decode_rings n = do rings ← repeat n decode_ring; pure (nested rings)

  pub decode_surface : M Boundaries
  decode_surface c = elim (get_elem? gm.surfaces c.surface_cursor) [
    | none ↦ none
    | some rings_in_surface ↦
        decode_rings rings_in_surface (record c { surface_cursor = c.surface_cursor + 1 })
  ]

  pub decode_surfaces : ℕ → M Boundaries
  decode_surfaces n = do surfaces ← repeat n decode_surface; pure (nested surfaces)

  pub decode_shell : M Boundaries
  decode_shell c = elim (get_elem? gm.shells c.shell_cursor) [
    | none ↦ none
    | some surfaces_in_shell ↦
        decode_surfaces surfaces_in_shell (record c { shell_cursor = c.shell_cursor + 1 })
  ]

  pub decode_shells : ℕ → M Boundaries
  decode_shells n = do shells ← repeat n decode_shell; pure (nested shells)

-- A list of one is replaced by its item.
pub unwrap_single : Subs → Boundaries
unwrap_single (cons b nil) = b
unwrap_single nil = nested nil
unwrap_single (cons b (cons b' bs)) = nested (cons b (cons b' bs))

abbrev pub start : Cursors
start = record { shell_cursor = 0; surface_cursor = 0; ring_cursor = 0; index_cursor = 0 }

pub finish : Option (Subs × Cursors) → Option Boundaries
finish none = none
finish (some (bs, c)) = some (unwrap_single bs)

-- The outermost array that is not empty decides the depth.
unfoldable pub decode_by : GmBoundaries → List ℕ → List ℕ → List ℕ → List ℕ → Option Boundaries
unfolding decode_shells decode_surfaces decode_rings take_ring finish
decode_by gm (n ∷ ns) shells surfaces strings = finish (for_each (n ∷ ns) (decode_shells gm) start)
decode_by gm [] (n ∷ ns) surfaces strings = finish (for_each (n ∷ ns) (decode_surfaces gm) start)
decode_by gm [] [] (n ∷ ns) strings = finish (for_each (n ∷ ns) (decode_rings gm) start)
decode_by gm [] [] [] (n ∷ ns) = finish (for_each (n ∷ ns) (take_ring gm) start)
decode_by gm [] [] [] [] = some (indices gm.index_list)

unfoldable pub decode : GmBoundaries → Option Boundaries
unfolding decode_by
decode gm = decode_by gm gm.solids gm.shells gm.surfaces gm.strings
