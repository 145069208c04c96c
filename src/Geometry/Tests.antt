-- ===== src/Geometry/Tests.antt =====
-- Runs of geom_encoder.rs and geom_decoder.rs, and the theorems at concrete geometries.
use flatcitybuf.Prelude.{◌≡◌, ◌≢◌, refl, arith, [], ◌∷◌, some, none}
use flatcitybuf.Geometry.{
  indices, nested, nil, cons, encode, push_count, decode, unwrap_single, for_each, repeat, slice,
  decode_ring, decode_surface, decode_shell,
}
use flatcitybuf.Geometry.Flat.{Solid, Geometry, multi_solid, solid, to_boundaries, flat}
use flatcitybuf.Geometry.Encode.{encode-flat}
use flatcitybuf.Geometry.RoundTrip.{decode-encode, decode-encode_single}

abbrev tetrahedron : Solid
tetrahedron =
    (((0 ∷ 2 ∷ 1 ∷ []) ∷ [])
      ∷ ((0 ∷ 1 ∷ 3 ∷ []) ∷ [])
      ∷ ((1 ∷ 2 ∷ 3 ∷ []) ∷ [])
      ∷ ((2 ∷ 0 ∷ 3 ∷ []) ∷ (9 ∷ 8 ∷ 7 ∷ 6 ∷ []) ∷ [])
      ∷ [])
    ∷ []

abbrev two_solids : Geometry
two_solids = multi_solid (tetrahedron ∷ tetrahedron ∷ [])

encode_two : encode (to_boundaries two_solids) ≡ flat two_solids
unfolding encode push_count
encode_two = refl

-- A shell with no surface is not counted, and the arrays then cannot be decoded.
empty_shell :
    decode (
      encode (
        nested (
          cons (nested nil) (cons (nested (cons (nested (cons (indices (1 ∷ [])) nil)) nil)) nil))))
    ≡ none
unfolding encode push_count decode for_each repeat slice decode_ring decode_surface decode_shell
empty_shell = refl

encode-flat_example : encode (to_boundaries two_solids) ≡ flat two_solids
encode-flat_example = encode-flat two_solids (omega arith)

decode-encode_example : decode (encode (to_boundaries two_solids)) ≡ some (to_boundaries two_solids)
unfolding unwrap_single
decode-encode_example = decode-encode two_solids (omega arith)

decode-encode_single_example :
    (encode (to_boundaries (multi_solid (tetrahedron ∷ [])))
      ≡ encode (to_boundaries (solid tetrahedron)))
    × (decode (encode (to_boundaries (multi_solid (tetrahedron ∷ []))))
        ≡ some (to_boundaries (solid tetrahedron)))
    × (to_boundaries (multi_solid (tetrahedron ∷ [])) ≢ to_boundaries (solid tetrahedron))
decode-encode_single_example = decode-encode_single tetrahedron (omega arith)
