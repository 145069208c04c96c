-- ===== src/Geometry/RoundTrip.antt =====
-- `decode` of geom_decoder.rs after `encode` of geom_encoder.rs, for every kind of geometry.
use flatcitybuf.Prelude.{
  ℕ, suc, ◌+◌, ◌≡◌, refl, sym, ap, ◌∙◌, arith, List, [], ◌∷◌, ◌++◌, length, map, append-nil, Option,
  some, ◌≢◌,
}
use flatcitybuf.Geometry.{
  Boundaries, indices, nested, Subs, nil, cons, GmBoundaries, empty_boundaries, Cursors, start,
  for_each, finish, unwrap_single, decode, encode, take_ring, decode_rings, decode_surfaces,
  decode_shells,
}
use flatcitybuf.Geometry.Flat.{
  Ring, Surface, Shell, Solid, Geometry, multi_point, multi_line_string, multi_surface, solid,
  multi_solid, subs_of, surface_boundaries, shell_boundaries, solid_boundaries, to_boundaries,
  GeometryValid, SolidValid, ⊕-empty, flats, ring_flat, surface_flat, shell_flat, solid_flat,
  surface_count, shell_count, solid_count, flat, surfaces-rings, shells-rings, solids-rings,
  shells-surfaces, solids-surfaces, solids-shells, surface_count_comm, shell_count_comm,
  solid_count_comm,
}
use flatcitybuf.Geometry.Encode.{encode-flat}
use flatcitybuf.Geometry.Decode.{
  for_each-flats, take_ring_step, decode_rings-flat, decode_surfaces-flat, decode_shells-flat,
  decode_solid-flat, slice-append,
}

-- The nested array that comes back: a multi-solid of one solid loses its outermost level.
abbrev pub decoded : Geometry → Boundaries
decoded (multi_solid ss) = unwrap_single (subs_of solid_boundaries ss)
decoded g = to_boundaries g

-- A loop over one count, in which `body` succeeds.
for_each-single :
    (n : ℕ) (body : ℕ → Cursors → Option (Boundaries × Cursors)) (b : Boundaries) (c : Cursors)
    → body n start ≡ some (b, c)
    → finish (for_each (n ∷ []) body start) ≡ some b
unfolding finish for_each unwrap_single
for_each-single n body b c h = ground arith

decode-solids :
    (gm : GmBoundaries) (n : ℕ) (ns : List ℕ)
    → gm.solids ≡ n ∷ ns
    → decode gm ≡ finish (for_each (n ∷ ns) (decode_shells gm) start)
unfolding decode
decode-solids gm n ns h = rw h refl

decode-shells :
    (gm : GmBoundaries) (n : ℕ) (ns : List ℕ)
    → gm.solids ≡ []
    → gm.shells ≡ n ∷ ns
    → decode gm ≡ finish (for_each (n ∷ ns) (decode_surfaces gm) start)
unfolding decode
decode-shells gm n ns p h = rw (p, h) refl

decode-surfaces :
    (gm : GmBoundaries) (n : ℕ) (ns : List ℕ)
    → gm.solids ≡ []
    → gm.shells ≡ []
    → gm.surfaces ≡ n ∷ ns
    → decode gm ≡ finish (for_each (n ∷ ns) (decode_rings gm) start)
unfolding decode
decode-surfaces gm n ns p q h = rw (p, q, h) refl

decode-multi_point : (r : Ring) → decode (ring_flat r) ≡ some (indices r)
unfolding decode
decode-multi_point r =
    for_each-single (length r) (take_ring (ring_flat r)) (indices r) _
      (take_ring_step (ring_flat r) (length r) start r (rw append-nil at (slice-append [] r [])))

decode-multi_line_string : (s : Surface) → decode (surface_flat s) ≡ some (surface_boundaries s)
decode-multi_line_string s =
    decode-surfaces (surface_flat s) (length s) [] (solids-rings s) (shells-rings s)
      (ap (λ (t : List ℕ). length s ∷ t) (surfaces-rings s))
    ∙ for_each-single (length s) (decode_rings (surface_flat s)) _ _ (
        decode_rings-flat (surface_flat s) s empty_boundaries (surface_count (length s))
          (sym (surface_count_comm (length s) (flats ring_flat s) (surfaces-rings s))))

decode-multi_surface : (s : Shell) → decode (shell_flat s) ≡ some (shell_boundaries s)
decode-multi_surface s =
    decode-shells (shell_flat s) (length s) [] (solids-surfaces s)
      (ap (λ (t : List ℕ). length s ∷ t) (shells-surfaces s))
    ∙ for_each-single (length s) (decode_surfaces (shell_flat s)) _ _ (
        decode_surfaces-flat (shell_flat s) s empty_boundaries (shell_count (length s))
          (sym (shell_count_comm (length s) (flats surface_flat s) (shells-surfaces s))))

decode-solid : (s : Solid) → decode (solid_flat s) ≡ some (solid_boundaries s)
decode-solid s =
    decode-solids (solid_flat s) (length s) [] (ap (λ (t : List ℕ). length s ∷ t) (solids-shells s))
    ∙ for_each-single (length s) (decode_shells (solid_flat s)) _ _ (
        decode_shells-flat (solid_flat s) s empty_boundaries (solid_count (length s))
          (sym (solid_count_comm (length s) (flats shell_flat s) (solids-shells s))))

solids-solids : (ss : List Solid) → (flats solid_flat ss).solids ≡ map length ss
solids-solids [] = refl
solids-solids (s ∷ ss) = λ i. length s ∷ (solids-shells s i ++ solids-solids ss i)

finish-some :
    (bs : Subs) (c : Cursors) (o : Option (Subs × Cursors))
    → o ≡ some (bs, c)
    → finish o ≡ some (unwrap_single bs)
unfolding finish
finish-some bs c o h = rw h refl

decode-multi_solid :
    (s : Solid) (ss : List Solid)
    → decode (flats solid_flat (s ∷ ss)) ≡ some (unwrap_single (subs_of solid_boundaries (s ∷ ss)))
decode-multi_solid s ss =
    let gm = flats solid_flat (s ∷ ss) in
    decode-solids gm (length s) (map length ss) (solids-solids (s ∷ ss))
    ∙ finish-some _ _ _ (
        for_each-flats gm (decode_shells gm) length solid_boundaries solid_flat (s ∷ ss)
          (decode_solid-flat gm) empty_boundaries empty_boundaries (sym (⊕-empty gm)))

-- Decoding the flat description of a geometry.
decode-flat : (g : Geometry) → GeometryValid g → decode (flat g) ≡ some (decoded g)
decode-flat (multi_point r) h = decode-multi_point r
decode-flat (multi_line_string s) h = decode-multi_line_string s
decode-flat (multi_surface s) h = decode-multi_surface s
decode-flat (solid s) h = decode-solid s
decode-flat (multi_solid []) h = absurd (omega arith)
decode-flat (multi_solid (s ∷ ss)) h = decode-multi_solid s ss

-- Decoding the encoded boundaries of a valid geometry never panics, and gives the boundaries back,
-- but for a multi-solid of a single solid, whose outermost level is dropped.
pub decode-encode :
    (g : Geometry) → GeometryValid g → decode (encode (to_boundaries g)) ≡ some (decoded g)
decode-encode g h = ap decode (encode-flat g h) ∙ decode-flat g h

mutual
  node_count : Boundaries → ℕ
  node_count (indices r) = 0
  node_count (nested bs) = suc (node_count_subs bs)

  node_count_subs : Subs → ℕ
  node_count_subs nil = 0
  node_count_subs (cons b bs) = node_count b + node_count_subs bs

-- A multi-solid of one solid and that solid alone have the same flat arrays, so no decoder of
-- those arrays can tell them apart, and `decode` returns the boundaries of the solid for both, when
-- the solid has shells, each with surfaces, each with rings, and all counts, those of the indices too, fit
-- 32 bits.
pub decode-encode_single :
    (s : Solid)
    → SolidValid s
    → (encode (to_boundaries (multi_solid (s ∷ []))) ≡ encode (to_boundaries (solid s)))
      × (decode (encode (to_boundaries (multi_solid (s ∷ [])))) ≡ some (to_boundaries (solid s)))
      × (to_boundaries (multi_solid (s ∷ [])) ≢ to_boundaries (solid s))
unfolding unwrap_single node_count
decode-encode_single s h = (
  encode-flat ss valid ∙ ⊕-empty (solid_flat s) ∙ sym (encode-flat (solid s) h),
  decode-encode ss valid,
  λ e. absurd (omega (arith, ap node_count e)),
)
  where
    ss : Geometry
    ss = multi_solid (s ∷ [])

    valid : GeometryValid ss
    valid = (omega arith, omega arith, (h, tt))
