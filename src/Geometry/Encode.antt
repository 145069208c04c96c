-- ===== src/Geometry/Encode.antt =====
-- What `encode_boundaries` of geom_encoder.rs appends to the flat arrays.
use flatcitybuf.Prelude.{
  ℕ, suc, ◌+◌, max, ◌≡◌, refl, sym, ap, ◌∙◌, arith, List, [], ◌∷◌, ◌++◌, length, All, All-map,
  NonEmpty, append-nil, as_u32, IsU32,
}
use flatcitybuf.Geometry.{
  Boundaries, indices, nested, length_subs, GmBoundaries, empty_boundaries, push_count,
  encode_boundaries, encode_subs, encode,
}
use flatcitybuf.Geometry.Flat.{
  Ring, Surface, Shell, Solid, Geometry, multi_point, multi_line_string, multi_surface, solid,
  multi_solid, subs_of, surface_boundaries, shell_boundaries, solid_boundaries, to_boundaries, Fits,
  SurfaceValid, ShellValid, SolidValid, GeometryValid, ◌⊕◌, ⊕_assoc, ⊕-empty, flats, ring_flat,
  surface_flat, shell_flat, solid_flat, surface_count, shell_count, solid_count, flat,
  surfaces-rings, shells-surfaces, solids-shells, surface_count_comm, shell_count_comm,
  solid_count_comm,
}

as_u32_lem : (n : ℕ) → IsU32 n → as_u32 n ≡ n
as_u32_lem n h = omega arith

pub length-subs_of :
    {A : Type 0} (f : A → Boundaries) (xs : List A) → length_subs (subs_of f xs) ≡ length xs
length-subs_of f [] = refl
length-subs_of f (x ∷ xs) = ap suc (length-subs_of f xs)

-- A part `x` of depth `d` is encoded by appending `g x`.
abbrev Appends : {A : Type 0} → (A → Boundaries) → (A → GmBoundaries) → ℕ → A → Type 0
Appends f g d x = (wip : GmBoundaries) → encode_boundaries (f x) wip ≡ (d, wip ⊕ g x)

encode_subs-from :
    {A : Type 0} (f : A → Boundaries) (g : A → GmBoundaries) (d : ℕ) (xs : List A) (m : ℕ)
    (wip : GmBoundaries)
    → max m d ≡ d
    → max d d ≡ d
    → All (Appends f g d) xs
    → NonEmpty xs
    → encode_subs (subs_of f xs) m wip ≡ (d, wip ⊕ flats g xs)
unfolding encode_boundaries encode_subs
encode_subs-from f g d [] m wip e e' (h) n = absurd (omega arith)
encode_subs-from f g d (x ∷ []) m wip e e' (h, hs) n =
    rw (h wip, e) (ap (λ (t : GmBoundaries). (d, wip ⊕ t)) (sym (⊕-empty (g x))))
encode_subs-from f g d (x ∷ y ∷ ys) m wip e e' (h, hs) n =
    rw (h wip, e, encode_subs-from f g d (y ∷ ys) d (wip ⊕ g x) e' e' hs (omega arith))
      (ap (λ (t : GmBoundaries). (d, t)) (⊕_assoc wip (g x) (flats g (y ∷ ys))))

append_nil_right : (xs : List ℕ) → xs ≡ xs ++ []
append_nil_right xs = sym (append-nil xs)

encode-ring : (r : Ring) → Fits r → Appends indices ring_flat 1 r
unfolding encode_boundaries
encode-ring r h wip = λ i. (
  1,
  record {
    solids = append_nil_right wip.solids i;
    shells = append_nil_right wip.shells i;
    surfaces = append_nil_right wip.surfaces i;
    strings = wip.strings ++ (as_u32_lem (length r) h i ∷ []);
    index_list = wip.index_list ++ r;
  },
)

push_count-1 : (n : ℕ) (w : GmBoundaries) → IsU32 n → push_count 1 n w ≡ w ⊕ surface_count n
unfolding push_count
push_count-1 n w h = λ i. record {
  solids = append_nil_right w.solids i;
  shells = append_nil_right w.shells i;
  surfaces = w.surfaces ++ (as_u32_lem n h i ∷ []);
  strings = append_nil_right w.strings i;
  index_list = append_nil_right w.index_list i;
}

push_count-2 : (n : ℕ) (w : GmBoundaries) → IsU32 n → push_count 2 n w ≡ w ⊕ shell_count n
unfolding push_count
push_count-2 n w h = λ i. record {
  solids = append_nil_right w.solids i;
  shells = w.shells ++ (as_u32_lem n h i ∷ []);
  surfaces = append_nil_right w.surfaces i;
  strings = append_nil_right w.strings i;
  index_list = append_nil_right w.index_list i;
}

push_count-3 : (n : ℕ) (w : GmBoundaries) → IsU32 n → push_count 3 n w ≡ w ⊕ solid_count n
unfolding push_count
push_count-3 n w h = λ i. record {
  solids = w.solids ++ (as_u32_lem n h i ∷ []);
  shells = append_nil_right w.shells i;
  surfaces = append_nil_right w.surfaces i;
  strings = append_nil_right w.strings i;
  index_list = append_nil_right w.index_list i;
}

-- A nested array of parts of depth `d` appends its count and its parts.
encode-nested :
    {A : Type 0} (f : A → Boundaries) (g : A → GmBoundaries) (d : ℕ) (count : ℕ → GmBoundaries)
    (xs : List A)
    → max 0 d ≡ d
    → max d d ≡ d
    → ((w : GmBoundaries) → push_count d (length xs) w ≡ w ⊕ count (length xs))
    → flats g xs ⊕ count (length xs) ≡ count (length xs) ⊕ flats g xs
    → All (Appends f g d) xs
    → NonEmpty xs
    → (wip : GmBoundaries)
    → encode_boundaries (nested (subs_of f xs)) wip
      ≡ (d + 1, wip ⊕ (count (length xs) ⊕ flats g xs))
unfolding encode_boundaries
encode-nested f g d count xs e e' push comm h n wip =
    rw (encode_subs-from f g d xs 0 wip e e' h n, length-subs_of f xs)
      (ap (λ (t : GmBoundaries). (d + 1, t))
        (push (wip ⊕ flats g xs)
          ∙ ⊕_assoc wip (flats g xs) (count (length xs))
          ∙ ap (λ (t : GmBoundaries). wip ⊕ t) comm))

encode-surface : (s : Surface) → SurfaceValid s → Appends surface_boundaries surface_flat 2 s
encode-surface s (n, fits, rings) =
    encode-nested indices ring_flat 1 surface_count s (omega arith) (omega arith)
      (λ w. push_count-1 (length s) w fits)
      (surface_count_comm (length s) (flats ring_flat s) (surfaces-rings s))
      (All-map _ _ encode-ring s rings) n

encode-shell : (s : Shell) → ShellValid s → Appends shell_boundaries shell_flat 3 s
encode-shell s (n, fits, surfaces) =
    encode-nested surface_boundaries surface_flat 2 shell_count s (omega arith) (omega arith)
      (λ w. push_count-2 (length s) w fits)
      (shell_count_comm (length s) (flats surface_flat s) (shells-surfaces s))
      (All-map _ _ encode-surface s surfaces) n

encode-solid : (s : Solid) → SolidValid s → Appends solid_boundaries solid_flat 4 s
encode-solid s (n, fits, shells) =
    encode-nested shell_boundaries shell_flat 3 solid_count s (omega arith) (omega arith)
      (λ w. push_count-3 (length s) w fits)
      (solid_count_comm (length s) (flats shell_flat s) (solids-shells s))
      (All-map _ _ encode-shell s shells) n

encode-solids :
    (ss : List Solid)
    → NonEmpty ss
    → All SolidValid ss
    → encode (nested (subs_of solid_boundaries ss)) ≡ flats solid_flat ss
unfolding encode encode_boundaries push_count
encode-solids ss n h =
    rw
      (encode_subs-from solid_boundaries solid_flat 4 ss 0 empty_boundaries (omega arith)
        (omega arith) (All-map _ _ encode-solid ss h) n)
      refl

-- `encode` writes, for a valid geometry of any kind, exactly the arrays of its flat description.
pub encode-flat : (g : Geometry) → GeometryValid g → encode (to_boundaries g) ≡ flat g
unfolding encode
encode-flat (multi_point r) h =
    ap (λ (t : ℕ × GmBoundaries). t.1) (encode-ring r h empty_boundaries)
encode-flat (multi_line_string s) h =
    ap (λ (t : ℕ × GmBoundaries). t.1) (encode-surface s h empty_boundaries)
encode-flat (multi_surface s) h =
    ap (λ (t : ℕ × GmBoundaries). t.1) (encode-shell s h empty_boundaries)
encode-flat (solid s) h = ap (λ (t : ℕ × GmBoundaries). t.1) (encode-solid s h empty_boundaries)
encode-flat (multi_solid ss) (n, fits, h) = encode-solids ss n h
