-- ===== src/Geometry/Decode.antt =====
-- What `decode` of geom_decoder.rs rebuilds from flat arrays, part by part.
use flatcitybuf.Prelude.{
  ℕ, suc, ◌+◌, ◌≡◌, sym, ap, ◌∙◌, arith, List, [], ◌∷◌, ◌++◌, length, map, get_elem?, append-nil,
  some, length-append, get_elem?-append_length, drop-append_length, take-append_length,
}
use flatcitybuf.Geometry.{
  Boundaries, indices, nested, Subs, cons, GmBoundaries, Cursors, M, repeat, for_each, slice,
  take_ring, decode_ring, decode_rings, decode_surface, decode_surfaces, decode_shell,
  decode_shells,
}
use flatcitybuf.Geometry.Flat.{
  Ring, Surface, Shell, Solid, subs_of, surface_boundaries, shell_boundaries, solid_boundaries, ◌⊕◌,
  ⊕_assoc, ⊕-empty, flats, ring_flat, surface_flat, shell_flat, solid_flat, surface_count,
  shell_count, solid_count,
}

-- The cursors after the arrays `pre` are read.
abbrev pub cursors : GmBoundaries → Cursors
cursors pre = record {
  shell_cursor = length pre.shells;
  surface_cursor = length pre.surfaces;
  ring_cursor = length pre.strings;
  index_cursor = length pre.index_list;
}

length-append_nil : (xs : List ℕ) → length xs ≡ length (xs ++ [])
length-append_nil xs = ap length (sym (append-nil xs))

length-snoc : (xs : List ℕ) (n : ℕ) → length xs + 1 ≡ length (xs ++ (n ∷ []))
length-snoc xs n = omega (arith, length-append xs (n ∷ []))

pub slice-append : (xs r ys : List ℕ) → slice (xs ++ (r ++ ys)) (length xs) (length r) ≡ some r
unfolding slice
slice-append xs r ys =
    rw (drop-append_length xs (r ++ ys), take-append_length r ys)
      (ground (arith, length-append xs (r ++ ys), length-append r ys))

repeat_step :
    (n : ℕ) (body : M Boundaries) (c c' c'' : Cursors) (b : Boundaries) (bs : Subs)
    → body c ≡ some (b, c')
    → repeat n body c' ≡ some (bs, c'')
    → repeat (suc n) body c ≡ some (cons b bs, c'')
unfolding repeat
repeat_step n body c c' c'' b bs p q = ground arith

for_each_step :
    (n : ℕ) (ns : List ℕ) (body : ℕ → M Boundaries) (c c' c'' : Cursors) (b : Boundaries)
    (bs : Subs)
    → body n c ≡ some (b, c')
    → for_each ns body c' ≡ some (bs, c'')
    → for_each (n ∷ ns) body c ≡ some (cons b bs, c'')
unfolding for_each
for_each_step n ns body c c' c'' b bs p q = ground arith

module _ (gm : GmBoundaries) where
  pub take_ring_step :
      (n : ℕ) (c : Cursors) (r : List ℕ)
      → slice gm.index_list c.index_cursor n ≡ some r
      → take_ring gm n c ≡ some (indices r, record c { index_cursor = c.index_cursor + n })
  unfolding take_ring
  take_ring_step n c r p = ground arith

  decode_ring_step :
      (n : ℕ) (c : Cursors)
      → get_elem? gm.strings c.ring_cursor ≡ some n
      → decode_ring gm c ≡ take_ring gm n (record c { ring_cursor = c.ring_cursor + 1 })
  unfolding decode_ring
  decode_ring_step n c p = ground arith

  decode_surface_step :
      (n : ℕ) (c : Cursors)
      → get_elem? gm.surfaces c.surface_cursor ≡ some n
      → decode_surface gm c ≡ decode_rings gm n (record c { surface_cursor = c.surface_cursor + 1 })
  unfolding decode_surface
  decode_surface_step n c p = ground arith

  decode_shell_step :
      (n : ℕ) (c : Cursors)
      → get_elem? gm.shells c.shell_cursor ≡ some n
      → decode_shell gm c ≡ decode_surfaces gm n (record c { shell_cursor = c.shell_cursor + 1 })
  unfolding decode_shell
  decode_shell_step n c p = ground arith

  decode_rings_step :
      (n : ℕ) (c c' : Cursors) (bs : Subs)
      → repeat n (decode_ring gm) c ≡ some (bs, c')
      → decode_rings gm n c ≡ some (nested bs, c')
  unfolding decode_rings
  decode_rings_step n c c' bs p = ground arith

  decode_surfaces_step :
      (n : ℕ) (c c' : Cursors) (bs : Subs)
      → repeat n (decode_surface gm) c ≡ some (bs, c')
      → decode_surfaces gm n c ≡ some (nested bs, c')
  unfolding decode_surfaces
  decode_surfaces_step n c c' bs p = ground arith

  decode_shells_step :
      (n : ℕ) (c c' : Cursors) (bs : Subs)
      → repeat n (decode_shell gm) c ≡ some (bs, c')
      → decode_shells gm n c ≡ some (nested bs, c')
  unfolding decode_shells
  decode_shells_step n c c' bs p = ground arith

module _ (gm : GmBoundaries) where
  -- Where the arrays of `x` stand, `body` makes `f x` and moves the cursors past them.
  abbrev pub Decodes :
      {A : Type 0} → M Boundaries → (A → Boundaries) → (A → GmBoundaries) → A → Type 0
  Decodes body f g x =
      (pre post : GmBoundaries)
      → gm ≡ pre ⊕ (g x ⊕ post)
      → body (cursors pre) ≡ some (f x, cursors (pre ⊕ g x))

  regroup :
      (pre a b post : GmBoundaries)
      → gm ≡ pre ⊕ (a ⊕ b ⊕ post)
      → (gm ≡ pre ⊕ (a ⊕ (b ⊕ post))) × (gm ≡ pre ⊕ a ⊕ (b ⊕ post))
  regroup pre a b post e =
      let e' : gm ≡ pre ⊕ (a ⊕ (b ⊕ post)) =
        e ∙ ap (λ (t : GmBoundaries). pre ⊕ t) (⊕_assoc a b post) in
      (e', e' ∙ sym (⊕_assoc pre a (b ⊕ post)))

  pub repeat-flats :
      {A : Type 0} (body : M Boundaries) (f : A → Boundaries) (g : A → GmBoundaries) (xs : List A)
      → ((x : A) → Decodes body f g x)
      → (pre post : GmBoundaries) → gm ≡ pre ⊕ (flats g xs ⊕ post)
      → repeat (length xs) body (cursors pre) ≡ some (subs_of f xs, cursors (pre ⊕ flats g xs))
  repeat-flats body f g [] h pre post e =
      unfold repeat in ap (λ (t : GmBoundaries). some (subs_of f [], cursors t)) (sym (⊕-empty pre))
  repeat-flats body f g (x ∷ xs) h pre post e =
      let (e', e'') = regroup pre (g x) (flats g xs) post e in
      repeat_step (length xs) body _ _ _ _ _ (h x pre (flats g xs ⊕ post) e')
        (repeat-flats body f g xs h (pre ⊕ g x) post e'')
      ∙ ap (λ (t : GmBoundaries). some (subs_of f (x ∷ xs), cursors t))
          (⊕_assoc pre (g x) (flats g xs))

  pub for_each-flats :
      {A : Type 0} (body : ℕ → M Boundaries) (size : A → ℕ) (f : A → Boundaries)
      (g : A → GmBoundaries) (xs : List A)
      → ((x : A) → Decodes (body (size x)) f g x)
      → (pre post : GmBoundaries) → gm ≡ pre ⊕ (flats g xs ⊕ post)
      → for_each (map size xs) body (cursors pre) ≡ some (subs_of f xs, cursors (pre ⊕ flats g xs))
  for_each-flats body size f g [] h pre post e =
      unfold for_each in
      ap (λ (t : GmBoundaries). some (subs_of f [], cursors t)) (sym (⊕-empty pre))
  for_each-flats body size f g (x ∷ xs) h pre post e =
      let (e', e'') = regroup pre (g x) (flats g xs) post e in
      for_each_step (size x) (map size xs) body _ _ _ _ _ (h x pre (flats g xs ⊕ post) e')
        (for_each-flats body size f g xs h (pre ⊕ g x) post e'')
      ∙ ap (λ (t : GmBoundaries). some (subs_of f (x ∷ xs), cursors t))
          (⊕_assoc pre (g x) (flats g xs))

  decode_ring-flat : (r : Ring) → Decodes (decode_ring gm) indices ring_flat r
  decode_ring-flat r pre post e =
      decode_ring_step gm (length r) (cursors pre)
        (rw e (get_elem?-append_length pre.strings (length r) post.strings))
      ∙ take_ring_step gm (length r) _ r (rw e (slice-append pre.index_list r post.index_list))
      ∙ λ i. some (
        indices r,
        record {
          shell_cursor = length-append_nil pre.shells i;
          surface_cursor = length-append_nil pre.surfaces i;
          ring_cursor = length-snoc pre.strings (length r) i;
          index_cursor = sym (length-append pre.index_list r) i;
        },
      )

  -- A count moves its own cursor by one.
  count_surface :
      (pre : GmBoundaries) (n : ℕ)
      → record (cursors pre) { surface_cursor = length pre.surfaces + 1 }
        ≡ cursors (pre ⊕ surface_count n)
  count_surface pre n = λ i. record {
    shell_cursor = length-append_nil pre.shells i;
    surface_cursor = length-snoc pre.surfaces n i;
    ring_cursor = length-append_nil pre.strings i;
    index_cursor = length-append_nil pre.index_list i;
  }

  count_shell :
      (pre : GmBoundaries) (n : ℕ)
      → record (cursors pre) { shell_cursor = length pre.shells + 1 }
        ≡ cursors (pre ⊕ shell_count n)
  count_shell pre n = λ i. record {
    shell_cursor = length-snoc pre.shells n i;
    surface_cursor = length-append_nil pre.surfaces i;
    ring_cursor = length-append_nil pre.strings i;
    index_cursor = length-append_nil pre.index_list i;
  }

  count_solid : (pre : GmBoundaries) (n : ℕ) → cursors pre ≡ cursors (pre ⊕ solid_count n)
  count_solid pre n = λ i. record {
    shell_cursor = length-append_nil pre.shells i;
    surface_cursor = length-append_nil pre.surfaces i;
    ring_cursor = length-append_nil pre.strings i;
    index_cursor = length-append_nil pre.index_list i;
  }

  pub decode_rings-flat :
      (s : Surface) (pre post : GmBoundaries)
      → gm ≡ pre ⊕ (flats ring_flat s ⊕ post)
      → decode_rings gm (length s) (cursors pre)
        ≡ some (surface_boundaries s, cursors (pre ⊕ flats ring_flat s))
  decode_rings-flat s pre post e =
      decode_rings_step gm (length s) _ _ _
        (repeat-flats (decode_ring gm) indices ring_flat s decode_ring-flat pre post e)

  decode_surface-flat :
      (s : Surface) → Decodes (decode_surface gm) surface_boundaries surface_flat s
  decode_surface-flat s pre post e =
      let n = length s in
      let (e', e'') = regroup pre (surface_count n) (flats ring_flat s) post e in
      decode_surface_step gm n (cursors pre)
        (rw e' (get_elem?-append_length pre.surfaces n (flats ring_flat s ⊕ post).surfaces))
      ∙ ap (decode_rings gm n) (count_surface pre n)
      ∙ decode_rings-flat s (pre ⊕ surface_count n) post e''
      ∙ ap (λ (t : GmBoundaries). some (surface_boundaries s, cursors t))
          (⊕_assoc pre (surface_count n) (flats ring_flat s))

  pub decode_surfaces-flat :
      (s : Shell) (pre post : GmBoundaries)
      → gm ≡ pre ⊕ (flats surface_flat s ⊕ post)
      → decode_surfaces gm (length s) (cursors pre)
        ≡ some (shell_boundaries s, cursors (pre ⊕ flats surface_flat s))
  decode_surfaces-flat s pre post e = decode_surfaces_step gm (length s) _ _ _ (
      repeat-flats (decode_surface gm) surface_boundaries surface_flat s decode_surface-flat pre
        post e)

  decode_shell-flat : (s : Shell) → Decodes (decode_shell gm) shell_boundaries shell_flat s
  decode_shell-flat s pre post e =
      let n = length s in
      let (e', e'') = regroup pre (shell_count n) (flats surface_flat s) post e in
      decode_shell_step gm n (cursors pre)
        (rw e' (get_elem?-append_length pre.shells n (flats surface_flat s ⊕ post).shells))
      ∙ ap (decode_surfaces gm n) (count_shell pre n)
      ∙ decode_surfaces-flat s (pre ⊕ shell_count n) post e''
      ∙ ap (λ (t : GmBoundaries). some (shell_boundaries s, cursors t))
          (⊕_assoc pre (shell_count n) (flats surface_flat s))

  pub decode_shells-flat :
      (s : Solid) (pre post : GmBoundaries)
      → gm ≡ pre ⊕ (flats shell_flat s ⊕ post)
      → decode_shells gm (length s) (cursors pre)
        ≡ some (solid_boundaries s, cursors (pre ⊕ flats shell_flat s))
  decode_shells-flat s pre post e =
      decode_shells_step gm (length s) _ _ _
        (repeat-flats (decode_shell gm) shell_boundaries shell_flat s decode_shell-flat pre post e)

  pub decode_solid-flat :
      (s : Solid) → Decodes (decode_shells gm (length s)) solid_boundaries solid_flat s
  decode_solid-flat s pre post e =
      let n = length s in
      let (e', e'') = regroup pre (solid_count n) (flats shell_flat s) post e in
      ap (decode_shells gm n) (count_solid pre n)
      ∙ decode_shells-flat s (pre ⊕ solid_count n) post e''
      ∙ ap (λ (t : GmBoundaries). some (solid_boundaries s, cursors t))
          (⊕_assoc pre (solid_count n) (flats shell_flat s))
