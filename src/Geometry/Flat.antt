-- ===== src/Geometry/Flat.antt =====
-- The typed geometries of CityJSON, their nested arrays, and their flat arrays written down
-- directly: an independent description of what `encode` of geom_encoder.rs produces.
use flatcitybuf.Prelude.{
  ℕ, ◌≡◌, refl, sym, ap, ◌∙◌, List, [], ◌∷◌, ◌++◌, append-nil, append_assoc, length, All, NonEmpty,
  IsU32,
}
use flatcitybuf.Geometry.{
  Boundaries, indices, nested, Subs, nil, cons, GmBoundaries, empty_boundaries,
}

abbrev pub Ring : Type 0
Ring = List ℕ

abbrev pub Surface : Type 0
Surface = List Ring

abbrev pub Shell : Type 0
Shell = List Surface

abbrev pub Solid : Type 0
Solid = List Shell

pub data Geometry : Type 0 where
  multi_point : Ring → Geometry
  multi_line_string : Surface → Geometry
  multi_surface : Shell → Geometry
  solid : Solid → Geometry
  multi_solid : List Solid → Geometry

abbrev pub subs_of : {A : Type 0} → (A → Boundaries) → List A → Subs
subs_of f [] = nil
subs_of f (x ∷ xs) = cons (f x) (subs_of f xs)

abbrev pub surface_boundaries : Surface → Boundaries
surface_boundaries s = nested (subs_of indices s)

abbrev pub shell_boundaries : Shell → Boundaries
shell_boundaries s = nested (subs_of surface_boundaries s)

abbrev pub solid_boundaries : Solid → Boundaries
solid_boundaries s = nested (subs_of shell_boundaries s)

abbrev pub to_boundaries : Geometry → Boundaries
to_boundaries (multi_point r) = indices r
to_boundaries (multi_line_string s) = surface_boundaries s
to_boundaries (multi_surface s) = shell_boundaries s
to_boundaries (solid s) = solid_boundaries s
to_boundaries (multi_solid ss) = nested (subs_of solid_boundaries ss)

-- Every nested array has an item, and every count fits a `u32`.
abbrev pub Fits : {A : Type 0} → List A → Type 0
Fits xs = IsU32 (length xs)

abbrev pub SurfaceValid : Surface → Type 0
SurfaceValid s = NonEmpty s × Fits s × All (Fits {A = ℕ}) s

abbrev pub ShellValid : Shell → Type 0
ShellValid s = NonEmpty s × Fits s × All SurfaceValid s

abbrev pub SolidValid : Solid → Type 0
SolidValid s = NonEmpty s × Fits s × All ShellValid s

abbrev pub GeometryValid : Geometry → Type 0
GeometryValid (multi_point r) = Fits r
GeometryValid (multi_line_string s) = SurfaceValid s
GeometryValid (multi_surface s) = ShellValid s
GeometryValid (solid s) = SolidValid s
GeometryValid (multi_solid ss) = NonEmpty ss × Fits ss × All SolidValid ss

infixl 65 ◌⊕◌
abbrev pub ◌⊕◌ : GmBoundaries → GmBoundaries → GmBoundaries
a ⊕ b = record {
  solids = a.solids ++ b.solids;
  shells = a.shells ++ b.shells;
  surfaces = a.surfaces ++ b.surfaces;
  strings = a.strings ++ b.strings;
  index_list = a.index_list ++ b.index_list;
}

pub ⊕_assoc : (a b c : GmBoundaries) → a ⊕ b ⊕ c ≡ a ⊕ (b ⊕ c)
⊕_assoc a b c = λ i. record {
  solids = append_assoc a.solids b.solids c.solids i;
  shells = append_assoc a.shells b.shells c.shells i;
  surfaces = append_assoc a.surfaces b.surfaces c.surfaces i;
  strings = append_assoc a.strings b.strings c.strings i;
  index_list = append_assoc a.index_list b.index_list c.index_list i;
}

pub ⊕-empty : (a : GmBoundaries) → a ⊕ empty_boundaries ≡ a
⊕-empty a = λ i. record {
  solids = append-nil a.solids i;
  shells = append-nil a.shells i;
  surfaces = append-nil a.surfaces i;
  strings = append-nil a.strings i;
  index_list = append-nil a.index_list i;
}

abbrev pub flats : {A : Type 0} → (A → GmBoundaries) → List A → GmBoundaries
flats g [] = empty_boundaries
flats g (x ∷ xs) = g x ⊕ flats g xs

abbrev pub ring_flat : Ring → GmBoundaries
ring_flat r = record empty_boundaries { strings = length r ∷ []; index_list = r }

abbrev pub surface_count : ℕ → GmBoundaries
surface_count n = record empty_boundaries { surfaces = n ∷ [] }

abbrev pub shell_count : ℕ → GmBoundaries
shell_count n = record empty_boundaries { shells = n ∷ [] }

abbrev pub solid_count : ℕ → GmBoundaries
solid_count n = record empty_boundaries { solids = n ∷ [] }

abbrev pub surface_flat : Surface → GmBoundaries
surface_flat s = surface_count (length s) ⊕ flats ring_flat s

abbrev pub shell_flat : Shell → GmBoundaries
shell_flat s = shell_count (length s) ⊕ flats surface_flat s

abbrev pub solid_flat : Solid → GmBoundaries
solid_flat s = solid_count (length s) ⊕ flats shell_flat s

abbrev pub flat : Geometry → GmBoundaries
flat (multi_point r) = ring_flat r
flat (multi_line_string s) = surface_flat s
flat (multi_surface s) = shell_flat s
flat (solid s) = solid_flat s
flat (multi_solid ss) = flats solid_flat ss

-- Arrays above the level of a part stay empty.
pub surfaces-rings : (s : Surface) → (flats ring_flat s).surfaces ≡ []
surfaces-rings [] = refl
surfaces-rings (r ∷ rs) = surfaces-rings rs

pub shells-rings : (s : Surface) → (flats ring_flat s).shells ≡ []
shells-rings [] = refl
shells-rings (r ∷ rs) = shells-rings rs

pub solids-rings : (s : Surface) → (flats ring_flat s).solids ≡ []
solids-rings [] = refl
solids-rings (r ∷ rs) = solids-rings rs

pub shells-surfaces : (s : Shell) → (flats surface_flat s).shells ≡ []
shells-surfaces [] = refl
shells-surfaces (x ∷ xs) = λ i. shells-rings x i ++ shells-surfaces xs i

pub solids-surfaces : (s : Shell) → (flats surface_flat s).solids ≡ []
solids-surfaces [] = refl
solids-surfaces (x ∷ xs) = λ i. solids-rings x i ++ solids-surfaces xs i

pub solids-shells : (s : Solid) → (flats shell_flat s).solids ≡ []
solids-shells [] = refl
solids-shells (x ∷ xs) = λ i. solids-surfaces x i ++ solids-shells xs i

-- A count commutes with parts that have none of its kind.
pub surface_count_comm :
    (n : ℕ) (a : GmBoundaries) → a.surfaces ≡ [] → a ⊕ surface_count n ≡ surface_count n ⊕ a
surface_count_comm n a h = λ i. record {
  solids = append-nil a.solids i;
  shells = append-nil a.shells i;
  surfaces = (ap (λ (t : List ℕ). t ++ (n ∷ [])) h ∙ ap (λ (t : List ℕ). n ∷ t) (sym h)) i;
  strings = append-nil a.strings i;
  index_list = append-nil a.index_list i;
}

pub shell_count_comm :
    (n : ℕ) (a : GmBoundaries) → a.shells ≡ [] → a ⊕ shell_count n ≡ shell_count n ⊕ a
shell_count_comm n a h = λ i. record {
  solids = append-nil a.solids i;
  shells = (ap (λ (t : List ℕ). t ++ (n ∷ [])) h ∙ ap (λ (t : List ℕ). n ∷ t) (sym h)) i;
  surfaces = append-nil a.surfaces i;
  strings = append-nil a.strings i;
  index_list = append-nil a.index_list i;
}

pub solid_count_comm :
    (n : ℕ) (a : GmBoundaries) → a.solids ≡ [] → a ⊕ solid_count n ≡ solid_count n ⊕ a
solid_count_comm n a h = λ i. record {
  solids = (ap (λ (t : List ℕ). t ++ (n ∷ [])) h ∙ ap (λ (t : List ℕ). n ∷ t) (sym h)) i;
  shells = append-nil a.shells i;
  surfaces = append-nil a.surfaces i;
  strings = append-nil a.strings i;
  index_list = append-nil a.index_list i;
}
