-- ===== src/Writer/Tests.antt =====
-- Runs of `FcbWriter` of writer/mod.rs on a grid of natural numbers, and its theorems at concrete
-- inputs.
use mathlib.Core.List.{Perm}
use flatcitybuf.Prelude.{
  inl, ℕ, ◌+◌, ◌-◌, ◌*◌, ◌/◌, ◌<◌, ◌≡◌, refl, arith, List, [], ◌∷◌, some, map, length, get_or, ltb,
  leb, if◌then◌else◌, All,
}
use flatcitybuf.Error.{ok, map_ok}
use flatcitybuf.RTree.{Float, IsOrdered, NodeItem, PackedRTree, SearchResultItem, bounds}
use flatcitybuf.RTree.Hilbert.{Arith, hilbert, hilbert_sort}
use flatcitybuf.RTree.Search.{bbox, hit, search}
use flatcitybuf.RTree.Search.Window.{count_index}
use flatcitybuf.Key.Byte.{byte_key, byte_key-IsLinear}
use flatcitybuf.Stree.{Stree, SearchResultItem as StreeItem}
use flatcitybuf.Stree.Build.{build}
use flatcitybuf.Stree.Search.{find_exact}
use flatcitybuf.Stree.Lookup.FindExact.{Fits}
use flatcitybuf.Writer.Attribute.{HasKey, IsHit, IsFound, find_exact-attribute_entries}
use flatcitybuf.Writer.{
  AttributeFeatureOffset, values, attribute_entries, Finished, FcbWriter, Transform, Sections,
  read_at, actual_bbox, new, add_features, write_sections,
}
use flatcitybuf.Writer.Store.{Numbered, IsStore, no_feature, feature, add_features-new}
use flatcitybuf.Writer.Place.{IsStored, write_sections-entries, write_sections-search}

instance abbrev grid : Float ℕ
grid = record { lt = ltb; le = leb; infinity = 1000; neg_infinity = 0 }

instance abbrev grid_arith : Arith ℕ
grid_arith = record {
  add = λ a b. a + b;
  sub = λ a b. a - b;
  mul = λ a b. a * b;
  div = λ a b. a / b;
  of_u32 = λ a. a;
  floor_as_u32 = λ a. a;
}

grid-IsOrdered : IsOrdered grid
grid-IsOrdered = record {
  irrefl = λ a. ground arith;
  trans = λ a b c h k. ground arith;
  cotrans = λ a b c h k. ground arith;
  le_not_lt = λ a b. ground arith;
}

abbrev doubled : Transform ℕ
doubled = record { scale_x = 2; scale_y = 2; translate_x = 1; translate_y = 1 }

-- Three features with one attribute value each.
abbrev three : List (Finished ℕ ℕ)
three =
    record { buf = 1 ∷ 2 ∷ 3 ∷ []; bbox = bounds 0 0 1 1; index_entries = 7 ∷ [] }
    ∷ record { buf = 4 ∷ []; bbox = bounds 8 8 9 9; index_entries = 3 ∷ [] }
    ∷ record { buf = 5 ∷ 6 ∷ []; bbox = bounds 0 4 1 5; index_entries = 7 ∷ [] }
    ∷ []

-- The order of the features along the curve is not that in which they were added.
features_of_three :
    map_ok (λ (s : Sections ℕ ℕ). s.features) (write_sections (add_features three (new doubled)) 2)
    ≡ ok (4 ∷ 5 ∷ 6 ∷ 1 ∷ 2 ∷ 3 ∷ [])
unfolding write_sections add_features flatcitybuf.Writer.sorted_nodes
    flatcitybuf.Writer.spatial_index flatcitybuf.Writer.copy_features flatcitybuf.Writer.read_at
    flatcitybuf.Writer.set_place flatcitybuf.Writer.index_nodes flatcitybuf.RTree.Build.build
    flatcitybuf.RTree.Hilbert.hilbert_sort flatcitybuf.RTree.Hilbert.hilbert_bbox
    flatcitybuf.Levels.generate_level_bounds_by flatcitybuf.Array.at flatcitybuf.RTree.calc_extent
features_of_three = refl

-- The two ends of the curve.
hilbert_0_0 : hilbert 0 0 ≡ 0
unfolding hilbert
hilbert_0_0 = refl

hilbert_max_0 : hilbert 0xffff 0 ≡ 0xffff_ffff
unfolding hilbert
hilbert_max_0 = refl

add_features-new_example : IsStore three (add_features three (new doubled))
add_features-new_example = add_features-new doubled three

write_sections-entries_example :
    (sections : Sections ℕ ℕ) × (write_sections (add_features three (new doubled)) 2 ≡ ok sections)
    × Numbered (IsStored doubled three sections.features) 3 sections.entries
write_sections-entries_example =
    write_sections-entries doubled three 2 grid-IsOrdered
      (inl (omega arith, omega arith, omega arith))

write_sections-search_example :
    (sections : Sections ℕ ℕ) × (tree : PackedRTree ℕ) × (order : List (Finished ℕ ℕ)) × (rs : List
      SearchResultItem)
    × (write_sections (add_features three (new doubled)) 2 ≡ ok sections)
    × (sections.tree ≡ some tree)
    × Perm order three
    × (search tree (bbox 0 0 4 20) ≡ ok rs)
    × ((p : ℕ)
        → p < length order
        → count_index p rs ≡ (
            if hit (bbox 0 0 4 20) (actual_bbox doubled (get_or order p no_feature).bbox)
            then 1
            else 0))
    × All
        (λ (r : SearchResultItem).
          (r.index < length order)
          × (read_at sections.features r.offset (length (get_or order r.index no_feature).buf)
              ≡ ok (get_or order r.index no_feature).buf))
        rs
write_sections-search_example =
    write_sections-search doubled three 2 grid-IsOrdered (bbox 0 0 4 20)
      (omega arith, omega arith, omega arith)

-- The places that the writer notes for the three features.
abbrev places : List (ℕ × AttributeFeatureOffset ℕ)
places =
    (2, record { offset = 1; size = 2; index_entries = 7 ∷ [] })
    ∷ (1, record { offset = 0; size = 1; index_entries = 3 ∷ [] })
    ∷ (0, record { offset = 3; size = 3; index_entries = 7 ∷ [] })
    ∷ []

abbrev section : List ℕ
section = 4 ∷ 5 ∷ 6 ∷ 1 ∷ 2 ∷ 3 ∷ []

places_of_three :
    map_ok (λ (s : Sections ℕ ℕ). s.entries) (write_sections (add_features three (new doubled)) 2)
    ≡ ok places
unfolding write_sections add_features flatcitybuf.Writer.sorted_nodes
    flatcitybuf.Writer.spatial_index flatcitybuf.Writer.copy_features flatcitybuf.Writer.read_at
    flatcitybuf.Writer.set_place flatcitybuf.Writer.index_nodes flatcitybuf.RTree.Build.build
    flatcitybuf.RTree.Hilbert.hilbert_sort flatcitybuf.RTree.Hilbert.hilbert_bbox
    flatcitybuf.Levels.generate_level_bounds_by flatcitybuf.Array.at flatcitybuf.RTree.calc_extent
places_of_three = refl

places-IsStored : Numbered (IsStored doubled three section) 3 places
unfolding read_at
places-IsStored =
    (refl, (refl, refl, refl), (refl, (refl, refl, refl), (refl, (refl, refl, refl), tt)))

places-Fits : Fits byte_key-IsLinear (attribute_entries some (values places))
unfolding attribute_entries
places-Fits = (
  omega arith,
  omega arith,
  (omega arith, (omega arith, (omega arith, tt))),
  (refl, (refl, (refl, tt))),
)

find_exact-attribute_entries_example :
    (t : Stree ℕ) × (items : List StreeItem) × (build (attribute_entries some (values places)) 4
      ≡ ok t)
    × (find_exact t 7 ≡ ok items)
    × All
        (IsHit byte_key-IsLinear some 7 doubled three section)
        (map (λ (r : StreeItem). r.offset) items)
    × ((j : ℕ)
        → j < 3
        → HasKey byte_key-IsLinear some 7 (feature three j).index_entries
        → IsFound byte_key-IsLinear some 7 doubled three section
            (map (λ (r : StreeItem). r.offset) items)
            j)
find_exact-attribute_entries_example =
    find_exact-attribute_entries byte_key-IsLinear some 7 doubled three section places 4
      places-IsStored places-Fits refl
