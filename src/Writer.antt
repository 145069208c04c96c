-- ===== src/Writer.antt =====
-- The assembly of a file in rust/fcb_core/src/writer/mod.rs: `FcbWriter` with `write_feature`,
-- `add_feature` and `write`, and the index of one attribute of rust/fcb_core/src/writer/attr_index.rs.
-- The temporary file is its bytes. FlatBuffers and the codec of a feature are parameters.
pub mod Store
pub mod Layout
pub mod Order
pub mod Place
pub mod Attribute
mod Tests
use flatcitybuf.Prelude.{
  ℕ, zero, suc, ◌+◌, ◌*◌, ◌&&◌, not, Bool, true, false, List, [], ◌∷◌, ◌++◌, Option, none, some,
  length, map, take, drop, ltb, leb, ◌==◌, if◌then◌else◌,
}
use flatcitybuf.Error.{Result, ok, err, io_error, map_ok, ◌>>=◌}
use flatcitybuf.Array.{at}
use flatcitybuf.Key.{Key}
use flatcitybuf.Stree.{Entry}
use flatcitybuf.RTree
use flatcitybuf.RTree.{Float, NodeItem, PackedRTree}
use flatcitybuf.RTree.Build
use flatcitybuf.RTree.Hilbert.{Arith, hilbert_sort}

-- `E` is `AttributeIndexEntry`.
pub record AttributeFeatureOffset (E : Type 0) : Type 0 where
  pub offset : ℕ
  pub size : ℕ
  pub index_entries : List E

pub record FeatureOffset : Type 0 where
  pub temp_feature_id : ℕ
  pub offset : ℕ
  pub size : ℕ

pub record Transform (F : Type 0) : Type 0 where
  pub scale_x : F
  pub scale_y : F
  pub translate_x : F
  pub translate_y : F

-- What `finish_to_feature` leaves of one feature: the bytes, `bbox` and the entries to be indexed.
pub record Finished (F E : Type 0) : Type 0 where
  pub buf : List ℕ
  pub bbox : NodeItem F
  pub index_entries : List E

-- The fields that `write_feature` and `write` change, and the transform.
pub record FcbWriter (F E : Type 0) : Type 0 where
  pub tmpout : List ℕ
  pub transform : Transform F
  pub feat_offsets : List FeatureOffset
  pub feat_nodes : List (NodeItem F)
  -- A map from the number of a feature, newest first.
  pub attribute_index_entries : List (ℕ × AttributeFeatureOffset E)

module _ {E : Type 0} where
  -- `HashMap::get_mut` and the two assignments.
  unfoldable pub set_place :
      ℕ → ℕ → ℕ → List (ℕ × AttributeFeatureOffset E) → List (ℕ × AttributeFeatureOffset E)
  set_place id offset size [] = []
  set_place id offset size ((j, a) ∷ m) =
      if j == id
      then (j, record a { offset = offset; size = size }) ∷ m
      else (j, a) ∷ set_place id offset size m

  -- `HashMap::values`, in some order.
  abbrev pub values : List (ℕ × AttributeFeatureOffset E) → List (AttributeFeatureOffset E)
  values [] = []
  values ((j, a) ∷ m) = a ∷ values m

-- `seek` and `read_exact`.
unfoldable pub read_at : List ℕ → ℕ → ℕ → Result (List ℕ)
read_at bytes offset size =
    if leb (offset + size) (length bytes) then ok (take size (drop offset bytes)) else err io_error

-- `feat_offsets.last().map(|it| it.offset + it.size).unwrap_or(0)`
unfoldable pub next_offset : List FeatureOffset → ℕ
next_offset [] = 0
next_offset (it ∷ []) = it.offset + it.size
next_offset (it ∷ it' ∷ its) = next_offset (it' ∷ its)

module _ {F : Type 0} ⦃ops : Arith F⦄ where
  unfoldable pub actual_bbox : Transform F → NodeItem F → NodeItem F
  actual_bbox transform bbox = record {
    min_x = ops.add (ops.mul bbox.min_x transform.scale_x) transform.translate_x;
    min_y = ops.add (ops.mul bbox.min_y transform.scale_y) transform.translate_y;
    max_x = ops.add (ops.mul bbox.max_x transform.scale_x) transform.translate_x;
    max_y = ops.add (ops.mul bbox.max_y transform.scale_y) transform.translate_y;
    offset = 0;
  }

module _ {F : Type 0} ⦃float : Float F⦄ ⦃ops : Arith F⦄ where
  -- The leaves of the spatial index: each node with the place of its feature behind the others.
  unfoldable pub index_nodes :
      List FeatureOffset → ℕ → List (NodeItem F) → Result (List (NodeItem F))
  index_nodes feat_offsets offset [] = ok []
  index_nodes feat_offsets offset (temp_node ∷ nodes) = do
    feat ← at feat_offsets temp_node.offset
    rest ← index_nodes feat_offsets (offset + feat.size) nodes
    ok (record temp_node { offset = offset } ∷ rest)

  -- The nodes in the order of the file: along the curve when there is a spatial index.
  unfoldable pub sorted_nodes : ℕ → List (NodeItem F) → List (NodeItem F)
  sorted_nodes index_node_size nodes =
      if ltb 0 index_node_size && ltb 0 (length nodes)
      then hilbert_sort (RTree.calc_extent nodes) nodes
      else nodes

-- What `write` makes before the header: the spatial index, if there is one, the features and the
-- places of the features for the attribute indices.
pub record Sections (F E : Type 0) : Type 0 where
  pub tree : Option (PackedRTree F)
  pub features : List ℕ
  pub entries : List (ℕ × AttributeFeatureOffset E)

module _ {F E : Type 0} ⦃float : Float F⦄ ⦃ops : Arith F⦄ where
  unfoldable pub write_feature : Finished F E → FcbWriter F E → FcbWriter F E
  unfolding next_offset actual_bbox
  write_feature feature self =
      let id = length self.feat_offsets in
      let tempoffset = next_offset self.feat_offsets in
      let node = record (actual_bbox self.transform feature.bbox) { offset = id } in
      record self {
        feat_nodes = self.feat_nodes ++ (node ∷ []);
        attribute_index_entries =
            (id, record { offset = tempoffset; size = 0; index_entries = feature.index_entries })
            ∷ self.attribute_index_entries;
        feat_offsets =
            self.feat_offsets
            ++ (record { temp_feature_id = id; offset = tempoffset; size = length feature.buf }
                ∷ []);
        tmpout = self.tmpout ++ feature.buf;
      }

  -- `add_feature` for each feature in turn, on a new writer.
  unfoldable pub add_features : List (Finished F E) → FcbWriter F E → FcbWriter F E
  unfolding write_feature
  add_features [] self = self
  add_features (f ∷ fs) self = add_features fs (write_feature f self)

  abbrev pub new : Transform F → FcbWriter F E
  new transform = record {
    tmpout = [];
    transform = transform;
    feat_offsets = [];
    feat_nodes = [];
    attribute_index_entries = [];
  }

  -- The features copied in the order of the nodes, with their places noted for the attributes.
  unfoldable pub copy_features :
      FcbWriter F E
      → List (NodeItem F)
      → List (ℕ × AttributeFeatureOffset E)
      → List ℕ
      → Result (List ℕ × List (ℕ × AttributeFeatureOffset E))
  copy_features self [] entries buf = ok (buf, entries)
  copy_features self (node ∷ nodes) entries buf = do
    feat ← at self.feat_offsets node.offset
    bytes ← read_at self.tmpout feat.offset feat.size
    copy_features self nodes (set_place feat.temp_feature_id (length buf) feat.size entries)
        (buf ++ bytes)

  unfoldable pub spatial_index :
      FcbWriter F E → ℕ → List (NodeItem F) → Result (Option (PackedRTree F))
  spatial_index self index_node_size nodes =
      if ltb 0 index_node_size && ltb 0 (length nodes)
      then (do
        leaves ← index_nodes self.feat_offsets 0 nodes
        tree ← RTree.Build.build leaves (RTree.calc_extent self.feat_nodes) index_node_size
        ok (some tree))
      else ok none

  unfoldable pub write_sections : FcbWriter F E → ℕ → Result (Sections F E)
  write_sections self index_node_size = do
    let nodes = sorted_nodes index_node_size self.feat_nodes
    tree ← spatial_index self index_node_size nodes
    (features, entries) ← copy_features self nodes self.attribute_index_entries []
    ok (record { tree = tree; features = features; entries = entries })

-- The entries of `build_index_generic`; `extract` gives the key of an entry of the attribute.
module _ {E K : Type 0} (extract : E → Option K) where
  unfoldable pub feature_entries : ℕ → List E → List (Entry K)
  feature_entries offset [] = []
  feature_entries offset (entry ∷ entries) =
      let rest = feature_entries offset entries in
      elim (extract entry) [ none ↦ rest | some key ↦ record { key = key; offset = offset } ∷ rest ]

  unfoldable pub attribute_entries : List (AttributeFeatureOffset E) → List (Entry K)
  unfolding feature_entries
  attribute_entries [] = []
  attribute_entries (feature ∷ features) =
      feature_entries feature.offset feature.index_entries ++ attribute_entries features
