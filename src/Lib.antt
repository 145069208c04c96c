-- ===== src/Lib.antt =====
-- FlatCityBuf, the Rust crate fcb_core: a binary format for CityJSON features with a spatial index
-- and attribute indices. A file holds a header, a packed Hilbert R-tree over the features'
-- bounding boxes, a static B+tree for each indexed attribute, and the features.
--
-- The parts and where they are modelled; the paths are below rust/fcb_core/src.
--   writer/geom_encoder.rs, reader/geom_decoder.rs: Geometry. The nested boundaries of a geometry
--     are flattened into counts of solids, shells, surfaces and strings and one list of indices,
--     and read back with one cursor for each list.
--   packed_rtree/mod.rs: RTree. RTree.Build has init, generate_nodes and build, RTree.Search the
--     search by bounding box and by point. RTree.Packed says what shape of a tree the search
--     relies on; RTree.Build.Tree joins the two. RTree.Hilbert has hilbert_sort, RTree.Overlap is
--     about the test of two boxes, RTree.Codec about stream_write and from_buf.
--   static_btree/stree.rs: Stree. Stree.Build has the sort, the grouping of duplicates, init,
--     generate_nodes and build, Stree.Search has find_exact, find_partition and find_range,
--     Stree.Codec stream_write and from_buf. Stree.Shape says what shape of a tree find_exact relies
--     on, Stree.Build.Tree that build makes such a tree, Stree.Lookup joins the two.
--   writer/mod.rs, writer/attr_index.rs: Writer. The temporary file and the lists of FcbWriter, the
--     order of the features in the file, their places in the two kinds of index. What
--     finish_to_feature of writer/feature_writer.rs makes of a feature is a record, which stands
--     for its result only.
--   writer/attribute.rs, reader/deserializer.rs: Attributes. The schema of the attributes, the
--     bytes of the attributes of an object and their reading, and the keys of the attribute
--     indices (attribute_to_index_entries). JSON values and dates are parameters.
--   static_btree/payload.rs: Payload. The offsets of a duplicated key, to which a leaf of the B+tree
--     points by an offset with its top bit set. Payload.Cache has PayloadCache and
--     read_payload_entry of static_btree/stree.rs.
--   static_btree/query/types.rs, static_btree/query/memory.rs: Query. The conditions on attributes
--     run on B+trees in memory and intersected; Query.Exact joins this with Stree.Lookup. The macro impl_typed_search_index is one definition
--     with the macro's arguments as parameters.
--   static_btree/key.rs, static_btree/entry.rs, static_btree/error.rs: Key, Stree.Entry, Error.
--   Levels has the level arithmetic that both trees share, Array the indexing of vectors, Bytes the
--     little-endian words.
--
-- Numbers are natural numbers. usize values that count items and bytes in memory are not wrapped;
-- the sizes that index_size computes are checked, and an overflow is a panic, as in a build with
-- overflow checks (without them the product wraps). Counters of 32 bits and tagged offsets of 64
-- bits wrap as written. Coordinates are a type with the comparisons of f64; theorems
-- on them ask for the laws of IEEE 754 comparison on values that are not NaN. Their
-- arithmetic, their bits, and the codec of a key type, are parameters too. Keys are a type with
-- the comparison of their Ord and the greatest and least value. A failed assertion, an index out of
-- range and an overflow are the result panic.
--
-- Loops run on fuel: the counting loop of the levels on the node count plus one, each level of
-- generate_nodes on its item count plus one, the R-tree search on (branching factor + 1) to the
-- power of the top level plus one, find_exact on the level count plus one, find_range on the
-- number of items plus one, the grouping on the number of entries, decode_attributes on the number
-- of bytes. A level has fewer nodes than
-- the one below it until the loop ends, a round of a scan moves on by an item at least, a round of
-- find_exact goes down a level, a node of the R-tree has at most branching-factor children one
-- level down, a group takes an entry at least, and a value of decode_attributes the two bytes of
-- an index.
--
-- Not modelled: the generated FlatBuffers code, the reader of whole files, the order of the
-- attribute indices in a file, its header and output, finish_to_feature and the FlatBuffers tables
-- of the features, semantics, materials and textures of a geometry, the nearest-neighbour search,
-- the searches that read a stream, those over HTTP, which are input and output, and the other
-- languages' bindings.
pub mod Array
pub mod Attributes
pub mod Bytes
pub mod Error
pub mod Geometry
pub mod Key
pub mod Levels
pub mod Payload
pub mod Prelude
pub mod Query
pub mod RTree
pub mod Stree
pub mod Writer
