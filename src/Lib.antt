-- ===== src/Lib.antt =====
-- A model of the cells of this repository and of the code that writes and reads them. Data are cells
-- of at most 1023 bits and 4 references. A builder (src/cell/builder.rs) collects them bit by bit, a
-- slice (src/cell/slice.rs) reads them through a window that moves, and the types of the blocks are
-- written by the one and read by the other: here the shard identifiers of src/shard.rs and the
-- dictionaries of src/dictionary, tries of cells whose edges carry labels.
--
-- - Common: numbers, lists, and words and byte strings as lists of bits.
-- - Types: ExceptionCode of src/types.rs, BlockError of src/error.rs, and `Outcome`, what a call
--   answers: a value, an error or a panic.
-- - Cell: src/cell/mod.rs. A cell is a value; Cell/LevelMask is LevelMask, Cell/Tag is find_tag and
--   append_tag, Cell/Layout the serialized buffer of a cell.
-- - Builder: BuilderData of src/cell/builder.rs and IBitstring of src/cell/builder_operations.rs.
--   Builder/Raw is append_raw_data with its three ways of shifting. Builder/Content says what the
--   bits of a builder are, Builder/Writes what the number writers
--   append, Builder/Joins several builders in one.
-- - Slice: SliceData of src/cell/slice.rs; Slice/Read has its readers, Slice/Prefix
--   equality and prefixes. Slice/Window says what the
--   bits of a slice are; Slice/Field, Slice/Words, Slice/Front, Slice/Cursor and Slice/Bytestring what
--   the readers make of them; Slice/Shared, Slice/Prefix/Parts and Slice/Prefix/Laws are about
--   what two slices share, Slice/Prefix/Erase about taking a prefix off.
-- - Dictionary: src/dictionary/mod.rs and hashmap.rs. Dictionary/Label is hm_label and LabelReader:
--   Label/Format is the format of a label, Label/Steps and Label/Write what is written, Label/Front and
--   Label/Read what is read. Dictionary/Hashmap is hashmap_get, get_min_max, iterate_slices and count for HashmapE;
--   Hashmap/Trie says which trie a tree of cells stands for, Hashmap/Loaded what loading a cell of it
--   gives, Hashmap/Get, Hashmap/Extreme, Hashmap/Iterate and Hashmap/Count what is found, met and
--   counted, Hashmap/Order which key comes first.
-- - RoundTrip: builders and slices together.
-- - Shard: ShardIdent of src/shard.rs; Shard/Address has AccountIdPrefixFull and routing.
--   Shard/Address/Laws is interpolation, Address/Range, Address/Routing and Address/Hops routing.
--   Shard/Masks and Shard/Prefix turn the bit tricks into arithmetic, Shard/Family is about parents
--   and children, Shard/Written about writing, Shard/Serial about reading back.
-- - Tests: the theorems at concrete inputs.
--
-- A method with `&mut self` returns the new state beside its answer. The state after an error is not
-- given back: the builders check before they write, and a slice that failed to read is not used.
-- A `usize` is a natural number. Where a subtraction of unsigned numbers may fail it is `minus`, which
-- panics; u8, u16, u32, u64 and u128 are cut to their width where the code shifts. An i32 is its bit
-- pattern.
--
-- Loops without a structure run on fuel: 8 rounds for the zeros of a byte in find_tag, 64 for those
-- of a u64 and 16 for the bits of a u16, one for each byte of the window in get_bytestring, one more
-- than the bits of the slice in with_prefix_slice, in the unary length of a label
-- (Dictionary/Label/Front) and than the bits of the key in hashmap_get, get_min_max, iterate_slices
-- and count (Dictionary/Hashmap), and 64 for hypercube routing, whose mask is 0 after 16 rounds and whose
-- counter, a u8, overflows in the 64th (Shard/Address/Routing). Overflow of that counter is a panic, as
-- in a build with overflow checks.
--
-- Not modelled: the computing of hashes and depths (finalize) and bags of cells (boc.rs), so a
-- builder becomes a slice only by load_bitstring; usage and virtual cells; the texts of errors; display.
-- Insertion into dictionaries and removal need finalize and are not modelled, nor what a gas consumer
-- charges, nor the `debug_assert!`s of hm_label, whose conditions are hypotheses here. The records of
-- blocks, messages and accounts are not modelled.
pub mod Common
pub mod Types
pub mod Cell
pub mod Builder
pub mod Dictionary
pub mod Slice
pub mod RoundTrip
pub mod Shard
pub mod Tests
