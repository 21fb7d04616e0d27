-- ===== src/Dictionary/Hashmap.antt =====
-- Looking up in a dictionary: `hashmap_get` of dictionary/mod.rs for the plain dictionaries of
-- dictionary/hashmap.rs. A gas consumer loads cells; what it charges is left out.
pub mod Trie
pub mod Loaded
pub mod Get
pub mod Iterate
pub mod Count
pub mod Extreme
pub mod Order
use block.Common.{
  ℕ, zero, suc, ◌+◌, ◌-◌, Bool, true, false, not, ◌&&◌, ltb, ◌==◌, if◌then◌else◌, Option, none,
  some,
}
use block.Types.{
  Outcome, ok, err, panic, ◌>>=◌, ◌>>◌, message, exception, dictionary_error, require,
}
use block.Cell.{Cell}
use block.Slice.{
  SliceData, load_cell, remaining_bits, remaining_references, slice_reference, is_empty,
}
use block.Slice.Read.{get_next_bit_int}
use block.Slice.Prefix.{erase_prefix}
use block.Dictionary.Label.{
  append_bytestring, read_label, checked_sub, LabelReader, new, with_cell, remainder,
  reader_reference, get_label_raw, skip_label,
}
use block.Builder
use block.Builder.{BuilderData, append_bit_bool}
use block.Slice.{load_bitstring}

pub record HashmapE : Type 0 where
  pub bit_len : ℕ
  pub root : Option Cell

abbrev pub with_hashmap : ℕ → Option Cell → HashmapE
with_hashmap bit_len root = record { bit_len = bit_len; root = root }

unfoldable pub check_key : ℕ → SliceData → Bool
check_key bit_len key = bit_len == remaining_bits key

unfoldable pub check_key_fail : ℕ → SliceData → Outcome (Unit {0})
check_key_fail bit_len key = require (not (is_empty key) && check_key bit_len key) message

unfoldable pub is_fork : SliceData → Bool
is_fork slice = ltb 1 (remaining_references slice)

unfoldable pub is_leaf : SliceData → Bool
is_leaf slice = true

module _ (same : Cell → Cell → Bool) (load : Cell → Outcome SliceData) where
  -- The loop, with the cursor behind the label that was read. Every turn takes a bit off `bit_len`;
  -- `fuel` bounds the turns.
  unfoldable pub get_loop : ℕ → SliceData → SliceData → SliceData → ℕ → Outcome (Option SliceData)
  get_loop zero cursor label key bit_len = panic
  get_loop (suc fuel) cursor label key bit_len = do
    (erased, key) ← erase_prefix same key label
    if not (erased && not (is_empty key))
        then ok (if is_empty key && is_leaf cursor then some cursor else none)
        else if not (is_fork cursor)
        then ok none
        else do
          (next_index, key) ← get_next_bit_int key
          c ← slice_reference cursor next_index
          next ← load c
          bit_len ← checked_sub bit_len (remaining_bits label + 1)
          (label, cursor) ← read_label next bit_len
          get_loop fuel cursor label key bit_len

  abbrev get_from : ℕ → SliceData → Option Cell → Outcome (Option SliceData)
  get_from bit_len key none = ok none
  get_from bit_len key (some c) = do
    next ← load c
    (label, cursor) ← read_label next bit_len
    get_loop (suc bit_len) cursor label key bit_len

  unfoldable pub hashmap_get : HashmapE → SliceData → Outcome (Option SliceData)
  hashmap_get d key = check_key_fail d.bit_len key >> get_from d.bit_len key d.root

-- `HashmapE::get`
unfoldable pub get : (Cell → Cell → Bool) → HashmapE → SliceData → Outcome (Option SliceData)
get same d key = hashmap_get same load_cell d key

-- `LabelReader::next_reader`, on an edge that was read.
unfoldable pub next_reader : (Cell → Outcome SliceData) → LabelReader → ℕ → Outcome LabelReader
next_reader load reader index = do
  require (is_fork reader.cursor) message
  c ← reader_reference reader index
  s ← load c
  ok (new s)

-- `if !cursor.already_read() { key = cursor.get_label_raw(&mut bit_len, key)? }`
abbrev pub read_once : LabelReader → ℕ → BuilderData → Outcome (BuilderData × ℕ × LabelReader)
read_once reader bit_len key =
    if reader.already_read then ok (key, bit_len, reader) else get_label_raw reader bit_len key

module _ {S : Type 0} (found : BuilderData → SliceData → S → Outcome (Bool × S)) where
  -- `iterate_internal`; the state is what the callback keeps. `fuel` bounds the depth, since every
  -- level takes a bit off `bit_len`.
  unfoldable pub iterate_internal : ℕ → LabelReader → BuilderData → ℕ → S → Outcome (Bool × S)
  iterate_internal zero reader key bit_len kept = panic
  iterate_internal (suc fuel) reader key bit_len kept = do
    (key, bit_len, reader) ← read_once reader bit_len key
    if bit_len == 0 then (do value ← remainder reader; found key value kept) else do
      left_key ← append_bit_bool key false
      left ← next_reader load_cell reader 0
      (go_on, kept) ← iterate_internal fuel left left_key (bit_len - 1) kept
      if not go_on then ok (false, kept) else do
        right_key ← append_bit_bool key true
        right ← next_reader load_cell reader 1
        iterate_internal fuel right right_key (bit_len - 1) kept

  -- The callback gets the key as a slice.
  abbrev pub iterate_root : ℕ → Option Cell → S → Outcome (Bool × S)
  iterate_root bit_len none kept = ok (true, kept)
  iterate_root bit_len (some c) kept = do
    reader ← with_cell c
    iterate_internal (suc bit_len) reader Builder.empty bit_len kept

-- `iterate_slices`
unfoldable pub iterate_slices :
    {S : Type 0}
    → (SliceData → SliceData → S → Outcome (Bool × S))
    → HashmapE
    → S
    → Outcome (Bool × S)
iterate_slices p d kept =
    iterate_root (λ k v st. load_bitstring k >>= λ key. p key v st) d.bit_len d.root kept

-- `count_internal`, with the number of values that were met.
unfoldable pub count_internal : ℕ → LabelReader → ℕ → ℕ → ℕ → Outcome (Bool × ℕ)
count_internal zero reader bit_len len max = panic
count_internal (suc fuel) reader bit_len len max = do
  (bit_len, reader) ←
      if reader.already_read then ok (bit_len, reader) else skip_label reader bit_len
  if bit_len == 0 then (if len == max then ok (false, len) else ok (true, len + 1)) else do
    left ← next_reader load_cell reader 0
    (go_on, len) ← count_internal fuel left (bit_len - 1) len max
    if not go_on then ok (false, len) else do
      right ← next_reader load_cell reader 1
      count_internal fuel right (bit_len - 1) len max

abbrev count_root : ℕ → Option Cell → ℕ → Outcome ℕ
count_root bit_len none max = ok 0
count_root bit_len (some c) max = do
  reader ← with_cell c
  (go_on, len) ← count_internal (suc bit_len) reader bit_len 0 max
  ok len

unfoldable pub count : HashmapE → ℕ → Outcome ℕ
count d max = count_root d.bit_len d.root max

-- `result.map(|value| (path, value))`
abbrev pub with_path : BuilderData → Option SliceData → Option (BuilderData × SliceData)
with_path path none = none
with_path path (some value) = some (path, value)

module _ (load : Cell → Outcome SliceData) where
  -- The loop of `get_min_max`; every turn takes a bit off `bit_len`, `fuel` bounds the turns.
  unfoldable pub min_max_loop :
      ℕ → Cell → BuilderData → ℕ → ℕ → ℕ → Outcome (BuilderData × Option SliceData)
  min_max_loop zero c path bit_len next_index index = panic
  min_max_loop (suc fuel) c path bit_len next_index index = do
    s ← load c
    (label, cursor) ← read_label s bit_len
    let index = if Builder.is_empty path && not (is_empty label) then next_index else index
    path ← append_bytestring path label
    if is_fork cursor && ltb (remaining_bits label) bit_len
        then (do
          path ← append_bit_bool path (index == 1)
          c ← slice_reference cursor index
          min_max_loop fuel c path (bit_len - (remaining_bits label + 1)) next_index next_index)
        else if bit_len == remaining_bits label
        then ok (path, some cursor)
        else err (exception dictionary_error)

  abbrev min_max_root : Option Cell → ℕ → ℕ × ℕ → Outcome (Option (BuilderData × SliceData))
  min_max_root none bit_len (next_index, index) = ok none
  min_max_root (some c) bit_len (next_index, index) = do
    (path, result) ← min_max_loop (suc bit_len) c Builder.empty bit_len next_index index
    ok (with_path path result)

-- `(next_index, index)`
abbrev pub min_max_indices : Bool → Bool → ℕ × ℕ
min_max_indices true true = (0, 1)
min_max_indices true false = (0, 0)
min_max_indices false true = (1, 0)
min_max_indices false false = (1, 1)

unfoldable pub get_min_max : HashmapE → Bool → Bool → Outcome (Option (BuilderData × SliceData))
get_min_max d least signed = min_max_root load_cell d.root d.bit_len (min_max_indices least signed)

-- `get_min` and `get_max`
unfoldable pub get_min : HashmapE → Bool → Outcome (Option (BuilderData × SliceData))
get_min d signed = get_min_max d true signed

unfoldable pub get_max : HashmapE → Bool → Outcome (Option (BuilderData × SliceData))
get_max d signed = get_min_max d false signed
