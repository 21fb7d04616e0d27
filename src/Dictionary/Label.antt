-- ===== src/Dictionary/Label.antt =====
-- The labels on the edges of a dictionary (dictionary/mod.rs): `hm_label` writes one, `LabelReader`
-- reads it, from a cursor that is passed on. An error is all that is left of a call that fails.
pub mod Format
pub mod Steps
pub mod Write
pub mod Front
pub mod Read
use block.Common.{
  ℕ, zero, suc, ◌+◌, ◌-◌, ◌*◌, ◌/◌, ◌%◌, Bool, true, false, not, ◌&&◌, List, [], replicate, ltb,
  leb, ◌==◌, if◌then◌else◌, Option, none, some,
}
use block.Types.{
  Outcome, ok, err, panic, ◌>>=◌, ◌>>◌, Error, exception, message, cell_underflow, cell_overflow,
  require, unwrap,
}
use block.Cell.{Cell}
use block.Builder
use block.Builder.{
  BuilderData, append_raw, append_bits, append_bit_zero, bits_free, references_free,
  checked_append_reference,
}
use block.Slice.{
  SliceData, new_empty, load_cell, load_bitstring, remaining_bits, remaining_references,
  slice_reference, is_empty, move_by, shrink_data, included, unbounded,
}
use block.Slice.Read.{bit_width, get_bit_opt, get_bit, get_next_bit, get_next_size, get_bytestring}

-- `append_bytestring` (cell/builder_operations.rs)
unfoldable pub append_bytestring : BuilderData → SliceData → Outcome BuilderData
append_bytestring b other = do bs ← get_bytestring other 0; append_raw b bs (remaining_bits other)

-- The references from the index on, `count` of them.
unfoldable pub append_references_from : BuilderData → SliceData → ℕ → ℕ → Outcome BuilderData
append_references_from b other i zero = ok b
append_references_from b other i (suc count) = do
  r ← slice_reference other i
  b' ← checked_append_reference b r
  append_references_from b' other (i + 1) count

unfoldable pub checked_append_references_and_data : BuilderData → SliceData → Outcome BuilderData
checked_append_references_and_data b other = do
  free ← bits_free b
  if ltb free (remaining_bits other) then err (exception cell_overflow) else do
    slots ← references_free b
    require (leb (remaining_references other) slots) (exception cell_overflow)
    bs ← get_bytestring other 0
    b' ← append_raw b bs (remaining_bits other)
    append_references_from b' other 0 (remaining_references other)

-- `usize::MAX`
abbrev pub usize_max : ℕ
usize_max = 18446744073709551615

-- `16 - (max_len as u16).leading_zeros()`
abbrev pub length_bits : ℕ → ℕ
length_bits max_len = bit_width 16 (max_len % 65536)

-- The `debug_assert!`s are left out.
unfoldable pub hm_label_same : SliceData → Bool → ℕ → Outcome BuilderData
hm_label_same key same max_len =
    let len = remaining_bits key in
    let k = length_bits max_len in
    let ones = (if same then usize_max else 0) in
    if ltb 1 len && ltb k (2 * len - 1)
    then (do
      b ← append_bits Builder.empty 3 2
      b ← append_bits b (if same then 1 else 0) 1
      append_bits b len k)
    else if ltb k len
    then (do b ← append_bits Builder.empty 2 2; b ← append_bits b len k; append_bits b ones len)
    else do
      b ← append_bit_zero Builder.empty
      b ← append_bits b (usize_max - 1) (len + 1)
      append_bits b ones len

-- `same_bits` for `count` offsets from `offset` on.
unfoldable pub same_bits_from : SliceData → Bool → ℕ → ℕ → Outcome Bool
same_bits_from slice bit offset zero = ok true
same_bits_from slice bit offset (suc count) = do
  found ← get_bit_opt slice offset
  b ← unwrap found
  let rest = same_bits_from slice bit (offset + 1) count
  if (if b then bit else not bit) then rest else ok false

unfoldable pub same_bits : SliceData → Bool → Outcome Bool
same_bits slice bit = same_bits_from slice bit 0 (remaining_bits slice)

-- The label of a key whose bits are not all the same.
unfoldable pub hm_label_mixed : SliceData → ℕ → Outcome BuilderData
hm_label_mixed key max_len =
    let len = remaining_bits key in
    let k = length_bits max_len in
    if ltb k len
    then (do b ← append_bits Builder.empty 2 2; b ← append_bits b len k; append_bytestring b key)
    else do
      b ← append_bit_zero Builder.empty
      b ← append_bits b (usize_max - 1) (len + 1)
      append_bytestring b key

unfoldable pub hm_label : SliceData → ℕ → Outcome BuilderData
hm_label key max_len =
    if ltb 0 (remaining_bits key)
    then (do
      bit ← get_bit key 0
      same ← same_bits key bit
      if same then hm_label_same key bit max_len else hm_label_mixed key max_len)
    else hm_label_mixed key max_len

-- `max.checked_sub(len).ok_or(CellUnderflow)`
abbrev pub checked_sub : ℕ → ℕ → Outcome ℕ
checked_sub max len = if leb len max then ok (max - len) else err (exception cell_underflow)

-- `while cursor.get_next_bit()? { len += 1; }`, on fuel.
unfoldable pub count_ones : ℕ → SliceData → Outcome (ℕ × SliceData)
count_ones zero cursor = panic
count_ones (suc fuel) cursor = do
  (bit, cursor) ← get_next_bit cursor
  let rest = count_ones fuel cursor
  if bit then (do (len, cursor) ← rest; ok (suc len, cursor)) else ok (0, cursor)

-- Every turn passes a bit, and the turn behind the last one fails.
unfoldable pub unary_length : SliceData → Outcome (ℕ × SliceData)
unary_length cursor = count_ones (suc (remaining_bits cursor)) cursor

-- The label, what is left of `max`, and the cursor.
unfoldable pub cut_label : SliceData → ℕ → ℕ → Outcome (SliceData × ℕ × SliceData)
cut_label cursor max len = do
  max ← checked_sub max len
  let cut = shrink_data cursor (included len) unbounded
  ok (cut.0, max, cut.1)

unfoldable pub get_label_short : SliceData → ℕ → Outcome (SliceData × ℕ × SliceData)
get_label_short cursor max = do (len, cursor) ← unary_length cursor; cut_label cursor max len

unfoldable pub get_label_long : SliceData → ℕ → Outcome (SliceData × ℕ × SliceData)
get_label_long cursor max = do (len, cursor) ← get_next_size cursor max; cut_label cursor max len

-- `if len <= max { Ok(len) } else { fail!(CellUnderflow) }`
abbrev within : ℕ → ℕ → SliceData → Outcome (ℕ × SliceData)
within max len cursor = if leb len max then ok (len, cursor) else err (exception cell_underflow)

unfoldable pub get_label_short_length : SliceData → ℕ → Outcome (ℕ × SliceData)
get_label_short_length cursor max = do (len, cursor) ← unary_length cursor; within max len cursor

unfoldable pub get_label_long_length : SliceData → ℕ → Outcome (ℕ × SliceData)
get_label_long_length cursor max = do
  (len, cursor) ← get_next_size cursor max
  within max len cursor

unfoldable pub get_label_same : SliceData → ℕ → BuilderData → Outcome (BuilderData × ℕ × SliceData)
get_label_same cursor max key = do
  (bit, cursor) ← get_next_bit cursor
  (len, cursor) ← get_next_size cursor max
  key ← append_raw key (replicate (len / 8 + 1) (if bit then 0xFF else 0)) len
  max ← checked_sub max len
  ok (key, max, cursor)

unfoldable pub get_label_same_length : SliceData → ℕ → Outcome (ℕ × SliceData)
get_label_same_length cursor max = do
  (bit, cursor) ← get_next_bit cursor
  (len, cursor) ← get_next_size cursor max
  within max len cursor

-- The kind of label that the first bits announce.
pub data LabelKind : Type 0 where
  short_label long_label same_label : LabelKind

-- `if !cursor.get_next_bit()? {..} else if !cursor.get_next_bit()? {..} else {..}`
unfoldable pub label_kind : SliceData → Outcome (LabelKind × SliceData)
label_kind cursor = do
  (bit, cursor) ← get_next_bit cursor
  if not bit then ok (short_label, cursor) else do
    (bit, cursor) ← get_next_bit cursor
    ok ((if not bit then long_label else same_label), cursor)

abbrev add_label : BuilderData → SliceData × ℕ × SliceData → Outcome (BuilderData × ℕ × SliceData)
add_label key (label, max, cursor) = do key ← append_bytestring key label; ok (key, max, cursor)

abbrev pub label_of_kind_raw :
    LabelKind → SliceData → ℕ → BuilderData → Outcome (BuilderData × ℕ × SliceData)
label_of_kind_raw short_label cursor max key = get_label_short cursor max >>= add_label key
label_of_kind_raw long_label cursor max key = get_label_long cursor max >>= add_label key
label_of_kind_raw same_label cursor max key = get_label_same cursor max key

-- The key with the label behind it, what is left of `max`, and the cursor.
unfoldable pub read_label_raw : SliceData → ℕ → BuilderData → Outcome (BuilderData × ℕ × SliceData)
read_label_raw cursor max key =
    if is_empty cursor
    then ok (key, max, cursor)
    else do (kind, cursor) ← label_kind cursor; label_of_kind_raw kind cursor max key

abbrev length_of_kind : LabelKind → SliceData → ℕ → Outcome (ℕ × SliceData)
length_of_kind short_label cursor max = get_label_short_length cursor max
length_of_kind long_label cursor max = get_label_long_length cursor max
length_of_kind same_label cursor max = get_label_same_length cursor max

unfoldable pub read_label_length : SliceData → ℕ → Outcome (ℕ × SliceData)
read_label_length cursor max =
    if is_empty cursor
    then ok (0, cursor)
    else do (kind, cursor) ← label_kind cursor; length_of_kind kind cursor max

-- The label without what is left of `max`.
abbrev drop_max : SliceData × ℕ × SliceData → Outcome (SliceData × SliceData)
drop_max (label, max, cursor) = ok (label, cursor)

abbrev load_label : BuilderData × ℕ × SliceData → Outcome (SliceData × SliceData)
load_label (key, max, cursor) = do label ← load_bitstring key; ok (label, cursor)

abbrev pub label_of_kind : LabelKind → SliceData → ℕ → Outcome (SliceData × SliceData)
label_of_kind short_label cursor max = get_label_short cursor max >>= drop_max
label_of_kind long_label cursor max = get_label_long cursor max >>= drop_max
label_of_kind same_label cursor max = get_label_same cursor max Builder.empty >>= load_label

-- The label and the cursor behind it.
unfoldable pub read_label : SliceData → ℕ → Outcome (SliceData × SliceData)
read_label cursor max =
    if is_empty cursor
    then ok (new_empty, cursor)
    else do (kind, cursor) ← label_kind cursor; label_of_kind kind cursor max

abbrev pub skip_of_kind : LabelKind → SliceData → ℕ → Outcome (ℕ × SliceData)
skip_of_kind short_label cursor max = do
  (len, cursor) ← unary_length cursor
  cursor ← move_by cursor len
  ok (len, cursor)
skip_of_kind long_label cursor max = do
  (len, cursor) ← get_next_size cursor max
  cursor ← move_by cursor len
  ok (len, cursor)
skip_of_kind same_label cursor max = do
  (bit, cursor) ← get_next_bit cursor
  get_next_size cursor max

unfoldable pub pass_label : SliceData → ℕ → Outcome (ℕ × SliceData)
pass_label cursor max =
    if is_empty cursor
    then ok (0, cursor)
    else do (kind, cursor) ← label_kind cursor; skip_of_kind kind cursor max

pub record LabelReader : Type 0 where
  pub cursor : SliceData
  pub already_read : Bool

unfoldable pub new : SliceData → LabelReader
new cursor = record { cursor = cursor; already_read = false }

unfoldable pub with_cell : Cell → Outcome LabelReader
with_cell c = do cursor ← load_cell c; ok (new cursor)

unfoldable pub remainder : LabelReader → Outcome SliceData
remainder r = do require r.already_read message; ok r.cursor

unfoldable pub reader_reference : LabelReader → ℕ → Outcome Cell
reader_reference r index = do require r.already_read message; slice_reference r.cursor index

-- The reader once the label is read.
abbrev read_up_to : SliceData → LabelReader
read_up_to cursor = record { cursor = cursor; already_read = true }

unfoldable pub get_label_raw :
    LabelReader → ℕ → BuilderData → Outcome (BuilderData × ℕ × LabelReader)
get_label_raw r max key = do
  require (not r.already_read) message
  (key, max, cursor) ← read_label_raw r.cursor max key
  ok (key, max, read_up_to cursor)

unfoldable pub get_label : LabelReader → ℕ → Outcome (SliceData × LabelReader)
get_label r max = do
  require (not r.already_read) message
  (label, cursor) ← read_label r.cursor max
  ok (label, read_up_to cursor)

unfoldable pub skip_label : LabelReader → ℕ → Outcome (ℕ × LabelReader)
skip_label r max = do
  require (not r.already_read) message
  (len, cursor) ← pass_label r.cursor max
  max ← checked_sub max len
  ok (max, read_up_to cursor)
