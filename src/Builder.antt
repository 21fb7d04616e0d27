-- ===== src/Builder.antt =====
-- cell/builder.rs and cell/builder_operations.rs: the buffer that a cell is built in. A method that
-- takes `&mut self` returns the new builder.
pub mod Raw
pub mod Content
pub mod Writes
pub mod Joins
use block.Common.{
  ℕ, zero, suc, ◌+◌, ◌-◌, ◌*◌, ◌/◌, ◌%◌, ◌^◌, min, Bool, true, false, not, ◌&&◌, List, [], ◌∷◌,
  ◌++◌, length, take, set, ltb, leb, ◌==◌, if◌then◌else◌,
}
use block.Types.{Outcome, ok, err, ◌>>=◌, minus, exception, message, cell_overflow, fatal_error}
use block.Cell.{
  Cell, CellType, ordinary, big, cell_type, is_big, cell_data, bit_length, references,
  max_data_bits, max_references_count,
}
use block.Cell.Tag.{find_tag}
use block.Builder.Raw.{append_raw_data, cut_behind}

pub record BuilderData : Type 0 where
  pub bytes : List ℕ
  pub length_in_bits : ℕ
  pub refs : List Cell
  pub ty : CellType

-- `new` and `default`
abbrev pub empty : BuilderData
empty = record { bytes = []; length_in_bits = 0; refs = []; ty = ordinary }

-- The buffer is cut behind the last bit, and what follows it in the last byte is cleared. The code
-- clears by `last_mut`, which finds a byte: the length is checked before.
unfoldable pub with_raw : List ℕ → ℕ → Outcome BuilderData
with_raw bs len =
    if ltb (length bs * 8) len
    then err (exception fatal_error)
    else if ltb max_data_bits len
    then err (exception cell_overflow)
    else do
      cut ← cut_behind bs len
      ok (record { bytes = cut; length_in_bits = len; refs = []; ty = ordinary })

unfoldable pub with_raw_and_refs : List ℕ → ℕ → List Cell → Outcome BuilderData
with_raw_and_refs bs len rs = do builder ← with_raw bs len; ok (record builder { refs = rs })

unfoldable pub with_bitstring : List ℕ → Outcome BuilderData
with_bitstring bs =
    let len = find_tag bs in
    if len == 0
    then ok empty
    else if ltb (length bs * 8) len
    then err (exception fatal_error)
    else if ltb max_data_bits len
    then err (exception cell_overflow)
    else with_raw bs len

unfoldable pub from_cell : Cell → Outcome BuilderData
from_cell c = if is_big (cell_type c) then err message else do
  builder ← with_raw (cell_data c) (bit_length c)
  ok (record builder { refs = references c; ty = cell_type c })

-- Free room. The subtractions are checked: a builder may hold too many references, since
-- `with_raw_and_refs` does not count them.
unfoldable pub references_free : BuilderData → Outcome ℕ
references_free b = minus max_references_count (length b.refs)

unfoldable pub bits_free : BuilderData → Outcome ℕ
bits_free b = minus max_data_bits b.length_in_bits

unfoldable pub check_enough_refs : BuilderData → ℕ → Bool
check_enough_refs b count = leb (length b.refs + count) max_references_count

unfoldable pub check_enough_space : BuilderData → ℕ → Bool
check_enough_space b size = leb (b.length_in_bits + size) max_data_bits

-- `&&` does not look at the references if the bits do not fit.
unfoldable pub can_append : BuilderData → BuilderData → Outcome Bool
unfolding bits_free references_free
can_append b x = do
  free ← bits_free b
  if ltb free x.length_in_bits
      then ok false
      else do slots ← references_free b; ok (leb (length x.refs) slots)

unfoldable pub append_raw : BuilderData → List ℕ → ℕ → Outcome BuilderData
append_raw b slice count = do
  (bs, len) ← append_raw_data (b.bytes, b.length_in_bits) slice count
  ok (record b { bytes = bs; length_in_bits = len })

unfoldable pub prepend_raw : BuilderData → List ℕ → ℕ → Outcome BuilderData
prepend_raw b slice count = if count == 0 then ok b else do
  buffer ← with_raw slice count
  buffer' ← append_raw buffer b.bytes b.length_in_bits
  ok (record b { bytes = buffer'.bytes; length_in_bits = buffer'.length_in_bits })

unfoldable pub checked_append_reference : BuilderData → Cell → Outcome BuilderData
unfolding references_free
checked_append_reference b c = do
  free ← references_free b
  if free == 0 then err (exception cell_overflow) else ok (record b { refs = b.refs ++ c ∷ [] })

unfoldable pub checked_prepend_reference : BuilderData → Cell → Outcome BuilderData
unfolding references_free
checked_prepend_reference b c = do
  free ← references_free b
  if free == 0 then err (exception cell_overflow) else ok (record b { refs = c ∷ b.refs })

unfoldable pub replace_data : BuilderData → List ℕ → ℕ → BuilderData
replace_data b bs len = record b {
  bytes = bs;
  length_in_bits = min (min len max_data_bits) (length bs * 8);
}

-- An index out of range is logged, and changes nothing.
unfoldable pub replace_reference_cell : BuilderData → ℕ → Cell → BuilderData
replace_reference_cell b index child = record b { refs = set b.refs index child }

unfoldable pub set_type : BuilderData → CellType → BuilderData
set_type b t = record b { ty = t }

abbrev pub is_nil {ℓ} : {A : Type ℓ} → List A → Bool
is_nil [] = true
is_nil (x ∷ xs) = false

unfoldable pub is_empty : BuilderData → Bool
is_empty b = b.length_in_bits == 0 && is_nil b.refs

unfoldable pub trunc : BuilderData → ℕ → Outcome BuilderData
trunc b len =
    if ltb b.length_in_bits len
    then err (exception fatal_error)
    else ok (record b { length_in_bits = len; bytes = take (1 + len / 8) b.bytes })

-- The loop of `append_builder` over the references of the other builder.
unfoldable pub append_references : BuilderData → List Cell → Outcome BuilderData
append_references b [] = ok b
append_references b (c ∷ cs) = do b' ← checked_append_reference b c; append_references b' cs

unfoldable pub append_builder : BuilderData → BuilderData → Outcome BuilderData
unfolding can_append
append_builder b x = do
  fits ← can_append b x
  if not fits
      then err (exception cell_overflow)
      else do b' ← append_raw b x.bytes x.length_in_bits; append_references b' x.refs

unfoldable pub prepend_builder : BuilderData → BuilderData → Outcome BuilderData
prepend_builder b x = prepend_raw b x.bytes x.length_in_bits

unfoldable pub prepend_bitstring : BuilderData → List ℕ → Outcome BuilderData
prepend_bitstring b bs = prepend_raw b bs (find_tag bs)

unfoldable pub append_bitstring : BuilderData → List ℕ → Outcome BuilderData
append_bitstring b bs = append_raw b bs (find_tag bs)

unfoldable pub append_bit_zero : BuilderData → Outcome BuilderData
append_bit_zero b = append_raw b (0x00 ∷ []) 1

unfoldable pub append_bit_one : BuilderData → Outcome BuilderData
append_bit_one b = append_raw b (0xff ∷ []) 1

unfoldable pub append_bit_bool : BuilderData → Bool → Outcome BuilderData
append_bit_bool b bit = if bit then append_raw b (0xff ∷ []) 1 else append_raw b (0x00 ∷ []) 1

-- `to_be_bytes` of a word of `n` bytes.
unfoldable pub to_be_bytes : ℕ → ℕ → List ℕ
to_be_bytes zero v = []
to_be_bytes (suc n) v = v / 2 ^ (8 * n) % 256 ∷ to_be_bytes n v

-- `(value as uW) << (W - bits)` in a word of `n` bytes, W being 8 * n.
abbrev pub aligned_left : ℕ → ℕ → ℕ → ℕ
aligned_left n v count = v % 2 ^ (8 * n) * 2 ^ (8 * n - count) % 2 ^ (8 * n)

unfoldable pub append_bits : BuilderData → ℕ → ℕ → Outcome BuilderData
append_bits b v count =
    if count == 0
    then ok b
    else if leb count 7
    then append_raw b (to_be_bytes 1 (aligned_left 1 v count)) count
    else if leb count 15
    then append_raw b (to_be_bytes 2 (aligned_left 2 v count)) count
    else if leb count 31
    then append_raw b (to_be_bytes 4 (aligned_left 4 v count)) count
    else if leb count 63
    then append_raw b (to_be_bytes 8 (aligned_left 8 v count)) count
    else err message

-- `append_u8` to `append_u128`, and `append_i8` to `append_i128` on the pattern of a signed word.
unfoldable pub append_word : ℕ → BuilderData → ℕ → Outcome BuilderData
append_word n b v = append_raw b (to_be_bytes n v) (8 * n)
