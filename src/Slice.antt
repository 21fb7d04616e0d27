-- ===== src/Slice.antt =====
-- cell/slice.rs: a window on the data and on the references of a cell, or on a bare bit string. A
-- method that takes `&mut self` returns the moved slice beside its answer.
pub mod Read
pub mod Window
pub mod Field
pub mod Words
pub mod Front
pub mod Cursor
pub mod Bytestring
pub mod Prefix
pub mod Shared
use block.Common.{
  ℕ, zero, suc, ◌+◌, ◌-◌, ◌*◌, ◌/◌, ◌%◌, ◌^◌, min, Bool, true, false, not, ◌&&◌, ◌||◌, List, [],
  ◌∷◌, ◌++◌, length, take, drop, ltb, leb, ◌==◌, if◌then◌else◌, Option, none, some, get_elem?,
  bit_or, bit_and,
}
use block.Types.{
  Outcome, ok, err, panic, ◌>>=◌, ◌>>◌, Error, exception, message, cell_underflow,
  pruned_cell_access, big_cell_access, range_check_error, unwrap, unwrap_ok, require, ok_or,
}
use block.Cell.{
  Cell, CellType, ordinary, is_ordinary, is_pruned, is_big, cell_type, cell_data, bit_length,
  references_count, reference, max_data_bits,
}
use block.Builder.{BuilderData, is_nil}

-- enum InternalData: nothing, a cell, or a bit string with its length.
pub data InternalData : Type 0 where
  no_data : InternalData
  of_cell : Cell → InternalData
  of_bits : List ℕ → ℕ → InternalData

pub record SliceData : Type 0 where
  pub inner : InternalData
  pub start : ℕ
  pub stop : ℕ
  pub ref_start : ℕ
  pub ref_stop : ℕ

-- `new_empty` and `default`
abbrev pub new_empty : SliceData
new_empty = record { inner = no_data; start = 0; stop = 0; ref_start = 0; ref_stop = 0 }

unfoldable pub load_cell : Cell → Outcome SliceData
load_cell c =
    if is_pruned (cell_type c)
    then err (exception pruned_cell_access)
    else if is_big (cell_type c)
    then err (exception big_cell_access)
    else ok (record {
      inner = of_cell c;
      start = 0;
      stop = bit_length c;
      ref_start = 0;
      ref_stop = references_count c;
    })

unfoldable pub with_bitstring : List ℕ → ℕ → SliceData
with_bitstring bs len = record {
  inner = of_bits bs (min len max_data_bits);
  start = 0;
  stop = len;
  ref_start = 0;
  ref_stop = 0;
}

unfoldable pub load_bitstring : BuilderData → Outcome SliceData
load_bitstring b =
    if not (is_ordinary b.ty)
    then err message
    else if ltb max_data_bits b.length_in_bits
    then err message
    else if not (is_nil b.refs)
    then err message
    else ok (with_bitstring b.bytes b.length_in_bits)

unfoldable pub remaining_references : SliceData → ℕ
remaining_references s = if leb s.ref_stop s.ref_start then 0 else s.ref_stop - s.ref_start

unfoldable pub remaining_bits : SliceData → ℕ
remaining_bits s = if ltb s.stop s.start then 0 else s.stop - s.start

-- The two ends of a `RangeBounds<usize>`.
pub data Bound : Type 0 where
  included excluded : ℕ → Bound
  unbounded : Bound

abbrev pub start_of : Bound → ℕ
start_of (included n) = n
start_of (excluded n) = n + 1
start_of unbounded = 0

abbrev pub end_of : Bound → ℕ → ℕ
end_of (included n) len = n + 1
end_of (excluded n) len = n
end_of unbounded len = len

-- The slice that is cut off, and the window that is left.
unfoldable pub shrink_data : SliceData → Bound → Bound → SliceData × SliceData
shrink_data s lo hi =
    let from = start_of lo in
    let to = end_of hi (remaining_bits s) in
    if leb from to && leb to (remaining_bits s)
    then (
      (if not (from == 0)
          then record s { stop = s.start + from; ref_start = 0; ref_stop = 0 }
          else record s { start = s.start + to; ref_start = 0; ref_stop = 0 }),
      record s { start = s.start + from; stop = s.start + to },
    )
    else (new_empty, s)

unfoldable pub clear_all_references : SliceData → SliceData
clear_all_references s = record s { ref_stop = s.ref_start }

-- `cell.reference(i).unwrap()` for `count` indices from `i` on.
unfoldable pub collect_references : Cell → ℕ → ℕ → Outcome (List Cell)
collect_references c i zero = ok []
collect_references c i (suc count) = do
  r ← unwrap_ok (reference c i)
  rest ← collect_references c (i + 1) count
  ok (r ∷ rest)

-- The references cut off are counted from the first of the cell, not from that of the window.
unfoldable pub shrink_references : SliceData → Bound → Bound → Outcome (List Cell × SliceData)
shrink_references s lo hi = elim s.inner [
  | of_cell c ↦
      let count = remaining_references s in
      let from = start_of lo in
      let to = end_of hi count in
      if leb from to && leb to count
      then (do
        before ← collect_references c 0 from
        behind ← collect_references c to (count - to)
        ok (
          before ++ behind,
          record s { ref_start = s.ref_start + from; ref_stop = s.ref_start + to },
        ))
      else ok ([], s)
  | _ ↦ ok ([], s)
]

unfoldable pub shrink_by_remainder : SliceData → SliceData → SliceData
shrink_by_remainder s other = record s {
  stop = if leb s.start other.start then other.start else s.stop;
  ref_stop = if leb s.ref_start other.ref_start then other.ref_start else s.ref_stop;
}

abbrev in_cell : InternalData → ℕ → Outcome Cell
in_cell (of_cell c) i = reference c i
in_cell _ i = err (exception cell_underflow)

unfoldable pub slice_reference : SliceData → ℕ → Outcome Cell
slice_reference s i =
    if ltb (s.ref_start + i) s.ref_stop
    then in_cell s.inner (s.ref_start + i)
    else err (exception cell_underflow)

unfoldable pub checked_drain_reference : SliceData → Outcome (Cell × SliceData)
checked_drain_reference s = elim s.inner [
  | of_cell c ↦
      if ltb s.ref_start s.ref_stop
      then (do r ← reference c s.ref_start; ok (r, record s { ref_start = s.ref_start + 1 }))
      else err (exception cell_underflow)
  | _ ↦ err (exception cell_underflow)
]

unfoldable pub storage : SliceData → List ℕ
storage s = elim s.inner [ no_data ↦ [] | of_bits bs len ↦ bs | of_cell c ↦ cell_data c ]

unfoldable pub is_empty : SliceData → Bool
is_empty s = leb s.stop s.start

unfoldable pub move_by : SliceData → ℕ → Outcome SliceData
move_by s offset =
    if leb (s.start + offset) s.stop
    then ok (record s { start = s.start + offset })
    else err (exception cell_underflow)

unfoldable pub get_slice : SliceData → ℕ → ℕ → Outcome SliceData
get_slice s offset size =
    if ltb (remaining_bits s) (offset + size) then err (exception cell_underflow) else do
      (cut, s') ←
          shrink_references (shrink_data s (included offset) (excluded (offset + size))).1 unbounded
            (excluded 0)
      ok s'

unfoldable pub get_next_slice : SliceData → ℕ → Outcome (SliceData × SliceData)
get_next_slice s size = do
  slice ← get_slice s 0 size
  ok (slice, (shrink_data s (included size) unbounded).1)
