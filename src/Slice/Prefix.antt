-- ===== src/Slice/Prefix.antt =====
-- The rest of cell/slice.rs: equality, common prefixes, and the data of a window moved to
-- a byte's edge. Equality of
-- cells compares hashes, which are not modelled: `same` stands for it.
pub mod Parts
pub mod Laws
pub mod Erase
use block.Common.{
  ℕ, zero, suc, ◌+◌, ◌-◌, ◌*◌, ◌/◌, ◌%◌, ◌^◌, min, Bool, true, false, not, ◌&&◌, ◌||◌, List, [],
  ◌∷◌, ltb, leb, ◌==◌, if◌then◌else◌, Option, none, some, get_elem?, bit_xor,
}
use block.Types.{Outcome, ok, ◌>>=◌, unwrap, unwrap_ok, minus, sub_slice}
use block.Cell.{Cell, cell_data, bit_length, references_count}
use block.Builder.Raw.{append_raw_data}
use block.Slice.{
  SliceData, no_data, of_cell, of_bits, remaining_bits, remaining_references, is_empty, shrink_data,
  shrink_references, slice_reference, included, excluded, unbounded,
}
use block.Slice.Read.{get_bit_opt, get_bits, get_byte, bit_width}

abbrev is_one : Option Bool → Bool
is_one (some true) = true
is_one _ = false

-- The loop of `trim_right`, from `offset` down.
unfoldable pub trim_loop : SliceData → ℕ → Outcome SliceData
trim_loop s zero = ok s
trim_loop s (suc offset) = do
  bit ← get_bit_opt s offset
  let rest = trim_loop s offset
  if is_one bit then ok (record s { stop = s.start + offset }) else rest

unfoldable pub trim_right : SliceData → Outcome SliceData
trim_right s = trim_loop s (remaining_bits s)

-- `self.get_byte(offset).unwrap() == other.get_byte(offset).unwrap()`
unfoldable pub same_byte : SliceData → SliceData → ℕ → Outcome Bool
same_byte a b offset = do
  x ← unwrap_ok (get_byte a offset)
  y ← unwrap_ok (get_byte b offset)
  ok (x == y)

-- Byte by byte, up to the first that differs or that is not whole: the offset, and whether all were
-- the same. `fuel` bounds the rounds, one for each byte.
unfoldable pub byte_loop : ℕ → SliceData → SliceData → ℕ → ℕ → Outcome (ℕ × Bool)
byte_loop zero a b offset bits = ok (offset, true)
byte_loop (suc fuel) a b offset bits =
    let rest = byte_loop fuel a b (offset + 8) bits in
    if leb (offset + 8) bits
    then (do equal ← same_byte a b offset; if equal then rest else ok (offset, false))
    else ok (offset, true)

module _ (same : Cell → Cell → Bool) where
  -- The references from `i` on, `count` of them.
  unfoldable pub same_references : SliceData → SliceData → ℕ → ℕ → Outcome Bool
  same_references a b i zero = ok true
  same_references a b i (suc count) = do
    x ← unwrap_ok (slice_reference a i)
    y ← unwrap_ok (slice_reference b i)
    let rest = same_references a b (i + 1) count
    if same x y then rest else ok false

  -- `eq`
  unfoldable pub same_slice : SliceData → SliceData → Outcome Bool
  same_slice a b =
      let refs_count = remaining_references a in
      let bit_len = remaining_bits a in
      if not (bit_len == remaining_bits b) || not (refs_count == remaining_references b)
      then ok false
      else do
        (offset, equal) ← byte_loop (bit_len / 8) a b 0 bit_len
        if not equal then ok false else do
          last_equal ←
              if ltb offset bit_len
              then (do
                x ← unwrap_ok (get_bits a offset (bit_len - offset))
                y ← unwrap_ok (get_bits b offset (bit_len - offset))
                ok (x == y))
              else ok true
          if not last_equal then ok false else same_references a b 0 refs_count

abbrev unless_empty : SliceData → Option SliceData
unless_empty s = if ltb 0 (remaining_bits s) then some s else none

-- What `a` and `b` share, and what is left of each.
unfoldable pub common_prefix :
    SliceData → SliceData → Outcome (Option SliceData × (Option SliceData × Option SliceData))
common_prefix a b = do
  let longest = min (remaining_bits a) (remaining_bits b)
  (offset, _) ← byte_loop (longest / 8) a b 0 longest
  if leb longest offset
      then (do
        (cut, prefix) ←
            shrink_references (if ltb (remaining_bits a) (remaining_bits b) then a else b)
              (included 0) (excluded 0)
        ok (
          unless_empty prefix,
          (
            unless_empty (shrink_data a (included longest) unbounded).1,
            unless_empty (shrink_data b (included longest) unbounded).1,
          ),
        ))
      else do
        let last_bits_len = min (longest - offset) 8
        a_bits ← unwrap_ok (get_bits a offset last_bits_len)
        b_bits ← unwrap_ok (get_bits b offset last_bits_len)
        shared ← minus (8 - bit_width 8 (bit_xor a_bits b_bits)) (8 - last_bits_len)
        let end_at = offset + min shared last_bits_len
        (cut, prefix) ←
            shrink_references (shrink_data a unbounded (excluded end_at)).1 (included 0)
              (excluded 0)
        ok (
          unless_empty prefix,
          (
            unless_empty (shrink_data a (included end_at) unbounded).1,
            unless_empty (shrink_data b (included end_at) unbounded).1,
          ),
        )

-- `erase_prefix`: whether the prefix was there, and the slice behind it.
unfoldable pub erase_prefix :
    (Cell → Cell → Bool) → SliceData → SliceData → Outcome (Bool × SliceData)
erase_prefix same s prefix =
    if is_empty s || ltb (remaining_bits s) (remaining_bits prefix)
    then ok (false, s)
    else if is_empty prefix
    then ok (true, s)
    else do
      equal ← same_slice same s prefix
      let nothing = (shrink_data s (included 0) (excluded 0)).1
      if equal then ok (true, nothing) else do
        (shared, (left, missing)) ← common_prefix s prefix
        ok (behind nothing left missing)
  where
    behind : SliceData → Option SliceData → Option SliceData → Bool × SliceData
    behind nothing left (some rest) = (false, s)
    behind nothing (some rest) none = (true, rest)
    behind nothing none none = (true, nothing)

-- The bytes of the window from its first bit on.
abbrev shifted_data : List ℕ → ℕ → ℕ → Outcome (List ℕ × ℕ)
shifted_data bs start stop =
    let length_in_bits = stop - start in
    let trailing = start % 8 in
    if trailing == 0
    then (do cut ← sub_slice bs (start / 8) ((stop + 7) / 8); ok (cut, length_in_bits))
    else do
      first ← unwrap (get_elem? bs (start / 8))
      let vec = first * 2 ^ trailing % 256 ∷ []
      if ltb 8 (trailing + length_in_bits)
          then (do
            behind ← sub_slice bs (start / 8 + 1) ((stop + 7) / 8)
            (joined, n) ←
                unwrap_ok
                  (append_raw_data (vec, 8 - trailing) behind (length_in_bits - (8 - trailing)))
            ok (joined, length_in_bits))
          else ok (vec, length_in_bits)

unfoldable pub remaining_data : SliceData → Outcome (List ℕ × ℕ)
remaining_data s = if leb s.stop s.start then ok ([], 0) else elim s.inner [
  | no_data ↦ ok ([], 0)
  | of_bits bs len ↦
      if s.start == 0 && s.stop == len then ok (bs, len) else shifted_data bs s.start s.stop
  | of_cell c ↦
      if s.ref_start == 0
        && s.start == 0
        && s.ref_stop == references_count c
        && s.stop == bit_length c
      then ok (cell_data c, bit_length c)
      else shifted_data (cell_data c) s.start s.stop
]
