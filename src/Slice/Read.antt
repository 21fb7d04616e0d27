-- ===== src/Slice/Read.antt =====
-- The reading half of cell/slice.rs: bits, bytes, numbers and byte strings out of the window.
use block.Common.{
  ℕ, zero, suc, ◌+◌, ◌-◌, ◌*◌, ◌/◌, ◌%◌, ◌^◌, Bool, true, false, not, ◌||◌, List, [], ◌∷◌, ◌++◌,
  ltb, leb, ◌==◌, if◌then◌else◌, Option, none, some, get_elem?, bit_or, bit_and,
}
use block.Types.{
  sub_slice, Outcome, ok, err, panic, ◌>>=◌, exception, message, cell_underflow, range_check_error,
  unwrap, unwrap_ok, ok_or,
}
use block.Slice.{SliceData, storage, remaining_bits, move_by}

-- `none` outside the window; the byte is found by an index that may panic.
unfoldable pub get_bit_opt : SliceData → ℕ → Outcome (Option Bool)
get_bit_opt s offset = if leb (remaining_bits s) offset then ok none else do
  let index = s.start + offset
  byte ← unwrap (get_elem? (storage s) (index / 8))
  ok (some (not (bit_and (byte / 2 ^ (7 - index % 8)) 1 == 0)))

unfoldable pub get_bit : SliceData → ℕ → Outcome Bool
get_bit s offset = do bit ← get_bit_opt s offset; ok_or bit (exception cell_underflow)

-- Up to eight bits, out of one byte or two.
unfoldable pub bits_at : List ℕ → ℕ → ℕ → ℕ → Outcome ℕ
bits_at bs q r count =
    if r == 0
    then (do byte ← unwrap (get_elem? bs q); ok (byte / 2 ^ (8 - r - count)))
    else if leb count (8 - r)
    then (do
      byte ← unwrap (get_elem? bs q)
      ok (bit_and (byte / 2 ^ (8 - r - count)) (2 ^ count - 1)))
    else do
      high ← unwrap (get_elem? bs q)
      low ← unwrap (get_elem? bs (q + 1))
      ok (bit_or (high * 256 % 65536) low / 2 ^ (8 - r) % 256 / 2 ^ (8 - count))

unfoldable pub get_bits : SliceData → ℕ → ℕ → Outcome ℕ
get_bits s offset count =
    if ltb (remaining_bits s) (offset + count)
    then err (exception cell_underflow)
    else if count == 0 || ltb 8 count
    then err (exception range_check_error)
    else let index = s.start + offset in bits_at (storage s) (index / 8) (index % 8) count

unfoldable pub get_byte : SliceData → ℕ → Outcome ℕ
get_byte s offset = get_bits s offset 8

unfoldable pub get_next_bit : SliceData → Outcome (Bool × SliceData)
get_next_bit s = do bit ← get_bit s 0; s' ← move_by s 1; ok (bit, s')

-- `get_next_bit_opt`, the bit as 0 or 1; nothing moves if there is none.
unfoldable pub get_next_bit_opt : SliceData → Outcome (Option ℕ × SliceData)
get_next_bit_opt s = do
  bit ← get_bit_opt s 0
  elim bit [
    | none ↦ ok (none, s)
    | some b ↦ elim (move_by s 1) [
      | ok s' ↦ ok (some (if b then 1 else 0), s')
      | err e ↦ ok (none, s)
      | panic ↦ panic
    ]
  ]

unfoldable pub get_next_byte : SliceData → Outcome (ℕ × SliceData)
get_next_byte s = do v ← get_byte s 0; s' ← move_by s 8; ok (v, s')

-- `value |= (self.get_byte(8 * i)? as uW) << (8 * (W / 8 - 1 - i))` for `rounds` values of `i`, in
-- a word of `width` bytes.
unfoldable pub word_loop : ℕ → SliceData → ℕ → ℕ → ℕ → Outcome ℕ
word_loop width s zero i v = ok v
word_loop width s (suc rounds) i v = do
  byte ← get_byte s (8 * i)
  word_loop width s rounds (i + 1) (bit_or v (byte * 2 ^ (8 * (width - 1 - i)) % 2 ^ (8 * width)))

-- `get_next_u16`, `u32`, `u64` and `u128` at 2, 4, 8 and 16 bytes; `i16` and `i32` are the same
-- pattern.
unfoldable pub get_next_word : ℕ → SliceData → Outcome (ℕ × SliceData)
get_next_word width s = do v ← word_loop width s width 0 0; s' ← move_by s (8 * width); ok (v, s')

unfoldable pub get_next_int : SliceData → ℕ → Outcome (ℕ × SliceData)
get_next_int s count =
    if ltb (remaining_bits s) count
    then err (exception cell_underflow)
    else if count == 0
    then ok (0, s)
    else if ltb 64 count
    then err message
    else do
      let n = count / 8
      let remainder = count % 8
      v ← word_loop 8 s n 0 0
      v' ← if remainder == 0 then ok v else (do
        r ← get_bits s (n * 8) remainder
        ok (bit_or v (r * 2 ^ (8 * (7 - n) + (8 - remainder)) % 2 ^ 64)))
      s' ← move_by s count
      ok (v' / 2 ^ (64 - count), s')

-- `(0..rounds).map(|i| self.get_byte(i * 8).unwrap())`
unfoldable pub bytes_from : SliceData → ℕ → ℕ → Outcome (List ℕ)
bytes_from s i zero = ok []
bytes_from s i (suc rounds) = do
  byte ← unwrap_ok (get_byte s (i * 8))
  rest ← bytes_from s (i + 1) rounds
  ok (byte ∷ rest)

unfoldable pub get_next_bits : SliceData → ℕ → Outcome (List ℕ × SliceData)
get_next_bits s count = if ltb (remaining_bits s) count then err (exception cell_underflow) else do
  let n = count / 8
  let remainder = count % 8
  bs ← bytes_from s 0 n
  bs' ←
      if remainder == 0
      then ok bs
      else (do v ← get_bits s (n * 8) remainder; ok (bs ++ v * 2 ^ (8 - remainder) % 256 ∷ []))
  s' ← move_by s count
  ok (bs', s')

unfoldable pub get_next_bit_int : SliceData → Outcome (ℕ × SliceData)
get_next_bit_int s = do
  (bit, s') ← get_next_bit_opt s
  v ← ok_or bit (exception cell_underflow)
  ok (v, s')

-- `(0..rounds).map(|_| self.get_next_byte().unwrap())`
unfoldable pub next_bytes : SliceData → ℕ → Outcome (List ℕ × SliceData)
next_bytes s zero = ok ([], s)
next_bytes s (suc rounds) = do
  (byte, s') ← unwrap_ok (get_next_byte s)
  (rest, s'') ← next_bytes s' rounds
  ok (byte ∷ rest, s'')

unfoldable pub get_next_bytes : SliceData → ℕ → Outcome (List ℕ × SliceData)
get_next_bytes s count =
    if ltb (remaining_bits s) (count * 8)
    then err (exception cell_underflow)
    else next_bytes s count

-- `16 - (max_value as u16).leading_zeros()`: the bits of a u16, by halving; 16 rounds are enough.
unfoldable pub bit_width : ℕ → ℕ → ℕ
bit_width zero v = 0
bit_width (suc fuel) v = let rest = suc (bit_width fuel (v / 2)) in if v == 0 then 0 else rest

unfoldable pub get_next_size : SliceData → ℕ → Outcome (ℕ × SliceData)
get_next_size s max_value =
    if max_value == 0 then ok (0, s) else get_next_int s (bit_width 16 (max_value % 65536))

-- The loop of `get_bytestring` over whole bytes that do not lie on a byte's edge: `r` is a u16.
-- `fuel` bounds the rounds, one for each whole byte left.
unfoldable pub bytestring_loop : ℕ → List ℕ → ℕ → ℕ → ℕ → ℕ → Outcome (List ℕ × ℕ)
bytestring_loop zero bs head stop r_rev r = ok ([], head)
bytestring_loop (suc fuel) bs head stop r_rev r = elim (leb (head + 8) stop) [
  | true ↦ do
    next ← unwrap (get_elem? bs ((head + 8) / 8))
    let r' = bit_or (r * 256 % 65536) next
    (rest, end_head) ← bytestring_loop fuel bs (head + 8) stop r_rev r'
    ok (r' / 2 ^ r_rev % 256 ∷ rest, end_head)
  | false ↦ ok ([], head)
]

unfoldable pub get_bytestring : SliceData → ℕ → Outcome (List ℕ)
get_bytestring s offset =
    let head = s.start + offset in
    if leb s.stop head then ok [] else do
      let bs = storage s
      let r_rev = 8 - head % 8
      (whole, head') ←
          if r_rev == 8
          then (do aligned ← sub_slice bs (head / 8) (s.stop / 8); ok (aligned, s.stop / 8 * 8))
          else (do
            r ← unwrap (get_elem? bs (head / 8))
            bytestring_loop (s.stop / 8) bs head s.stop r_rev r)
      if not (ltb head' s.stop) then ok whole else do
        let remainder = s.stop - head'
        v ← unwrap_ok (get_bits s (head' - s.start) remainder)
        ok (whole ++ v * 2 ^ (8 - remainder) % 256 ∷ [])
