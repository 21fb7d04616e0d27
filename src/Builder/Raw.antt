-- ===== src/Builder/Raw.antt =====
-- BuilderData::append_raw_data of cell/builder.rs, on a bare buffer and its length in bits.
pub mod Packing
pub mod Shifting
pub mod Laws
use block.Common.{
  ℕ, zero, suc, ◌+◌, ◌-◌, ◌*◌, ◌/◌, ◌%◌, ◌^◌, ◌≤◌, Bool, true, false, not, ◌&&◌, List, [], ◌∷◌,
  ◌++◌, length, take, pop, ltb, leb, ◌==◌, if◌then◌else◌, bit_or,
}
use block.Types.{
  Outcome, ok, err, panic, ◌>>=◌, ◌>>◌, Error, exception, cell_overflow, fatal_error, assert,
  unwrap,
}
use block.Cell.{max_data_bits}

-- The data buffer, and `length_in_bits`.
abbrev pub Buffer : Type 0
Buffer = List ℕ × ℕ

-- `b >>= k; b <<= k` on a byte: the lowest `k` bits cleared.
abbrev pub clear_low : ℕ → ℕ → ℕ
clear_low k b = b / 2 ^ k * 2 ^ k % 256

-- Pop the last byte, keep its `shift` highest bits, push it back.
pub clear_last : ℕ → List ℕ → Outcome (List ℕ)
clear_last shift bs = do
  (front, last_byte) ← unwrap (pop bs)
  ok (front ++ clear_low (8 - shift) last_byte ∷ [])

pub append_without_shift : Buffer → List ℕ → ℕ → Outcome Buffer
append_without_shift (bs, len) slice count = do
  assert (count % 8 == 0)
  assert (len % 8 == 0)
  ok (take ((len + count) / 8) (take (len / 8) bs ++ slice), len + count)

pub append_with_shift : Buffer → List ℕ → ℕ → Outcome Buffer
append_with_shift (bs, len) slice count = do
  assert (not (count % 8 == 0))
  assert (len % 8 == 0)
  cleared ← clear_last (count % 8) (take (1 + (len + count) / 8) (take (len / 8) bs ++ slice))
  ok (cleared, len + count)

-- The loop over the bytes of `slice`: `y` is a u16 that holds the bits not yet pushed, and the
-- answer is the buffer with the last `y`.
pub push_shifted : ℕ → List ℕ → ℕ → List ℕ → List ℕ × ℕ
push_shifted self_shift bs y [] = (bs, y)
push_shifted self_shift bs y (x ∷ slice) =
    let y' = bit_or (y * 256 % 65536) x in
    push_shifted self_shift (bs ++ y' / 2 ^ self_shift % 256 ∷ []) y' slice

-- The end of the double shift: cut the buffer behind the last bit, and clear what follows it.
abbrev pub cut_behind : List ℕ → ℕ → Outcome (List ℕ)
cut_behind bs len =
    if len % 8 == 0 then ok (take (len / 8) bs) else clear_last (len % 8) (take (len / 8 + 1) bs)

pub append_with_double_shift : Buffer → List ℕ → ℕ → Outcome Buffer
append_with_double_shift (bs, len) slice count = do
  let self_shift = len % 8
  (front, last_byte) ← unwrap (pop (take (1 + len / 8) bs))
  let (pushed, y) = push_shifted self_shift front (last_byte / 2 ^ (8 - self_shift)) slice
  cut ← cut_behind (pushed ++ y * 2 ^ (8 - self_shift) % 256 ∷ []) (len + count)
  ok (cut, len + count)

-- Which of the three ways the alignment of the two lengths asks for.
pub append_aligned : Buffer → List ℕ → ℕ → Outcome Buffer
append_aligned (bs, len) slice count =
    if len % 8 == 0
    then (if count % 8 == 0
        then append_without_shift (bs, len) slice count
        else append_with_shift (bs, len) slice count)
    else append_with_double_shift (bs, len) slice count

-- The two assertions at the end of `append_raw_data`.
abbrev pub within_capacity : Buffer → Outcome Buffer
within_capacity (bs, len) = do
  assert (leb len max_data_bits)
  assert (leb (length bs * 8) (max_data_bits + 1))
  ok (bs, len)

pub append_raw_data : Buffer → List ℕ → ℕ → Outcome Buffer
append_raw_data (bs, len) slice count =
    if ltb (length slice * 8) count
    then err (exception fatal_error)
    else if ltb max_data_bits (len + count)
    then err (exception cell_overflow)
    else do
      appended ← if count == 0 then ok (bs, len) else append_aligned (bs, len) slice count
      within_capacity appended
