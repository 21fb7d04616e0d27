-- ===== src/Cell/Tag.antt =====
-- find_tag and append_tag of cell/mod.rs: the completion tag, a one and zeros behind the last bit.
pub mod Laws
use block.Common.{
  ℕ, zero, suc, ◌+◌, ◌-◌, ◌*◌, ◌/◌, ◌%◌, ◌^◌, List, [], ◌∷◌, ◌++◌, length, take, pop, ◌==◌,
  if◌then◌else◌, bit_or, bit_and, Option, none, some, ◌||◌, Bool, true, false,
}
use block.Types.{Outcome, ok, ◌>>=◌, unwrap}
use mathlib.Core.List.{reverse}

-- The loop `while (x & mask) == 0 { skip += 1; mask <<= 1 }` on a byte that is not zero. One round
-- for each of its eight bits is enough.
pub skip_loop : ℕ → ℕ → ℕ → ℕ → ℕ
skip_loop zero x mask skip = skip
skip_loop (suc fuel) x mask skip =
    let rest = skip_loop fuel x (mask * 2 % 256) (skip + 1) in
    if bit_and x mask == 0 then rest else skip

-- The loop over the bytes from the last one on; `rev` is what is not yet seen, last byte first.
pub find_tag_loop : List ℕ → ℕ → ℕ
find_tag_loop [] len = len
find_tag_loop (x ∷ rev) len =
    let before = find_tag_loop rev (len - 8) in if x == 0 then before else len - skip_loop 8 x 1 1

unfoldable pub find_tag : List ℕ → ℕ
unfolding find_tag_loop skip_loop
find_tag bs = find_tag_loop (reverse bs) (length bs * 8)

abbrev pub is_nil : List ℕ → Bool
is_nil [] = true
is_nil (b ∷ bs) = false

-- `last_byte >>= 7 - shift; last_byte |= 1; last_byte <<= 7 - shift`; a shift by 0 is skipped.
abbrev pub tag_byte : ℕ → ℕ → ℕ
tag_byte shift b =
    let high = if shift == 7 then b else b / 2 ^ (7 - shift) in
    let tagged = bit_or high 1 in if shift == 7 then tagged else tagged * 2 ^ (7 - shift) % 256

unfoldable pub append_tag : List ℕ → ℕ → Outcome (List ℕ)
append_tag bs count =
    if count % 8 == 0 || is_nil bs then ok (take (count / 8) bs ++ 0x80 ∷ []) else do
      (front, last_byte) ← unwrap (pop (take (1 + count / 8) bs))
      ok (front ++ tag_byte (count % 8) last_byte ∷ [])
