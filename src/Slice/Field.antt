-- ===== src/Slice/Field.antt =====
-- A field of up to eight bits, read at any alignment out of one byte or two.
use native.Mathlib.Nat.{mod-lt, one-le-pow}
use block.Common.{
  ℕ, ◌⊎◌, ◌||◌, ◌+◌, ◌-◌, ◌*◌, ◌/◌, ◌%◌, ◌^◌, ◌≤◌, ◌<◌, ◌≡◌, refl, sym, ap, ap₂, ◌∙◌, arith, Bool,
  List, ◌++◌, append_assoc, length, take, drop, All, ltb, leb, ◌==◌, if◌then◌else◌, bit_or,
  length-drop, drop-drop, take-take, take-append_left, drop-append_left, ltb-false, lt→ltb, ==_ne,
  inl, inr, Bool-cases,
}
use block.Common.Bytes.{IsByte, flat, flat_at, All-get_elem?}
use block.Common.Word.{
  bits, length-bits, bits-add, bits-mod, bits-shr, bits-field, bit_or-add, bit_and-low, shr_below,
  value, value-bits,
}
use block.Types.{ok, err, exception, cell_underflow, range_check_error}
use block.Slice.{SliceData, storage, remaining_bits}
use block.Slice.Read.{bits_at, get_bits}
use block.Slice.Window.{IsValid, window, window_field, remaining_bits_lem}

-- A number of `n` bits that reads `xs`, highest first.
abbrev pub Reads : ℕ → List Bool → ℕ → Type 0
Reads n xs v = (v < 2 ^ n) × (bits n v ≡ xs)

pub Reads-value : (n : ℕ) (xs : List Bool) (v : ℕ) → Reads n xs v → v ≡ value xs
Reads-value n xs v (lt, e) = sym (value-bits n v lt) ∙ ap value e

-- The first `n` of the bits from `r` on lie in a prefix that is long enough.
pub in_prefix :
    (r n : ℕ) (xs ys : List Bool)
    → r + n ≤ length xs
    → take n (drop r (xs ++ ys)) ≡ take n (drop r xs)
in_prefix r n xs ys h =
    ap (take n) (drop-append_left r xs ys (omega arith))
    ∙ take-append_left n (drop r xs) ys (omega (arith, length-drop r xs))

module _ (bs : List ℕ) (q r count : ℕ) (hb : All IsByte bs) (hr : r < 8) (h1 : 1 ≤ count)
    (h8 : count ≤ 8) (inside : 8 * q + r + count ≤ 8 * length bs) where
  wanted : List Bool
  wanted = take count (drop (8 * q + r) (flat bs))

  one_byte :
      (b : ℕ) (rest : List Bool)
      → drop (8 * q) (flat bs) ≡ bits 8 b ++ rest
      → r + count ≤ 8
      → wanted ≡ bits count (b / 2 ^ (8 - r - count))
  unfolding wanted
  one_byte b rest e h =
      ap (take count) (sym (drop-drop r (8 * q) (8 * q + r) (flat bs) refl) ∙ ap (drop r) e)
      ∙ in_prefix r count (bits 8 b) rest (omega (arith, length-bits 8 b))
      ∙ sym (bits-field r count (8 - r - count) 8 b (omega arith))

  two_bytes :
      (b c : ℕ) (rest : List Bool)
      → c < 256
      → drop (8 * q) (flat bs) ≡ bits 8 b ++ (bits 8 c ++ rest)
      → wanted ≡ bits count ((b * 256 + c) / 2 ^ (8 - r) % 256 / 2 ^ (8 - count))
  unfolding wanted
  two_bytes b c rest hc e =
      let x = b * 256 + c in
      let y = x / 2 ^ (8 - r) in
      ap (take count) (
        sym (drop-drop r (8 * q) (8 * q + r) (flat bs) refl)
        ∙ ap (drop r)
            (e ∙ sym (append_assoc (bits 8 b) (bits 8 c) rest) ∙ ap (λ l. l ++ rest) (sym pair)))
      ∙ in_prefix r count (bits 16 x) rest (omega (arith, length-bits 16 x))
      ∙ sym (take-take count 8 (drop r (bits 16 x)) h8)
      ∙ ap (take count)
          (sym (bits-field r 8 (8 - r) 16 x (omega arith)) ∙ sym (bits-mod 8 8 y (omega arith)))
      ∙ sym (bits-shr count (8 - count) 8 (y % 256) (omega arith))
    where
      pair : bits 16 (b * 256 + c) ≡ bits 8 b ++ bits 8 c
      pair =
          bits-add 8 8 16 (b * 256 + c) refl
          ∙ ap₂ ◌++◌ (ap (bits 8) (omega arith)) (
              sym (bits-mod 8 8 (b * 256 + c) (omega arith))
              ∙ ap (bits 8) (omega arith)
              ∙ bits-mod 8 8 c (omega arith))

  -- The three ways of `get_bits` answer the same field.
  pub bits_at-Reads :
      (v : ℕ) × (bits_at bs q r count ≡ ok v)
      × Reads count (take count (drop (8 * q + r) (flat bs))) v
  unfolding bits_at wanted
  bits_at-Reads =
      let (b, e, split) = flat_at q bs (omega arith) in
      let hb' = All-get_elem? q bs b hb e in
      elim (Bool-cases (r == 0)) [
        | inl aligned ↦ (
          b / 2 ^ (8 - r - count),
          rw (aligned, e) refl,
          (
            shr_below count (8 - r - count) 8 b (ground arith) (omega arith),
            sym (one_byte b _ split (ground arith)),
          ),
        )
        | inr shifted ↦ elim (Bool-cases (leb count (8 - r))) [
          | inl near ↦
              let w = b / 2 ^ (8 - r - count) in
              (
                w % 2 ^ count,
                rw (shifted, near, e, bit_and-low count w) refl,
                (
                  mod-lt w (one-le-pow count 2 (omega arith)),
                  bits-mod count count w (omega arith) ∙ sym (one_byte b _ split (ground arith)),
                ),
              )
          | inr far ↦
              let (c, f, split') = flat_at (q + 1) bs (ground arith) in
              let hc' = All-get_elem? (q + 1) bs c hb f in
              let y = (b * 256 + c) / 2 ^ (8 - r) % 256 in
              (
                y / 2 ^ (8 - count),
                rw (shifted, far, e, f, joined b c hb' hc') refl,
                (
                  shr_below count (8 - count) 8 y (omega arith) (omega arith),
                  sym (two_bytes b c _ hc' (split ∙ ap (λ l. bits 8 b ++ l) split')),
                ),
              )
        ]
      ]
    where
      joined : (b c : ℕ) → b < 256 → c < 256 → bit_or (b * 256 % 65536) c ≡ b * 256 + c
      joined b c h k =
          let e : b * 256 % 65536 ≡ b * 256 = omega arith in
          ap (λ t. bit_or t c) e ∙ bit_or-add 8 b c (omega arith)

-- `get_bits` of 1 to 8 bits inside the window of a valid slice returns the number of `count` bits
-- that stands `offset` bits into the window.
pub get_bits-window :
    (s : SliceData) (offset count : ℕ)
    → IsValid s
    → 1 ≤ count
    → count ≤ 8
    → offset + count ≤ remaining_bits s
    → (v : ℕ) × (get_bits s offset count ≡ ok v)
      × Reads count (take count (drop offset (window s))) v
unfolding get_bits
get_bits-window s offset count valid h1 h8 room =
    let i = s.start + offset in
    let r = remaining_bits_lem s in
    let (v, e, reads) =
      bits_at-Reads (storage s) (i / 8) (i % 8) count valid.bytes (omega arith) h1 h8
        (omega (arith, r, valid.inside, valid.ordered)) in
    (
      v,
      rw
          (
            ltb-false (remaining_bits s) (offset + count) room,
            ==_ne count 0 (omega arith),
            ltb-false 8 count h8,
          )
          e,
      (
        reads.0,
        reads.1
            ∙ ap (λ n. take count (drop n (flat (storage s)))) (omega arith)
            ∙ sym (window_field s offset count (omega (arith, r))),
      ),
    )

-- `get_bits` past the end is a CellUnderflow, and inside the window a size of 0 or above 8 is a
-- RangeCheckError.
pub get_bits_refused :
    (s : SliceData) (offset count : ℕ)
    → (remaining_bits s < offset + count → get_bits s offset count ≡ err (exception cell_underflow))
      × (offset + count ≤ remaining_bits s
          → (count ≡ 0) ⊎ (8 < count)
          → get_bits s offset count ≡ err (exception range_check_error))
unfolding get_bits
get_bits_refused s offset count = (
  λ h. rw (lt→ltb (remaining_bits s) (offset + count) h) refl,
  λ h k. rw (ltb-false (remaining_bits s) (offset + count) h) (bad k),
)
  where
    bad :
        (count ≡ 0) ⊎ (8 < count)
        → (if count == 0 || ltb 8 count
            then err (exception range_check_error)
            else bits_at (storage s) ((s.start + offset) / 8) ((s.start + offset) % 8) count)
          ≡ err (exception range_check_error)
    bad (inl z) = rw z refl
    bad (inr big) = rw (==_ne count 0 (omega arith), lt→ltb 8 count big) refl
