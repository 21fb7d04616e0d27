-- ===== src/Slice/Words.antt =====
-- Words and numbers of up to 64 bits, read byte by byte and then bit by bit.
use native.Mathlib.Nat.{one-le-pow, mul-div_cancel}
use block.Common.{
  ℕ, zero, suc, ◌+◌, ◌-◌, ◌*◌, ◌/◌, ◌%◌, ◌^◌, ◌≤◌, ◌<◌, ◌≡◌, refl, sym, ap, ap₂, ◌∙◌, subst, arith,
  Bool, true, false, List, ◌++◌, take, drop, ◌==◌, if◌then◌else◌, bit_or, take-append-drop,
  take-take, take-drop, ltb-false, lt→ltb, ==_ne, inl, inr, Bool-cases,
}
use block.Common.Word.{bits}
use block.Common.Fields.{bits-join, join_below, bit_or_field}
use block.Types.{Outcome, ok, err, exception, cell_underflow, message, ◌>>=◌, >>=-eq-ok}
use block.Slice.{SliceData, remaining_bits, move_by}
use block.Slice.Read.{get_bits, get_byte, word_loop, get_next_word, get_next_int}
use block.Slice.Window.{IsValid, window, move_by-window}
use block.Slice.Field.{Reads, get_bits-window}

pub take-split :
    (m n k : ℕ) (xs : List Bool) → k ≡ m + n → take m xs ++ take n (drop m xs) ≡ take k xs
take-split m n k xs h =
    ap₂ ◌++◌ (sym (take-take m k xs (omega arith))) (take-drop n m k xs h)
    ∙ take-append-drop m (take k xs)

-- A number read in front of `n` more bits.
Reads-join :
    (m n k : ℕ) (xs : List Bool) (a b : ℕ)
    → k ≡ m + n
    → Reads m (take m xs) a
    → Reads n (take n (drop m xs)) b
    → Reads k (take k xs) (a * 2 ^ n + b)
Reads-join m n k xs a b h (la, ea) (lb, eb) = (
  join_below m n k a b h la lb,
  bits-join m n k a b h lb ∙ ap₂ ◌++◌ ea eb ∙ take-split m n k xs h,
)

module _ (width : ℕ) (s : SliceData) (valid : IsValid s) where
  -- After `i` bytes the word holds them, highest first, and zeros.
  word_loop-window :
      (rounds i k a : ℕ)
      → k ≡ i + rounds
      → k ≤ width
      → 8 * k ≤ remaining_bits s
      → Reads (8 * i) (take (8 * i) (window s)) a
      → (b : ℕ) × (word_loop width s rounds i (a * 2 ^ (8 * (width - i)))
          ≡ ok (b * 2 ^ (8 * (width - k))))
        × Reads (8 * k) (take (8 * k) (window s)) b
  unfolding word_loop
  word_loop-window zero i k a h fits room reads =
      let e : i ≡ k = omega arith in
      (
        a,
        ap (λ n. ok (a * 2 ^ (8 * (width - n)))) e,
        subst (λ n. Reads (8 * n) (take (8 * n) (window s)) a) e reads,
      )
  word_loop-window (suc rounds) i k a h fits room reads =
      let (byte, r, field) =
        get_bits-window s (8 * i) 8 valid (omega arith) (omega arith) (omega arith) in
      let next = Reads-join (8 * i) 8 (8 * (i + 1)) (window s) a byte (omega arith) reads field in
      let (b, runs, all) =
        word_loop-window rounds (i + 1) k (a * 2 ^ 8 + byte) (omega arith) fits room next in
      (b, step byte r field.0 ∙ runs, all)
    where
      step :
          (byte : ℕ)
          → get_bits s (8 * i) 8 ≡ ok byte
          → byte < 2 ^ 8
          → word_loop width s (suc rounds) i (a * 2 ^ (8 * (width - i)))
            ≡ word_loop width s rounds (i + 1) ((a * 2 ^ 8 + byte) * 2 ^ (8 * (width - (i + 1))))
      step byte r lt =
          unfold get_byte in
          rw r (
            ap (word_loop width s rounds (i + 1)) (
              ap
                (λ (c : ℕ).
                  bit_or (a * 2 ^ (8 * (width - i))) (byte * 2 ^ (8 * c) % 2 ^ (8 * width)))
                (omega arith)
              ∙ bit_or_field a byte 8 (8 * (width - (i + 1))) (8 * (width - i)) (8 * width)
                  (omega arith) (omega arith) lt))

  word_loop_start :
      (k : ℕ)
      → k ≤ width
      → 8 * k ≤ remaining_bits s
      → (b : ℕ) × (word_loop width s k 0 0 ≡ ok (b * 2 ^ (8 * (width - k))))
        × Reads (8 * k) (take (8 * k) (window s)) b
  word_loop_start k fits room =
      subst
        (λ (v : ℕ).
          (b : ℕ) × (word_loop width s k 0 v ≡ ok (b * 2 ^ (8 * (width - k))))
          × Reads (8 * k) (take (8 * k) (window s)) b)
        (omega arith)
        (word_loop-window k 0 k 0 (omega arith) fits room (unfold bits in (omega arith, refl)))

-- `get_next_word` on a valid slice with `8 * width` bits left returns them as a number, highest
-- first, and a valid slice without them.
pub get_next_word-window :
    (width : ℕ) (s : SliceData)
    → IsValid s
    → 8 * width ≤ remaining_bits s
    → (v : ℕ) × (s' : SliceData) × (get_next_word width s ≡ ok (v, s'))
      × IsValid s'
      × (window s' ≡ drop (8 * width) (window s))
      × Reads (8 * width) (take (8 * width) (window s)) v
get_next_word-window width s valid room =
    let (v, runs, reads) = word_loop_start width s valid width (omega arith) room in
    let (s', moved, valid', rest, _) = move_by-window s (8 * width) valid room in
    (v, s', answer v s' runs moved, valid', rest, reads)
  where
    answer :
        (v : ℕ) (s' : SliceData)
        → word_loop width s width 0 0 ≡ ok (v * 2 ^ (8 * (width - width)))
        → move_by s (8 * width) ≡ ok s'
        → get_next_word width s ≡ ok (v, s')
    answer v s' runs moved = unfold get_next_word in rw (runs ∙ ap ok one, moved) refl
      where
        none_left : width - width ≡ 0
        none_left = omega arith

        one : v * 2 ^ (8 * (width - width)) ≡ v
        one = ap (λ (c : ℕ). v * 2 ^ (8 * c)) none_left ∙ omega arith

module _ (s : SliceData) (count : ℕ) (valid : IsValid s) (small : count ≤ 64)
    (room : count ≤ remaining_bits s) where
  -- The whole bytes and then the bits left over, at the top of a word of 64 bits.
  abbrev gathered : Outcome ℕ
  gathered = do
    v ← word_loop 8 s (count / 8) 0 0
    if count % 8 == 0 then ok v else (do
      r ← get_bits s (count / 8 * 8) (count % 8)
      ok (bit_or v (r * 2 ^ (8 * (7 - count / 8) + (8 - count % 8)) % 2 ^ 64)))

  gathered_lem :
      (v : ℕ) × (gathered ≡ ok (v * 2 ^ (64 - count))) × Reads count (take count (window s)) v
  gathered_lem =
      let (b, runs, reads) = word_loop_start 8 s valid (count / 8) (omega arith) (omega arith) in
      elim (Bool-cases (count % 8 == 0)) [
        | inl whole ↦
            let e : 8 * (count / 8) ≡ count = ground arith in
            (b, alone b whole e runs, subst (λ n. Reads n (take n (window s)) b) e reads)
        | inr more ↦
            let (r, field, part) =
              get_bits-window s (count / 8 * 8) (count % 8) valid (ground arith) (omega arith)
                (omega arith) in
            let e : count / 8 * 8 ≡ 8 * (count / 8) = omega arith in
            let part' =
              subst (λ n. Reads (count % 8) (take (count % 8) (drop n (window s))) r) e part in
            (
              b * 2 ^ (count % 8) + r,
              with_rest b r more runs field part.0,
              Reads-join (8 * (count / 8)) (count % 8) count (window s) b r (omega arith) reads
                  part',
            )
      ]
    where
      alone :
          (b : ℕ)
          → (count % 8 == 0) ≡ true
          → 8 * (count / 8) ≡ count
          → word_loop 8 s (count / 8) 0 0 ≡ ok (b * 2 ^ (8 * (8 - count / 8)))
          → gathered ≡ ok (b * 2 ^ (64 - count))
      alone b whole e runs =
          let top : 8 * (8 - count / 8) ≡ 64 - count = omega arith in
          rw (runs, whole) (ap (λ (c : ℕ). ok (b * 2 ^ c)) top)

      with_rest :
          (b r : ℕ)
          → (count % 8 == 0) ≡ false
          → word_loop 8 s (count / 8) 0 0 ≡ ok (b * 2 ^ (8 * (8 - count / 8)))
          → get_bits s (count / 8 * 8) (count % 8) ≡ ok r
          → r < 2 ^ (count % 8)
          → gathered ≡ ok ((b * 2 ^ (count % 8) + r) * 2 ^ (64 - count))
      with_rest b r more runs field lt =
          let c = 8 * (7 - count / 8) + (8 - count % 8) in
          let low : c ≡ 64 - count = ground arith in
          rw (runs, more, field)
            (ap ok (
              bit_or_field b r (count % 8) c (8 * (8 - count / 8)) 64 (ground arith) (omega arith)
                lt
              ∙ ap (λ (n : ℕ). (b * 2 ^ (count % 8) + r) * 2 ^ n) low))

  -- `get_next_int` of at most 64 bits that are left returns them as a number, highest first, and
  -- the valid slice that starts behind them.
  pub get_next_int-window :
      (v : ℕ) × (s' : SliceData) × (get_next_int s count ≡ ok (v, s'))
      × IsValid s'
      × (window s' ≡ drop count (window s))
      × (s' ≡ record s { start = s.start + count })
      × Reads count (take count (window s)) v
  unfolding get_next_int
  get_next_int-window = elim (Bool-cases (count == 0)) [
    | inl none ↦
        let z : count ≡ 0 = ground arith in
        (
          0,
          s,
          rw (ltb-false (remaining_bits s) count room, none) refl,
          valid,
          ap (λ n. drop n (window s)) (sym z),
          ap (λ n. record s { start = n }) (omega arith),
          subst (λ n. Reads n (take n (window s)) 0) (sym z) (unfold bits in (omega arith, refl)),
        )
    | inr some ↦
        let (v, runs, reads) = gathered_lem in
        let (s', moved, valid', rest, place) = move_by-window s count valid room in
        (v, s', answer v s' some runs moved, valid', rest, place, reads)
  ]
    where
      answer :
          (v : ℕ) (s' : SliceData)
          → (count == 0) ≡ false
          → gathered ≡ ok (v * 2 ^ (64 - count))
          → move_by s count ≡ ok s'
          → get_next_int s count ≡ ok (v, s')
      answer v s' some runs moved =
          unfold get_next_int in
          let top : v * 2 ^ (64 - count) / 2 ^ (64 - count) ≡ v =
            mul-div_cancel v (one-le-pow (64 - count) 2 (omega arith)) in
          let first = >>=-eq-ok (word_loop 8 s (count / 8) 0 0) _ (v * 2 ^ (64 - count)) runs in
          rw
            (
              ltb-false (remaining_bits s) count room,
              some,
              ltb-false 64 count small,
              first.1,
              first.2,
              moved,
              top,
            )
            refl

-- `get_next_int` of more bits than are left is a CellUnderflow, and of more than 64 bits that are
-- left an error.
pub get_next_int_refused :
    (s : SliceData) (count : ℕ)
    → (remaining_bits s < count → get_next_int s count ≡ err (exception cell_underflow))
      × (count ≤ remaining_bits s → 64 < count → get_next_int s count ≡ err message)
unfolding get_next_int
get_next_int_refused s count = (
  λ h. rw (lt→ltb (remaining_bits s) count h) refl,
  λ h k.
      rw (ltb-false (remaining_bits s) count h, ==_ne count 0 (omega arith), lt→ltb 64 count k)
        refl,
)
