-- ===== src/Builder/Raw/Shifting.antt =====
-- The loop of `append_with_double_shift`: a u16 window carries the bits that are not yet pushed.
use block.Common.{
  ℕ, ◌+◌, ◌*◌, ◌/◌, ◌%◌, ◌^◌, ◌≤◌, ◌<◌, ◌≡◌, refl, sym, ap, ap₂, ◌∙◌, arith, List, [], ◌∷◌, ◌++◌,
  append_assoc, append-nil, length, All, All-append, bit_or, length-append,
}
use block.Common.Bytes.{IsByte, flat, flat-append, flat-singleton}
use block.Common.Word.{bits, bits-mod, bits-add, bit_or-add}
use block.Builder.Raw.{push_shifted}

-- One round: the window takes a byte in, and eight bits leave it.
window : (y x : ℕ) → x < 256 → bit_or (y * 256 % 65536) x ≡ y % 256 * 256 + x
window y x h =
    let e : y * 256 % 65536 ≡ y % 256 * 256 = omega arith in
    ap (λ t. bit_or t x) e ∙ bit_or-add 8 (y % 256) x (omega arith)

window_bits :
    (s y x : ℕ)
    → s ≤ 8
    → x < 256
    → let y' = bit_or (y * 256 % 65536) x in
      bits 8 (y' / 2 ^ s % 256) ++ bits s y' ≡ bits s y ++ bits 8 x
window_bits s y x hs hx =
    ap (λ l. l ++ bits s y') (bits-mod 8 8 (y' / 2 ^ s) (omega arith))
    ∙ sym (bits-add 8 s (8 + s) y' refl)
    ∙ bits-add s 8 (8 + s) y' (omega arith)
    ∙ ap₂ ◌++◌ (ap (bits s) high ∙ bits-mod s 8 y hs)
        (sym (bits-mod 8 8 y' (omega arith)) ∙ ap (bits 8) low)
  where
    y' : ℕ
    y' = bit_or (y * 256 % 65536) x

    high : y' / 2 ^ 8 ≡ y % 2 ^ 8
    high = omega (arith, window y x hx)

    low : y' % 2 ^ 8 ≡ x
    low = omega (arith, window y x hx)

-- What is pushed, and then the `s` bits left in the window, are the bits there were and those of
-- `slice`.
pub push_shifted-bits :
    (s : ℕ) (bs : List ℕ) (y : ℕ) (slice : List ℕ)
    → s ≤ 8
    → All IsByte slice
    → flat (push_shifted s bs y slice).0 ++ bits s (push_shifted s bs y slice).1
      ≡ flat bs ++ (bits s y ++ flat slice)
unfolding push_shifted flat
push_shifted-bits s bs y [] hs hb = ap (λ l. flat bs ++ l) (sym (append-nil (bits s y)))
push_shifted-bits s bs y (x ∷ slice) hs hb =
    push_shifted-bits s (bs ++ pushed ∷ []) y' slice hs hb.1
    ∙ ap (λ l. l ++ (bits s y' ++ flat slice))
        (flat-append bs (pushed ∷ []) ∙ ap (λ l. flat bs ++ l) (flat-singleton pushed))
    ∙ append_assoc (flat bs) (bits 8 pushed) (bits s y' ++ flat slice)
    ∙ ap (λ l. flat bs ++ l)
        (sym (append_assoc (bits 8 pushed) (bits s y') (flat slice))
          ∙ ap (λ l. l ++ flat slice) (window_bits s y x hs hb.0)
          ∙ append_assoc (bits s y) (bits 8 x) (flat slice))
  where
    y' : ℕ
    y' = bit_or (y * 256 % 65536) x

    pushed : ℕ
    pushed = y' / 2 ^ s % 256

pub push_shifted_shape :
    (s : ℕ) (bs : List ℕ) (y : ℕ) (slice : List ℕ)
    → All IsByte bs
    → All IsByte (push_shifted s bs y slice).0
      × (length (push_shifted s bs y slice).0 ≡ length bs + length slice)
unfolding push_shifted
push_shifted_shape s bs y [] hb = (hb, omega arith)
push_shifted_shape s bs y (x ∷ slice) hb =
    let y' = bit_or (y * 256 % 65536) x in
    let pushed = y' / 2 ^ s % 256 in
    let (h, l) =
      push_shifted_shape s (bs ++ pushed ∷ []) y' slice
        (All-append IsByte bs (pushed ∷ []) hb (omega arith, tt)) in
    (h, omega (arith, l, length-append bs (pushed ∷ [])))
