-- ===== src/Builder/Raw/Laws.antt =====
-- `append_raw_data` appends bits, whatever the alignment of the buffer and of what is appended.
use block.Common.{
  ℕ, ◌+◌, ◌-◌, ◌*◌, ◌/◌, ◌%◌, ◌^◌, ◌≤◌, ◌<◌, ◌≡◌, ◌≢◌, refl, sym, ap, ◌∙◌, subst, arith, Bool,
  false, List, [], ◌∷◌, ◌++◌, append_assoc, append-nil, length, take, All, All-append, All-take,
  All-front, length-append, length-take, take-append_left, take-append_right, take-take, replicate,
  inl, inr, Bool-cases, ◌==◌, ==_ne, ltb-false, lt→ltb, le→leb, pop-ne-nil,
}
use block.Common.Bytes.{
  IsByte, flat, length-flat, flat-append, flat-take, flat-singleton, take-flat_last,
}
use block.Common.Word.{bits, bits-shl, bits-shr, bits-mod}
use block.Types.{Outcome, ok, err, exception, cell_overflow}
use block.Builder.Raw.{
  Buffer, clear_last, append_without_shift, append_with_shift, append_with_double_shift,
  append_aligned, append_raw_data, push_shifted, cut_behind,
}
use block.Builder.Raw.Packing.{Packs, length-Packs, clear_last-Packs, cut_behind-Packs, take-Packs}
use block.Builder.Raw.Shifting.{push_shifted-bits, push_shifted_shape}

module _ (bs : List ℕ) (len : ℕ) (slice : List ℕ) (count : ℕ) (fits : len ≤ 8 * length bs)
    (enough : count ≤ 8 * length slice) (hb : All IsByte bs) (hs : All IsByte slice) where
  -- The bits there were, and the first `count` of `slice`.
  abbrev pub joined : List Bool
  joined = take len (flat bs) ++ take count (flat slice)

  -- A longer list that starts with the old bits and all of `slice`, cut at the new length.
  cut_joined :
      (zs : List Bool) → take (len + count) (take len (flat bs) ++ (flat slice ++ zs)) ≡ joined
  cut_joined zs =
      take-append_right (len + count) count (take len (flat bs)) (flat slice ++ zs)
        (omega (arith, length-take len (flat bs), length-flat bs))
      ∙ ap (λ l. take len (flat bs) ++ l)
          (take-append_left count (flat slice) zs (omega (arith, length-flat slice)))

  -- The buffer that the two ways without a double shift cut.
  whole_bytes : List ℕ
  whole_bytes = take (len / 8) bs ++ slice

  whole_bytes_bits : len % 8 ≡ 0 → take (len + count) (flat whole_bytes) ≡ joined
  unfolding whole_bytes
  whole_bytes_bits e =
      ap (take (len + count)) (
        flat-append (take (len / 8) bs) slice
        ∙ ap (λ l. l ++ flat slice) (flat-take (len / 8) len bs (omega arith))
        ∙ ap (λ l. take len (flat bs) ++ l) (sym (append-nil (flat slice))))
      ∙ cut_joined []

  length-whole_bytes : length whole_bytes ≡ len / 8 + length slice
  unfolding whole_bytes
  length-whole_bytes =
      omega (arith, length-append (take (len / 8) bs) slice, length-take (len / 8) bs)

  whole_bytes-IsByte : All IsByte whole_bytes
  unfolding whole_bytes
  whole_bytes-IsByte =
      All-append IsByte (take (len / 8) bs) slice (All-take IsByte (len / 8) bs hb) hs

  -- A run of `append_raw_data` that succeeds with these bits.
  Appends : Outcome Buffer → Type 0
  Appends r = (cs : List ℕ) × (r ≡ ok (cs, len + count)) × Packs cs joined

  without_shift : len % 8 ≡ 0 → count % 8 ≡ 0 → Appends (append_without_shift (bs, len) slice count)
  unfolding Appends append_without_shift whole_bytes
  without_shift e f = (
    take ((len + count) / 8) whole_bytes,
    rw (f, e) refl,
    subst (Packs _) (whole_bytes_bits e)
        (take-Packs (len + count) whole_bytes (omega arith) whole_bytes-IsByte),
  )

  with_shift : len % 8 ≡ 0 → count % 8 ≢ 0 → Appends (append_with_shift (bs, len) slice count)
  unfolding Appends append_with_shift whole_bytes
  with_shift e f =
      let (cs, c, packed) =
        clear_last-Packs (count % 8) ((len + count) / 8) (len + count)
          (take (1 + (len + count) / 8) whole_bytes)
          (omega (arith, length-take (1 + (len + count) / 8) whole_bytes, length-whole_bytes))
          (omega arith) (omega arith) (omega arith)
          (All-take IsByte (1 + (len + count) / 8) whole_bytes whole_bytes-IsByte) in
      (cs, runs cs c, subst (Packs cs) cut packed)
    where
      cut : take (len + count) (flat (take (1 + (len + count) / 8) whole_bytes)) ≡ joined
      cut =
          ap (take (len + count))
            (flat-take (1 + (len + count) / 8) (8 * (1 + (len + count) / 8)) whole_bytes refl)
          ∙ take-take (len + count) (8 * (1 + (len + count) / 8)) (flat whole_bytes) (omega arith)
          ∙ whole_bytes_bits e

      runs :
          (cs : List ℕ)
          → clear_last (count % 8) (take (1 + (len + count) / 8) whole_bytes) ≡ ok cs
          → append_with_shift (bs, len) slice count ≡ ok (cs, len + count)
      runs cs c = rw (==_ne (count % 8) 0 f, e, c) refl

  -- The buffer that the double shift cuts: the loop's bytes and what its window still holds.
  shifted : List ℕ → ℕ → List ℕ
  shifted front last =
      let s = len % 8 in
      let (pushed, y) = push_shifted s front (last / 2 ^ (8 - s)) slice in
      pushed ++ y * 2 ^ (8 - s) % 256 ∷ []

  module _ (front : List ℕ) (last : ℕ) (split : take (1 + len / 8) bs ≡ front ++ last ∷ [])
      (partial : len % 8 ≢ 0) where
    s : ℕ
    s = len % 8

    length-front : length front ≡ len / 8
    length-front =
        omega
          (arith, ap length split, length-append front (last ∷ []), length-take (1 + len / 8) bs)

    old_bits : take len (flat bs) ≡ flat front ++ bits s (last / 2 ^ (8 - s))
    unfolding s
    old_bits =
        sym (take-take len (8 * (1 + len / 8)) (flat bs) (omega arith))
        ∙ ap (take len) (sym (flat-take (1 + len / 8) (8 * (1 + len / 8)) bs refl) ∙ ap flat split)
        ∙ take-flat_last front last (len % 8) len (omega (arith, length-front))
        ∙ ap (λ l. flat front ++ l) (sym (bits-shr (len % 8) (8 - len % 8) 8 last (omega arith)))

    shifted_bits :
        flat (shifted front last) ≡ take len (flat bs) ++ (flat slice ++ replicate (8 - s) false)
    unfolding shifted s
    shifted_bits =
        let y0 = last / 2 ^ (8 - s) in
        let (pushed, y) = push_shifted s front y0 slice in
        flat-append pushed (y * 2 ^ (8 - s) % 256 ∷ [])
        ∙ ap (λ l. flat pushed ++ l)
            (flat-singleton (y * 2 ^ (8 - s) % 256)
              ∙ bits-mod 8 8 (y * 2 ^ (8 - s)) (omega arith)
              ∙ bits-shl s (8 - s) 8 y (omega arith))
        ∙ sym (append_assoc (flat pushed) (bits s y) (replicate (8 - s) false))
        ∙ ap (λ l. l ++ replicate (8 - s) false)
            (push_shifted-bits s front y0 slice (omega arith) hs
              ∙ sym (append_assoc (flat front) (bits s y0) (flat slice))
              ∙ ap (λ l. l ++ flat slice) (sym old_bits))
        ∙ append_assoc (take len (flat bs)) (flat slice) (replicate (8 - s) false)

    shifted_shape :
        All IsByte (shifted front last) × (length (shifted front last) ≡ len / 8 + length slice + 1)
    unfolding shifted s
    shifted_shape =
        let y0 = last / 2 ^ (8 - s) in
        let (pushed, y) = push_shifted s front y0 slice in
        let (h, l) = push_shifted_shape s front y0 slice (
          All-front IsByte front (last ∷ [])
            (subst (All IsByte) split (All-take IsByte (1 + len / 8) bs hb))) in
        (
          All-append IsByte pushed (y * 2 ^ (8 - s) % 256 ∷ []) h (omega arith, tt),
          omega (arith, l, length-front, length-append pushed (y * 2 ^ (8 - s) % 256 ∷ [])),
        )

    shifted_cut :
        (cs : List ℕ) × (cut_behind (shifted front last) (len + count) ≡ ok cs) × Packs cs joined
    shifted_cut =
        let (cs, c, packed) =
          cut_behind-Packs (len + count) (shifted front last) (omega (arith, shifted_shape.1))
            shifted_shape.0 in
        (cs, c, subst (Packs cs) (ap (take (len + count)) shifted_bits ∙ cut_joined _) packed)

  with_double_shift : len % 8 ≢ 0 → Appends (append_with_double_shift (bs, len) slice count)
  unfolding Appends append_with_double_shift shifted
  with_double_shift e =
      let (front, last, popped, split) =
        pop-ne-nil (take (1 + len / 8) bs) (omega (arith, length-take (1 + len / 8) bs)) in
      let (cs, c, packed) = shifted_cut front last split e in (cs, rw (popped, c) refl, packed)

  append_aligned-Appends : Appends (append_aligned (bs, len) slice count)
  unfolding Appends append_aligned
  append_aligned-Appends = elim (Bool-cases (len % 8 == 0)) [
    | inl e ↦ rw e (elim (Bool-cases (count % 8 == 0)) [
      | inl f ↦ rw f (without_shift (ground arith) (ground arith))
      | inr f ↦ rw f (with_shift (ground arith) (ground arith))
    ])
    | inr e ↦ rw e (with_double_shift (ground arith))
  ]

  length-joined : length joined ≡ len + count
  length-joined = omega (
    arith,
    length-append (take len (flat bs)) (take count (flat slice)),
    length-take len (flat bs),
    length-flat bs,
    length-take count (flat slice),
    length-flat slice,
  )

  -- Bits that fit are appended, and none of the assertions fails.
  pub append_raw_data_some :
      count ≢ 0
      → len + count ≤ 1023
      → (cs : List ℕ) × (append_raw_data (bs, len) slice count ≡ ok (cs, len + count))
        × Packs cs joined
  unfolding append_raw_data Appends
  append_raw_data_some some room =
      let (cs, e, packed) = append_aligned-Appends in (cs, runs cs e packed, packed)
    where
      runs :
          (cs : List ℕ)
          → append_aligned (bs, len) slice count ≡ ok (cs, len + count)
          → Packs cs joined
          → append_raw_data (bs, len) slice count ≡ ok (cs, len + count)
      runs cs e packed =
          rw
            (
              ltb-false (length slice * 8) count (omega arith),
              ltb-false 1023 (len + count) room,
              ==_ne count 0 some,
              e,
              le→leb (len + count) 1023 room,
              le→leb (length cs * 8) 1024
                  (omega (arith, length-Packs packed, packed.small, length-joined)),
            )
            refl

-- Nothing to append: the buffer stays as it is, and must be within the capacity.
pub append_raw_data_none :
    (bs : List ℕ) (len : ℕ) (slice : List ℕ)
    → len ≤ 1023
    → length bs ≤ 128
    → append_raw_data (bs, len) slice 0 ≡ ok (bs, len)
unfolding append_raw_data
append_raw_data_none bs len slice room small =
    let e : len + 0 ≡ len = omega arith in
    rw
      (
        ltb-false (length slice * 8) 0 (omega arith),
        e,
        ltb-false 1023 len room,
        le→leb len 1023 room,
        le→leb (length bs * 8) 1024 (omega arith),
      )
      refl

pub append_raw_data_overflow :
    (bs : List ℕ) (len : ℕ) (slice : List ℕ) (count : ℕ)
    → count ≤ length slice * 8
    → 1023 < len + count
    → append_raw_data (bs, len) slice count ≡ err (exception cell_overflow)
unfolding append_raw_data
append_raw_data_overflow bs len slice count h g =
    rw (ltb-false (length slice * 8) count h, lt→ltb 1023 (len + count) g) refl
