-- ===== src/Builder/Writes.antt =====
-- Numbers, bits and other builders written into a builder (IBitstring of
-- cell/builder_operations.rs), and data put in front (prepend_raw of cell/builder.rs).
use block.Common.{
  ℕ, zero, suc, ◌+◌, ◌-◌, ◌*◌, ◌/◌, ◌%◌, ◌^◌, ◌≤◌, ◌<◌, ◌≡◌, refl, sym, ap, ap₂, ◌∙◌, subst, arith,
  Bool, true, false, List, [], ◌∷◌, ◌++◌, append-nil, append_assoc, length, take, All, leb, ◌==◌,
  length-append, take-all, take-append_right, replicate, inl, inr, Bool-cases, ltb-false, le→leb,
  ==_ne,
}
use block.Common.Bytes.{IsByte, flat}
use block.Common.Word.{bits, length-bits, bits-add, bits-mod, bits-shl}
use block.Types.{ok, err, exception, message, cell_overflow}
use block.Cell.{Cell}
use block.Builder.{
  BuilderData, append_raw, append_references, checked_append_reference, to_be_bytes, append_bits,
  append_word, append_bit_bool, append_builder, prepend_raw, aligned_left,
}
use block.Builder.Content.{
  content, IsValid, Extends, Extends-nothing, append_raw_content, append_raw_overflow,
  with_raw-content,
}

pub to_be_bytes_bits :
    (n v : ℕ)
    → (flat (to_be_bytes n v) ≡ bits (8 * n) v)
      × (length (to_be_bytes n v) ≡ n)
      × All IsByte (to_be_bytes n v)
unfolding to_be_bytes flat
to_be_bytes_bits zero v = (unfold bits in refl, refl, tt)
to_be_bytes_bits (suc n) v =
    let (e, l, h) = to_be_bytes_bits n v in
    (
      ap₂ ◌++◌ (bits-mod 8 8 (v / 2 ^ (8 * n)) (omega arith)) e
          ∙ sym (bits-add 8 (8 * n) (8 * suc n) v (omega arith)),
      ap suc l,
      (omega arith, h),
    )

-- `append_word` on a valid builder with room for `8 * n` bits appends the word's bits, highest
-- first.
pub append_word_content :
    (n : ℕ) (b : BuilderData) (v : ℕ)
    → IsValid b
    → b.length_in_bits + 8 * n ≤ 1023
    → (b' : BuilderData) × (append_word n b v ≡ ok b') × Extends b (bits (8 * n) v) b'
unfolding append_word
append_word_content n b v valid room =
    let (e, l, h) = to_be_bytes_bits n v in
    let (b', r, x) =
      append_raw_content b (to_be_bytes n v) (8 * n) valid h (omega (arith, l)) room in
    (b', r, subst (λ xs. Extends b xs b') (whole e) x)
  where
    whole :
        flat (to_be_bytes n v) ≡ bits (8 * n) v
        → take (8 * n) (flat (to_be_bytes n v)) ≡ bits (8 * n) v
    whole e =
        ap (take (8 * n)) e
        ∙ take-all (8 * n) (bits (8 * n) v) (omega (arith, length-bits (8 * n) v))

pub append_word_overflow :
    (n : ℕ) (b : BuilderData) (v : ℕ)
    → 1023 < b.length_in_bits + 8 * n
    → append_word n b v ≡ err (exception cell_overflow)
unfolding append_word
append_word_overflow n b v full =
    append_raw_overflow b (to_be_bytes n v) (8 * n) (omega (arith, (to_be_bytes_bits n v).1)) full

aligned_bits :
    (n v count : ℕ)
    → count ≤ 8 * n
    → take count (bits (8 * n) (aligned_left n v count)) ≡ bits count v
aligned_bits n v count h =
    ap (take count) (
      bits-mod (8 * n) (8 * n) (v % 2 ^ (8 * n) * 2 ^ (8 * n - count)) (omega arith)
      ∙ bits-shl count (8 * n - count) (8 * n) (v % 2 ^ (8 * n)) (omega arith))
    ∙ take-append_right count 0 (bits count (v % 2 ^ (8 * n))) (replicate (8 * n - count) false)
        (omega (arith, length-bits count (v % 2 ^ (8 * n))))
    ∙ append-nil (bits count (v % 2 ^ (8 * n)))
    ∙ bits-mod count (8 * n) v h

module _ (b : BuilderData) (v count : ℕ) (valid : IsValid b)
    (room : b.length_in_bits + count ≤ 1023) where
  append_aligned_word :
      (n : ℕ)
      → count ≤ 8 * n
      → (b' : BuilderData) × (append_raw b (to_be_bytes n (aligned_left n v count)) count ≡ ok b')
        × Extends b (bits count v) b'
  append_aligned_word n h =
      let w = aligned_left n v count in
      let (e, l, bytes) = to_be_bytes_bits n w in
      let (b', r, x) =
        append_raw_content b (to_be_bytes n w) count valid bytes (omega (arith, l)) room in
      (b', r, subst (λ xs. Extends b xs b') (ap (take count) e ∙ aligned_bits n v count h) x)

  -- `append_bits` of up to 63 bits that fit 1023 appends the lowest `count` bits of the number,
  -- highest first.
  pub append_bits_content :
      count ≤ 63
      → (b' : BuilderData) × (append_bits b v count ≡ ok b') × Extends b (bits count v) b'
  unfolding append_bits
  append_bits_content h = elim (Bool-cases (count == 0)) [
    | inl none ↦
        let z : count ≡ 0 = ground arith in
        (
          b,
          rw none refl,
          subst (λ n. Extends b (bits n v) b) (sym z) (unfold bits in Extends-nothing b valid),
        )
    | inr some ↦ rw some (elim (Bool-cases (leb count 7)) [
      | inl e ↦ rw e (append_aligned_word 1 (ground arith))
      | inr e ↦ rw e (elim (Bool-cases (leb count 15)) [
        | inl f ↦ rw f (append_aligned_word 2 (ground arith))
        | inr f ↦ rw f (elim (Bool-cases (leb count 31)) [
          | inl g ↦ rw g (append_aligned_word 4 (ground arith))
          | inr g ↦ rw (g, le→leb count 63 h) (append_aligned_word 8 (omega arith))
        ])
      ])
    ])
  ]

-- More than 63 bits are refused, whatever the builder holds.
pub append_bits_refused :
    (b : BuilderData) (v count : ℕ) → 63 < count → append_bits b v count ≡ err message
unfolding append_bits
append_bits_refused b v count h = ground arith

-- `append_bit_bool` on a valid builder of fewer than 1023 bits appends the bit.
pub append_bit_bool_content :
    (b : BuilderData) (bit : Bool)
    → IsValid b
    → b.length_in_bits < 1023
    → (b' : BuilderData) × (append_bit_bool b bit ≡ ok b') × Extends b (bit ∷ []) b'
unfolding append_bit_bool
append_bit_bool_content b true valid room =
    let (b', r, x) =
      append_raw_content b (0xff ∷ []) 1 valid (omega arith, tt) (omega arith) (omega arith) in
    (b', r, subst (λ xs. Extends b xs b') one_bit x)
  where
    one_bit : take 1 (flat (0xff ∷ [])) ≡ true ∷ []
    one_bit = unfold flat bits in refl
append_bit_bool_content b false valid room =
    let (b', r, x) =
      append_raw_content b (0x00 ∷ []) 1 valid (omega arith, tt) (omega arith) (omega arith) in
    (b', r, subst (λ xs. Extends b xs b') one_bit x)
  where
    one_bit : take 1 (flat (0x00 ∷ [])) ≡ false ∷ []
    one_bit = unfold flat bits in refl

-- References are added one by one, as long as there are at most four.
append_references_content :
    (b : BuilderData) (cs : List Cell)
    → length b.refs + length cs ≤ 4
    → append_references b cs ≡ ok (record b { refs = b.refs ++ cs })
unfolding append_references checked_append_reference
append_references_content b [] h = ap (λ l. ok (record b { refs = l })) (sym (append-nil b.refs))
append_references_content b (c ∷ cs) h =
    rw (le→leb (length b.refs) 4 (omega arith), ==_ne (4 - length b.refs) 0 (omega arith))
      (append_references_content (record b { refs = b.refs ++ c ∷ [] }) cs
          (omega (arith, length-append b.refs (c ∷ [])))
        ∙ ap (λ l. ok (record b { refs = l })) (append_assoc b.refs (c ∷ []) cs))

-- `append_builder` that fits appends the bits, then the references.
module _ (b x : BuilderData) (vb : IsValid b) (vx : IsValid x)
    (room : b.length_in_bits + x.length_in_bits ≤ 1023)
    (slots : length b.refs + length x.refs ≤ 4) where
  pub append_builder_runs :
      (b' : BuilderData) × (append_raw b x.bytes x.length_in_bits ≡ ok b')
      × Extends b (content x) b'
      × (append_builder b x ≡ ok (record b' { refs = b'.refs ++ x.refs }))
  append_builder_runs =
      let (b', r, ext) = append_raw_content b x.bytes x.length_in_bits vb vx.bytes vx.fits room in
      (b', r, ext, runs b' r ext.refs_kept)
    where
      runs :
          (b' : BuilderData)
          → append_raw b x.bytes x.length_in_bits ≡ ok b'
          → b'.refs ≡ b.refs
          → append_builder b x ≡ ok (record b' { refs = b'.refs ++ x.refs })
      runs b' r kept =
          unfold append_builder in
          rw
            (
              le→leb b.length_in_bits 1023 vb.short,
              ltb-false (1023 - b.length_in_bits) x.length_in_bits (omega arith),
              le→leb (length b.refs) 4 vb.few,
              le→leb (length x.refs) (4 - length b.refs) (omega arith),
              r,
            )
            (append_references_content b' x.refs (omega (arith, ap length kept)))

  pub appended_IsValid :
      (b' : BuilderData)
      → Extends b (content x) b'
      → IsValid (record b' { refs = b'.refs ++ x.refs })
  appended_IsValid b' ext = record {
    fits = ext.valid.fits;
    short = ext.valid.short;
    small = ext.valid.small;
    bytes = ext.valid.bytes;
    few = omega (arith, length-append b'.refs x.refs, ap length ext.refs_kept);
  }

  -- `append_builder` of a valid builder whose bits and references fit appends both, and the result
  -- is valid.
  pub append_builder-content :
      (b' : BuilderData) × (append_builder b x ≡ ok b')
      × IsValid b'
      × (content b' ≡ content b ++ content x)
      × (b'.refs ≡ b.refs ++ x.refs)
  append_builder-content =
      let (b', _, ext, runs) = append_builder_runs in
      (
        record b' { refs = b'.refs ++ x.refs },
        runs,
        appended_IsValid b' ext,
        ext.bits,
        ap (λ l. l ++ x.refs) ext.refs_kept,
      )

-- `prepend_raw` of bits that the bytes hold and that fit puts them in front of the builder's, and
-- the references are kept.
pub prepend_raw-content :
    (b : BuilderData) (slice : List ℕ) (count : ℕ)
    → IsValid b
    → All IsByte slice
    → count ≤ 8 * length slice
    → b.length_in_bits + count ≤ 1023
    → (b' : BuilderData) × (prepend_raw b slice count ≡ ok b')
      × IsValid b'
      × (content b' ≡ take count (flat slice) ++ content b)
      × (b'.refs ≡ b.refs)
unfolding prepend_raw
prepend_raw-content b slice count valid hs enough room = elim (Bool-cases (count == 0)) [
  | inl none ↦
      let z : count ≡ 0 = ground arith in
      (b, rw none refl, valid, ap (λ n. take n (flat slice) ++ content b) (sym z), refl)
  | inr some ↦
      let (front, f, vf, cf, ef, lf, rf) = with_raw-content slice count hs enough (omega arith) in
      let (b', r, ext) =
        append_raw_content front b.bytes b.length_in_bits vf valid.bytes valid.fits
          (omega (arith, lf)) in
      (
        record b { bytes = b'.bytes; length_in_bits = b'.length_in_bits },
        rw (some, f, r) refl,
        record {
          fits = ext.valid.fits;
          short = ext.valid.short;
          small = ext.valid.small;
          bytes = ext.valid.bytes;
          few = valid.few;
        },
        ext.bits ∙ ap (λ l. l ++ content b) ef,
        refl,
      )
]
