-- ===== src/Builder/Content.antt =====
-- A builder's contents are a string of bits and its references: what the operations of
-- cell/builder.rs do to them, on every branch.
use block.Common.{
  ℕ, ◌+◌, ◌*◌, ◌/◌, ◌≤◌, ◌<◌, ◌≡◌, refl, sym, ap, ◌∙◌, subst, arith, Bool, List, [], ◌++◌,
  append-nil, append_assoc, length, take, All, ◌==◌, length-take, length-append, take-take,
  All-take, inl, inr, Bool-cases, ltb-false,
}
use block.Common.Bytes.{IsByte, flat, length-flat, flat-take}
use block.Types.{ok, err, exception, cell_overflow}
use block.Cell.{CellType}
use block.Builder.{BuilderData, append_raw, with_raw, trunc}
use block.Builder.Raw.Packing.{Packs, length-Packs, Packs-view, Packs-unique, cut_behind-Packs}
use block.Builder.Raw.Laws.{append_raw_data_some, append_raw_data_none, append_raw_data_overflow}

-- The bits of a builder.
abbrev pub content : BuilderData → List Bool
content b = take b.length_in_bits (flat b.bytes)

-- The buffer holds the bits it is said to hold, in at most 128 bytes, 1023 bits and 4 references.
pub record IsValid (b : BuilderData) : Type 0 where
  pub fits : b.length_in_bits ≤ 8 * length b.bytes
  pub short : b.length_in_bits ≤ 1023
  pub small : length b.bytes ≤ 128
  pub bytes : All IsByte b.bytes
  pub few : length b.refs ≤ 4

-- The buffer holds the bits and nothing else: what derived equality compares.
abbrev pub IsCanonical : BuilderData → Type 0
IsCanonical b = Packs b.bytes (content b)

pub length-content : (b : BuilderData) → IsValid b → length (content b) ≡ b.length_in_bits
length-content b v =
    omega (arith, length-take b.length_in_bits (flat b.bytes), length-flat b.bytes, v.fits)

-- Valid builders without stray bits are equal when they hold the same bits, references and type.
pub canonical_ext :
    (b c : BuilderData)
    → IsValid b
    → IsValid c
    → IsCanonical b
    → IsCanonical c
    → content b ≡ content c
    → b.refs ≡ c.refs
    → b.ty ≡ c.ty
    → b ≡ c
canonical_ext b c vb vc pb pc e r t = λ i. record {
  bytes = Packs-unique (subst (Packs b.bytes) e pb) pc i;
  length_in_bits = lengths i;
  refs = r i;
  ty = t i;
}
  where
    lengths : b.length_in_bits ≡ c.length_in_bits
    lengths = sym (length-content b vb) ∙ ap length e ∙ length-content c vc

-- `b'` is `b` with the bits `xs` behind its own.
pub record Extends (b : BuilderData) (xs : List Bool) (b' : BuilderData) : Type 0 where
  pub valid : IsValid b'
  pub bits : content b' ≡ content b ++ xs
  pub refs_kept : b'.refs ≡ b.refs
  pub ty_kept : b'.ty ≡ b.ty
  pub canonical : 0 < length xs → IsCanonical b'

pub Extends-nothing : (b : BuilderData) → IsValid b → Extends b [] b
Extends-nothing b v = record {
  valid = v;
  bits = sym (append-nil (content b));
  refs_kept = refl;
  ty_kept = refl;
  canonical = λ h. absurd (omega arith);
}

-- No bits appended: the builder stays as it is.
pub append_raw_nothing :
    (b : BuilderData) (slice : List ℕ) (count : ℕ)
    → IsValid b
    → count ≡ 0
    → append_raw b slice count ≡ ok b
append_raw_nothing b slice count v z =
    unfold append_raw in
    rw (z, append_raw_data_none b.bytes b.length_in_bits slice v.short v.small) refl

module _ (b : BuilderData) (slice : List ℕ) (count : ℕ) (v : IsValid b)
    (hs : All IsByte slice) where
  -- `append_raw` of `count` bits that the bytes hold and that fit 1023 bits returns a valid builder
  -- with exactly those bits behind its own, whatever the alignment; references and type are kept.
  pub append_raw_content :
      count ≤ 8 * length slice
      → b.length_in_bits + count ≤ 1023
      → (b' : BuilderData) × (append_raw b slice count ≡ ok b')
        × Extends b (take count (flat slice)) b'
  append_raw_content enough room = elim (Bool-cases (count == 0)) [
    | inl none ↦
        let z : count ≡ 0 = ground arith in
        (
          b,
          append_raw_nothing b slice count v z,
          subst (λ n. Extends b (take n (flat slice)) b) (sym z) (Extends-nothing b v),
        )
    | inr some ↦
        let (cs, e, packed) =
          append_raw_data_some b.bytes b.length_in_bits slice count v.fits enough v.bytes hs
            (ground arith) room in
        (grown cs, unfold append_raw in rw e refl, extends cs packed)
  ]
    where
      grown : List ℕ → BuilderData
      grown cs = record b { bytes = cs; length_in_bits = b.length_in_bits + count }

      length-new : length (content b ++ take count (flat slice)) ≡ b.length_in_bits + count
      length-new = omega (
        arith,
        length-append (content b) (take count (flat slice)),
        length-content b v,
        length-take count (flat slice),
        length-flat slice,
      )

      extends :
          (cs : List ℕ)
          → Packs cs (content b ++ take count (flat slice))
          → Extends b (take count (flat slice)) (grown cs)
      extends cs packed = record {
        valid = record {
          fits = omega (arith, length-Packs packed, length-new);
          short = room;
          small = omega (arith, length-Packs packed, length-new, packed.small);
          bytes = packed.bytes;
          few = v.few;
        };
        bits = exact;
        refs_kept = refl;
        ty_kept = refl;
        canonical = λ h. subst (Packs cs) (sym exact) packed;
      }
        where
          exact : content (grown cs) ≡ content b ++ take count (flat slice)
          exact = ap (λ n. take n (flat cs)) (sym length-new) ∙ Packs-view packed

pub append_raw_overflow :
    (b : BuilderData) (slice : List ℕ) (count : ℕ)
    → count ≤ 8 * length slice
    → 1023 < b.length_in_bits + count
    → append_raw b slice count ≡ err (exception cell_overflow)
unfolding append_raw
append_raw_overflow b slice count h g =
    rw (append_raw_data_overflow b.bytes b.length_in_bits slice count (omega arith) g) refl

-- `with_raw` of at most 1023 bits that the bytes hold returns a valid builder without stray bits
-- that holds them, with no references.
pub with_raw-content :
    (bs : List ℕ) (len : ℕ)
    → All IsByte bs
    → len ≤ 8 * length bs
    → len ≤ 1023
    → (b : BuilderData) × (with_raw bs len ≡ ok b)
      × IsValid b
      × IsCanonical b
      × (content b ≡ take len (flat bs))
      × (b.length_in_bits ≡ len)
      × (b.refs ≡ [])
unfolding with_raw
with_raw-content bs len hb h short =
    let (cs, e, packed) = cut_behind-Packs len bs h hb in
    (
      built cs,
      rw (ltb-false (length bs * 8) len (omega arith), ltb-false 1023 len short, e) refl,
      record {
        fits = omega (arith, length-Packs packed, length-kept);
        short = short;
        small = omega (arith, length-Packs packed, length-kept, packed.small);
        bytes = packed.bytes;
        few = omega arith;
      },
      subst (Packs cs) (sym (exact cs packed)) packed,
      exact cs packed,
      refl,
      refl,
    )
  where
    built : List ℕ → BuilderData
    built cs = record { bytes = cs; length_in_bits = len; refs = []; ty = CellType.ordinary }

    length-kept : length (take len (flat bs)) ≡ len
    length-kept = omega (arith, length-take len (flat bs), length-flat bs)

    exact : (cs : List ℕ) → Packs cs (take len (flat bs)) → take len (flat cs) ≡ take len (flat bs)
    exact cs packed = ap (λ n. take n (flat cs)) (sym length-kept) ∙ Packs-view packed

-- `trunc` of a valid builder to no more bits than it has keeps its first `len` bits and its
-- references.
pub trunc-content :
    (b : BuilderData) (len : ℕ)
    → IsValid b
    → len ≤ b.length_in_bits
    → (b' : BuilderData) × (trunc b len ≡ ok b')
      × IsValid b'
      × (content b' ≡ take len (content b))
      × (b'.refs ≡ b.refs)
unfolding trunc
trunc-content b len v h = (
  record b { length_in_bits = len; bytes = take (1 + len / 8) b.bytes },
  rw (ltb-false b.length_in_bits len h) refl,
  record {
    fits = omega (arith, length-take (1 + len / 8) b.bytes, v.fits);
    short = omega (arith, v.short);
    small = omega (arith, length-take (1 + len / 8) b.bytes, v.small);
    bytes = All-take IsByte (1 + len / 8) b.bytes v.bytes;
    few = v.few;
  },
  ap (take len) (flat-take (1 + len / 8) (8 * (1 + len / 8)) b.bytes refl)
      ∙ take-take len (8 * (1 + len / 8)) (flat b.bytes) (omega arith)
      ∙ sym (take-take len b.length_in_bits (flat b.bytes) h),
  refl,
)

-- What is appended in two steps.
pub Extends-trans :
    {b c d : BuilderData} {xs ys : List Bool}
    → Extends b xs c
    → Extends c ys d
    → 0 < length ys
    → Extends b (xs ++ ys) d
Extends-trans {b} {xs} {ys} x y some = record {
  valid = y.valid;
  bits = y.bits ∙ ap (λ l. l ++ ys) x.bits ∙ append_assoc (content b) xs ys;
  refs_kept = y.refs_kept ∙ x.refs_kept;
  ty_kept = y.ty_kept ∙ x.ty_kept;
  canonical = λ _. y.canonical some;
}

pub Extends-length :
    {b c : BuilderData} {xs : List Bool}
    → IsValid b
    → Extends b xs c
    → c.length_in_bits ≡ b.length_in_bits + length xs
Extends-length {b} {c} {xs} valid x = omega (
  arith,
  length-content b valid,
  length-content c x.valid,
  ap length x.bits,
  length-append (content b) xs,
)

-- `b'` holds the bits of `b` and then `xs`.
pub record Adds (b : BuilderData) (xs : List Bool) (b' : BuilderData) : Type 0 where
  pub valid : IsValid b'
  pub bits : content b' ≡ content b ++ xs
  pub refs_kept : b'.refs ≡ b.refs
  pub ty_kept : b'.ty ≡ b.ty

pub Extends-Adds : {b b' : BuilderData} {xs : List Bool} → Extends b xs b' → Adds b xs b'
Extends-Adds x = record {
  valid = x.valid;
  bits = x.bits;
  refs_kept = x.refs_kept;
  ty_kept = x.ty_kept;
}

pub Adds-trans :
    {b c d : BuilderData} {xs ys : List Bool} → Adds b xs c → Adds c ys d → Adds b (xs ++ ys) d
Adds-trans {b} {xs} {ys} x y = record {
  valid = y.valid;
  bits = y.bits ∙ ap (λ l. l ++ ys) x.bits ∙ append_assoc (content b) xs ys;
  refs_kept = y.refs_kept ∙ x.refs_kept;
  ty_kept = y.ty_kept ∙ x.ty_kept;
}

pub Adds-length :
    {b c : BuilderData} {xs : List Bool}
    → IsValid b
    → Adds b xs c
    → c.length_in_bits ≡ b.length_in_bits + length xs
Adds-length {b} {c} {xs} valid x = omega (
  arith,
  length-content b valid,
  length-content c x.valid,
  ap length x.bits,
  length-append (content b) xs,
)
