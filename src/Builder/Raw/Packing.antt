-- ===== src/Builder/Raw/Packing.antt =====
-- Buffers that hold exactly some bits, padded with zeros to whole bytes, and the steps of
-- `append_raw_data` that cut a buffer to such a form.
use block.Common.{
  ℕ, suc, ◌+◌, ◌-◌, ◌*◌, ◌/◌, ◌%◌, ◌^◌, ◌≤◌, ◌<◌, ◌≡◌, refl, sym, ap, subst, ◌∙◌, arith, Bool,
  false, List, [], ◌∷◌, ◌++◌, append_assoc, append-nil, length, take, All, replicate, inl, inr,
  Bool-cases, ◌==◌,
}
use block.Common.{
  length-append, length-take, length-replicate, All-append, All-take, All-front, take-append_right,
  take-take, pop-ne-nil,
}
use block.Common.Bytes.{
  IsByte, flat, length-flat, flat-append, flat-take, flat_injective, flat-singleton, take-flat_last,
}
use block.Common.Word.{bits, bits-mod, bits-shl, bits-shr}
use block.Types.{ok}
use block.Builder.Raw.{clear_low, clear_last, cut_behind}

-- `bs` holds the bits `xs` and then fewer than eight zeros.
pub record Packs (bs : List ℕ) (xs : List Bool) : Type 0 where
  pub pad : ℕ
  pub small : pad < 8
  pub filled : flat bs ≡ xs ++ replicate pad false
  pub bytes : All IsByte bs

pub length-Packs :
    {bs : List ℕ} {xs : List Bool} (p : Packs bs xs) → 8 * length bs ≡ length xs + p.pad
length-Packs {bs} {xs} p = omega (
  arith,
  length-flat bs,
  ap length p.filled,
  length-append xs (replicate p.pad false),
  length-replicate p.pad false,
)

-- The bits determine the buffer.
pub Packs-unique : {bs cs : List ℕ} {xs : List Bool} → Packs bs xs → Packs cs xs → bs ≡ cs
Packs-unique {bs} {cs} {xs} p q =
    flat_injective bs cs p.bytes q.bytes
      (p.filled ∙ ap (λ i. xs ++ replicate i false) pads ∙ sym q.filled)
  where
    pads : p.pad ≡ q.pad
    pads = omega (arith, length-Packs p, length-Packs q, p.small, q.small)

pub Packs-view : {bs : List ℕ} {xs : List Bool} → Packs bs xs → take (length xs) (flat bs) ≡ xs
Packs-view {bs} {xs} p =
    ap (take (length xs)) p.filled
    ∙ take-append_right (length xs) 0 xs (replicate p.pad false) (omega arith)
    ∙ append-nil xs

-- Clearing the `k` lowest bits of a byte keeps its `s` highest ones.
clear_low-bits :
    (s k b : ℕ) → 8 ≡ s + k → bits 8 (clear_low k b) ≡ take s (bits 8 b) ++ replicate k false
clear_low-bits s k b h =
    bits-mod 8 8 (b / 2 ^ k * 2 ^ k) (omega arith)
    ∙ bits-shl s k 8 (b / 2 ^ k) h
    ∙ ap (λ l. l ++ replicate k false) (bits-shr s k 8 b h)

-- The last byte of a buffer of `suc n` bytes, cut to its first `s` bits.
pub clear_last-Packs :
    (s n m : ℕ) (bs : List ℕ)
    → length bs ≡ suc n
    → 0 < s
    → s ≤ 8
    → m ≡ 8 * n + s
    → All IsByte bs
    → (cs : List ℕ) × (clear_last s bs ≡ ok cs) × Packs cs (take m (flat bs))
unfolding clear_last
clear_last-Packs s n m bs hl h0 h8 hm hb =
    let (front, last, popped, split) = pop-ne-nil bs (omega arith) in
    (front ++ clear_low (8 - s) last ∷ [], rw popped refl, packed front last split)
  where
    packed :
        (front : List ℕ) (last : ℕ)
        → bs ≡ front ++ last ∷ []
        → Packs (front ++ clear_low (8 - s) last ∷ []) (take m (flat bs))
    packed front last split = record {
      pad = 8 - s;
      small = omega arith;
      filled =
          flat-append front (clear_low (8 - s) last ∷ [])
          ∙ ap (λ l. flat front ++ l)
              (flat-singleton (clear_low (8 - s) last)
                ∙ clear_low-bits s (8 - s) last (omega arith))
          ∙ sym (append_assoc (flat front) (take s (bits 8 last)) (replicate (8 - s) false))
          ∙ ap (λ l. l ++ replicate (8 - s) false) (sym kept);
      bytes =
          All-append IsByte front (clear_low (8 - s) last ∷ [])
            (All-front IsByte front (last ∷ []) (subst (All IsByte) split hb)) (omega arith, tt);
    }
      where
        kept : take m (flat bs) ≡ flat front ++ take s (bits 8 last)
        kept =
            ap (λ l. take m (flat l)) split
            ∙ take-flat_last front last s m
                (omega (arith, ap length split, length-append front (last ∷ [])))

pub take-Packs :
    (n : ℕ) (bs : List ℕ) → n % 8 ≡ 0 → All IsByte bs → Packs (take (n / 8) bs) (take n (flat bs))
take-Packs n bs e hb = record {
  pad = 0;
  small = omega arith;
  filled = flat-take (n / 8) n bs (omega arith) ∙ sym (append-nil (take n (flat bs)));
  bytes = All-take IsByte (n / 8) bs hb;
}

-- A buffer cut behind its first `n` bits holds just these.
pub cut_behind-Packs :
    (n : ℕ) (bs : List ℕ)
    → n ≤ 8 * length bs
    → All IsByte bs
    → (cs : List ℕ) × (cut_behind bs n ≡ ok cs) × Packs cs (take n (flat bs))
cut_behind-Packs n bs h hb = elim (Bool-cases (n % 8 == 0)) [
  | inl whole ↦ (take (n / 8) bs, rw whole refl, take-Packs n bs (ground arith) hb)
  | inr part ↦
      let (cs, e, packed) =
        clear_last-Packs (n % 8) (n / 8) n (take (n / 8 + 1) bs)
          (ground (arith, length-take (n / 8 + 1) bs)) (ground arith) (omega arith) (omega arith)
          (All-take IsByte (n / 8 + 1) bs hb) in
      (cs, rw part e, subst (Packs cs) (shorter part) packed)
]
  where
    shorter : (n % 8 == 0) ≡ false → take n (flat (take (n / 8 + 1) bs)) ≡ take n (flat bs)
    shorter part =
        ap (take n) (flat-take (n / 8 + 1) (8 * (n / 8 + 1)) bs refl)
        ∙ take-take n (8 * (n / 8 + 1)) (flat bs) (omega arith)
