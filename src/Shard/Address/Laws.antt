-- ===== src/Shard/Address/Laws.antt =====
-- Interpolation between two account prefixes of shard.rs, on their 96 bits.
use native.Mathlib.Nat.{one-le-pow, mod-lt, div-eq_of_lt, mul-add-div_right, mul-le-mul_right}
use block.Common.{
  ℕ, ◌+◌, ◌-◌, ◌*◌, ◌/◌, ◌%◌, ◌^◌, ◌≤◌, ◌<◌, ◌≡◌, sym, ap, ap₂, ◌∙◌, subst, arith, Bool, List, ◌++◌,
  append_assoc, append-nil, take, drop, length, length-append, take-append_left, take-append_right,
  drop-append_left, drop-append_right, take-all, drop-all, leb, ◌==◌, bit_or, bit_and, Bool-cases,
  inl, inr,
}
use block.Common.Word.{
  bits, length-bits, bits-shr, bits-low, bits-mod, bit_or-add, bit_and-low, two_pow_add,
}
use block.Common.Fields.{bits-join}
use block.Shard.Masks.{bit_and-high}
use block.Shard.Address.{AccountIdPrefixFull, interpolate_addr}

one_less : (c p : ℕ) → 1 ≤ c → (c - 1) * p + p ≡ c * p
one_less c p h = let e : c - 1 + 1 ≡ c = omega arith in omega (arith, ap (λ (t : ℕ). t * p) e)

-- The masks that cut a word into `k` high and `n` low bits.
module _ (k n w : ℕ) (h : w ≡ k + n) where
  pub low_mask : (2 ^ w - 1) / 2 ^ k ≡ 2 ^ n - 1
  low_mask =
      ap (λ (t : ℕ). t / 2 ^ k)
        (omega (
          arith,
          one_less (2 ^ n) (2 ^ k) (one-le-pow n 2 (omega arith)),
          two_pow_add n k w (omega arith),
          one-le-pow k 2 (omega arith),
          mul-le-mul_right {m = 1} {n = 2 ^ n} (2 ^ k) (one-le-pow n 2 (omega arith)),
        ))
      ∙ mul-add-div_right (one-le-pow k 2 (omega arith)) (2 ^ n - 1) (2 ^ k - 1)
      ∙ omega (
        arith,
        div-eq_of_lt {n = 2 ^ k - 1} {m = 2 ^ k} (omega (arith, one-le-pow k 2 (omega arith))),
      )

  pub high_mask : 2 ^ w - 1 - (2 ^ w - 1) / 2 ^ k ≡ (2 ^ k - 1) * 2 ^ n
  high_mask = omega (
    arith,
    low_mask,
    one_less (2 ^ k) (2 ^ n) (one-le-pow k 2 (omega arith)),
    two_pow_add k n w h,
    one-le-pow n 2 (omega arith),
    mul-le-mul_right {m = 1} {n = 2 ^ k} (2 ^ n) (one-le-pow k 2 (omega arith)),
  )

-- The high `k` bits of `x` and the low `n` bits of `y`, as a number and as bits.
pub merged_number :
    (k n w x y : ℕ)
    → w ≡ k + n
    → x < 2 ^ w
    → bit_or (bit_and x (2 ^ w - 1 - (2 ^ w - 1) / 2 ^ k)) (bit_and y ((2 ^ w - 1) / 2 ^ k))
      ≡ x / 2 ^ n * 2 ^ n + y % 2 ^ n
merged_number k n w x y h lt =
    ap₂ bit_or
      (ap (bit_and x) (high_mask k n w h) ∙ bit_and-high k n x (subst (λ m. x < 2 ^ m) h lt))
      (ap (bit_and y) (low_mask k n w h) ∙ bit_and-low n y)
    ∙ bit_or-add n (x / 2 ^ n) (y % 2 ^ n) (mod-lt y (one-le-pow n 2 (omega arith)))

merged :
    (k n w x y : ℕ)
    → w ≡ k + n
    → x < 2 ^ w
    → bits w
        (bit_or (bit_and x (2 ^ w - 1 - (2 ^ w - 1) / 2 ^ k)) (bit_and y ((2 ^ w - 1) / 2 ^ k)))
      ≡ take k (bits w x) ++ drop k (bits w y)
merged k n w x y h lt =
    ap (bits w) (merged_number k n w x y h lt)
    ∙ bits-join k n w (x / 2 ^ n) (y % 2 ^ n) h (mod-lt y (one-le-pow n 2 (omega arith)))
    ∙ ap₂ ◌++◌ (bits-shr k n w x h) (bits-mod n n y (omega arith) ∙ bits-low k n w y h)

-- The 32 bits of the workchain and the 64 bits of the prefix.
abbrev pub address_bits : AccountIdPrefixFull → List Bool
address_bits a = bits 32 a.workchain_id ++ bits 64 a.prefix

-- `interpolate_addr` takes the first `dest_bits` of the 96 bits of an address, the workchain's 32 and
-- the prefix's 64, from a `dest` of two machine words, and the other `96 - dest_bits` (none from 96
-- on) from the other address.
pub interpolate_addr_lem :
    (a dest : AccountIdPrefixFull) (dest_bits : ℕ)
    → dest.workchain_id < 2 ^ 32
    → dest.prefix < 2 ^ 64
    → address_bits (interpolate_addr a dest dest_bits)
      ≡ take dest_bits (address_bits dest) ++ drop dest_bits (address_bits a)
unfolding interpolate_addr
interpolate_addr_lem a dest k hw hp = elim (Bool-cases (k == 0)) [
  | inl none ↦
      let z : k ≡ 0 = ground arith in
      rw none (ap (λ n. take n (address_bits dest) ++ drop n (address_bits a)) (sym z))
  | inr some ↦ rw some (elim (Bool-cases (leb 96 k)) [
    | inl all ↦ rw all (whole (ground arith))
    | inr part ↦ rw part (elim (Bool-cases (leb 32 k)) [
      | inl far ↦ rw far (prefix_part (ground arith) (ground arith))
      | inr near ↦ rw near (workchain_part (ground arith))
    ])
  ])
]
  where
    len : (c : AccountIdPrefixFull) → length (address_bits c) ≡ 96
    len c = omega (
      arith,
      length-append (bits 32 c.workchain_id) (bits 64 c.prefix),
      length-bits 32 c.workchain_id,
      length-bits 64 c.prefix,
    )

    whole : 96 ≤ k → address_bits dest ≡ take k (address_bits dest) ++ drop k (address_bits a)
    whole h = sym (
        ap₂ ◌++◌ (take-all k (address_bits dest) (omega (arith, len dest)))
          (drop-all k (address_bits a) (omega (arith, len a)))
        ∙ append-nil (address_bits dest))

    prefix_part :
        32 ≤ k
        → k < 96
        → bits 32 dest.workchain_id
            ++ bits 64 (
                bit_or
                  (bit_and dest.prefix (2 ^ 64 - 1 - (2 ^ 64 - 1) / 2 ^ (k - 32)))
                  (bit_and a.prefix ((2 ^ 64 - 1) / 2 ^ (k - 32))))
          ≡ take k (address_bits dest) ++ drop k (address_bits a)
    prefix_part h l =
        ap (λ xs. bits 32 dest.workchain_id ++ xs)
          (merged (k - 32) (96 - k) 64 dest.prefix a.prefix (omega arith) hp)
        ∙ sym (
            append_assoc (bits 32 dest.workchain_id) (take (k - 32) (bits 64 dest.prefix))
              (drop (k - 32) (bits 64 a.prefix)))
        ∙ sym (
            ap₂ ◌++◌
              (take-append_right k (k - 32) (bits 32 dest.workchain_id) (bits 64 dest.prefix)
                (omega (arith, length-bits 32 dest.workchain_id)))
              (drop-append_right k (k - 32) (bits 32 a.workchain_id) (bits 64 a.prefix)
                (omega (arith, length-bits 32 a.workchain_id))))

    workchain_part :
        k < 32
        → bits 32 (
              bit_or
                (bit_and dest.workchain_id (2 ^ 32 - 1 - (2 ^ 32 - 1) / 2 ^ k))
                (bit_and a.workchain_id ((2 ^ 32 - 1) / 2 ^ k)))
            ++ bits 64 a.prefix
          ≡ take k (address_bits dest) ++ drop k (address_bits a)
    workchain_part l =
        ap (λ xs. xs ++ bits 64 a.prefix)
          (merged k (32 - k) 32 dest.workchain_id a.workchain_id (omega arith) hw)
        ∙ append_assoc (take k (bits 32 dest.workchain_id)) (drop k (bits 32 a.workchain_id))
            (bits 64 a.prefix)
        ∙ sym (
            ap₂ ◌++◌
              (take-append_left k (bits 32 dest.workchain_id) (bits 64 dest.prefix)
                (omega (arith, length-bits 32 dest.workchain_id)))
              (drop-append_left k (bits 32 a.workchain_id) (bits 64 a.prefix)
                (omega (arith, length-bits 32 a.workchain_id))))
