-- ===== src/Shard/Prefix.antt =====
-- A prefix with its tag is `(2 * high + 1) * 2 ^ shift`: what the bit tricks of shard.rs make of it.
use native.Mathlib.Nat.{
  pow-succ', one-le-pow, mul-add-div_right, div-eq_of_lt, mul-le-mul_right, mul-le-mul_left,
}
use block.Common.{
  ℕ, ◌↔◌, ◌≢◌, zero, suc, ◌+◌, ◌-◌, ◌*◌, ◌/◌, ◌%◌, ◌^◌, ◌≤◌, ◌<◌, ◌≡◌, refl, sym, ap, ◌∙◌, subst,
  arith, true, false, take, ◌==◌, ==_refl, ==_ne, inl, inr, Bool-cases, bit_and, bit_xor,
}
use block.Common.Word.{bits, bits-shr, bits_injective, two_pow_add, shr_below}
use block.Shard.{negate_bits, lower_bits, shl, trailing_zeros, prefix_len, contains}
use block.Shard.Masks.{
  bit_and-double, bit_and-odd, bit_and-high, bit_xor-shr, bit_xor-zero, bit_xor_same, bit_xor-below,
}

abbrev pub tagged : ℕ → ℕ → ℕ
tagged high shift = (2 * high + 1) * 2 ^ shift

-- `p` is a prefix of `n` bits, the number `high`, with its tag behind it.
pub record IsTagged (n p : ℕ) : Type 0 where
  pub high : ℕ
  pub shift : ℕ
  pub sizes : n + shift ≡ 63
  pub below : high < 2 ^ n
  pub shape : p ≡ tagged high shift

-- 2 ^ 64 in halves and in the two parts of a prefix.
whole : (n k : ℕ) → n + k ≡ 63 → 2 ^ 64 ≡ 2 * (2 ^ n * 2 ^ k)
whole n k h = omega (arith, two_pow_add n k 63 (sym h))

tagged_below : (n k m : ℕ) → n + k ≡ 63 → m < 2 ^ n → tagged m k + 2 ^ k ≤ 2 ^ 64
tagged_below n k m h lt =
    omega (arith, whole n k h, mul-le-mul_right {m = m + 1} {n = 2 ^ n} (2 ^ k) (omega arith))

negate_bits_lem : (p : ℕ) → 0 < p → p < 2 ^ 64 → negate_bits p ≡ 2 ^ 64 - p
unfolding negate_bits
negate_bits_lem p pos lt = omega arith

positive : (k m : ℕ) → 0 < tagged m k
positive k m = omega (arith, one-le-pow k 2 (omega arith))

-- A prefix and its mirror image fill a word.
pub mirror :
    (n k m m' : ℕ) → n + k ≡ 63 → m + m' + 1 ≡ 2 ^ n → negate_bits (tagged m k) ≡ tagged m' k
mirror n k m m' h e =
    negate_bits_lem (tagged m k) (positive k m) (omega (arith, sum, positive k m'))
    ∙ omega (arith, sum)
  where
    sum : tagged m k + tagged m' k ≡ 2 ^ 64
    sum = omega (arith, whole n k h, ap (λ (t : ℕ). t * 2 ^ k) e)

lower_bits-tagged : (n k m : ℕ) → n + k ≡ 63 → m < 2 ^ n → lower_bits (tagged m k) ≡ 2 ^ k
unfolding lower_bits
lower_bits-tagged n k m h lt =
    ap (bit_and (tagged m k)) (mirror n k m (2 ^ n - 1 - m) h (omega arith))
    ∙ bit_and-double k (2 * m + 1) (2 * (2 ^ n - 1 - m) + 1)
    ∙ ap (λ (t : ℕ). t * 2 ^ k) (bit_and-odd n m (2 ^ n - 1 - m) (omega arith))
    ∙ one_times
  where
    one_times : 1 * 2 ^ k ≡ 2 ^ k
    one_times = omega arith

-- The mask of the bits in front of the tag.
front_mask : (n k : ℕ) → n + k ≡ 63 → shl (negate_bits (2 ^ k)) 1 ≡ (2 ^ n - 1) * 2 ^ suc k
unfolding negate_bits
front_mask n k h =
    let one : 2 ^ k ≡ tagged 0 k = omega arith in
    let pos = one-le-pow n 2 (omega arith) in
    let neg : negate_bits (2 ^ k) ≡ tagged (2 ^ n - 1) k =
      ap negate_bits one ∙ mirror n k 0 (2 ^ n - 1) h (omega arith) in
    omega (
      arith,
      neg,
      whole n k h,
      pow-succ' 2 k,
      ap (λ (t : ℕ). (2 ^ n - 1) * t) (pow-succ' 2 k),
      ap (λ (t : ℕ). t * 2 ^ k) (n_whole pos),
    )
  where
    n_whole : 1 ≤ 2 ^ n → 2 ^ n - 1 + 1 ≡ 2 ^ n
    n_whole pos = omega arith

trailing_zeros-tagged : (fuel k m : ℕ) → k < fuel → trailing_zeros fuel (tagged m k) ≡ k
unfolding trailing_zeros
trailing_zeros-tagged zero k m h = absurd (omega arith)
trailing_zeros-tagged (suc fuel) zero m h =
    let odd : (2 * m + 1) * 2 ^ 0 % 2 ≡ 1 = omega arith in rw odd refl
trailing_zeros-tagged (suc fuel) (suc k) m h =
    let even : tagged m (suc k) % 2 ≡ 0 = omega (arith, double) in
    let half : tagged m (suc k) / 2 ≡ tagged m k = omega (arith, double) in
    rw even (ap suc (ap (trailing_zeros fuel) half ∙ trailing_zeros-tagged fuel k m (omega arith)))
  where
    double : tagged m (suc k) ≡ 2 * tagged m k
    double = omega (arith, ap (λ (t : ℕ). (2 * m + 1) * t) (pow-succ' 2 k))

same_test : (x y s : ℕ) → (bit_xor x y * 2 ^ s == 0) ≡ (x == y)
same_test x y s = elim (Bool-cases (x == y)) [
  | inl same ↦
      let e : x ≡ y = ground arith in
      ap (λ z. z * 2 ^ s == 0) (ap (bit_xor x) (sym e) ∙ bit_xor_same x x (omega arith))
      ∙ nothing
      ∙ sym same
  | inr differs ↦
      ==_ne (bit_xor x y * 2 ^ s) 0 (λ z.
        absurd
          (apart differs (bit_xor-zero (x + y) x y (omega arith) (omega arith) (no_product z))))
      ∙ sym differs
]
  where
    nothing : (0 * 2 ^ s == 0) ≡ true
    nothing = let z : 0 * 2 ^ s ≡ 0 = omega arith in ap (λ t. t == 0) z

    apart : (x == y) ≡ false → x ≢ y
    apart f e = ground arith

    no_product : bit_xor x y * 2 ^ s ≡ 0 → bit_xor x y ≡ 0
    no_product z =
        omega
          (arith, mul-le-mul_left {m = 1} {n = 2 ^ s} (bit_xor x y) (one-le-pow s 2 (omega arith)))

module _ {n p : ℕ} (t : IsTagged n p) where
  pub tagged-below : p < 2 ^ 64
  tagged-below = omega (
    arith,
    t.shape,
    tagged_below n t.shift t.high t.sizes t.below,
    one-le-pow t.shift 2 (omega arith),
  )

  pub lower_bits_lem : lower_bits p ≡ 2 ^ t.shift
  lower_bits_lem = ap lower_bits t.shape ∙ lower_bits-tagged n t.shift t.high t.sizes t.below

  -- What is in front of the tag.
  pub front : p / 2 ^ suc t.shift ≡ t.high
  front =
      ap (λ x. x / 2 ^ suc t.shift)
        (omega
          (arith, t.shape, pow-succ' 2 t.shift, ap (λ (x : ℕ). t.high * x) (pow-succ' 2 t.shift)))
      ∙ mul-add-div_right {m = 2 ^ suc t.shift} (one-le-pow (suc t.shift) 2 (omega arith)) t.high
          (2 ^ t.shift)
      ∙ ap (λ x. t.high + x)
          (div-eq_of_lt (omega (arith, pow-succ' 2 t.shift, one-le-pow t.shift 2 (omega arith))))
      ∙ omega arith

  pub prefix_len_lem : (wc : ℕ) → prefix_len (record { workchain_id = wc; prefix = p }) ≡ n
  unfolding prefix_len
  prefix_len_lem wc = rw (==_ne p 0 (omega (arith, t.shape, positive t.shift t.high))) (
      omega (
        arith,
        t.sizes,
        ap (trailing_zeros 64) t.shape,
        trailing_zeros-tagged 64 t.shift t.high (omega (arith, t.sizes)),
      ))

  -- A word's bits under the mask in front of the tag.
  pub under_mask :
      (d : ℕ)
      → d < 2 ^ 64
      → bit_and d (shl (negate_bits (lower_bits p)) 1) ≡ d / 2 ^ suc t.shift * 2 ^ suc t.shift
  under_mask d h =
      ap (λ x. bit_and d (shl (negate_bits x) 1)) lower_bits_lem
      ∙ ap (bit_and d) (front_mask n t.shift t.sizes)
      ∙ bit_and-high n (suc t.shift) d (subst (λ k. d < 2 ^ k) word h)
    where
      word : 64 ≡ n + suc t.shift
      word = omega (arith, t.sizes)

  -- The test of `contains`.
  pub agree :
      (q : ℕ)
      → q < 2 ^ 64
      → (bit_and (bit_xor p q) (shl (negate_bits (lower_bits p)) 1) == 0)
        ≡ (t.high == q / 2 ^ suc t.shift)
  agree q h =
      ap (λ x. x == 0)
        (under_mask (bit_xor p q) (bit_xor-below 64 p q tagged-below h)
          ∙ ap (λ x. x * 2 ^ suc t.shift)
              (bit_xor-shr (suc t.shift) p q ∙ ap (λ a. bit_xor a (q / 2 ^ suc t.shift)) front))
      ∙ same_test t.high (q / 2 ^ suc t.shift) (suc t.shift)

  -- The bits in front of the tag are the prefix.
  pub first_bits : (q : ℕ) → take n (bits 64 q) ≡ bits n (q / 2 ^ suc t.shift)
  first_bits q = sym (bits-shr n (suc t.shift) 64 q (omega (arith, t.sizes)))

  pub first_bits_same :
      (q : ℕ)
      → q < 2 ^ 64
      → ((t.high == q / 2 ^ suc t.shift) ≡ true) ↔ (take n (bits 64 p) ≡ take n (bits 64 q))
  first_bits_same q h =
      let mine : take n (bits 64 p) ≡ bits n t.high = first_bits p ∙ ap (bits n) front in
      (
        λ e. mine ∙ ap (bits n) (ground arith) ∙ sym (first_bits q),
        λ e.
            let eq =
              bits_injective n t.high (q / 2 ^ suc t.shift) t.below
                (shr_below n (suc t.shift) 64 q (omega (arith, t.sizes)) h)
                (sym mine ∙ e ∙ first_bits q) in
            ap (λ x. t.high == x) (sym eq) ∙ ==_refl t.high,
      )

  -- `contains` holds exactly if the other word starts with the bits in front of the tag.
  pub contains_first_bits :
      (q : ℕ) → q < 2 ^ 64 → (contains p q ≡ true) ↔ (take n (bits 64 p) ≡ take n (bits 64 q))
  unfolding contains
  contains_first_bits q h =
      let (to, from) = first_bits_same q h in
      let e = agree q h in (λ c. to (sym e ∙ c), λ b. e ∙ from b)
