-- ===== src/Common/Fields.antt =====
-- Putting a field of bits into a word, under the bits that are there.
use Prim.Native.Nat.{ℕ, zero, suc, ◌+◌, ◌*◌, ◌/◌, ◌%◌, ◌^◌, ◌≤◌, ◌<◌, bit_or}
use mathlib.Core.Path.{◌≡◌, ap, ap₂, sym, ◌∙◌}
use mathlib.Core.List.{◌++◌}
use native.Mathlib.Omega.{arith}
use native.Mathlib.Nat.{
  pow-succ', one-le-pow, mod-eq_of_lt, mul-le-mul_right, mul-add-div_right, mul-add-mod_self_right,
  div-eq_of_lt,
}
use block.Common.Word.{bits, bits-add, bits-mod, bit_or-add, two_pow_add}

two_pow_step : (c : ℕ) (b : ℕ) → b * 2 ^ suc c ≡ 2 * (b * 2 ^ c)
two_pow_step c b = omega (arith, ap (λ (t : ℕ). b * t) (pow-succ' 2 c))

pub shl_below : (n c k b : ℕ) → n + c ≤ k → b < 2 ^ n → b * 2 ^ c < 2 ^ k
shl_below n c zero b h lt =
    let e : n ≡ 0 = omega arith in
    let f : c ≡ 0 = omega arith in
    omega (arith, ap (λ (t : ℕ). 2 ^ t) e, ap (λ (t : ℕ). b * 2 ^ t) f)
shl_below n (suc c) (suc k) b h lt =
    omega (arith, shl_below n c k b (omega arith) lt, two_pow_step c b, pow-succ' 2 k)
shl_below zero zero (suc k) b h lt = omega (arith, one-le-pow (suc k) 2 (omega arith))
shl_below (suc n) zero (suc k) b h lt =
    omega (
      arith,
      shl_below n zero k (b / 2) (omega arith) (omega (arith, pow-succ' 2 n)),
      pow-succ' 2 k,
    )

-- The number `a` followed by `n` bits of `b`.
pub join_below : (m n k a b : ℕ) → k ≡ m + n → a < 2 ^ m → b < 2 ^ n → a * 2 ^ n + b < 2 ^ k
join_below m n k a b h la lb =
    omega
      (arith, mul-le-mul_right {m = a + 1} {n = 2 ^ m} (2 ^ n) (omega arith), two_pow_add m n k h)

pub bits-join :
    (m n k a b : ℕ) → k ≡ m + n → b < 2 ^ n → bits k (a * 2 ^ n + b) ≡ bits m a ++ bits n b
bits-join m n k a b h lt =
    bits-add m n k (a * 2 ^ n + b) h
    ∙ ap₂ ◌++◌ (ap (bits m) high) (
        sym (bits-mod n n (a * 2 ^ n + b) (omega arith))
        ∙ ap (bits n) (mul-add-mod_self_right a (2 ^ n) b ∙ mod-eq_of_lt lt))
  where
    high : (a * 2 ^ n + b) / 2 ^ n ≡ a
    high = omega (arith, mul-add-div_right (one-le-pow n 2 (omega arith)) a b, div-eq_of_lt lt)

-- `word | (b << c)` under `a`, whose lowest bit stands just above the field.
pub bit_or_field :
    (a b n c k w : ℕ)
    → k ≡ n + c
    → k ≤ w
    → b < 2 ^ n
    → bit_or (a * 2 ^ k) (b * 2 ^ c % 2 ^ w) ≡ (a * 2 ^ n + b) * 2 ^ c
bit_or_field a b n c k w h fits lt =
    ap (bit_or (a * 2 ^ k)) (mod-eq_of_lt (shl_below n c w b (omega arith) lt))
    ∙ bit_or-add k a (b * 2 ^ c) (shl_below n c k b (omega arith) lt)
    ∙ omega (arith, ap (λ (t : ℕ). a * t) (two_pow_add n c k h))
