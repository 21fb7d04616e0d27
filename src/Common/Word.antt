-- ===== src/Common/Word.antt =====
-- A machine word as the list of its bits, highest first, and what shifts and masks are on that list.
pub mod Digits
use Digits.{bit_or_lowest, bit_and_lowest, bit_xor_lowest}
use Prim.Native.Nat.{ℕ, zero, suc, ◌+◌, ◌-◌, ◌*◌, ◌/◌, ◌%◌, ◌^◌, ◌≤◌, ◌<◌, bit_or, bit_and, bit_xor}
use mathlib.Core.Path.{◌≡◌, refl, ap, ap₂, sym, ◌∙◌}
use mathlib.Core.Bool.{Bool, true, false, ◌||◌, ◌&&◌}
use mathlib.Core.List.{List, [], ◌∷◌, ◌++◌, append_assoc, append-nil}
use native.Mathlib.Omega.{arith}
use native.Mathlib.Nat.{
  div-div-eq-div-mul, pow-suc, pow-succ', one-le-pow, div-add-mod, mod-eq_of_lt,
}
use native.Mathlib.Nat.{mul-div_cancel, mul-mod_left, div-lt_iff_lt-mul}
use block.Common.Tests.{◌==◌, if◌then◌else◌}
use block.Common.Lists.{length, take, drop, length-append, replicate, replicate-snoc}
use block.Common.Lists.{zip_with, zip_with-append}
use block.Common.Lists.{take-append_left, take-append_right, drop-append_right}

abbrev pub odd : ℕ → Bool
odd v = v % 2 == 1

abbrev pub digit : Bool → ℕ
digit true = 1
digit false = 0

-- The `n` lowest bits of `v`, highest first.
unfoldable pub bits : ℕ → ℕ → List Bool
bits zero v = []
bits (suc n) v = bits n (v / 2) ++ odd v ∷ []

-- The number that a list of bits stands for, highest first.
unfoldable pub value_from : ℕ → List Bool → ℕ
value_from acc [] = acc
value_from acc (b ∷ bs) = value_from (acc * 2 + digit b) bs

pub value : List Bool → ℕ
value bs = value_from 0 bs

pub length-bits : (n v : ℕ) → length (bits n v) ≡ n
unfolding bits
length-bits zero v = refl
length-bits (suc n) v =
    omega (arith, length-append (bits n (v / 2)) (odd v ∷ []), length-bits n (v / 2))

half_shift : (v n : ℕ) → v / 2 / 2 ^ n ≡ v / 2 ^ suc n
half_shift v n = div-div-eq-div-mul v 2 (2 ^ n) ∙ ap (λ (t : ℕ). v / t) (sym (pow-succ' 2 n))

-- The high bits of a word are those of the word shifted right.
pub bits-add : (m n k v : ℕ) → k ≡ m + n → bits k v ≡ bits m (v / 2 ^ n) ++ bits n v
unfolding bits
bits-add m zero k v e =
    let e' : k ≡ m = omega arith in
    let w : v ≡ v / 2 ^ 0 = omega arith in
    ap (λ (i : ℕ). bits i v) e' ∙ ap (bits m) w ∙ sym (append-nil (bits m (v / 2 ^ 0)))
bits-add m (suc n) zero v e = absurd (omega arith)
bits-add m (suc n) (suc k) v e =
    rw (bits-add m n k (v / 2) (omega arith), half_shift v n)
      (append_assoc (bits m (v / 2 ^ suc n)) (bits n (v / 2)) (odd v ∷ []))

-- A remainder by an even number, halved, and its lowest digit.
half_mod : (v d : ℕ) → ((v % (2 * d)) / 2 ≡ (v / 2) % d) × ((v % (2 * d)) % 2 ≡ v % 2)
half_mod v d = (omega (arith, whole, halves, quotients), omega (arith, whole, halves, quotients))
  where
    whole : 2 * (d * (v / (2 * d))) + v % (2 * d) ≡ v
    whole = omega (arith, div-add-mod v (2 * d))

    halves : d * (v / 2 / d) + v / 2 % d ≡ v / 2
    halves = div-add-mod (v / 2) d

    quotients : d * (v / 2 / d) ≡ d * (v / (2 * d))
    quotients = ap (λ (t : ℕ). d * t) (div-div-eq-div-mul v 2 d)

-- Bits from `k` on do not show among the `n` lowest.
pub bits-mod : (n k v : ℕ) → n ≤ k → bits n (v % 2 ^ k) ≡ bits n v
unfolding bits
bits-mod zero k v h = refl
bits-mod (suc n) zero v h = absurd (omega arith)
bits-mod (suc n) (suc k) v h =
    rw (pow-succ' 2 k, (half_mod v (2 ^ k)).0, (half_mod v (2 ^ k)).1)
      (ap (λ l. l ++ odd v ∷ []) (bits-mod n k (v / 2) (omega arith)))

pub bits-zero : (n : ℕ) → bits n 0 ≡ replicate n false
unfolding bits
bits-zero zero = refl
bits-zero (suc n) = rw (bits-zero n) (replicate-snoc n false)

-- A shift to the left by `c` brings `c` zeros in.
pub bits-shl : (m c k v : ℕ) → k ≡ m + c → bits k (v * 2 ^ c) ≡ bits m v ++ replicate c false
bits-shl m c k v e =
    rw (bits-add m c k (v * 2 ^ c) e, mul-div_cancel v (one-le-pow c 2 (omega arith)), low)
  where
    low : bits c (v * 2 ^ c) ≡ replicate c false
    low =
        sym (bits-mod c c (v * 2 ^ c) (omega arith))
        ∙ ap (bits c) (mul-mod_left v (2 ^ c))
        ∙ bits-zero c

-- The bits of a word with its lowest `c` bits cut off are the first of the whole.
pub bits-shr : (m c k v : ℕ) → k ≡ m + c → bits m (v / 2 ^ c) ≡ take m (bits k v)
bits-shr m c k v e = rw (bits-add m c k v e) (
    sym (
      take-append_right m 0 (bits m (v / 2 ^ c)) (bits c v)
        (omega (arith, length-bits m (v / 2 ^ c)))
      ∙ append-nil (bits m (v / 2 ^ c))))

-- The lowest bits of a word are the last of the whole.
pub bits-low : (m c k v : ℕ) → k ≡ m + c → bits c v ≡ drop m (bits k v)
bits-low m c k v e = rw (bits-add m c k v e) (
    sym (
      drop-append_right m 0 (bits m (v / 2 ^ c)) (bits c v)
        (omega (arith, length-bits m (v / 2 ^ c)))))

-- A field of `n` bits behind the first `a`.
pub bits-field : (a n c k v : ℕ) → k ≡ a + n + c → bits n (v / 2 ^ c) ≡ take n (drop a (bits k v))
bits-field a n c k v e =
    rw
      (
        bits-add a (n + c) k v (omega arith),
        drop-append_right a 0 (bits a (v / 2 ^ (n + c))) (bits (n + c) v)
            (omega (arith, length-bits a (v / 2 ^ (n + c)))),
      )
      (bits-shr n c (n + c) v refl)

-- A test on two bits, as the operation on the digits that `bit_or`, `bit_and` and `bit_xor` make.
bit_or_halves :
    (a b : ℕ) → (bit_or a b / 2 ≡ bit_or (a / 2) (b / 2)) × (odd (bit_or a b) ≡ (odd a || odd b))
bit_or_halves a b = (omega (arith, bit_or_lowest a b), ground (arith, bit_or_lowest a b))

bit_and_halves :
    (a b : ℕ) → (bit_and a b / 2 ≡ bit_and (a / 2) (b / 2)) × (odd (bit_and a b) ≡ (odd a && odd b))
bit_and_halves a b = (omega (arith, bit_and_lowest a b), ground (arith, bit_and_lowest a b))

pub bits-bit_or : (n a b : ℕ) → bits n (bit_or a b) ≡ zip_with ◌||◌ (bits n a) (bits n b)
unfolding bits
bits-bit_or zero a b = refl
bits-bit_or (suc n) a b =
    rw ((bit_or_halves a b).0, (bit_or_halves a b).1, bits-bit_or n (a / 2) (b / 2))
      (sym (
        zip_with-append ◌||◌ (bits n (a / 2)) (odd a ∷ []) (bits n (b / 2)) (odd b ∷ [])
          (omega (arith, length-bits n (a / 2), length-bits n (b / 2)))))

pub bits-bit_and : (n a b : ℕ) → bits n (bit_and a b) ≡ zip_with ◌&&◌ (bits n a) (bits n b)
unfolding bits
bits-bit_and zero a b = refl
bits-bit_and (suc n) a b =
    rw ((bit_and_halves a b).0, (bit_and_halves a b).1, bits-bit_and n (a / 2) (b / 2))
      (sym (
        zip_with-append ◌&&◌ (bits n (a / 2)) (odd a ∷ []) (bits n (b / 2)) (odd b ∷ [])
          (omega (arith, length-bits n (a / 2), length-bits n (b / 2)))))

pub bit_or-zero : (bound a : ℕ) → a ≤ bound → bit_or a 0 ≡ a
bit_or-zero bound zero h = omega (arith, bit_or_lowest 0 0)
bit_or-zero zero (suc a) h = absurd (omega arith)
bit_or-zero (suc bound) (suc a) h =
    omega (arith, bit_or_lowest (suc a) 0, bit_or-zero bound (suc a / 2) (omega arith))

bit_and-zero : (bound a : ℕ) → a ≤ bound → bit_and a 0 ≡ 0
bit_and-zero bound zero h = omega (arith, bit_and_lowest 0 0)
bit_and-zero zero (suc a) h = absurd (omega arith)
bit_and-zero (suc bound) (suc a) h =
    omega (arith, bit_and_lowest (suc a) 0, bit_and-zero bound (suc a / 2) (omega arith))

-- `(q << k) | r` is a sum when `r` fits the `k` bits.
pub bit_or-add : (k q r : ℕ) → r < 2 ^ k → bit_or (q * 2 ^ k) r ≡ q * 2 ^ k + r
bit_or-add zero q r h = ground (arith, bit_or-zero q q)
bit_or-add (suc k) q r h = omega (
  arith,
  bit_or_lowest (q * 2 ^ suc k) r,
  ap (λ (t : ℕ). q * t) (pow-succ' 2 k),
  pow-succ' 2 k,
  halved,
  ap (λ (t : ℕ). bit_or t (r / 2)) halved,
  bit_or-add k q (r / 2) (omega (arith, pow-succ' 2 k)),
)
  where
    halved : q * 2 ^ suc k / 2 ≡ q * 2 ^ k
    halved = omega (arith, ap (λ (t : ℕ). q * t) (pow-succ' 2 k))

-- A mask of `k` low ones is the remainder by `2 ^ k`.
pub bit_and-low : (k a : ℕ) → bit_and a (2 ^ k - 1) ≡ a % 2 ^ k
bit_and-low zero a = omega (arith, bit_and-zero a a)
bit_and-low (suc k) a = omega (
  arith,
  bit_and_lowest a (2 ^ suc k - 1),
  pow-succ' 2 k,
  one-le-pow k 2 (omega arith),
  halved,
  ap (λ (t : ℕ). bit_and (a / 2) t) halved,
  bit_and-low k (a / 2),
  (half_mod a (2 ^ k)).0,
  (half_mod a (2 ^ k)).1,
  ap (λ (t : ℕ). a % t) (pow-succ' 2 k),
)
  where
    halved : (2 ^ suc k - 1) / 2 ≡ 2 ^ k - 1
    halved = omega (arith, pow-succ' 2 k, one-le-pow k 2 (omega arith))

pub value_from-append :
    (acc : ℕ) (xs ys : List Bool) → value_from acc (xs ++ ys) ≡ value_from (value_from acc xs) ys
unfolding value_from
value_from-append acc [] ys = refl
value_from-append acc (x ∷ xs) ys = value_from-append (acc * 2 + digit x) xs ys

digit-odd : (v : ℕ) → digit (odd v) ≡ v % 2
digit-odd v = ground arith

value_from-bits : (n v acc : ℕ) → value_from acc (bits n v) ≡ acc * 2 ^ n + v % 2 ^ n
unfolding bits value_from
value_from-bits zero v acc = omega arith
value_from-bits (suc n) v acc =
    value_from-append acc (bits n (v / 2)) (odd v ∷ [])
    ∙ omega (
      arith,
      value_from-bits n (v / 2) acc,
      pow-succ' 2 n,
      digit-odd v,
      ap (λ (t : ℕ). acc * t) (pow-succ' 2 n),
      ap (λ (t : ℕ). v % t) (pow-succ' 2 n),
      (half_mod v (2 ^ n)).0,
      (half_mod v (2 ^ n)).1,
    )

-- Reading back the `n` low bits of a number below `2 ^ n` gives the number.
pub value-bits : (n v : ℕ) → v < 2 ^ n → value (bits n v) ≡ v
unfolding value
value-bits n v h = value_from-bits n v 0 ∙ omega (arith, mod-eq_of_lt h)

pub bits_injective : (n v w : ℕ) → v < 2 ^ n → w < 2 ^ n → bits n v ≡ bits n w → v ≡ w
bits_injective n v w hv hw e = sym (value-bits n v hv) ∙ ap value e ∙ value-bits n w hw

pub two_pow_add : (a b k : ℕ) → k ≡ a + b → 2 ^ k ≡ 2 ^ a * 2 ^ b
two_pow_add zero b k h = let e : k ≡ b = omega arith in ap (λ (t : ℕ). 2 ^ t) e ∙ omega arith
two_pow_add (suc a) b zero h = absurd (omega arith)
two_pow_add (suc a) b (suc k) h = omega (
  arith,
  pow-succ' 2 k,
  ap (λ (t : ℕ). t * 2 ^ b) (pow-succ' 2 a),
  two_pow_add a b k (omega arith),
)

-- The high `a` bits of a word of `k` bits are a word of `a` bits.
pub shr_below : (a b k v : ℕ) → k ≡ a + b → v < 2 ^ k → v / 2 ^ b < 2 ^ a
shr_below a b k v h lt =
    (div-lt_iff_lt-mul (one-le-pow b 2 (omega arith))).1 (omega (arith, two_pow_add a b k h))
