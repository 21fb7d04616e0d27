-- ===== src/Shard/Masks.antt =====
-- The masks of shard.rs as arithmetic: the lowest one of a word, its negation, and what is left of
-- a word under a run of high ones.
use native.Mathlib.Nat.{pow-succ', one-le-pow, mod-eq_of_lt, div-div-eq-div-mul}
use block.Common.{
  ℕ, zero, suc, ◌+◌, ◌-◌, ◌*◌, ◌/◌, ◌%◌, ◌^◌, ◌≤◌, ◌<◌, ◌≡◌, refl, sym, ap, ap₂, ◌∙◌, arith, bit_or,
  bit_and, bit_xor,
}
use block.Common.Word.{bit_and-low, bit_or-zero}
use block.Common.Word.Digits.{bit_and_lowest, bit_xor_lowest, bit_or_lowest}

-- Two words without a one in common add up to all ones.
bit_and-complement : (w a b : ℕ) → a + b ≡ 2 ^ w - 1 → bit_and a b ≡ 0
bit_and-complement zero a b h =
    let ea : a ≡ 0 = omega arith in
    let eb : b ≡ 0 = omega arith in ap₂ bit_and ea eb ∙ omega (arith, bit_and-low 0 0)
bit_and-complement (suc w) a b h = omega (
  arith,
  bit_and_lowest a b,
  pow-succ' 2 w,
  one-le-pow w 2 (omega arith),
  bit_and-complement w (a / 2) (b / 2) (omega (arith, pow-succ' 2 w, one-le-pow w 2 (omega arith))),
)

pub bit_and-double : (k a b : ℕ) → bit_and (a * 2 ^ k) (b * 2 ^ k) ≡ bit_and a b * 2 ^ k
bit_and-double zero a b = omega (arith, ap₂ bit_and (a_one a) (a_one b))
  where
    a_one : (a : ℕ) → a * 2 ^ 0 ≡ a
    a_one a = omega arith
bit_and-double (suc k) a b = omega (
  arith,
  bit_and_lowest (a * 2 ^ suc k) (b * 2 ^ suc k),
  shift a,
  shift b,
  shift (bit_and a b),
  ap₂ bit_and (half a) (half b),
  bit_and-double k a b,
)
  where
    shift : (c : ℕ) → c * 2 ^ suc k ≡ 2 * (c * 2 ^ k)
    shift c = omega (arith, ap (λ (t : ℕ). c * t) (pow-succ' 2 k))

    half : (c : ℕ) → c * 2 ^ suc k / 2 ≡ c * 2 ^ k
    half c = omega (arith, shift c)

halved : (j d : ℕ) → d / 2 / 2 ^ j ≡ d / 2 ^ suc j
halved j d = div-div-eq-div-mul d 2 (2 ^ j) ∙ ap (λ (t : ℕ). d / t) (omega (arith, pow-succ' 2 j))

-- The high ones of a mask keep the high part of a word.
pub bit_and-high :
    (n j d : ℕ) → d < 2 ^ (n + j) → bit_and d ((2 ^ n - 1) * 2 ^ j) ≡ d / 2 ^ j * 2 ^ j
bit_and-high n zero d h =
    let e : (2 ^ n - 1) * 2 ^ 0 ≡ 2 ^ n - 1 = omega arith in
    let k : n + 0 ≡ n = omega arith in
    ap (bit_and d) e
    ∙ bit_and-low n d
    ∙ mod-eq_of_lt (omega (arith, ap (λ (t : ℕ). 2 ^ t) k))
    ∙ omega arith
bit_and-high n (suc j) d h = omega (
  arith,
  bit_and_lowest d ((2 ^ n - 1) * 2 ^ suc j),
  shift (2 ^ n - 1),
  shift (d / 2 ^ suc j),
  ap (bit_and (d / 2)) half,
  bit_and-high n j (d / 2) (omega (arith, two_pow_step)),
  ap (λ (t : ℕ). t * 2 ^ j) (halved j d),
)
  where
    shift : (c : ℕ) → c * 2 ^ suc j ≡ 2 * (c * 2 ^ j)
    shift c = omega (arith, ap (λ (t : ℕ). c * t) (pow-succ' 2 j))

    half : (2 ^ n - 1) * 2 ^ suc j / 2 ≡ (2 ^ n - 1) * 2 ^ j
    half = omega (arith, shift (2 ^ n - 1))

    two_pow_step : 2 ^ (n + suc j) ≡ 2 * 2 ^ (n + j)
    two_pow_step =
        let e : n + suc j ≡ suc (n + j) = omega arith in
        ap (λ (t : ℕ). 2 ^ t) e ∙ omega (arith, pow-succ' 2 (n + j))

pub bit_xor-shr : (j a b : ℕ) → bit_xor a b / 2 ^ j ≡ bit_xor (a / 2 ^ j) (b / 2 ^ j)
bit_xor-shr zero a b = omega (arith, ap₂ bit_xor (one a) (one b))
  where
    one : (a : ℕ) → a / 2 ^ 0 ≡ a
    one a = omega arith
bit_xor-shr (suc j) a b =
    sym (halved j (bit_xor a b))
    ∙ ap (λ (t : ℕ). t / 2 ^ j) (omega (arith, bit_xor_lowest a b))
    ∙ bit_xor-shr j (a / 2) (b / 2)
    ∙ ap₂ bit_xor (halved j a) (halved j b)

pub bit_xor-zero : (bound a b : ℕ) → a ≤ bound → b ≤ bound → bit_xor a b ≡ 0 → a ≡ b
bit_xor-zero zero a b ha hb e = omega arith
bit_xor-zero (suc bound) a b ha hb e = omega (
  arith,
  bit_xor_lowest a b,
  bit_xor-zero bound (a / 2) (b / 2) (omega arith) (omega arith)
      (omega (arith, bit_xor_lowest a b)),
)

pub bit_xor_same : (bound a : ℕ) → a ≤ bound → bit_xor a a ≡ 0
bit_xor_same zero a h = let e : a ≡ 0 = omega arith in ap₂ bit_xor e e ∙ refl
bit_xor_same (suc bound) a h =
    omega (arith, bit_xor_lowest a a, bit_xor_same bound (a / 2) (omega arith))

pub bit_xor-below : (n a b : ℕ) → a < 2 ^ n → b < 2 ^ n → bit_xor a b < 2 ^ n
bit_xor-below zero a b ha hb =
    let ea : a ≡ 0 = omega arith in
    let eb : b ≡ 0 = omega arith in omega (arith, ap₂ bit_xor ea eb ∙ refl)
bit_xor-below (suc n) a b ha hb = omega (
  arith,
  bit_xor_lowest a b,
  pow-succ' 2 n,
  bit_xor-below n (a / 2) (b / 2) (omega (arith, pow-succ' 2 n)) (omega (arith, pow-succ' 2 n)),
)

pub bit_xor-double : (k a b : ℕ) → bit_xor (a * 2 ^ k) (b * 2 ^ k) ≡ bit_xor a b * 2 ^ k
bit_xor-double zero a b = omega (arith, ap₂ bit_xor (one a) (one b))
  where
    one : (a : ℕ) → a * 2 ^ 0 ≡ a
    one a = omega arith
bit_xor-double (suc k) a b = omega (
  arith,
  bit_xor_lowest (a * 2 ^ suc k) (b * 2 ^ suc k),
  shift a,
  shift b,
  shift (bit_xor a b),
  ap₂ bit_xor (half a) (half b),
  bit_xor-double k a b,
)
  where
    shift : (c : ℕ) → c * 2 ^ suc k ≡ 2 * (c * 2 ^ k)
    shift c = omega (arith, ap (λ (t : ℕ). c * t) (pow-succ' 2 k))

    half : (c : ℕ) → c * 2 ^ suc k / 2 ≡ c * 2 ^ k
    half c = omega (arith, shift c)

pub bit_or-double : (k a b : ℕ) → bit_or (a * 2 ^ k) (b * 2 ^ k) ≡ bit_or a b * 2 ^ k
bit_or-double zero a b = omega (arith, ap₂ bit_or (one a) (one b))
  where
    one : (a : ℕ) → a * 2 ^ 0 ≡ a
    one a = omega arith
bit_or-double (suc k) a b = omega (
  arith,
  bit_or_lowest (a * 2 ^ suc k) (b * 2 ^ suc k),
  shift a,
  shift b,
  shift (bit_or a b),
  ap₂ bit_or (half a) (half b),
  bit_or-double k a b,
)
  where
    shift : (c : ℕ) → c * 2 ^ suc k ≡ 2 * (c * 2 ^ k)
    shift c = omega (arith, ap (λ (t : ℕ). c * t) (pow-succ' 2 k))

    half : (c : ℕ) → c * 2 ^ suc k / 2 ≡ c * 2 ^ k
    half c = omega (arith, shift c)

pub bit_or-one : (m : ℕ) → bit_or m 1 ≡ 2 * (m / 2) + 1
bit_or-one m = omega (arith, bit_or_lowest m 1, bit_or-zero (m / 2) (m / 2) (omega arith))

bit_xor_zero : (bound a : ℕ) → a ≤ bound → bit_xor a 0 ≡ a
bit_xor_zero zero a h =
    let e : a ≡ 0 = omega arith in omega (arith, ap (λ (t : ℕ). bit_xor t 0) e ∙ refl)
bit_xor_zero (suc bound) a h =
    omega (arith, bit_xor_lowest a 0, bit_xor_zero bound (a / 2) (omega arith))

pub bit_xor-one : (m : ℕ) → bit_xor m 1 ≡ 2 * (m / 2) + (m + 1) % 2
bit_xor-one m = omega (arith, bit_xor_lowest m 1, bit_xor_zero (m / 2) (m / 2) (omega arith))

-- Two odd numbers that add up to a power of two share their lowest one only.
pub bit_and-odd : (n m m' : ℕ) → m + m' ≡ 2 ^ n - 1 → bit_and (2 * m + 1) (2 * m' + 1) ≡ 1
bit_and-odd n m m' h = omega (
  arith,
  bit_and_lowest (2 * m + 1) (2 * m' + 1),
  ap₂ bit_and (half m) (half m'),
  bit_and-complement n m m' h,
)
  where
    half : (c : ℕ) → (2 * c + 1) / 2 ≡ c
    half c = omega arith

bit_xor_bounded_comm : (bound a b : ℕ) → a ≤ bound → b ≤ bound → bit_xor a b ≡ bit_xor b a
bit_xor_bounded_comm zero a b ha hb = let e : a ≡ b = omega arith in ap₂ bit_xor e (sym e)
bit_xor_bounded_comm (suc bound) a b ha hb = omega (
  arith,
  bit_xor_lowest a b,
  bit_xor_lowest b a,
  bit_xor_bounded_comm bound (a / 2) (b / 2) (omega arith) (omega arith),
)

pub bit_xor_comm : (a b : ℕ) → bit_xor a b ≡ bit_xor b a
bit_xor_comm a b = bit_xor_bounded_comm (a + b) a b (omega arith) (omega arith)
