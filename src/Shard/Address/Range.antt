-- ===== src/Shard/Address/Range.antt =====
-- The numbers that hypercube routing in shard.rs computes: the ends of a shard, and where its loop
-- starts.
use native.Mathlib.Nat.{pow-succ', one-le-pow, div-eq_of_lt-le, div-add-mod', mod-lt}
use block.Common.{
  ℕ, ◌⊎◌, ◌≢◌, zero, suc, ◌+◌, ◌-◌, ◌*◌, ◌/◌, ◌%◌, ◌^◌, ◌≤◌, ◌<◌, ◌≡◌, refl, sym, ap, ap₂, ◌∙◌,
  subst, arith, ltb, ==_ne, bit_or, bit_and, bit_xor, Bool-cases, inl, inr,
}
use block.Common.Word.{shr_below}
use block.Common.Word.Digits.{bit_and_lowest, bit_xor_lowest, bit_or_lowest}
use block.Slice.Read.{bit_width}
use block.Shard.{leading_zeros}
use block.Shard.Masks.{bit_and-high, bit_xor-below, bit_xor-shr}
use block.Shard.Address.Laws.{high_mask}
use block.Shard.Prefix.{tagged}

-- The far end of a way of which one end and the way are known.
pub xor_cancel : (bound t d : ℕ) → t ≤ bound → d ≤ bound → bit_xor t (bit_xor d t) ≡ d
xor_cancel zero t d ht hd =
    let et : t ≡ 0 = omega arith in
    let ed : d ≡ 0 = omega arith in ap₂ bit_xor et (ap₂ bit_xor ed et) ∙ sym ed
xor_cancel (suc bound) t d ht hd =
    let half : bit_xor d t / 2 ≡ bit_xor (d / 2) (t / 2) = omega (arith, bit_xor_lowest d t) in
    omega (
      arith,
      bit_xor_lowest t (bit_xor d t),
      bit_xor_lowest d t,
      ap (bit_xor (t / 2)) half,
      xor_cancel bound (t / 2) (d / 2) (omega arith) (omega arith),
    )

nothing_and : (bound b : ℕ) → b ≤ bound → bit_and 0 b ≡ 0
nothing_and zero b h = let e : b ≡ 0 = omega arith in ap (bit_and 0) e ∙ refl
nothing_and (suc bound) b h =
    omega (arith, bit_and_lowest 0 b, nothing_and bound (b / 2) (omega arith))

pub and_below : (n a b : ℕ) → a < 2 ^ n → bit_and a b < 2 ^ n
and_below zero a b h =
    let e : a ≡ 0 = omega arith in
    omega (arith, ap (λ (t : ℕ). bit_and t b) e, nothing_and b b (omega arith))
and_below (suc n) a b h = omega (
  arith,
  bit_and_lowest a b,
  pow-succ' 2 n,
  and_below n (a / 2) (b / 2) (omega (arith, pow-succ' 2 n)),
)

pub or_below : (n a b : ℕ) → a < 2 ^ n → b < 2 ^ n → bit_or a b < 2 ^ n
or_below zero a b ha hb =
    let ea : a ≡ 0 = omega arith in
    let eb : b ≡ 0 = omega arith in omega (arith, ap₂ bit_or ea eb ∙ refl)
or_below (suc n) a b ha hb = omega (
  arith,
  bit_or_lowest a b,
  pow-succ' 2 n,
  or_below n (a / 2) (b / 2) (omega (arith, pow-succ' 2 n)) (omega (arith, pow-succ' 2 n)),
)

and_same : (bound a : ℕ) → a ≤ bound → bit_and a a ≡ a
and_same zero a h = let e : a ≡ 0 = omega arith in ap₂ bit_and e e ∙ sym e
and_same (suc bound) a h = omega (arith, bit_and_lowest a a, and_same bound (a / 2) (omega arith))

or_same : (bound a : ℕ) → a ≤ bound → bit_or a a ≡ a
or_same zero a h = let e : a ≡ 0 = omega arith in ap₂ bit_or e e ∙ sym e
or_same (suc bound) a h = omega (arith, bit_or_lowest a a, or_same bound (a / 2) (omega arith))

-- The first and the last number of a shard.
pub ends :
    (k h : ℕ)
    → (bit_and (tagged h k) (tagged h k - 1) ≡ h * 2 ^ suc k)
      × (bit_or (tagged h k) (tagged h k - 1) + 1 ≡ (h + 1) * 2 ^ suc k)
ends zero h =
    let odd : tagged h zero ≡ 2 * h + 1 = omega arith in
    let half : (2 * h + 1) / 2 ≡ h = omega arith in
    let half' : (2 * h + 1 - 1) / 2 ≡ h = omega arith in
    (
      ap (λ p. bit_and p (p - 1)) odd
          ∙ omega (
            arith,
            bit_and_lowest (2 * h + 1) (2 * h + 1 - 1),
            ap₂ bit_and half half',
            and_same h h (omega arith),
          ),
      ap (λ p. bit_or p (p - 1) + 1) odd
          ∙ omega (
            arith,
            bit_or_lowest (2 * h + 1) (2 * h + 1 - 1),
            ap₂ bit_or half half',
            or_same h h (omega arith),
          ),
    )
ends (suc k) h =
    let (low, high) = ends k h in
    (
      omega (
        arith,
        bit_and_lowest (tagged h (suc k)) (tagged h (suc k) - 1),
        ap₂ bit_and half half',
        low,
        double,
        ap (λ (t : ℕ). h * t) (pow-succ' 2 (suc k)),
      ),
      omega (
        arith,
        bit_or_lowest (tagged h (suc k)) (tagged h (suc k) - 1),
        ap₂ bit_or half half',
        high,
        double,
        some_set,
        ap (λ (t : ℕ). (h + 1) * t) (pow-succ' 2 (suc k)),
      ),
    )
  where
    double : tagged h (suc k) ≡ 2 * tagged h k
    double = omega (arith, ap (λ (t : ℕ). (2 * h + 1) * t) (pow-succ' 2 k))

    some_set : 1 ≤ tagged h k
    some_set = omega (arith, one-le-pow k 2 (omega arith))

    half : tagged h (suc k) / 2 ≡ tagged h k
    half = omega (arith, double)

    half' : (tagged h (suc k) - 1) / 2 ≡ tagged h k - 1
    half' = omega (arith, double, some_set)

-- A number that does not start with the prefix lies outside.
pub outside :
    (k h d x y : ℕ)
    → x ≡ h * 2 ^ suc k
    → y + 1 ≡ (h + 1) * 2 ^ suc k
    → h ≢ d / 2 ^ suc k
    → (d < x) ⊎ (y < d)
outside k h d x y ex ey away = elim (Bool-cases (ltb d x)) [
  | inl low ↦ inl (ground arith)
  | inr up ↦ elim (Bool-cases (ltb y d)) [
    | inl high ↦ inr (ground arith)
    | inr down ↦ absurd (away (sym (div-eq_of_lt-le (2 ^ suc k) (ground arith) (ground arith))))
  ]
]

bit_width-some : (v : ℕ) → v ≢ 0 → 1 ≤ bit_width 64 v
unfolding bit_width
bit_width-some v h = rw (==_ne v 0 h) (omega arith)

-- The loop starts at a multiple of four below 64, with a mask of the bits that are left.
pub starts :
    (q : ℕ)
    → q ≢ 0
    → (rounds : ℕ) × (1 ≤ rounds)
      × (rounds ≤ 64)
      × (bit_and (leading_zeros q) 0xfc + 4 * rounds ≡ 64)
      × ((2 ^ 64 - 1) / 2 ^ bit_and (leading_zeros q) 0xfc < 2 ^ (4 * rounds))
starts q some =
    let lz = leading_zeros q in
    let cut : bit_and lz 0xfc ≡ lz / 4 * 4 = bit_and-high 6 2 lz (omega arith) ∙ omega arith in
    let rounds = 16 - lz / 4 in
    let total : 64 ≡ 4 * rounds + bit_and lz 0xfc = omega (arith, cut, bit_width-some q some) in
    (
      rounds,
      omega (arith, bit_width-some q some),
      omega arith,
      omega (arith, total),
      shr_below (4 * rounds) (bit_and lz 0xfc) 64 (2 ^ 64 - 1) total (omega arith),
    )

-- Changing the high part of a number only.
xor_high : (n a b r : ℕ) → r < 2 ^ n → bit_xor (a * 2 ^ n + r) (b * 2 ^ n) ≡ bit_xor a b * 2 ^ n + r
xor_high zero a b r h =
    let ea : a * 2 ^ 0 + r ≡ a = omega arith in
    let eb : b * 2 ^ 0 ≡ b = omega arith in omega (arith, ap₂ bit_xor ea eb)
xor_high (suc n) a b r h = omega (
  arith,
  bit_xor_lowest (a * 2 ^ suc n + r) (b * 2 ^ suc n),
  ap₂ bit_xor half_a half_b,
  xor_high n a b (r / 2) (omega (arith, pow-succ' 2 n)),
  double a,
  double b,
  double (bit_xor a b),
)
  where
    double : (c : ℕ) → c * 2 ^ suc n ≡ 2 * (c * 2 ^ n)
    double c = omega (arith, ap (λ (t : ℕ). c * t) (pow-succ' 2 n))

    half_a : (a * 2 ^ suc n + r) / 2 ≡ a * 2 ^ n + r / 2
    half_a = omega (arith, double a)

    half_b : b * 2 ^ suc n / 2 ≡ b * 2 ^ n
    half_b = omega (arith, double b)

-- The number that a round of the loop tests: `j` bits of the destination, then the transit's.
pub hop_number :
    (j n t d : ℕ)
    → 64 ≡ j + n
    → t < 2 ^ 64
    → d < 2 ^ 64
    → bit_xor t (bit_and (bit_xor d t) (2 ^ 64 - 1 - (2 ^ 64 - 1) / 2 ^ j))
      ≡ d / 2 ^ n * 2 ^ n + t % 2 ^ n
hop_number j n t d h ht hd =
    ap (bit_xor t) (
      ap (bit_and (bit_xor d t)) (high_mask j n 64 h)
      ∙ bit_and-high j n (bit_xor d t)
          (subst (λ k. bit_xor d t < 2 ^ k) h (bit_xor-below 64 d t hd ht)))
    ∙ ap (λ c. bit_xor c (bit_xor d t / 2 ^ n * 2 ^ n)) parts
    ∙ xor_high n (t / 2 ^ n) (bit_xor d t / 2 ^ n) (t % 2 ^ n)
        (mod-lt t (one-le-pow n 2 (omega arith)))
    ∙ ap (λ (c : ℕ). c * 2 ^ n + t % 2 ^ n)
        (ap (bit_xor (t / 2 ^ n)) (bit_xor-shr n d t)
          ∙ xor_cancel (t / 2 ^ n + d / 2 ^ n) (t / 2 ^ n) (d / 2 ^ n) (omega arith) (omega arith))
  where
    parts : t ≡ t / 2 ^ n * 2 ^ n + t % 2 ^ n
    parts = omega (arith, div-add-mod' t (2 ^ n))

-- The other way round: what starts with the prefix lies between the ends.
pub inside :
    (k h d x y : ℕ)
    → x ≡ h * 2 ^ suc k
    → y + 1 ≡ (h + 1) * 2 ^ suc k
    → h ≡ d / 2 ^ suc k
    → (d < x) ⊎ (y < d)
    → ⊥
inside k h d x y ex ey at out =
    let parts : d ≡ h * 2 ^ suc k + d % 2 ^ suc k =
      omega (arith, div-add-mod' d (2 ^ suc k), ap (λ (c : ℕ). c * 2 ^ suc k) at) in
    let rest = mod-lt d (one-le-pow (suc k) 2 (omega arith)) in
    let above : (h + 1) * 2 ^ suc k ≡ h * 2 ^ suc k + 2 ^ suc k = omega arith in
    elim out [
      | inl low ↦ absurd (omega (arith, parts, ex))
      | inr high ↦ absurd (omega (arith, parts, rest, ey, above))
    ]
