-- ===== src/Slice/Shared.antt =====
-- What two windows share: the first bits that are the same, and how the leading zeros of an exclusive
-- or find their number (`common_prefix` of cell/slice.rs).
use block.Common.{
  ℕ, zero, suc, ◌+◌, ◌/◌, ◌^◌, ◌≤◌, ◌<◌, ◌≡◌, ◌≢◌, refl, sym, ap, ◌∙◌, subst, arith, Bool, true,
  false, List, [], ◌∷◌, ◌++◌, length, take, drop, ◌==◌, take-append_left, drop-append_left,
  drop-all, length-drop, inl, inr, Bool-cases, bit_xor,
}
use native.Mathlib.Nat.{pow-succ'}
use block.Common.Word.{bits, length-bits, odd}
use block.Common.Word.Digits.{bit_xor_lowest}
use block.Slice.Read.{bit_width}

-- Two lists with nothing in common at the front: one is empty, or the first bits differ.
abbrev pub Apart : List Bool → List Bool → Type 0
Apart [] ys = Unit {0}
Apart (x ∷ xs) [] = Unit {0}
Apart (x ∷ xs) (y ∷ ys) = x ≢ y

pub Apart-append :
    (xs ys us vs : List Bool)
    → 0 < length xs
    → 0 < length ys
    → Apart xs ys
    → Apart (xs ++ us) (ys ++ vs)
Apart-append [] ys us vs h k apart = absurd (omega arith)
Apart-append (x ∷ xs) [] us vs h k apart = absurd (omega arith)
Apart-append (x ∷ xs) (y ∷ ys) us vs h k apart = apart

bit_xor-same : (bound x : ℕ) → x ≤ bound → bit_xor x x ≡ 0
bit_xor-same zero x h = let z : x ≡ 0 = omega arith in ap (λ (v : ℕ). bit_xor v v) z
bit_xor-same (suc bound) zero h = refl
bit_xor-same (suc bound) (suc x) h =
    omega (arith, bit_xor_lowest (suc x) (suc x), bit_xor-same bound (suc x / 2) (omega arith))

-- Two numbers of `m` bits share all but the lowest `w` bits, and differ in the first of
-- these.
abbrev pub Meets : ℕ → ℕ → ℕ → ℕ → Type 0
Meets m w x y =
    (n : ℕ) × (m ≡ n + w)
    × (take n (bits m x) ≡ take n (bits m y))
    × Apart (drop n (bits m x)) (drop n (bits m y))
    × (w ≡ 0 → x ≡ y)

Apart-same : (m : ℕ) (xs ys : List Bool) → length xs ≤ m → Apart (drop m xs) ys
Apart-same m xs ys h = subst (λ l. Apart l ys) (sym (drop-all m xs h)) tt

Meets-same : (m x y : ℕ) → x ≡ y → Meets m 0 x y
Meets-same m x y e = (
  m,
  omega arith,
  ap (λ v. take m (bits m v)) e,
  Apart-same m (bits m x) (drop m (bits m y)) (omega (arith, length-bits m x)),
  λ _. e,
)

Meets-step : (m w x y : ℕ) → x ≢ y → Meets m w (x / 2) (y / 2) → Meets (suc m) (suc w) x y
Meets-step m w x y differ (n, total, same, apart, equal) = (
  n,
  omega (arith, total),
  unfold bits in
      (take-append_left n (bits m (x / 2)) (odd x ∷ [])
          (omega (arith, total, length-bits m (x / 2)))
        ∙ same
        ∙ sym (
            take-append_left n (bits m (y / 2)) (odd y ∷ [])
              (omega (arith, total, length-bits m (y / 2))))),
  unfold bits in
      subst (λ l. Apart l (drop n (bits m (y / 2) ++ odd y ∷ [])))
        (sym (
          drop-append_left n (bits m (x / 2)) (odd x ∷ [])
            (omega (arith, total, length-bits m (x / 2)))))
        (subst (Apart (drop n (bits m (x / 2)) ++ odd x ∷ []))
          (sym (
            drop-append_left n (bits m (y / 2)) (odd y ∷ [])
              (omega (arith, total, length-bits m (y / 2)))))
          (split w total equal apart)),
  λ h. absurd (omega arith),
)
  where
    last : x / 2 ≡ y / 2 → odd x ≢ odd y
    last e o = differ (ground (arith, e, o))

    split :
        (w : ℕ)
        → m ≡ n + w
        → (w ≡ 0 → x / 2 ≡ y / 2)
        → Apart (drop n (bits m (x / 2))) (drop n (bits m (y / 2)))
        → Apart (drop n (bits m (x / 2)) ++ odd x ∷ []) (drop n (bits m (y / 2)) ++ odd y ∷ [])
    split zero total equal apart =
        rw
          (
            drop-all n (bits m (x / 2)) (omega (arith, total, length-bits m (x / 2))),
            drop-all n (bits m (y / 2)) (omega (arith, total, length-bits m (y / 2))),
          )
          (last (equal refl))
    split (suc w) total equal apart =
        Apart-append (drop n (bits m (x / 2))) (drop n (bits m (y / 2))) (odd x ∷ []) (odd y ∷ [])
          (omega (arith, total, length-drop n (bits m (x / 2)), length-bits m (x / 2)))
          (omega (arith, total, length-drop n (bits m (y / 2)), length-bits m (y / 2))) apart

bit_width-zero : (fuel : ℕ) → bit_width fuel 0 ≡ 0
unfolding bit_width
bit_width-zero zero = refl
bit_width-zero (suc fuel) = refl

-- The width of the exclusive or of two numbers is the length of what they do not share.
pub bit_width-bit_xor :
    (m fuel x y : ℕ) → m ≤ fuel → x < 2 ^ m → y < 2 ^ m → Meets m (bit_width fuel (bit_xor x y)) x y
bit_width-bit_xor zero fuel x y h hx hy =
    subst (λ w. Meets 0 w x y) (sym (nothing fuel)) (Meets-same 0 x y (omega arith))
  where
    nothing : (fuel : ℕ) → bit_width fuel (bit_xor x y) ≡ 0
    nothing fuel =
        let same : x ≡ y = omega arith in
        ap (λ v. bit_width fuel (bit_xor x v)) (sym same)
        ∙ ap (bit_width fuel) (bit_xor-same x x (omega arith))
        ∙ bit_width-zero fuel
bit_width-bit_xor (suc m) zero x y h hx hy = absurd (omega arith)
bit_width-bit_xor (suc m) (suc fuel) x y h hx hy =
    let halves =
      bit_width-bit_xor m fuel (x / 2) (y / 2) (omega arith) (omega (arith, pow-succ' 2 m))
        (omega (arith, pow-succ' 2 m)) in
    elim (Bool-cases (bit_xor x y == 0)) [
      | inl none_set ↦
          subst (λ w. Meets (suc m) w x y) (sym (closed none_set))
            (Meets-same (suc m) x y (equal none_set halves.4))
      | inr some_set ↦
          subst (λ w. Meets (suc m) w x y) (sym (opened some_set))
            (Meets-step m (bit_width fuel (bit_xor (x / 2) (y / 2))) x y (apart some_set) halves)
    ]
  where
    closed : bit_xor x y == 0 ≡ true → bit_width (suc fuel) (bit_xor x y) ≡ 0
    closed e = unfold bit_width in rw e refl

    equal :
        bit_xor x y == 0 ≡ true
        → (bit_width fuel (bit_xor (x / 2) (y / 2)) ≡ 0 → x / 2 ≡ y / 2)
        → x ≡ y
    equal e half =
        let z : bit_xor (x / 2) (y / 2) ≡ 0 = ground (arith, bit_xor_lowest x y) in
        let h2 : x / 2 ≡ y / 2 = half (ap (bit_width fuel) z ∙ bit_width-zero fuel) in
        ground (arith, bit_xor_lowest x y, h2)

    opened :
        bit_xor x y == 0 ≡ false
        → bit_width (suc fuel) (bit_xor x y) ≡ suc (bit_width fuel (bit_xor (x / 2) (y / 2)))
    opened e =
        let half : bit_xor x y / 2 ≡ bit_xor (x / 2) (y / 2) = omega (arith, bit_xor_lowest x y) in
        unfold bit_width in rw e (ap (λ v. suc (bit_width fuel v)) half)

    apart : bit_xor x y == 0 ≡ false → x ≢ y
    apart e same =
        let z : bit_xor x y ≡ 0 = ap (bit_xor x) (sym same) ∙ bit_xor-same x x (omega arith) in
        ground arith
