-- ===== src/Dictionary/Label/Format.antt =====
-- The format of a label, `hml_short$0`, `hml_long$10` and `hml_same$11` of the dictionary's scheme: an
-- independent description of what dictionary/mod.rs writes and reads.
use block.Common.{
  ℕ, zero, suc, ◌+◌, ◌-◌, ◌*◌, ◌^◌, ◌≤◌, ◌≡◌, refl, ap, ap₂, ◌∙◌, arith, Bool, true, false, List,
  [], ◌∷◌, ◌++◌, length, replicate, length-append, length-replicate, replicate-snoc,
}
use block.Common.Word.{bits, length-bits, odd}
use native.Mathlib.Nat.{pow-succ', one-le-pow}

pub data HmLabel : Type 0 where
  hml_short hml_long : HmLabel
  hml_same : Bool → HmLabel

-- The bits of a label on the bit string `kb`, its length written in `k` bits.
unfoldable pub encoding : HmLabel → ℕ → List Bool → List Bool
encoding hml_short k kb = false ∷ replicate (length kb) true ++ false ∷ kb
encoding hml_long k kb = true ∷ false ∷ bits k (length kb) ++ kb
encoding (hml_same v) k kb = true ∷ true ∷ v ∷ bits k (length kb)

-- Only a string of one repeated bit has a label of the third kind.
abbrev pub Suits : HmLabel → List Bool → Type 0
Suits hml_short kb = Unit {0}
Suits hml_long kb = Unit {0}
Suits (hml_same v) kb = kb ≡ replicate (length kb) v

unfoldable pub size : HmLabel → ℕ → ℕ → ℕ
size hml_short k n = 2 * n + 2
size hml_long k n = k + n + 2
size (hml_same v) k n = k + 3

pub length-encoding :
    (l : HmLabel) (k : ℕ) (kb : List Bool) → length (encoding l k kb) ≡ size l k (length kb)
unfolding encoding size
length-encoding hml_short k kb = omega (
  arith,
  length-append (replicate (length kb) true) (false ∷ kb),
  length-replicate (length kb) true,
)
length-encoding hml_long k kb =
    omega (arith, length-append (bits k (length kb)) kb, length-bits k (length kb))
length-encoding (hml_same v) k kb = omega (arith, length-bits k (length kb))

-- The lowest bits of `2 ^ m - 1` are ones.
pub bits-ones : (n m : ℕ) → n ≤ m → bits n (2 ^ m - 1) ≡ replicate n true
unfolding bits
bits-ones zero m h = refl
bits-ones (suc n) zero h = absurd (omega arith)
bits-ones (suc n) (suc m) h =
    ap₂ ◌++◌
      (ap (bits n) (omega (arith, pow-succ' 2 m, one-le-pow m 2)) ∙ bits-ones n m (omega arith))
      (ap (λ b. b ∷ []) last)
    ∙ replicate-snoc n true
  where
    last : odd (2 ^ suc m - 1) ≡ true
    last = ground (arith, pow-succ' 2 m, one-le-pow m 2)
