-- ===== src/Common/Bytes.antt =====
-- A byte string as the bits it holds: the meaning of the buffers that builders and slices cut.
use Prim.Native.Nat.{ℕ, zero, suc, ◌+◌, ◌*◌, ◌<◌}
use mathlib.Core.Path.{◌≡◌, refl, ap, ap₂, sym, ◌∙◌}
use mathlib.Core.Bool.{Bool}
use mathlib.Core.List.{List, [], ◌∷◌, ◌++◌, append_assoc, append-nil}
use mathlib.Core.Option.{some}
use native.Mathlib.Omega.{arith}
use block.Common.Lists.{
  get_elem?, length, take, drop, All, length-append, take-append_right, drop-append_right, take-nil,
  drop-nil, append_cancel,
}
use block.Common.Word.{bits, length-bits, bits_injective}

abbrev pub IsByte : ℕ → Type 0
IsByte b = b < 256

-- All bits of a byte string, eight to a byte, highest first.
unfoldable pub flat : List ℕ → List Bool
flat [] = []
flat (b ∷ bs) = bits 8 b ++ flat bs

pub length-flat : (bs : List ℕ) → length (flat bs) ≡ 8 * length bs
unfolding flat
length-flat [] = refl
length-flat (b ∷ bs) =
    omega (arith, length-append (bits 8 b) (flat bs), length-bits 8 b, length-flat bs)

pub flat-append : (xs ys : List ℕ) → flat (xs ++ ys) ≡ flat xs ++ flat ys
unfolding flat
flat-append [] ys = refl
flat-append (x ∷ xs) ys =
    ap (λ l. bits 8 x ++ l) (flat-append xs ys) ∙ sym (append_assoc (bits 8 x) (flat xs) (flat ys))

-- A cut between bytes is a cut of the bits at a multiple of eight.
pub flat-take : (n m : ℕ) (bs : List ℕ) → m ≡ 8 * n → flat (take n bs) ≡ take m (flat bs)
unfolding flat
flat-take zero m bs h = let e : 0 ≡ m = omega arith in ap (λ k. take k (flat bs)) e
flat-take (suc n) m [] h = sym (take-nil m)
flat-take (suc n) m (b ∷ bs) h =
    ap (λ l. bits 8 b ++ l) (flat-take n (8 * n) bs refl)
    ∙ sym (take-append_right m (8 * n) (bits 8 b) (flat bs) (omega (arith, length-bits 8 b)))

pub flat-drop : (n m : ℕ) (bs : List ℕ) → m ≡ 8 * n → flat (drop n bs) ≡ drop m (flat bs)
unfolding flat
flat-drop zero m bs h = let e : 0 ≡ m = omega arith in ap (λ k. drop k (flat bs)) e
flat-drop (suc n) m [] h = sym (drop-nil m)
flat-drop (suc n) m (b ∷ bs) h =
    flat-drop n (8 * n) bs refl
    ∙ sym (drop-append_right m (8 * n) (bits 8 b) (flat bs) (omega (arith, length-bits 8 b)))

-- Byte strings that hold the same bits are equal.
pub flat_injective : (xs ys : List ℕ) → All IsByte xs → All IsByte ys → flat xs ≡ flat ys → xs ≡ ys
unfolding flat
flat_injective [] [] hx hy e = refl
flat_injective [] (y ∷ ys) hx hy e = absurd (
    omega (
      arith,
      ap length e,
      length-flat (y ∷ ys),
      length-append (bits 8 y) (flat ys),
      length-bits 8 y,
    ))
flat_injective (x ∷ xs) [] hx hy e =
    absurd (omega (arith, ap length e, length-append (bits 8 x) (flat xs), length-bits 8 x))
flat_injective (x ∷ xs) (y ∷ ys) hx hy e =
    let (head, tail) =
      append_cancel (bits 8 x) (bits 8 y) (flat xs) (flat ys)
        (length-bits 8 x ∙ sym (length-bits 8 y)) e in
    ap₂ ◌∷◌ (bits_injective 8 x y hx.0 hy.0 head) (flat_injective xs ys hx.1 hy.1 tail)

pub flat-singleton : (b : ℕ) → flat (b ∷ []) ≡ bits 8 b
unfolding flat
flat-singleton b = append-nil (bits 8 b)

-- A cut inside the last byte.
pub take-flat_last :
    (front : List ℕ) (last s m : ℕ)
    → m ≡ 8 * length front + s
    → take m (flat (front ++ last ∷ [])) ≡ flat front ++ take s (bits 8 last)
take-flat_last front last s m h =
    ap (take m) (flat-append front (last ∷ []))
    ∙ take-append_right m s (flat front) (flat (last ∷ [])) (omega (arith, length-flat front))
    ∙ ap (λ l. flat front ++ take s l) (flat-singleton last)

-- The byte at `q`, and the bits from there on.
pub flat_at :
    (q : ℕ) (bs : List ℕ)
    → q < length bs
    → (b : ℕ) × (get_elem? bs q ≡ some b)
      × (drop (8 * q) (flat bs) ≡ bits 8 b ++ drop (8 * (q + 1)) (flat bs))
unfolding flat
flat_at q [] h = absurd (omega arith)
flat_at zero (b ∷ bs) h = (
  b,
  refl,
  ap (λ l. bits 8 b ++ l)
      (sym (drop-append_right 8 0 (bits 8 b) (flat bs) (omega (arith, length-bits 8 b)))),
)
flat_at (suc q) (b ∷ bs) h =
    let (c, e, split) = flat_at q bs (omega arith) in
    (
      c,
      e,
      drop-append_right (8 * suc q) (8 * q) (bits 8 b) (flat bs) (omega (arith, length-bits 8 b))
          ∙ split
          ∙ ap (λ l. bits 8 c ++ l)
              (sym (
                drop-append_right (8 * (suc q + 1)) (8 * (q + 1)) (bits 8 b) (flat bs)
                  (omega (arith, length-bits 8 b)))),
    )

pub All-get_elem? :
    (q : ℕ) (bs : List ℕ) (b : ℕ) → All IsByte bs → get_elem? bs q ≡ some b → b < 256
All-get_elem? q [] b h e = cc
All-get_elem? zero (c ∷ bs) b h e = let i : c ≡ b = cc in rw (← i) h.0
All-get_elem? (suc q) (c ∷ bs) b h e = All-get_elem? q bs b h.1 e
