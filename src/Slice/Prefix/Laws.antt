-- ===== src/Slice/Prefix/Laws.antt =====
-- What `common_prefix` and `erase_prefix` of cell/slice.rs find and leave.
use block.Common.{
  ℕ, ◌⊎◌, ◌+◌, ◌-◌, ◌/◌, min, ◌≤◌, ◌<◌, ◌≡◌, refl, sym, ap, ap₂, ◌∙◌, subst, arith, Bool, true,
  false, List, [], ◌∷◌, ◌++◌, length, take, drop, ◌==◌, ltb, leb, if◌then◌else◌, take-append-drop,
  drop-append_left, take-all, drop-drop, take-take, length-drop, inl, inr, Bool-cases, le→leb,
  leb-false, bit_xor, Option,
}
use block.Common.Word.{bits, length-bits}
use block.Types.{ok}
use block.Cell.{Cell}
use block.Slice.{
  SliceData, remaining_bits, shrink_data, shrink_references, included, excluded, unbounded,
}
use block.Slice.Read.{get_bits, bit_width}
use block.Slice.Window.{IsValid, window, length-window}
use block.Slice.Words.{take-split}
use block.Slice.Field.{get_bits-window}
use block.Slice.Shared.{Apart, Apart-append, bit_width-bit_xor}
use block.Slice.Prefix.{byte_loop, common_prefix, unless_empty}
use block.Slice.Prefix.Parts.{
  Stopped, byte_loop_stops, RefsFit, refs_cleared, Left, Shared, unless_empty-Shared, rest-Left,
  prefix_of,
}

-- The longest common prefix of two windows has `n` bits.
unfoldable pub Longest : SliceData → SliceData → ℕ → Type 0
Longest a b n =
    (n ≤ remaining_bits a)
    × (n ≤ remaining_bits b)
    × (take n (window a) ≡ take n (window b))
    × Apart (drop n (window a)) (drop n (window b))

Apart-end : (xs ys : List Bool) → (length xs ≡ 0) ⊎ (length ys ≡ 0) → Apart xs ys
Apart-end [] ys h = tt
Apart-end (x ∷ xs) [] h = tt
Apart-end (x ∷ xs) (y ∷ ys) (inl h) = absurd (omega arith)
Apart-end (x ∷ xs) (y ∷ ys) (inr h) = absurd (omega arith)

module _ (a b : SliceData) (va : IsValid a) (vb : IsValid b) where
  ended :
      (n : ℕ)
      → (n ≡ remaining_bits a) ⊎ (n ≡ remaining_bits b)
      → Apart (drop n (window a)) (drop n (window b))
  ended n (inl h) =
      Apart-end (drop n (window a)) (drop n (window b))
        (inl (omega (arith, length-drop n (window a), length-window a va)))
  ended n (inr h) =
      Apart-end (drop n (window a)) (drop n (window b))
        (inr (omega (arith, length-drop n (window b), length-window b vb)))

  -- The bits that are left to compare, in one byte at most.
  module _ (o last n w x y : ℕ) (same : take o (window a) ≡ take o (window b))
      (total : last ≡ n + w) (inside_a : o + last ≤ remaining_bits a)
      (inside_b : o + last ≤ remaining_bits b) (ex : bits last x ≡ take last (drop o (window a)))
      (ey : bits last y ≡ take last (drop o (window b)))
      (front : take n (bits last x) ≡ take n (bits last y))
      (apart : Apart (drop n (bits last x)) (drop n (bits last y))) where
    longer : take (o + n) (window a) ≡ take (o + n) (window b)
    longer =
        sym (take-split o n (o + n) (window a) refl)
        ∙ ap₂ ◌++◌ same (
            sym (take-take n last (drop o (window a)) (omega (arith, total)))
            ∙ ap (take n) (sym ex)
            ∙ front
            ∙ ap (take n) ey
            ∙ take-take n last (drop o (window b)) (omega (arith, total)))
        ∙ take-split o n (o + n) (window b) refl

    -- What stands behind the shared bits of one slice.
    behind_shared :
        (s : SliceData) (z : ℕ)
        → IsValid s
        → o + last ≤ remaining_bits s
        → bits last z ≡ take last (drop o (window s))
        → drop (o + n) (window s) ≡ drop n (bits last z) ++ drop last (drop o (window s))
    behind_shared s z valid inside ez =
        sym (drop-drop n o (o + n) (window s) refl)
        ∙ ap (drop n) (
            sym (take-append-drop last (drop o (window s)))
            ∙ ap (λ l. l ++ drop last (drop o (window s))) (sym ez))
        ∙ drop-append_left n (bits last z) (drop last (drop o (window s)))
            (omega (arith, total, length-bits last z))

    shared-Longest : 0 < w → Longest a b (o + n)
    unfolding Longest
    shared-Longest some_left = (
      omega (arith, total),
      omega (arith, total),
      longer,
      subst (λ l. Apart l (drop (o + n) (window b))) (sym (behind_shared a x va inside_a ex))
          (subst (Apart (drop n (bits last x) ++ drop last (drop o (window a))))
            (sym (behind_shared b y vb inside_b ey))
            (Apart-append (drop n (bits last x)) (drop n (bits last y))
              (drop last (drop o (window a))) (drop last (drop o (window b)))
              (omega (arith, total, length-drop n (bits last x), length-bits last x))
              (omega (arith, total, length-drop n (bits last y), length-bits last y)) apart)),
    )

  -- What `common_prefix` returns, for the number of bits that are shared.
  abbrev pub Splits : Type 0
  Splits =
      (n : ℕ) × (p : Option SliceData) × (left_a : Option SliceData) × (left_b : Option SliceData)
      × (common_prefix a b ≡ ok (p, (left_a, left_b)))
      × Longest a b n
      × Shared (take n (window a)) p
      × Left a (drop n (window a)) left_a
      × Left b (drop n (window b)) left_b

  short_loop :
      (o : ℕ) (q : Bool)
      → RefsFit a
      → RefsFit b
      → byte_loop
          (min (remaining_bits a) (remaining_bits b) / 8)
          a
          b
          0
          (min (remaining_bits a) (remaining_bits b))
        ≡ ok (o, q)
      → leb (min (remaining_bits a) (remaining_bits b)) o ≡ true
      → take (min (remaining_bits a) (remaining_bits b)) (window a)
        ≡ take (min (remaining_bits a) (remaining_bits b)) (window b)
      → Splits
  short_loop o q fit_a fit_b runs whole same =
      elim (Bool-cases (ltb (remaining_bits a) (remaining_bits b))) [
        | inl a_shorter ↦
            let (cs, p, r, valid_p, holds) = refs_cleared a va fit_a in
            finish cs p (chosen cs p true a_shorter r) valid_p
              (holds ∙ sym (take-all longest (window a) (ground (arith, length-window a va))))
        | inr b_shorter ↦
            let (cs, p, r, valid_p, holds) = refs_cleared b vb fit_b in
            finish cs p (chosen cs p false b_shorter r) valid_p (
              holds
              ∙ sym (take-all longest (window b) (ground (arith, length-window b vb)))
              ∙ sym same)
      ]
    where
      longest : ℕ
      longest = min (remaining_bits a) (remaining_bits b)

      chosen :
          (cs : List Cell) (p : SliceData) (c : Bool)
          → ltb (remaining_bits a) (remaining_bits b) ≡ c
          → shrink_references (if c then a else b) (included 0) (excluded 0) ≡ ok (cs, p)
          → common_prefix a b
            ≡ ok (
              unless_empty p,
              (
                unless_empty (shrink_data a (included longest) unbounded).1,
                unless_empty (shrink_data b (included longest) unbounded).1,
              ),
            )
      chosen cs p c e r = unfold common_prefix in rw (runs, whole, e, r) refl

      finish :
          (cs : List Cell) (p : SliceData)
          → common_prefix a b
            ≡ ok (
              unless_empty p,
              (
                unless_empty (shrink_data a (included longest) unbounded).1,
                unless_empty (shrink_data b (included longest) unbounded).1,
              ),
            )
          → IsValid p
          → window p ≡ take longest (window a)
          → Splits
      finish cs p e valid_p holds = (
        longest,
        unless_empty p,
        unless_empty (shrink_data a (included longest) unbounded).1,
        unless_empty (shrink_data b (included longest) unbounded).1,
        e,
        unfold Longest in (omega arith, omega arith, same, ended longest (omega arith)),
        unless_empty-Shared p (take longest (window a)) valid_p holds,
        rest-Left a longest va (omega arith),
        rest-Left b longest vb (omega arith),
      )

  long_loop :
      (o : ℕ) (q : Bool)
      → RefsFit a
      → byte_loop
          (min (remaining_bits a) (remaining_bits b) / 8)
          a
          b
          0
          (min (remaining_bits a) (remaining_bits b))
        ≡ ok (o, q)
      → o < min (remaining_bits a) (remaining_bits b)
      → take o (window a) ≡ take o (window b)
      → Stopped a b va vb (min (remaining_bits a) (remaining_bits b)) q o
      → Splits
  long_loop o q fit runs before same stopped =
      let (x, r, (lx, ex)) =
        get_bits-window a o last va (omega arith) (omega arith) (omega arith) in
      let (y, r', (ly, ey)) =
        get_bits-window b o last vb (omega arith) (omega arith) (omega arith) in
      let (n, total, front, apart, equal) = bit_width-bit_xor last 8 x y (omega arith) lx ly in
      let (cs, p, cut, valid_p, holds) = prefix_of a (o + n) va fit (omega (arith, total)) in
      (
        o + n,
        unless_empty p,
        unless_empty (shrink_data a (included (o + n)) unbounded).1,
        unless_empty (shrink_data b (included (o + n)) unbounded).1,
        chosen x y n cs p r r' total cut,
        longest_here n x y total ex ey front apart equal,
        unless_empty-Shared p (take (o + n) (window a)) valid_p holds,
        rest-Left a (o + n) va (omega (arith, total)),
        rest-Left b (o + n) vb (omega (arith, total)),
      )
    where
      longest : ℕ
      longest = min (remaining_bits a) (remaining_bits b)

      last : ℕ
      last = min (longest - o) 8

      longest_here :
          (n x y : ℕ)
          → last ≡ n + bit_width 8 (bit_xor x y)
          → bits last x ≡ take last (drop o (window a))
          → bits last y ≡ take last (drop o (window b))
          → take n (bits last x) ≡ take n (bits last y)
          → Apart (drop n (bits last x)) (drop n (bits last y))
          → (bit_width 8 (bit_xor x y) ≡ 0 → x ≡ y)
          → Longest a b (o + n)
      longest_here n x y total ex ey front apart equal =
          elim (Bool-cases (bit_width 8 (bit_xor x y) == 0)) [
            | inr some_left ↦
                shared-Longest o last n (bit_width 8 (bit_xor x y)) x y same total (omega arith)
                  (omega arith) ex ey front apart (ground arith)
            | inl all_shared ↦
                let z : bit_width 8 (bit_xor x y) ≡ 0 = ground arith in
                unfold Longest in
                (
                  omega (arith, total),
                  omega (arith, total),
                  longer o last n (bit_width 8 (bit_xor x y)) x y same total (omega arith)
                      (omega arith) ex ey front apart,
                  ended (o + n) (at_end stopped n total z (sym ex ∙ ap (bits last) (equal z) ∙ ey)),
                )
          ]
        where
          at_end :
              Stopped a b va vb longest q o
              → (n : ℕ) → last ≡ n + bit_width 8 (bit_xor x y)
              → bit_width 8 (bit_xor x y) ≡ 0
              → take last (drop o (window a)) ≡ take last (drop o (window b))
              → (o + n ≡ remaining_bits a) ⊎ (o + n ≡ remaining_bits b)
          at_end (inl (_, near)) n total z h =
              elim (Bool-cases (leb (remaining_bits a) (remaining_bits b))) [
                | inl le ↦ inl (ground (arith, total))
                | inr gt ↦ inr (ground (arith, total))
              ]
          at_end (inr (_, room, differ)) n total z h =
              let eight : last ≡ 8 = omega arith in
              absurd (
                differ (
                  ap (λ m. take m (drop o (window a))) (sym eight)
                  ∙ h
                  ∙ ap (λ m. take m (drop o (window b))) eight))

      chosen :
          (x y n : ℕ) (cs : List Cell) (p : SliceData)
          → get_bits a o last ≡ ok x
          → get_bits b o last ≡ ok y
          → last ≡ n + bit_width 8 (bit_xor x y)
          → shrink_references
              (shrink_data a unbounded (excluded (o + n))).1
              (included 0)
              (excluded 0)
            ≡ ok (cs, p)
          → common_prefix a b
            ≡ ok (
              unless_empty p,
              (
                unless_empty (shrink_data a (included (o + n)) unbounded).1,
                unless_empty (shrink_data b (included (o + n)) unbounded).1,
              ),
            )
      chosen x y n cs p r r' total cut =
          let shared : 8 - bit_width 8 (bit_xor x y) - (8 - last) ≡ n = omega (arith, total) in
          let least : min n last ≡ n = omega (arith, total) in
          unfold common_prefix in
          rw
            (
              runs,
              leb-false longest o before,
              r,
              r',
              le→leb (8 - last) (8 - bit_width 8 (bit_xor x y)) (omega (arith, total)),
              shared,
              least,
              cut,
            )
            refl

  -- `common_prefix` of valid slices returns what is shared, up to the first bits that differ or to the
  -- end of one of them, and what is left of each behind it.
  pub common_prefix_lem : RefsFit a → RefsFit b → Splits
  common_prefix_lem fit_a fit_b =
      let longest = min (remaining_bits a) (remaining_bits b) in
      let (o, q, runs, before, same, stopped) =
        byte_loop_stops a b va vb (longest / 8) 0 longest (omega arith) (omega arith) (omega arith)
          (omega arith) refl in
      elim (Bool-cases (leb longest o)) [
        | inl whole ↦
            let e : o ≡ longest = ground arith in
            short_loop o q fit_a fit_b runs whole
              (ap (λ m. take m (window a)) (sym e) ∙ same ∙ ap (λ m. take m (window b)) e)
        | inr part ↦ long_loop o q fit_a runs (ground arith) same stopped
      ]
