-- ===== src/Slice/Prefix/Erase.antt =====
-- What `erase_prefix` of cell/slice.rs leaves, for a prefix without references.
use block.Common.{
  ℕ, ◌⊎◌, ◌-◌, ◌/◌, ◌≤◌, ◌<◌, ◌≡◌, ◌≢◌, refl, sym, ap, ap₂, ◌∙◌, subst, arith, Bool, true, false,
  not, ◌||◌, List, [], ◌∷◌, ◌++◌, length, length-append, append-nil, take, drop, ◌==◌, ltb,
  take-append-drop, drop-append_left, take-all, inl, inr, Bool-cases, Option, some, none,
}
use block.Common.Word.{bits}
use block.Types.{ok}
use block.Cell.{Cell}
use block.Slice.{
  SliceData, remaining_bits, remaining_references, is_empty, shrink_data, included, excluded,
}
use block.Slice.Read.{get_bits}
use block.Slice.Window.{
  IsValid, window, length-window, remaining_bits_lem, shrink_data-window, shrink_data_lem, kept,
}
use block.Slice.Words.{take-split}
use block.Slice.Field.{get_bits-window}
use block.Slice.Cursor.{Passed}
use block.Slice.Shared.{Apart}
use block.Slice.Prefix.{byte_loop, same_slice, same_references, common_prefix, erase_prefix}
use block.Slice.Prefix.Laws.{Longest, common_prefix_lem}
use block.Slice.Prefix.Parts.{Stopped, RefsFit, Left, byte_loop_stops}

-- `eq` with a slice without references answers, and says yes only if the bits are the same.
same_slice-window :
    (same : Cell → Cell → Bool) (a b : SliceData)
    → IsValid a
    → IsValid b
    → remaining_references b ≡ 0
    → (c : Bool) × (same_slice same a b ≡ ok c) × (c ≡ true → window a ≡ window b)
same_slice-window same a b va vb bare =
    elim (Bool-cases (
      not (remaining_bits a == remaining_bits b)
      || not (remaining_references a == remaining_references b))) [
        | inl differs ↦ (false, unfold same_slice in rw differs refl, λ h. absurd cc)
        | inr alike ↦
            let len : remaining_bits a ≡ remaining_bits b = ground arith in
            let refs : remaining_references a ≡ 0 = ground (arith, bare) in
            let (o, q, runs, before, front, stopped) =
              byte_loop_stops a b va vb (remaining_bits a / 8) 0 (remaining_bits a) (omega arith)
                (omega arith) (omega (arith, len)) (omega arith) refl in
            answer alike len refs o q runs before front stopped
      ]
  where
    answer :
        (not (remaining_bits a == remaining_bits b)
            || not (remaining_references a == remaining_references b))
          ≡ false
        → remaining_bits a ≡ remaining_bits b
        → remaining_references a ≡ 0
        → (o : ℕ) (q : Bool) → byte_loop (remaining_bits a / 8) a b 0 (remaining_bits a) ≡ ok (o, q)
        → o ≤ remaining_bits a
        → take o (window a) ≡ take o (window b)
        → Stopped a b va vb (remaining_bits a) q o
        → (c : Bool) × (same_slice same a b ≡ ok c) × (c ≡ true → window a ≡ window b)
    answer alike len refs o q runs before front (inr (stop, _, _)) =
        (false, unfold same_slice in rw (alike, runs, stop) refl, λ h. absurd cc)
    answer alike len refs o q runs before front (inl (go_on, near)) =
        elim (Bool-cases (ltb o (remaining_bits a))) [
          | inr whole ↦ (
            true,
            unfold same_slice same_references in rw (alike, runs, go_on, whole, refs) refl,
            λ _.
                sym (take-all o (window a) (ground (arith, length-window a va)))
                ∙ front
                ∙ take-all o (window b) (ground (arith, len, length-window b vb)),
          )
          | inl part ↦
              let n = remaining_bits a - o in
              let (x, r, (lx, ex)) =
                get_bits-window a o n va (ground arith) (omega (arith, near))
                  (omega (arith, before)) in
              let (y, r', (ly, ey)) =
                get_bits-window b o n vb (ground arith) (omega (arith, near))
                  (omega (arith, len, before)) in
              elim (Bool-cases (x == y)) [
                | inl equal ↦
                    let e : x ≡ y = ground arith in
                    (
                      true,
                      runs_on x y true part r r' equal,
                      λ _.
                          whole_window a va (omega arith)
                          ∙ ap₂ ◌++◌ front (sym ex ∙ ap (bits n) e ∙ ey)
                          ∙ sym (whole_window b vb (omega (arith, len))),
                    )
                | inr differs ↦ (false, runs_on x y false part r r' differs, λ h. absurd cc)
              ]
        ]
      where
        runs_on :
            (x y : ℕ) (c : Bool)
            → ltb o (remaining_bits a) ≡ true
            → get_bits a o (remaining_bits a - o) ≡ ok x
            → get_bits b o (remaining_bits a - o) ≡ ok y
            → x == y ≡ c
            → same_slice same a b ≡ ok c
        runs_on x y true part r r' e =
            unfold same_slice same_references in rw (alike, runs, go_on, part, r, r', e, refs) refl
        runs_on x y false part r r' e =
            unfold same_slice in rw (alike, runs, go_on, part, r, r', e) refl

        whole_window :
            (s : SliceData)
            → IsValid s
            → remaining_bits s ≡ remaining_bits a
            → window s ≡ take o (window s) ++ take (remaining_bits a - o) (drop o (window s))
        whole_window s valid e = sym (
            take-split o (remaining_bits a - o) (remaining_bits a) (window s)
              (omega (arith, before))
            ∙ take-all (remaining_bits a) (window s) (omega (arith, length-window s valid, e)))

emptied : (s : SliceData) → IsValid s → Passed s [] (shrink_data s (included 0) (excluded 0)).1
emptied s valid =
    let (cut, s', e, valid', holds, _, _) =
      shrink_data-window s 0 0 valid (omega arith) (omega arith) in
    let place : (shrink_data s (included 0) (excluded 0)).1 ≡ kept s 0 0 valid =
      ap (λ p. p.1) (shrink_data_lem s 0 0 valid (omega arith) (omega arith)) in
    let moved : (shrink_data s (included 0) (excluded 0)).1 ≡ s' = ap (λ p. p.1) e in
    record {
      valid = subst IsValid (sym moved) valid';
      left = ap window moved ∙ holds;
      inner_kept = ap (λ t. t.inner) place;
      first_kept = ap (λ t. t.ref_start) place;
      last_kept = ap (λ t. t.ref_stop) place;
    }

-- Nothing is left of a list but `xs` and what stands behind it.
no_prefix :
    (n : ℕ) (xs ys rest : List Bool)
    → n ≤ length ys
    → 0 < length (drop n ys)
    → Apart (drop n xs) (drop n ys)
    → xs ≢ ys ++ rest
no_prefix n xs ys rest le more apart e =
    meets (drop n ys) more
      (subst (λ l. Apart l (drop n ys)) (ap (drop n) e ∙ drop-append_left n ys rest le) apart)
  where
    meets : (zs : List Bool) → 0 < length zs → Apart (zs ++ rest) zs → ⊥
    meets [] h a = absurd (omega arith)
    meets (z ∷ zs) h a = a refl

module _ (same : Cell → Cell → Bool) (s prefix : SliceData) (valid : IsValid s)
    (valid_prefix : IsValid prefix) (fit : RefsFit s) (fit_prefix : RefsFit prefix)
    (bare : remaining_references prefix ≡ 0) (more : 0 < remaining_bits s) where
  Found : Type 0
  Found =
      (rest : List Bool) × (s' : SliceData) × (window s ≡ window prefix ++ rest)
      × (erase_prefix same s prefix ≡ ok (true, s'))
      × Passed s rest s'

  Missing : Type 0
  Missing =
      (erase_prefix same s prefix ≡ ok (false, s))
      × ((rest : List Bool) → window s ≢ window prefix ++ rest)

  joined :
      (n : ℕ)
      → take n (window s) ≡ take n (window prefix)
      → drop n (window prefix) ≡ []
      → window s ≡ window prefix ++ drop n (window s)
  joined n front none_left =
      sym (take-append-drop n (window s))
      ∙ ap (λ l. l ++ drop n (window s))
          (front
            ∙ sym (append-nil (take n (window prefix)))
            ∙ ap (λ l. take n (window prefix) ++ l) (sym none_left)
            ∙ take-append-drop n (window prefix))

  -- The answer for what `common_prefix` leaves of the two.
  by_left :
      (n : ℕ) (p left_s left_p : Option SliceData)
      → (is_empty s || ltb (remaining_bits s) (remaining_bits prefix)) ≡ false
      → is_empty prefix ≡ false
      → same_slice same s prefix ≡ ok false
      → common_prefix s prefix ≡ ok (p, (left_s, left_p))
      → Longest s prefix n
      → Left s (drop n (window s)) left_s
      → Left prefix (drop n (window prefix)) left_p
      → Found ⊎ Missing
  unfolding Found Missing Left Longest
  by_left n p left_s (some missing) room open_prefix differ splits (le_s, le_p, front, apart) of_s
        (_, some_missing) =
      inr (
        unfold erase_prefix in rw (room, open_prefix, differ, splits) refl,
        λ rest.
            no_prefix n (window s) (window prefix) rest
              (omega (arith, length-window prefix valid_prefix)) some_missing apart,
      )
  by_left n p none none room open_prefix differ splits (le_s, le_p, front, apart) of_s of_p = inl (
    [],
    (shrink_data s (included 0) (excluded 0)).1,
    joined n front of_p ∙ ap (λ l. window prefix ++ l) of_s,
    unfold erase_prefix in rw (room, open_prefix, differ, splits) refl,
    emptied s valid,
  )
  by_left n p (some rest) none room open_prefix differ splits (le_s, le_p, front, apart) (passed, _)
        of_p =
      inl (
        drop n (window s),
        rest,
        joined n front of_p,
        unfold erase_prefix in rw (room, open_prefix, differ, splits) refl,
        passed,
      )

  -- `erase_prefix` of a slice that is not empty, with a prefix without references, is true exactly if
  -- the slice starts with the prefix's bits, and then leaves what stands behind them.
  pub erase_prefix_lem :
      ((rest : List Bool) × (s' : SliceData) × (window s ≡ window prefix ++ rest)
        × (erase_prefix same s prefix ≡ ok (true, s'))
        × Passed s rest s')
      ⊎ ((erase_prefix same s prefix ≡ ok (false, s))
          × ((rest : List Bool) → window s ≢ window prefix ++ rest))
  unfolding Found Missing
  erase_prefix_lem =
      elim (Bool-cases (is_empty s || ltb (remaining_bits s) (remaining_bits prefix))) [
        | inl short ↦
            inr (unfold erase_prefix in rw short refl, λ rest e. too_short short rest (ap length e))
        | inr room ↦ elim (Bool-cases (is_empty prefix)) [
          | inl empty ↦ inl (
            window s,
            s,
            ap (λ l. l ++ window s) (sym (closed (window prefix) (no_bits empty))),
            unfold erase_prefix in rw (room, empty) refl,
            record {
              valid = valid;
              left = refl;
              inner_kept = refl;
              first_kept = refl;
              last_kept = refl;
            },
          )
          | inr open_prefix ↦
              decide room open_prefix (same_slice-window same s prefix valid valid_prefix bare)
        ]
      ]
    where
      closed : (l : List Bool) → length l ≡ 0 → l ≡ []
      closed [] h = refl
      closed (x ∷ l) h = absurd (omega arith)

      no_bits : is_empty prefix ≡ true → length (window prefix) ≡ 0
      no_bits empty =
          unfold is_empty in
          ground (arith, length-window prefix valid_prefix, remaining_bits_lem prefix)

      too_short :
          (is_empty s || ltb (remaining_bits s) (remaining_bits prefix)) ≡ true
          → (rest : List Bool) → length (window s) ≡ length (window prefix ++ rest)
          → ⊥
      too_short short rest e =
          unfold is_empty in
          ground (
            arith,
            length-window s valid,
            length-window prefix valid_prefix,
            length-append (window prefix) rest,
            remaining_bits_lem s,
          )

      decide :
          (is_empty s || ltb (remaining_bits s) (remaining_bits prefix)) ≡ false
          → is_empty prefix ≡ false
          → (c : Bool) × (same_slice same s prefix ≡ ok c) × (c ≡ true → window s ≡ window prefix)
          → Found ⊎ Missing
      decide room open_prefix (true, e, equal) = inl (
        [],
        (shrink_data s (included 0) (excluded 0)).1,
        equal refl ∙ sym (append-nil (window prefix)),
        unfold erase_prefix in rw (room, open_prefix, e) refl,
        emptied s valid,
      )
      decide room open_prefix (false, e, _) =
          let (n, p, left_s, left_p, splits, longest, _, of_s, of_p) =
            common_prefix_lem s prefix valid valid_prefix fit fit_prefix in
          by_left n p left_s left_p room open_prefix e splits longest of_s of_p
