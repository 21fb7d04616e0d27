-- ===== src/Slice/Prefix/Parts.antt =====
-- The parts of `common_prefix` of cell/slice.rs: the loop over the bytes, the slices that it cuts.
use block.Common.{
  ℕ, ◌⊎◌, zero, suc, ◌+◌, ◌-◌, ◌*◌, ◌≤◌, ◌<◌, ◌≡◌, ◌≢◌, refl, sym, ap, ap₂, ◌∙◌, subst, arith, Bool,
  true, false, List, [], ◌∷◌, ◌++◌, length, take, drop, ◌==◌, ltb, leb, take-append-drop,
  length-take, get_elem?-some, inl, inr, Bool-cases, le→leb, Option, some, none,
}
use block.Common.Word.{bits, bits_injective}
use block.Types.{ok}
use block.Cell.{Cell, references_count, references, reference}
use block.Slice.{
  SliceData, InternalData, of_cell, of_bits, no_data, remaining_bits, remaining_references,
  shrink_data, shrink_references, collect_references, storage, included, excluded, unbounded,
}
use block.Slice.Read.{get_bits, get_byte}
use block.Slice.Window.{IsValid, window, length-window, shrink_data-window, shrink_data_lem, kept}
use block.Slice.Words.{take-split}
use block.Slice.Field.{get_bits-window}
use block.Slice.Cursor.{Passed, shrink_data_front}
use block.Slice.Prefix.{same_byte, byte_loop, unless_empty}

module _ (a b : SliceData) (va : IsValid a) (vb : IsValid b) where
  -- Where the loop over the bytes stops: at the last byte that is whole, or at one that differs.
  abbrev pub Stopped : ℕ → Bool → ℕ → Type 0
  Stopped total q o =
      ((q ≡ true) × (total < o + 8))
      ⊎ ((q ≡ false) × (o + 8 ≤ total) × (take 8 (drop o (window a)) ≢ take 8 (drop o (window b))))

  pub byte_loop_stops :
      (fuel offset total : ℕ)
      → offset ≤ total
      → total ≤ remaining_bits a
      → total ≤ remaining_bits b
      → total - offset < 8 * fuel + 8
      → take offset (window a) ≡ take offset (window b)
      → (o : ℕ) × (q : Bool) × (byte_loop fuel a b offset total ≡ ok (o, q))
        × (o ≤ total)
        × (take o (window a) ≡ take o (window b))
        × Stopped total q o
  unfolding byte_loop
  byte_loop_stops zero offset total le ha hb enough same =
      (offset, true, refl, le, same, inl (refl, omega arith))
  byte_loop_stops (suc fuel) offset total le ha hb enough same =
      elim (Bool-cases (leb (offset + 8) total)) [
        | inr last ↦ (offset, true, rw (last, byte_loop) refl, le, same, inl (refl, ground arith))
        | inl more ↦
            let room : offset + 8 ≤ total = ground arith in
            let (x, r, (lx, ex)) =
              get_bits-window a offset 8 va (omega arith) (omega arith) (omega (arith, room)) in
            let (y, r', (ly, ey)) =
              get_bits-window b offset 8 vb (omega arith) (omega arith) (omega (arith, room)) in
            elim (Bool-cases (x == y)) [
              | inl equal ↦
                  let e : x ≡ y = ground arith in
                  let (o, q, runs, before, same', stopped) =
                    byte_loop_stops fuel (offset + 8) total room ha hb (omega arith) (
                      sym (take-split offset 8 (offset + 8) (window a) refl)
                      ∙ ap₂ ◌++◌ same (sym ex ∙ ap (bits 8) e ∙ ey)
                      ∙ take-split offset 8 (offset + 8) (window b) refl) in
                  (o, q, same_step o q x y more r r' equal runs, before, same', stopped)
              | inr differs ↦ (
                offset,
                false,
                other_step x y more r r' differs,
                le,
                same,
                inr (
                  refl,
                  room,
                  λ h. apart x y differs (bits_injective 8 x y lx ly (ex ∙ h ∙ sym ey)),
                ),
              )
            ]
      ]
    where
      apart : (x y : ℕ) → x == y ≡ false → x ≢ y
      apart x y differs e = ground arith

      same_step :
          (o : ℕ) (q : Bool) (x y : ℕ)
          → leb (offset + 8) total ≡ true
          → get_bits a offset 8 ≡ ok x
          → get_bits b offset 8 ≡ ok y
          → x == y ≡ true
          → byte_loop fuel a b (offset + 8) total ≡ ok (o, q)
          → byte_loop (suc fuel) a b offset total ≡ ok (o, q)
      same_step o q x y more r r' equal runs =
          unfold same_byte get_byte in rw (more, r, r', equal) runs

      other_step :
          (x y : ℕ)
          → leb (offset + 8) total ≡ true
          → get_bits a offset 8 ≡ ok x
          → get_bits b offset 8 ≡ ok y
          → x == y ≡ false
          → byte_loop (suc fuel) a b offset total ≡ ok (offset, false)
      other_step x y more r r' differs = unfold same_byte get_byte in rw (more, r, r', differs) refl

-- The references of the window are references of the cell.
abbrev RefsInside : InternalData → ℕ → Type 0
RefsInside (of_cell c) n = n ≤ references_count c
RefsInside (of_bits bs len) n = Unit {0}
RefsInside no_data n = Unit {0}

abbrev pub RefsFit : SliceData → Type 0
RefsFit s = RefsInside s.inner s.ref_stop

pub RefsFit-none : (s : SliceData) → s.ref_stop ≡ 0 → RefsFit s
RefsFit-none s e = subst (RefsInside s.inner) (sym e) (nothing s.inner)
  where
    nothing : (i : InternalData) → RefsInside i 0
    nothing (of_cell c) = omega arith
    nothing (of_bits bs len) = tt
    nothing no_data = tt

pub RefsFit-kept :
    (s t : SliceData) → t.inner ≡ s.inner → t.ref_stop ≡ s.ref_stop → RefsFit s → RefsFit t
RefsFit-kept s t e f fit =
    subst (λ i. RefsInside i t.ref_stop) (sym e) (subst (RefsInside s.inner) (sym f) fit)

collect_references_ok :
    (c : Cell) (i count : ℕ)
    → i + count ≤ references_count c
    → (cs : List Cell) × (collect_references c i count ≡ ok cs)
unfolding collect_references reference
collect_references_ok c i zero h = ([], refl)
collect_references_ok c i (suc count) h =
    let (r, e) = get_elem?-some i (references c) (omega arith) in
    let (cs, e') = collect_references_ok c (i + 1) count (omega arith) in (r ∷ cs, rw (e, e') refl)

pub refs_cleared :
    (s : SliceData)
    → IsValid s
    → RefsFit s
    → (cs : List Cell) × (s' : SliceData) × (shrink_references s (included 0) (excluded 0)
        ≡ ok (cs, s'))
      × IsValid s'
      × (window s' ≡ window s)
unfolding remaining_references collect_references storage
refs_cleared s valid fit = by_inner s.inner refl fit
  where
    by_inner :
        (i : InternalData)
        → s.inner ≡ i
        → RefsInside i s.ref_stop
        → (cs : List Cell) × (s' : SliceData) × (shrink_references s (included 0) (excluded 0)
            ≡ ok (cs, s'))
          × IsValid s'
          × (window s' ≡ window s)
    by_inner no_data e h = ([], s, unfold shrink_references in rw e refl, valid, refl)
    by_inner (of_bits bs len) e h = ([], s, unfold shrink_references in rw e refl, valid, refl)
    by_inner (of_cell c) e h =
        let (cs, r) =
          collect_references_ok c 0 (remaining_references s - 0)
            (unfold remaining_references in ground arith) in
        (
          cs,
          record s { ref_start = s.ref_start + 0; ref_stop = s.ref_start + 0 },
          unfold shrink_references in
              rw (e, r, le→leb 0 (remaining_references s) (omega arith)) refl,
          record { ordered = valid.ordered; inside = valid.inside; bytes = valid.bytes },
          unfold window in refl,
        )

-- What is left of `a`: nothing, or a slice with the bits `xs`.
unfoldable pub Left : SliceData → List Bool → Option SliceData → Type 0
Left a xs none = xs ≡ []
Left a xs (some s) = Passed a xs s × (0 < length xs)

unless_empty-Left : (a s : SliceData) (xs : List Bool) → Passed a xs s → Left a xs (unless_empty s)
unfolding Left
unless_empty-Left a s xs passed = elim (Bool-cases (ltb 0 (remaining_bits s))) [
  | inl more ↦ rw more (passed, ground (arith, length-window s passed.valid, ap length passed.left))
  | inr empty ↦
      rw empty (closed xs (ground (arith, length-window s passed.valid, ap length passed.left)))
]
  where
    closed : (l : List Bool) → length l ≡ 0 → l ≡ []
    closed [] h = refl
    closed (x ∷ l) h = absurd (omega arith)

-- The bits that are shared, in a slice of their own.
unfoldable pub Shared : List Bool → Option SliceData → Type 0
Shared xs none = xs ≡ []
Shared xs (some s) = IsValid s × (window s ≡ xs)

pub unless_empty-Shared :
    (s : SliceData) (xs : List Bool) → IsValid s → window s ≡ xs → Shared xs (unless_empty s)
unfolding Shared
unless_empty-Shared s xs valid holds = elim (Bool-cases (ltb 0 (remaining_bits s))) [
  | inl more ↦ rw more (valid, holds)
  | inr empty ↦ rw empty (closed xs (ground (arith, length-window s valid, ap length holds)))
]
  where
    closed : (l : List Bool) → length l ≡ 0 → l ≡ []
    closed [] h = refl
    closed (x ∷ l) h = absurd (omega arith)

-- The rest of a slice behind `n` bits.
pub rest-Left :
    (a : SliceData) (n : ℕ)
    → IsValid a
    → n ≤ remaining_bits a
    → Left a (drop n (window a)) (unless_empty (shrink_data a (included n) unbounded).1)
rest-Left a n valid le =
    let (cut, s, e, _, _, passed) =
      shrink_data_front a (take n (window a)) (drop n (window a)) n valid
        (omega (arith, length-take n (window a), length-window a valid))
        (sym (take-append-drop n (window a))) in
    subst (λ p. Left a (drop n (window a)) (unless_empty p)) (sym (ap (λ p. p.1) e))
      (unless_empty-Left a s (drop n (window a)) passed)

-- The first `n` bits of a slice, without references.
pub prefix_of :
    (a : SliceData) (n : ℕ)
    → IsValid a
    → RefsFit a
    → n ≤ remaining_bits a
    → (cs : List Cell) × (p : SliceData) × (shrink_references
          (shrink_data a unbounded (excluded n)).1
          (included 0)
          (excluded 0)
        ≡ ok (cs, p))
      × IsValid p
      × (window p ≡ take n (window a))
prefix_of a n valid fit le =
    let (cut, s, e, valid_s, holds, _, _) = shrink_data-window a 0 n valid (omega arith) le in
    let place : s ≡ kept a 0 n valid =
      ap (λ p. p.1) (sym e ∙ shrink_data_lem a 0 n valid (omega arith) le) in
    let (cs, p, r, valid_p, same) = refs_cleared s valid_s (subst RefsFit (sym place) fit) in
    let runs : shrink_data a unbounded (excluded n) ≡ (cut, s) = unfold shrink_data in e in
    (
      cs,
      p,
      subst (λ q. shrink_references q (included 0) (excluded 0) ≡ ok (cs, p))
          (sym (ap (λ p. p.1) runs)) r,
      valid_p,
      same ∙ holds,
    )
