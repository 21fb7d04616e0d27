-- ===== src/Slice/Window.antt =====
-- The bits in a slice's window, and how moving and shrinking cut them.
use block.Common.{
  ◌⊎◌, ℕ, ◌+◌, ◌-◌, ◌*◌, ◌≤◌, ◌<◌, ◌≡◌, refl, sym, ap, ◌∙◌, arith, Bool, not, List, length, take,
  drop, All, leb, ◌==◌, if◌then◌else◌, length-take, length-drop, take-drop, drop-drop, take-take,
  leb-false, le→leb, inl, inr, Bool-cases,
}
use block.Common.Bytes.{IsByte, flat, length-flat}
use block.Types.{ok, err, exception, cell_underflow}
use block.Slice.{
  SliceData, new_empty, storage, remaining_bits, move_by, shrink_data, included, excluded,
}

-- The bits that can be read.
unfoldable pub window : SliceData → List Bool
window s = take (s.stop - s.start) (drop s.start (flat (storage s)))

-- The window lies in the data, and the data are bytes.
pub record IsValid (s : SliceData) : Type 0 where
  pub ordered : s.start ≤ s.stop
  pub inside : s.stop ≤ 8 * length (storage s)
  pub bytes : All IsByte (storage s)

pub remaining_bits_lem : (s : SliceData) → remaining_bits s ≡ s.stop - s.start
unfolding remaining_bits
remaining_bits_lem s = ground arith

pub length-window : (s : SliceData) → IsValid s → length (window s) ≡ remaining_bits s
unfolding window
length-window s v = omega (
  arith,
  length-take (s.stop - s.start) (drop s.start (flat (storage s))),
  length-drop s.start (flat (storage s)),
  length-flat (storage s),
  remaining_bits_lem s,
  v.ordered,
  v.inside,
)

-- A field of the window is a field of the data.
pub window_field :
    (s : SliceData) (offset n : ℕ)
    → offset + n ≤ s.stop - s.start
    → take n (drop offset (window s)) ≡ take n (drop (s.start + offset) (flat (storage s)))
unfolding window
window_field s offset n h =
    let F = flat (storage s) in
    let w = s.stop - s.start in
    ap (take n) (sym (take-drop (w - offset) offset w (drop s.start F) (omega arith)))
    ∙ take-take n (w - offset) (drop offset (drop s.start F)) (omega arith)
    ∙ ap (take n) (drop-drop offset s.start (s.start + offset) F refl)

-- A window inside another one.
sub_window :
    (s : SliceData) (from to : ℕ)
    → from ≤ to
    → to ≤ s.stop - s.start
    → take (to - from) (drop (s.start + from) (flat (storage s))) ≡ drop from (take to (window s))
unfolding window
sub_window s from to h k =
    let F = flat (storage s) in
    ap (take (to - from)) (sym (drop-drop from s.start (s.start + from) F refl))
    ∙ take-drop (to - from) from to (drop s.start F) (omega arith)
    ∙ ap (drop from) (sym (take-take to (s.stop - s.start) (drop s.start F) k))

-- `move_by` within the window of a valid slice returns a valid slice that starts `n` bits later,
-- without the bits passed.
pub move_by-window :
    (s : SliceData) (n : ℕ)
    → IsValid s
    → n ≤ remaining_bits s
    → (s' : SliceData) × (move_by s n ≡ ok s')
      × IsValid s'
      × (window s' ≡ drop n (window s))
      × (s' ≡ record s { start = s.start + n })
unfolding move_by storage
move_by-window s n v h =
    let r = remaining_bits_lem s in
    (
      record s { start = s.start + n },
      rw (le→leb (s.start + n) s.stop (omega (arith, r, v.ordered))) refl,
      record { ordered = omega (arith, r, v.ordered); inside = v.inside; bytes = v.bytes },
      moved r,
      refl,
    )
  where
    moved :
        remaining_bits s ≡ s.stop - s.start
        → window (record s { start = s.start + n }) ≡ drop n (window s)
    moved r =
        unfold window in
        ap (λ k. take k (drop (s.start + n) (flat (storage s)))) (omega arith)
        ∙ sub_window s n (s.stop - s.start) (omega (arith, r)) (omega arith)
        ∙ ap (drop n) (
            take-take (s.stop - s.start) (s.stop - s.start) (drop s.start (flat (storage s)))
              (omega arith))

-- Past the end of the window nothing moves.
pub move_by_refused :
    (s : SliceData) (n : ℕ)
    → IsValid s
    → remaining_bits s < n
    → move_by s n ≡ err (exception cell_underflow)
unfolding move_by
move_by_refused s n v h =
    rw (leb-false (s.start + n) s.stop (omega (arith, remaining_bits_lem s, v.ordered))) refl

module _ (s : SliceData) (from to : ℕ) (v : IsValid s) where
  -- The window left by a cut, and the slice that `shrink_data` answers.
  abbrev pub kept : SliceData
  kept = record s { start = s.start + from; stop = s.start + to }

  abbrev pub cut_off : SliceData
  cut_off =
      if not (from == 0)
      then record s { stop = s.start + from; ref_start = 0; ref_stop = 0 }
      else record s { start = s.start + to; ref_start = 0; ref_stop = 0 }

  pub shrink_data_lem :
      from ≤ to
      → to ≤ remaining_bits s
      → shrink_data s (included from) (excluded to) ≡ (cut_off, kept)
  unfolding shrink_data
  shrink_data_lem h k = rw (le→leb from to h, le→leb to (remaining_bits s) k) refl

  kept-window : from ≤ to → to ≤ s.stop - s.start → window kept ≡ drop from (take to (window s))
  kept-window h k =
      unfold window storage in
      ap (λ n. take n (drop (s.start + from) (flat (storage s)))) (omega arith)
      ∙ sub_window s from to h k

  front_window :
      from ≤ s.stop - s.start
      → window (record s { stop = s.start + from; ref_start = 0; ref_stop = 0 })
        ≡ take from (window s)
  front_window k =
      unfold window storage in
      ap (λ n. take n (drop s.start (flat (storage s)))) (omega arith)
      ∙ sym (take-take from (s.stop - s.start) (drop s.start (flat (storage s))) k)

  back_window :
      to ≤ s.stop - s.start
      → window (record s { start = s.start + to; ref_start = 0; ref_stop = 0 }) ≡ drop to (window s)
  back_window k =
      unfold window storage in
      ap (λ n. take n (drop (s.start + to) (flat (storage s)))) (omega arith)
      ∙ sub_window s to (s.stop - s.start) k (omega arith)
      ∙ ap (drop to) (
          take-take (s.stop - s.start) (s.stop - s.start) (drop s.start (flat (storage s)))
            (omega arith))

  cut_off-window :
      from ≤ to
      → to ≤ s.stop - s.start
      → IsValid cut_off
        × (window cut_off ≡ (if from == 0 then drop to (window s) else take from (window s)))
  unfolding storage
  cut_off-window h k = elim (Bool-cases (from == 0)) [
    | inl none ↦ rw none (
      record { ordered = omega (arith, v.ordered); inside = v.inside; bytes = v.bytes },
      back_window k,
    )
    | inr some ↦ rw some (
      record {
        ordered = omega arith;
        inside = omega (arith, v.ordered, v.inside);
        bytes = v.bytes;
      },
      front_window (omega arith),
    )
  ]

  -- `shrink_data` to the bits `from .. to` of a valid slice's window leaves exactly them. The answer
  -- holds the bits in front, or the bits behind if there are none in front.
  pub shrink_data-window :
      from ≤ to
      → to ≤ remaining_bits s
      → (cut : SliceData) × (s' : SliceData) × (shrink_data s (included from) (excluded to)
          ≡ (cut, s'))
        × IsValid s'
        × (window s' ≡ drop from (take to (window s)))
        × IsValid cut
        × (window cut ≡ (if from == 0 then drop to (window s) else take from (window s)))
  unfolding storage
  shrink_data-window h k =
      let r = remaining_bits_lem s in
      let (valid, bits) = cut_off-window h (omega (arith, r)) in
      (
        cut_off,
        kept,
        shrink_data_lem h k,
        record {
          ordered = omega arith;
          inside = omega (arith, r, v.inside, v.ordered);
          bytes = v.bytes;
        },
        kept-window h (omega (arith, r)),
        valid,
        bits,
      )

  -- A range that does not lie in the window leaves it as it is.
  pub shrink_data_refused :
      (to < from) ⊎ (remaining_bits s < to)
      → shrink_data s (included from) (excluded to) ≡ (new_empty, s)
  unfolding shrink_data
  shrink_data_refused (inl h) = rw (leb-false from to h) refl
  shrink_data_refused (inr h) = elim (Bool-cases (leb from to)) [
    | inl e ↦ rw (e, leb-false to (remaining_bits s) h) refl
    | inr e ↦ rw e refl
  ]
