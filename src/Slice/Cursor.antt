-- ===== src/Slice/Cursor.antt =====
-- Reading from the front of a window, field by field: what a reader of cell/slice.rs answers when the
-- field stands there, and that the slice is left as it was but for what it has passed.
use native.Mathlib.Nat.{pow-succ'}
use block.Common.{
  ◌⊎◌, drop-all, ℕ, zero, suc, ◌+◌, ◌-◌, ◌*◌, ◌/◌, ◌%◌, ◌^◌, ◌≤◌, ◌<◌, ◌≡◌, refl, sym, ap, ◌∙◌,
  arith, Bool, true, false, not, List, [], ◌∷◌, ◌++◌, length, take, drop, ◌==◌, if◌then◌else◌,
  get_elem?, none, some, bit_and, length-append, length-drop, take-append_left, take-all,
  drop-append_right, drop-drop, leb-false, le→leb, inl, inr, Bool-cases,
}
use block.Common.Bytes.{flat, flat_at}
use block.Common.Word.{bits, length-bits, bits-field, bit_and-low, odd}
use block.Common.{Option, none}
use block.Types.{Outcome, ok, err, panic, exception, cell_underflow}
use block.Slice.{
  SliceData, storage, remaining_bits, move_by, shrink_data, included, excluded, unbounded,
}
use block.Slice.Read.{
  get_bit_opt, get_bit, get_next_bit, get_next_bit_opt, get_next_bit_int, get_next_int,
  get_next_size, bit_width,
}
use block.Slice.Window.{
  IsValid, window, window_field, remaining_bits_lem, length-window, move_by-window,
  shrink_data-window, shrink_data_lem, kept, cut_off,
}
use block.Slice.Words.{get_next_int-window}
use block.Slice.Field.{in_prefix}
use block.Slice.Front.{enough, same_number, behind}

-- `s'` is `s` with the bits `rest` left to read.
pub record Passed (s : SliceData) (rest : List Bool) (s' : SliceData) : Type 0 where
  pub valid : IsValid s'
  pub left : window s' ≡ rest
  pub inner_kept : s'.inner ≡ s.inner
  pub first_kept : s'.ref_start ≡ s.ref_start
  pub last_kept : s'.ref_stop ≡ s.ref_stop

-- A valid slice without references.
pub record Bare (s : SliceData) : Type 0 where
  pub valid : IsValid s
  pub no_refs : s.ref_stop ≡ 0

pub Passed-trans :
    {s t u : SliceData} {xs ys : List Bool} → Passed s xs t → Passed t ys u → Passed s ys u
Passed-trans p q = record {
  valid = q.valid;
  left = q.left;
  inner_kept = q.inner_kept ∙ p.inner_kept;
  first_kept = q.first_kept ∙ p.first_kept;
  last_kept = q.last_kept ∙ p.last_kept;
}

by-Passed :
    (s s' : SliceData) (n : ℕ) (rest : List Bool)
    → IsValid s'
    → window s' ≡ rest
    → s' ≡ record s { start = n }
    → Passed s rest s'
by-Passed s s' n rest v left e = record {
  valid = v;
  left = left;
  inner_kept = ap (λ t. t.inner) e;
  first_kept = ap (λ t. t.ref_start) e;
  last_kept = ap (λ t. t.ref_stop) e;
}

-- The bit at an offset into the window.
pub get_bit_opt-window :
    (s : SliceData) (offset : ℕ) (b : Bool) (rest : List Bool)
    → IsValid s
    → drop offset (window s) ≡ b ∷ rest
    → get_bit_opt s offset ≡ ok (some b)
get_bit_opt-window s offset b rest valid holds =
    let (byte, e, split) =
      flat_at ((s.start + offset) / 8) (storage s) (omega (arith, room, r, valid.inside)) in
    answer byte e (reads byte split)
  where
    r : remaining_bits s ≡ s.stop - s.start
    r = remaining_bits_lem s

    room : offset < remaining_bits s
    room = omega (arith, ap length holds, length-drop offset (window s), length-window s valid)

    reads :
        (byte : ℕ)
        → drop (8 * ((s.start + offset) / 8)) (flat (storage s))
          ≡ bits 8 byte ++ drop (8 * ((s.start + offset) / 8 + 1)) (flat (storage s))
        → bits 1 (byte / 2 ^ (7 - (s.start + offset) % 8)) ≡ b ∷ []
    reads byte split =
        let i = s.start + offset in
        bits-field (i % 8) 1 (7 - i % 8) 8 byte (omega arith)
        ∙ sym (
            in_prefix (i % 8) 1 (bits 8 byte) (drop (8 * (i / 8 + 1)) (flat (storage s)))
              (omega (arith, length-bits 8 byte)))
        ∙ ap (λ l. take 1 (drop (i % 8) l)) (sym split)
        ∙ ap (take 1) (drop-drop (i % 8) (8 * (i / 8)) i (flat (storage s)) (omega arith))
        ∙ sym (window_field s offset 1 (omega (arith, room, r)))
        ∙ ap (take 1) holds

    test : (w : ℕ) → bits 1 w ≡ b ∷ [] → not (bit_and w 1 == 0) ≡ b
    test w e = ground (arith, bit_and-low 1 w) ∙ first (odd w) (unfold bits in e)
      where
        first : (c : Bool) → c ∷ [] ≡ b ∷ [] → c ≡ b
        first c e = cc

    answer :
        (byte : ℕ)
        → get_elem? (storage s) ((s.start + offset) / 8) ≡ some byte
        → bits 1 (byte / 2 ^ (7 - (s.start + offset) % 8)) ≡ b ∷ []
        → get_bit_opt s offset ≡ ok (some b)
    answer byte e reads =
        unfold get_bit_opt in
        rw (leb-false (remaining_bits s) offset room, e)
          (ap (λ c. ok (some c)) (test (byte / 2 ^ (7 - (s.start + offset) % 8)) reads))

pub get_bit_opt-none :
    (s : SliceData) (offset : ℕ) → remaining_bits s ≤ offset → get_bit_opt s offset ≡ ok none
unfolding get_bit_opt
get_bit_opt-none s offset h = rw (le→leb (remaining_bits s) offset h) refl

pub get_next_bit_front :
    (s : SliceData) (b : Bool) (rest : List Bool)
    → IsValid s
    → window s ≡ b ∷ rest
    → (s' : SliceData) × (get_next_bit s ≡ ok (b, s')) × Passed s rest s'
get_next_bit_front s b rest valid holds =
    let (s', moved, valid', left, place) =
      move_by-window s 1 valid (omega (arith, length-window s valid, ap length holds)) in
    (
      s',
      answer s' (get_bit_opt-window s 0 b rest valid holds) moved,
      by-Passed s s' (s.start + 1) rest valid' (left ∙ ap (drop 1) holds) place,
    )
  where
    answer :
        (s' : SliceData)
        → get_bit_opt s 0 ≡ ok (some b)
        → move_by s 1 ≡ ok s'
        → get_next_bit s ≡ ok (b, s')
    answer s' e moved = unfold get_next_bit get_bit in rw (e, moved) refl

pub get_next_bit_none :
    (s : SliceData) → IsValid s → window s ≡ [] → get_next_bit s ≡ err (exception cell_underflow)
get_next_bit_none s valid holds =
    let e = get_bit_opt-none s 0 (omega (arith, length-window s valid, ap length holds)) in
    unfold get_next_bit get_bit in rw e refl

pub get_next_bit_int_front :
    (s : SliceData) (b : Bool) (rest : List Bool)
    → IsValid s
    → window s ≡ b ∷ rest
    → (s' : SliceData) × (get_next_bit_int s ≡ ok ((if b then 1 else 0), s')) × Passed s rest s'
get_next_bit_int_front s b rest valid holds =
    let (s', moved, valid', left, place) =
      move_by-window s 1 valid (omega (arith, length-window s valid, ap length holds)) in
    (
      s',
      answer s' (get_bit_opt-window s 0 b rest valid holds) moved,
      by-Passed s s' (s.start + 1) rest valid' (left ∙ ap (drop 1) holds) place,
    )
  where
    answer :
        (s' : SliceData)
        → get_bit_opt s 0 ≡ ok (some b)
        → move_by s 1 ≡ ok s'
        → get_next_bit_int s ≡ ok ((if b then 1 else 0), s')
    answer s' e moved =
        let opt : get_next_bit_opt s ≡ ok (some (if b then 1 else 0), s') =
          unfold get_next_bit_opt in rw e (ap after moved) in
        unfold get_next_bit_int in rw opt refl
      where
        after : Outcome SliceData → Outcome (Option ℕ × SliceData)
        after (ok s'') = ok (some (if b then 1 else 0), s'')
        after (err e) = ok (none, s)
        after panic = panic

pub get_next_int_front :
    (s : SliceData) (count v : ℕ) (rest : List Bool)
    → IsValid s
    → count ≤ 64
    → v < 2 ^ count
    → window s ≡ bits count v ++ rest
    → (s' : SliceData) × (get_next_int s count ≡ ok (v, s')) × Passed s rest s'
get_next_int_front s count v rest valid small lt holds =
    let (w, s', runs, valid', left, place, reads) =
      get_next_int-window s count valid small (enough s count v rest valid lt holds) in
    (
      s',
      runs ∙ ap (λ t. ok (t, s')) (same_number s count v rest valid lt holds w reads),
      by-Passed s s' (s.start + count) rest valid' (left ∙ behind s count v rest valid lt holds)
          place,
    )

-- A number fits its width.
pub bit_width-fits : (fuel v : ℕ) → v < 2 ^ fuel → v < 2 ^ bit_width fuel v
unfolding bit_width
bit_width-fits zero v h = h
bit_width-fits (suc fuel) v h = elim (Bool-cases (v == 0)) [
  | inl nothing ↦ rw nothing (ground arith)
  | inr nonzero ↦ rw nonzero (
      omega (
        arith,
        bit_width-fits fuel (v / 2) (omega (arith, pow-succ' 2 fuel)),
        pow-succ' 2 (bit_width fuel (v / 2)),
      ))
]

pub bit_width-bound : (fuel v : ℕ) → bit_width fuel v ≤ fuel
unfolding bit_width
bit_width-bound zero v = omega arith
bit_width-bound (suc fuel) v = ground (arith, bit_width-bound fuel (v / 2))

pub get_next_size_front :
    (s : SliceData) (max_value v : ℕ) (rest : List Bool)
    → IsValid s
    → max_value < 65536
    → v ≤ max_value
    → window s ≡ bits (bit_width 16 max_value) v ++ rest
    → (s' : SliceData) × (get_next_size s max_value ≡ ok (v, s')) × Passed s rest s'
get_next_size_front s max_value v rest valid small le holds = elim (Bool-cases (max_value == 0)) [
  | inl nothing ↦
      let m : max_value ≡ 0 = ground arith in
      let z : v ≡ 0 = omega arith in
      (
        s,
        unfold get_next_size in rw nothing (ap (λ n. ok (n, s)) (sym z)),
        by-Passed s s s.start rest valid
            (holds ∙ ap (λ n. bits (bit_width 16 n) v ++ rest) m ∙ no_bits) refl,
      )
  | inr nonzero ↦
      let (s', runs, passed) =
        get_next_int_front s (bit_width 16 max_value) v rest valid
          (omega (arith, bit_width-bound 16 max_value))
          (omega (arith, bit_width-fits 16 max_value small)) holds in
      (s', chain s' nonzero runs, passed)
]
  where
    chain :
        (s' : SliceData)
        → max_value == 0 ≡ false
        → get_next_int s (bit_width 16 max_value) ≡ ok (v, s')
        → get_next_size s max_value ≡ ok (v, s')
    chain s' nonzero runs =
        let same : max_value % 65536 ≡ max_value = omega arith in
        unfold get_next_size in rw (nonzero, same) runs

    no_bits : bits (bit_width 16 0) v ++ rest ≡ rest
    no_bits = unfold bit_width bits in refl

pub move_by_front :
    (s : SliceData) (xs rest : List Bool)
    → IsValid s
    → window s ≡ xs ++ rest
    → (s' : SliceData) × (move_by s (length xs) ≡ ok s') × Passed s rest s'
move_by_front s xs rest valid holds =
    let (s', moved, valid', left, place) =
      move_by-window s (length xs) valid
        (omega (arith, length-window s valid, ap length holds, length-append xs rest)) in
    (
      s',
      moved,
      by-Passed s s' (s.start + length xs) rest valid'
          (left
            ∙ ap (drop (length xs)) holds
            ∙ drop-append_right (length xs) 0 xs rest (omega arith))
          place,
    )

-- `shrink_data(n..)` cuts the first `n` bits off and leaves the others.
pub shrink_data_front :
    (s : SliceData) (xs rest : List Bool) (n : ℕ)
    → IsValid s
    → n ≡ length xs
    → window s ≡ xs ++ rest
    → (cut : SliceData) × (s' : SliceData) × (shrink_data s (included n) unbounded ≡ (cut, s'))
      × Bare cut
      × (window cut ≡ xs)
      × Passed s rest s'
shrink_data_front s xs rest n valid len holds =
    let total : remaining_bits s ≡ n + length rest =
      omega (arith, length-window s valid, ap length holds, length-append xs rest, len) in
    let (cut, s', e, valid', left, valid_cut, bits_cut) =
      shrink_data-window s n (remaining_bits s) valid (omega (arith, total)) (omega arith) in
    (
      cut,
      s',
      unfold shrink_data in e,
      record { valid = valid_cut; no_refs = bare cut s' total e },
      bits_cut ∙ cut_bits (Bool-cases (n == 0)),
      record {
        valid = valid';
        left = left ∙ behind_bits total;
        inner_kept = ap (λ t. t.inner) (place cut s' total e);
        first_kept = ap (λ t. t.ref_start) (place cut s' total e);
        last_kept = ap (λ t. t.ref_stop) (place cut s' total e);
      },
    )
  where
    place :
        (cut s' : SliceData)
        → remaining_bits s ≡ n + length rest
        → shrink_data s (included n) (excluded (remaining_bits s)) ≡ (cut, s')
        → s' ≡ kept s n (remaining_bits s) valid
    place cut s' total e =
        ap (λ t. t.1)
          (sym e
            ∙ shrink_data_lem s n (remaining_bits s) valid (omega (arith, total)) (omega arith))

    bare :
        (cut s' : SliceData)
        → remaining_bits s ≡ n + length rest
        → shrink_data s (included n) (excluded (remaining_bits s)) ≡ (cut, s')
        → cut.ref_stop ≡ 0
    bare cut s' total e =
        ap (λ t. t.0.ref_stop)
          (sym e
            ∙ shrink_data_lem s n (remaining_bits s) valid (omega (arith, total)) (omega arith))
        ∙ cut_off_refs (Bool-cases (n == 0))
      where
        cut_off_refs :
            (n == 0 ≡ true) ⊎ (n == 0 ≡ false) → (cut_off s n (remaining_bits s) valid).ref_stop ≡ 0
        cut_off_refs (inl nothing) = rw nothing refl
        cut_off_refs (inr nonzero) = rw nonzero refl

    behind_bits :
        remaining_bits s ≡ n + length rest → drop n (take (remaining_bits s) (window s)) ≡ rest
    behind_bits total =
        ap (drop n)
          (take-all (remaining_bits s) (window s) (omega (arith, length-window s valid)) ∙ holds)
        ∙ drop-append_right n 0 xs rest (omega (arith, len))

    cut_bits :
        (n == 0 ≡ true) ⊎ (n == 0 ≡ false)
        → (if n == 0 then drop (remaining_bits s) (window s) else take n (window s)) ≡ xs
    cut_bits (inl nothing) =
        let z : n ≡ 0 = ground arith in
        rw nothing (
          drop-all (remaining_bits s) (window s) (omega (arith, length-window s valid))
          ∙ empty xs (omega (arith, len, z)))
      where
        empty : (l : List Bool) → length l ≡ 0 → [] ≡ l
        empty [] h = refl
        empty (x ∷ l) h = absurd (omega arith)
    cut_bits (inr nonzero) = rw nonzero (
        ap (take n) holds
        ∙ take-append_left n xs rest (omega (arith, len))
        ∙ take-all n xs (omega (arith, len)))
