-- ===== src/Dictionary/Hashmap/Loaded.antt =====
-- Cells of a dictionary in slices: what loading one and reading its label leaves, and its children.
use block.Common.{
  ℕ, ◌+◌, ◌≤◌, ◌≡◌, refl, ap, ◌∙◌, arith, Bool, true, false, if◌then◌else◌, List, ◌∷◌, ◌++◌, length,
  take, lt→ltb,
}
use block.Common.Bytes.{flat}
use block.Types.{ok}
use block.Cell.{Cell, references, references_count, reference, cell_data, bit_length}
use block.Slice.{SliceData, of_cell, load_cell, storage, remaining_references, slice_reference}
use block.Slice.Window.{IsValid, window}
use block.Slice.Cursor.{Passed, Bare}
use block.Dictionary.Label.{read_label}
use block.Dictionary.Label.Read.{read_label_lem}
use block.Dictionary.Hashmap.{is_fork}
use block.Dictionary.Hashmap.Trie.{Labelled}
use block.Dictionary.Label.Format.{encoding}
use block.Dictionary.Label.{length_bits}

-- A slice over the cell `c`, past some bits, with all the references.
pub record Over (c : Cell) (rest : List Bool) (s : SliceData) : Type 0 where
  pub valid : IsValid s
  pub left : window s ≡ rest
  pub inner_is : s.inner ≡ of_cell c
  pub first : s.ref_start ≡ 0
  pub last : s.ref_stop ≡ references_count c

pub Over-Passed :
    (c : Cell) (xs ys : List Bool) (s t : SliceData) → Over c xs s → Passed s ys t → Over c ys t
Over-Passed c xs ys s t o p = record {
  valid = p.valid;
  left = p.left;
  inner_is = p.inner_kept ∙ o.inner_is;
  first = p.first_kept ∙ o.first;
  last = p.last_kept ∙ o.last;
}

-- Loading a cell with a label.
pub load_cell-Over :
    (n : ℕ) (c : Cell) (label rest : List Bool) (made : Labelled n c label rest)
    → (s : SliceData) × (load_cell c ≡ ok s)
      × (window s ≡ encoding made.format (length_bits n) label ++ rest)
      × Over c (window s) s
load_cell-Over n c label rest made = (loaded, loads, loaded-window ∙ made.holds, whole)
  where
    loaded : SliceData
    loaded = record {
      inner = of_cell c;
      start = 0;
      stop = bit_length c;
      ref_start = 0;
      ref_stop = references_count c;
    }

    loads : load_cell c ≡ ok loaded
    loads = unfold load_cell in rw (made.not_pruned, made.not_big) refl

    loaded-IsValid : IsValid loaded
    loaded-IsValid =
        unfold storage in record { ordered = omega arith; inside = made.fits; bytes = made.bytes }

    loaded-window : window loaded ≡ take (bit_length c) (flat (cell_data c))
    loaded-window = unfold window storage in ap (λ n. take n (flat (cell_data c))) (omega arith)

    whole : Over c (window loaded) loaded
    whole = record {
      valid = loaded-IsValid;
      left = refl;
      inner_is = refl;
      first = refl;
      last = refl;
    }

-- Loading it and reading the label.
pub load_cell-Labelled :
    (n : ℕ) (c : Cell) (label rest : List Bool)
    → Labelled n c label rest
    → length label ≤ n
    → n ≤ 1023
    → (s : SliceData) × (key_part : SliceData) × (cursor : SliceData) × (load_cell c ≡ ok s)
      × (read_label s n ≡ ok (key_part, cursor))
      × Bare key_part
      × (window key_part ≡ label)
      × Over c rest cursor
load_cell-Labelled n c label rest made le small =
    let (s, loads, holds, over) = load_cell-Over n c label rest made in
    let (key_part, cursor, r, bare, bits, passed) =
      read_label_lem made.format s n label rest over.valid le small made.suits holds in
    (s, key_part, cursor, loads, r, bare, bits, Over-Passed c (window s) rest s cursor over passed)

-- A cell with two references is a fork, and these are its children.
module _ (c c0 c1 : Cell) (others : List Cell) (xs : List Bool) where
  pub forks :
      (cursor : SliceData)
      → Over c xs cursor
      → references c ≡ c0 ∷ c1 ∷ others
      → is_fork cursor ≡ true
  forks cursor over refs_is =
      unfold is_fork remaining_references in
      ground (arith, over.first, over.last, ap length refs_is)

  pub child :
      (b : Bool) (cursor : SliceData)
      → Over c xs cursor
      → references c ≡ c0 ∷ c1 ∷ others
      → slice_reference cursor (if b then 1 else 0) ≡ ok (if b then c1 else c0)
  child true cursor over refs_is =
      let second : cursor.ref_start + 1 ≡ 1 = omega (arith, over.first) in
      unfold slice_reference reference in
      rw
        (
          second,
          lt→ltb 1 cursor.ref_stop (omega (arith, over.last, ap length refs_is)),
          over.inner_is,
          refs_is,
        )
        refl
  child false cursor over refs_is =
      let front : cursor.ref_start + 0 ≡ 0 = omega (arith, over.first) in
      unfold slice_reference reference in
      rw
        (
          front,
          lt→ltb 0 cursor.ref_stop (omega (arith, over.last, ap length refs_is)),
          over.inner_is,
          refs_is,
        )
        refl
