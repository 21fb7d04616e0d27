-- ===== src/Dictionary/Hashmap/Count.antt =====
-- `count` of dictionary/mod.rs counts the entries of the trie that a dictionary stands for.
use block.Common.{
  leb, Bool-cases, le→leb, leb-false, ℕ, zero, suc, ◌+◌, ◌-◌, ◌≤◌, ◌<◌, ◌≡◌, min, refl, ap, arith,
  Bool, true, false, not, ◌==◌, if◌then◌else◌, List, [], ◌∷◌, ◌++◌, length, length-append, some,
  inl, inr,
}
use block.Types.{ok, ◌>>=◌}
use block.Cell.{Cell}
use block.Slice.{SliceData, load_cell}
use block.Slice.Window.{window}
use block.Dictionary.Label.{new, with_cell, skip_label}
use block.Dictionary.Label.Read.{skip_label_lem}
use block.Dictionary.Hashmap.{with_hashmap, next_reader, count_internal, count}
use block.Dictionary.Hashmap.Trie.{Value, Trie, leaf, fork, Labelled, Represents}
use block.Dictionary.Hashmap.Loaded.{Over, Over-Passed, load_cell-Over}
use block.Dictionary.Hashmap.Iterate.{Entry, below, entries, read_edge, next_reader-child}

-- What `count_internal` answers when `total` values follow `len` others.
counted : ℕ → ℕ → ℕ → Bool × ℕ
counted len total max = if leb (len + total) max then (true, len + total) else (false, max)

length-below : (front : List Bool) (es : List Entry) → length (below front es) ≡ length es
unfolding below
length-below front [] = refl
length-below front ((k, v) ∷ es) = ap suc (length-below front es)

-- Skipping the label of a cell that is loaded.
skipped_label :
    (n : ℕ) (c : Cell) (label rest : List Bool)
    → Labelled n c label rest
    → length label ≤ n
    → n ≤ 1023
    → (s : SliceData) × (cursor : SliceData) × (load_cell c ≡ ok s)
      × (skip_label (new s) n ≡ ok (n - length label, read_edge cursor))
      × Over c rest cursor
skipped_label n c label rest made le small =
    let (s, loads, holds, over) = load_cell-Over n c label rest made in
    let (cursor, r, passed) =
      skip_label_lem made.format s n label rest over.valid le small made.suits holds in
    (s, cursor, loads, r, Over-Passed c (window s) rest s cursor over passed)

Counts : Trie → Type 0
Counts t =
    (n : ℕ) (c : Cell) (fuel max : ℕ)
    → Represents n c t
    → n ≤ 1023
    → n < fuel
    → (s : SliceData) × (load_cell c ≡ ok s)
      × ((len : ℕ)
          → len ≤ max
          → count_internal fuel (new s) n len max ≡ ok (counted len (length (entries t)) max))

module _ (max : ℕ) where
  counts_leaf :
      (label : List Bool) (v : Value) (n : ℕ) (c : Cell) (fuel : ℕ)
      → Represents n c (leaf label v)
      → n ≤ 1023
      → (s : SliceData) × (load_cell c ≡ ok s)
        × ((len : ℕ)
            → len ≤ max
            → count_internal (suc fuel) (new s) n len max ≡ ok (counted len 1 max))
  unfolding Represents
  counts_leaf label (xs, refs) n c fuel (len_is, made, refs_is) small =
      let (s, cursor, loads, r, over) =
        skipped_label n c label xs made (omega (arith, len_is)) small in
      (s, loads, λ len le. runs s cursor r len le)
    where
      runs :
          (s cursor : SliceData)
          → skip_label (new s) n ≡ ok (n - length label, read_edge cursor)
          → (len : ℕ) → len ≤ max
          → count_internal (suc fuel) (new s) n len max ≡ ok (counted len 1 max)
      runs s cursor r len le =
          let done : (n - length label == 0) ≡ true = ground (arith, len_is) in
          elim (Bool-cases (len == max)) [
            | inl full ↦
                let e : len ≡ max = ground arith in
                unfold count_internal counted new in
                rw (r, done, full, leb-false (len + 1) max (omega (arith, e)))
                  (ap (λ m. ok (false, m)) e)
            | inr more ↦
                unfold count_internal counted new in
                rw (r, done, more, le→leb (len + 1) max (ground arith)) refl
          ]

  Counts-fork :
      (label : List Bool) (t0 t1 : Trie)
      → Counts t0
      → Counts t1
      → (n : ℕ) (c : Cell) (fuel : ℕ) → Represents n c (fork label t0 t1)
      → n ≤ 1023
      → n < suc fuel
      → (s : SliceData) × (load_cell c ≡ ok s)
        × ((len : ℕ)
            → len ≤ max
            → count_internal (suc fuel) (new s) n len max
              ≡ ok (counted len (length (entries (fork label t0 t1))) max))
  unfolding Represents Counts entries new counted
  Counts-fork label t0 t1 in_left in_right n c fuel
        (lt, xs, c0, c1, others, made, refs_is, rep0, rep1) small enough =
      let (s, cursor, loads, r, over) = skipped_label n c label xs made (omega arith) small in
      let m = n - suc (length label) in
      let (s0, loads0, run0) = in_left m c0 fuel max rep0 (omega arith) (omega arith) in
      let (s1, loads1, run1) = in_right m c1 fuel max rep1 (omega arith) (omega arith) in
      (
        s,
        loads,
        λ len le.
            runs s cursor s0 s1 r
              (next_reader-child c c0 c1 others xs false cursor s0 over refs_is loads0)
              (next_reader-child c c0 c1 others xs true cursor s1 over refs_is loads1) run0 run1 len
              le,
      )
    where
      total :
          length
            (below (label ++ false ∷ []) (entries t0) ++ below (label ++ true ∷ []) (entries t1))
          ≡ length (entries t0) + length (entries t1)
      total = omega (
        arith,
        length-append (below (label ++ false ∷ []) (entries t0))
            (below (label ++ true ∷ []) (entries t1)),
        length-below (label ++ false ∷ []) (entries t0),
        length-below (label ++ true ∷ []) (entries t1),
      )

      runs :
          (s cursor s0 s1 : SliceData)
          → skip_label (new s) n ≡ ok (n - length label, read_edge cursor)
          → next_reader load_cell (read_edge cursor) 0 ≡ ok (new s0)
          → next_reader load_cell (read_edge cursor) 1 ≡ ok (new s1)
          → ((len : ℕ)
              → len ≤ max
              → count_internal fuel (new s0) (n - suc (length label)) len max
                ≡ ok (counted len (length (entries t0)) max))
          → ((len : ℕ)
              → len ≤ max
              → count_internal fuel (new s1) (n - suc (length label)) len max
                ≡ ok (counted len (length (entries t1)) max))
          → (len : ℕ) → len ≤ max
          → count_internal (suc fuel) (new s) n len max
            ≡ ok (
                counted len
                  (length (
                    below (label ++ false ∷ []) (entries t0)
                    ++ below (label ++ true ∷ []) (entries t1)))
                  max)
      runs s cursor s0 s1 r next0 next1 run0 run1 len le =
          let more : (n - length label == 0) ≡ false = ground arith in
          let shorter : n - length label - 1 ≡ n - suc (length label) = omega arith in
          unfold count_internal in rw (r, more, next0, shorter, run0 len le, total) after
        where
          after :
              (ok (counted len (length (entries t0)) max) >>= λ q.
              if not q.0 then ok (false, q.1) else (do
                right ← next_reader load_cell (read_edge cursor) 1
                count_internal fuel right (n - suc (length label)) q.1 max))
              ≡ ok (counted len (length (entries t0) + length (entries t1)) max)
          after = elim (Bool-cases (leb (len + length (entries t0)) max)) [
            | inl fits ↦
                let sum : len + length (entries t0) + length (entries t1)
                    ≡ len + (length (entries t0) + length (entries t1)) =
                  omega arith in
                let right = run1 (len + length (entries t0)) (ground arith) in
                unfold counted in rw (fits, next1, right, counted, sum) refl
            | inr full ↦
                unfold counted in
                rw
                  (
                    full,
                    leb-false (len + (length (entries t0) + length (entries t1))) max
                        (ground arith),
                  )
                  refl
          ]

counts : (t : Trie) → Counts t
unfolding Counts entries
counts (leaf label v) n c zero max rep small enough = absurd (omega arith)
counts (leaf label v) n c (suc fuel) max rep small enough =
    counts_leaf max label v n c fuel rep small
counts (fork label t0 t1) n c zero max rep small enough = absurd (omega arith)
counts (fork label t0 t1) n c (suc fuel) max rep small enough =
    Counts-fork max label t0 t1 (counts t0) (counts t1) n c fuel rep small enough

-- `count` of a dictionary whose cells stand for a trie with keys of at most 1023 bits is the number of
-- its entries, or `max` if there are more.
pub count-entries :
    (t : Trie) (n max : ℕ) (c : Cell)
    → Represents n c t
    → n ≤ 1023
    → count (with_hashmap n (some c)) max ≡ ok (min (length (entries t)) max)
unfolding Counts
count-entries t n max c rep small =
    let (s, loads, runs) = counts t n c (suc n) max rep small (omega arith) in
    answer s loads (runs 0 (omega arith))
  where
    answer :
        (s : SliceData)
        → load_cell c ≡ ok s
        → count_internal (suc n) (new s) n 0 max ≡ ok (counted 0 (length (entries t)) max)
        → count (with_hashmap n (some c)) max ≡ ok (min (length (entries t)) max)
    answer s loads runs = unfold count with_cell in rw (loads, runs) (ap ok least)
      where
        least : (counted 0 (length (entries t)) max).1 ≡ min (length (entries t)) max
        least = unfold counted in ground arith
