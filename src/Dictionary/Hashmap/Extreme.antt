-- ===== src/Dictionary/Hashmap/Extreme.antt =====
-- `get_min` and `get_max` of dictionary/hashmap.rs on the trie that a dictionary stands for.
use block.Common.{
  ◌⊎◌, ℕ, zero, suc, ◌+◌, ◌-◌, ◌≤◌, ◌<◌, ◌≡◌, refl, ap, ◌∙◌, arith, Bool, true, false, not, ◌&&◌,
  ◌==◌, if◌then◌else◌, List, [], ◌∷◌, ◌++◌, length, append_assoc, some, ltb-false, lt→ltb,
  Bool-cases, inl, inr,
}
use block.Types.{ok}
use block.Cell.{Cell, references}
use block.Builder
use block.Builder.{BuilderData, append_bit_bool}
use block.Builder.Content.{content, Adds, Adds-trans, Adds-length, Extends-Adds}
use block.Builder.Content
use block.Builder.Writes.{append_bit_bool_content}
use block.Slice.{SliceData, load_cell, slice_reference, remaining_bits, is_empty}
use block.Slice.Window.{IsValid, window, length-window, remaining_bits_lem}
use block.Dictionary.Label.{append_bytestring, read_label}
use block.Dictionary.Label.Steps.{append_bytestring-content, empty-IsValid}
use block.Dictionary.Hashmap.{with_hashmap, min_max_loop, get_min_max, is_fork}
use block.Dictionary.Hashmap.Trie.{Value, Trie, leaf, fork, Represents}
use block.Dictionary.Hashmap.Loaded.{Over, load_cell-Labelled, forks, child}
use block.Common.{All, Mem}
use block.Dictionary.Hashmap.Iterate.{Entry, entries}
use block.Dictionary.Hashmap.Order.{turn, behind_turn, extreme, Before, extreme-Before, extreme-Mem}

-- The path and the slice for an entry, behind the bits `front`.
unfoldable pub Holds : List Bool → Entry → BuilderData → SliceData → Type 0
Holds front (key, (xs, refs)) path s =
    Content.IsValid path
    × (content path ≡ front ++ key)
    × ((c : Cell) × Over c xs s × (references c ≡ refs))

-- `index` and `next_index` for a bit.
abbrev index_of : Bool → ℕ
index_of b = if b then 1 else 0

-- A path with room for `n` more bits.
record Room (path : BuilderData) (n : ℕ) : Type 0 where
  valid : Content.IsValid path
  no_refs : path.refs ≡ []
  room : path.length_in_bits + n ≤ 1023

Room-Adds :
    (path path' : BuilderData) (xs : List Bool) (n m : ℕ)
    → Room path n
    → Adds path xs path'
    → n ≡ length xs + m
    → Room path' m
Room-Adds path path' xs n m p x total = record {
  valid = x.valid;
  no_refs = x.refs_kept ∙ p.no_refs;
  room = omega (arith, p.room, Adds-length p.valid x, total);
}

-- The index that a turn of the loop takes.
index_taken :
    (path : BuilderData) (part : SliceData) (label : List Bool) (first next : Bool)
    → path.refs ≡ []
    → (path.length_in_bits ≡ 0) ⊎ (first ≡ next)
    → IsValid part
    → window part ≡ label
    → (if Builder.is_empty path && not (is_empty part) then index_of next else index_of first)
      ≡ index_of (turn first next label)
index_taken path part [] first next no_refs h valid holds =
    let e : is_empty part ≡ true =
      unfold is_empty in
      ground (arith, length-window part valid, ap length holds, remaining_bits_lem part) in
    elim (Bool-cases (Builder.is_empty path)) [
      | inl empty ↦ rw (e, empty) refl
      | inr open_path ↦ rw (e, open_path) refl
    ]
index_taken path part (x ∷ label) first next no_refs h valid holds = by_path h
  where
    e : is_empty part ≡ false
    e =
        unfold is_empty in
        ground (arith, length-window part valid, ap length holds, remaining_bits_lem part)

    by_path :
        (path.length_in_bits ≡ 0) ⊎ (first ≡ next)
        → (if Builder.is_empty path && not (is_empty part) then index_of next else index_of first)
          ≡ index_of next
    by_path (inl zero_bits) = unfold Builder.is_empty in rw (zero_bits, no_refs, e) refl
    by_path (inr same) = elim (Bool-cases (Builder.is_empty path)) [
      | inl empty ↦ rw (empty, e) refl
      | inr open_path ↦ rw open_path (ap index_of same)
    ]

Reaches : Trie → Type 0
Reaches t =
    (n : ℕ) (c : Cell) (path : BuilderData) (fuel : ℕ) (first next : Bool)
    → Represents n c t
    → n ≤ 1023
    → n < fuel
    → Room path n
    → (path.length_in_bits ≡ 0) ⊎ (first ≡ next)
    → (out : BuilderData) × (s : SliceData) × (min_max_loop load_cell fuel c path n (index_of next)
          (index_of first)
        ≡ ok (out, some s))
      × Holds (content path) (extreme first next t) out s

reaches_leaf :
    (label : List Bool) (v : Value) (n : ℕ) (c : Cell) (path : BuilderData) (fuel : ℕ)
    (first next : Bool)
    → Represents n c (leaf label v)
    → n ≤ 1023
    → Room path n
    → (out : BuilderData) × (s : SliceData) × (min_max_loop load_cell
          (suc fuel)
          c
          path
          n
          (index_of next)
          (index_of first)
        ≡ ok (out, some s))
      × Holds (content path) (extreme first next (leaf label v)) out s
unfolding Represents extreme Holds
reaches_leaf label (xs, refs) n c path fuel first next (len, made, refs_is) small room =
    let (s, part, cursor, loads, r, bare, holds, over) =
      load_cell-Labelled n c label xs made (omega (arith, len)) small in
    let size : remaining_bits part ≡ n =
      omega (arith, length-window part bare.valid, ap length holds, len) in
    let (out, w, x) =
      append_bytestring-content path part room.valid bare.valid (omega (arith, room.room, size)) in
    (
      out,
      cursor,
      runs s part cursor out loads r w size,
      (x.valid, x.bits ∙ ap (λ l. content path ++ l) holds, (c, over, refs_is)),
    )
  where
    runs :
        (s part cursor : SliceData) (out : BuilderData)
        → load_cell c ≡ ok s
        → read_label s n ≡ ok (part, cursor)
        → append_bytestring path part ≡ ok out
        → remaining_bits part ≡ n
        → min_max_loop load_cell (suc fuel) c path n (index_of next) (index_of first)
          ≡ ok (out, some cursor)
    runs s part cursor out loads r w size =
        let whole : (n == n) ≡ true = ground arith in
        elim (Bool-cases (is_fork cursor)) [
          | inl two ↦
              unfold min_max_loop in
              rw (loads, r, w, two, size, ltb-false n n (omega arith), whole) refl
          | inr few ↦ unfold min_max_loop in rw (loads, r, w, few, size, whole) refl
        ]

Reaches-fork :
    (label : List Bool) (t0 t1 : Trie)
    → Reaches t0
    → Reaches t1
    → (n : ℕ) (c : Cell) (path : BuilderData) (fuel : ℕ) (first next : Bool)
    → Represents n c (fork label t0 t1)
    → n ≤ 1023
    → n < suc fuel
    → Room path n
    → (path.length_in_bits ≡ 0) ⊎ (first ≡ next)
    → (out : BuilderData) × (s : SliceData) × (min_max_loop load_cell
          (suc fuel)
          c
          path
          n
          (index_of next)
          (index_of first)
        ≡ ok (out, some s))
      × Holds (content path) (extreme first next (fork label t0 t1)) out s
unfolding Represents extreme Reaches Holds
Reaches-fork label t0 t1 in_left in_right n c path fuel first next
      (lt, xs, c0, c1, others, made, refs_is, rep0, rep1) small enough room h =
    let (s, part, cursor, loads, r, bare, holds, over) =
      load_cell-Labelled n c label xs made (omega arith) small in
    let size : remaining_bits part ≡ length label =
      omega (arith, length-window part bare.valid, ap length holds) in
    let m = n - suc (length label) in
    let b = turn first next label in
    let (path1, w1, x1) =
      append_bytestring-content path part room.valid bare.valid (omega (arith, room.room, size)) in
    let room1 =
      Room-Adds path path1 (window part) n (suc m) room x1 (omega (arith, ap length holds)) in
    let (path2, w2, x2) = append_bit_bool_content path1 b room1.valid (omega (arith, room1.room)) in
    let room2 = Room-Adds path1 path2 (b ∷ []) (suc m) m room1 (Extends-Adds x2) (omega arith) in
    let (out, t, runs', found) = below_turn b path2 room2 in
    (
      out,
      t,
      runs s part cursor path1 path2 out t loads r w1 size
          (index_taken path part label first next room.no_refs h bare.valid holds) w2
          (forks c c0 c1 others xs cursor over refs_is)
          (child c c0 c1 others xs b cursor over refs_is) runs',
      placed b path1 path2 out t (x1.bits ∙ ap (λ l. content path ++ l) holds) x2.bits found,
    )
  where
    below_turn :
        (b : Bool) (path2 : BuilderData)
        → Room path2 (n - suc (length label))
        → (out : BuilderData) × (t : SliceData) × (min_max_loop load_cell fuel
              (if b then c1 else c0)
              path2
              (n - suc (length label))
              (index_of next)
              (index_of next)
            ≡ ok (out, some t))
          × Holds (content path2) (extreme next next (if b then t1 else t0)) out t
    below_turn true path2 room2 =
        in_right (n - suc (length label)) c1 path2 fuel next next rep1 (omega arith) (omega arith)
          room2 (inr refl)
    below_turn false path2 room2 =
        in_left (n - suc (length label)) c0 path2 fuel next next rep0 (omega arith) (omega arith)
          room2 (inr refl)

    runs :
        (s part cursor : SliceData) (path1 path2 out : BuilderData) (t : SliceData)
        → load_cell c ≡ ok s
        → read_label s n ≡ ok (part, cursor)
        → append_bytestring path part ≡ ok path1
        → remaining_bits part ≡ length label
        → (if Builder.is_empty path && not (is_empty part) then index_of next else index_of first)
          ≡ index_of (turn first next label)
        → append_bit_bool path1 (turn first next label) ≡ ok path2
        → is_fork cursor ≡ true
        → slice_reference cursor (index_of (turn first next label))
          ≡ ok (if turn first next label then c1 else c0)
        → min_max_loop load_cell fuel
            (if turn first next label then c1 else c0)
            path2
            (n - suc (length label))
            (index_of next)
            (index_of next)
          ≡ ok (out, some t)
        → min_max_loop load_cell (suc fuel) c path n (index_of next) (index_of first)
          ≡ ok (out, some t)
    runs s part cursor path1 path2 out t loads r w1 size taken w2 two goes runs' =
        let shorter : n - (length label + 1) ≡ n - suc (length label) = omega arith in
        unfold min_max_loop in
        rw
          (
            loads,
            r,
            w1,
            two,
            size,
            lt→ltb (length label) n lt,
            taken,
            is_one (turn first next label),
            w2,
            goes,
            shorter,
          )
          runs'
      where
        is_one : (b : Bool) → (index_of b == 1) ≡ b
        is_one true = refl
        is_one false = refl

    placed :
        (b : Bool) (path1 path2 out : BuilderData) (t : SliceData)
        → content path1 ≡ content path ++ label
        → content path2 ≡ content path1 ++ b ∷ []
        → Holds (content path2) (extreme next next (if b then t1 else t0)) out t
        → Holds
            (content path)
            (behind_turn label b (extreme next next t0) (extreme next next t1))
            out
            t
    placed b path1 path2 out t e f held = by_bit b held (f ∙ ap (λ l. l ++ b ∷ []) e)
      where
        front :
            (b : Bool) (key : List Bool)
            → content path2 ≡ (content path ++ label) ++ b ∷ []
            → content path2 ++ key ≡ content path ++ (label ++ b ∷ key)
        front b key g =
            ap (λ l. l ++ key) g
            ∙ append_assoc (content path ++ label) (b ∷ []) key
            ∙ append_assoc (content path) label (b ∷ key)

        by_bit :
            (b : Bool)
            → Holds (content path2) (extreme next next (if b then t1 else t0)) out t
            → content path2 ≡ (content path ++ label) ++ b ∷ []
            → Holds
                (content path)
                (behind_turn label b (extreme next next t0) (extreme next next t1))
                out
                t
        by_bit true (valid, bits, value) g =
            unfold Holds in (valid, bits ∙ front true (extreme next next t1).0 g, value)
        by_bit false (valid, bits, value) g =
            unfold Holds in (valid, bits ∙ front false (extreme next next t0).0 g, value)

reaches : (t : Trie) → Reaches t
unfolding Reaches
reaches (leaf label v) n c path zero first next rep small enough room h = absurd (omega arith)
reaches (leaf label v) n c path (suc fuel) first next rep small enough room h =
    reaches_leaf label v n c path fuel first next rep small room
reaches (fork label t0 t1) n c path zero first next rep small enough room h = absurd (omega arith)
reaches (fork label t0 t1) n c path (suc fuel) first next rep small enough room h =
    Reaches-fork label t0 t1 (reaches t0) (reaches t1) n c path fuel first next rep small enough
      room h

-- `get_min` (`least` is true) and `get_max` of a dictionary whose cells stand for a trie with keys of at
-- most 1023 bits return the key and the value of one of its entries that no other comes before: bit
-- by bit, 0 comes first for the least key and 1 for the greatest, but at the first bit of signed keys
-- the other.
pub get_min_max-extreme :
    (t : Trie) (n : ℕ) (c : Cell) (least signed : Bool)
    → Represents n c t
    → n ≤ 1023
    → (path : BuilderData) × (s : SliceData) × (get_min_max (with_hashmap n (some c)) least signed
        ≡ ok (some (path, s)))
      × Holds [] (extreme (if signed then least else not least) (not least) t) path s
      × Mem (extreme (if signed then least else not least) (not least) t) (entries t)
      × All
          (λ e.
            Before
              (if signed then least else not least)
              (not least)
              (extreme (if signed then least else not least) (not least) t).0
              e.0)
          (entries t)
unfolding Reaches
get_min_max-extreme t n c least signed rep small =
    let (path, s, runs, held) =
      reaches t n c Builder.empty (suc n) (if signed then least else not least) (not least) rep
        small (omega arith) start (inl refl) in
    (
      path,
      s,
      answer least signed path s runs,
      held,
      extreme-Mem t (if signed then least else not least) (not least),
      extreme-Before t (if signed then least else not least) (not least),
    )
  where
    start : Room Builder.empty n
    start = record { valid = empty-IsValid; no_refs = refl; room = omega (arith, small) }

    answer :
        (least signed : Bool) (path : BuilderData) (s : SliceData)
        → min_max_loop load_cell
            (suc n)
            c
            Builder.empty
            n
            (index_of (not least))
            (index_of (if signed then least else not least))
          ≡ ok (path, some s)
        → get_min_max (with_hashmap n (some c)) least signed ≡ ok (some (path, s))
    answer true true path s runs = unfold get_min_max in rw runs refl
    answer true false path s runs = unfold get_min_max in rw runs refl
    answer false true path s runs = unfold get_min_max in rw runs refl
    answer false false path s runs = unfold get_min_max in rw runs refl
