-- ===== src/Dictionary/Hashmap/Get.antt =====
-- `get` of a dictionary (dictionary/hashmap.rs) finds what the trie that its cells stand for holds.
use block.Common.{
  ℕ, zero, suc, ◌+◌, ◌-◌, ◌≤◌, ◌<◌, ◌≡◌, ◌≢◌, refl, sym, ap, ◌∙◌, subst, arith, Bool, true, false,
  not, ◌&&◌, ltb, ◌==◌, if◌then◌else◌, List, [], ◌∷◌, ◌++◌, length, append-nil, length-append,
  le→leb, Option, none, some, inl, inr, Bool-cases,
}
use block.Types.{ok}
use block.Cell.{Cell, references}
use block.Slice.{
  SliceData, load_cell, remaining_bits, remaining_references, slice_reference, is_empty,
}
use block.Slice.Read.{get_next_bit_int}
use block.Slice.Window.{IsValid, window, length-window, remaining_bits_lem}
use block.Slice.Cursor.{Passed, Bare, get_next_bit_int_front}
use block.Slice.Prefix.{erase_prefix}
use block.Slice.Prefix.Parts.{RefsFit, RefsFit-none, RefsFit-kept}
use block.Slice.Prefix.Erase.{erase_prefix_lem}
use block.Dictionary.Label.{read_label}
use block.Dictionary.Hashmap.{
  with_hashmap, get, get_loop, hashmap_get, check_key_fail, check_key, is_fork, is_leaf,
}
use block.Dictionary.Hashmap.Trie.{
  Value, Trie, leaf, fork, strip, strip-append, strip-none, lookup, at_fork, Represents,
}
use block.Dictionary.Hashmap.Loaded.{Over, load_cell-Labelled, forks, child}

-- The answer is the value.
unfoldable pub Answers : Option Value → Option SliceData → Type 0
Answers none none = Unit {0}
Answers (some (xs, refs)) (some s) =
    (window s ≡ xs) × ((c : Cell) × Over c xs s × (references c ≡ refs))
Answers none (some s) = ⊥
Answers (some v) none = ⊥

empty_of : (s : SliceData) → IsValid s → remaining_bits s ≡ 0 → is_empty s ≡ true
unfolding is_empty
empty_of s valid h = ground (arith, remaining_bits_lem s)

full_of : (s : SliceData) → 0 < remaining_bits s → is_empty s ≡ false
unfolding is_empty
full_of s h = ground (arith, remaining_bits_lem s)

no_references : (s : SliceData) → s.ref_stop ≡ 0 → remaining_references s ≡ 0
unfolding remaining_references
no_references s e = ground arith

module _ (same : Cell → Cell → Bool) where
  stops :
      (fuel : ℕ) (cursor label key key' : SliceData) (bit_len : ℕ) (erased : Bool)
      → erase_prefix same key label ≡ ok (erased, key')
      → (erased && not (is_empty key')) ≡ false
      → get_loop same load_cell (suc fuel) cursor label key bit_len
        ≡ ok (if is_empty key' && is_leaf cursor then some cursor else none)
  stops fuel cursor label key key' bit_len erased e h = unfold get_loop in rw (e, h) refl

  stops_found :
      (fuel : ℕ) (cursor label key key' : SliceData) (bit_len : ℕ) (erased : Bool)
      → erase_prefix same key label ≡ ok (erased, key')
      → is_empty key' ≡ true
      → get_loop same load_cell (suc fuel) cursor label key bit_len ≡ ok (some cursor)
  stops_found fuel cursor label key key' bit_len true e empty =
      stops fuel cursor label key key' bit_len true e (rw empty refl)
      ∙ (unfold is_leaf in rw empty refl)
  stops_found fuel cursor label key key' bit_len false e empty =
      stops fuel cursor label key key' bit_len false e refl ∙ (unfold is_leaf in rw empty refl)

  stops_missing :
      (fuel : ℕ) (cursor label key : SliceData) (bit_len : ℕ)
      → erase_prefix same key label ≡ ok (false, key)
      → is_empty key ≡ false
      → get_loop same load_cell (suc fuel) cursor label key bit_len ≡ ok none
  stops_missing fuel cursor label key bit_len e open_key =
      stops fuel cursor label key key bit_len false e refl ∙ rw open_key refl

  goes_on :
      (fuel : ℕ) (cursor label key key' key'' : SliceData) (bit_len m next_index : ℕ) (c : Cell)
      (next label' cursor' : SliceData)
      → erase_prefix same key label ≡ ok (true, key')
      → is_empty key' ≡ false
      → is_fork cursor ≡ true
      → get_next_bit_int key' ≡ ok (next_index, key'')
      → slice_reference cursor next_index ≡ ok c
      → load_cell c ≡ ok next
      → remaining_bits label + 1 ≤ bit_len
      → bit_len - (remaining_bits label + 1) ≡ m
      → read_label next m ≡ ok (label', cursor')
      → get_loop same load_cell (suc fuel) cursor label key bit_len
        ≡ get_loop same load_cell fuel cursor' label' key'' m
  goes_on fuel cursor label key key' key'' bit_len m next_index c next label' cursor' e open_key
        forks r r' r'' le shorter r3 =
      unfold get_loop in
      rw (e, open_key, forks, r, r', r'', le→leb (remaining_bits label + 1) bit_len le, shorter, r3)
        refl

  -- What the first label leaves of the key.
  Reached : ℕ → Cell → SliceData → ℕ → Option Value → Type 0
  Reached n c key fuel wanted =
      (s : SliceData) × (label : SliceData) × (cursor : SliceData) × (out : Option SliceData)
      × (load_cell c ≡ ok s)
      × (read_label s n ≡ ok (label, cursor))
      × (get_loop same load_cell fuel cursor label key n ≡ ok out)
      × Answers wanted out

  at_a_leaf :
      (n : ℕ) (c : Cell) (label : List Bool) (v : Value) (key : SliceData) (fuel : ℕ)
      → Represents n c (leaf label v)
      → n ≤ 1023
      → IsValid key
      → RefsFit key
      → remaining_bits key ≡ n
      → Reached n c key (suc fuel) (lookup (leaf label v) (window key))
  unfolding Represents lookup Reached
  at_a_leaf n c label (xs, refs) key fuel (len, made, refs_is) small valid fit size =
      let (s, part, cursor, loads, r, bare, holds, over) =
        load_cell-Labelled n c label xs made (omega (arith, len)) small in
      elim (Bool-cases (ltb 0 n)) [
        | inr nothing ↦ (
          s,
          part,
          cursor,
          some cursor,
          loads,
          r,
          stops_found fuel cursor part key key n false (erased_empty part (ground arith))
              (empty_of key valid (ground arith)),
          found cursor over (
              no_bits (window key) label (ground (arith, length-window key valid, len))
                (ground (arith, len))),
        )
        | inl more ↦
            elim (erase_prefix_lem same key part valid bare.valid fit
              (RefsFit-none part bare.no_refs) (no_references part bare.no_refs) (ground arith)) [
                | inl (rest, key', e, erased, passed) ↦ (
                  s,
                  part,
                  cursor,
                  some cursor,
                  loads,
                  r,
                  stops_found fuel cursor part key key' n true erased
                      (empty_of key' passed.valid (rest_empty part rest key' holds e passed)),
                  found cursor over (whole_key part rest key' holds e passed),
                )
                | inr (erased, never) ↦ (
                  s,
                  part,
                  cursor,
                  none,
                  loads,
                  r,
                  stops_missing fuel cursor part key n erased (full_of key (ground arith)),
                  missing part holds never,
                )
              ]
      ]
    where
      erased_empty :
          (part : SliceData) → remaining_bits key ≡ 0 → erase_prefix same key part ≡ ok (false, key)
      erased_empty part h = unfold erase_prefix in rw (empty_of key valid h) refl

      found :
          (cursor : SliceData)
          → Over c xs cursor
          → window key ≡ label
          → Answers (lookup (leaf label (xs, refs)) (window key)) (some cursor)
      found cursor over whole =
          let s : strip label (window key) ≡ some [] =
            ap (strip label) (whole ∙ sym (append-nil label)) ∙ strip-append label [] in
          unfold lookup Answers in rw s (over.left, (c, over, refs_is))

      no_bits : (ks ls : List Bool) → length ks ≡ 0 → length ls ≡ 0 → ks ≡ ls
      no_bits [] [] h k = refl
      no_bits (x ∷ ks) ls h k = absurd (omega arith)
      no_bits [] (x ∷ ls) h k = absurd (omega arith)

      whole_key :
          (part : SliceData) (rest : List Bool) (key' : SliceData)
          → window part ≡ label
          → window key ≡ window part ++ rest
          → Passed key rest key'
          → window key ≡ label
      whole_key part rest key' holds e passed =
          e
          ∙ ap (λ l. window part ++ l)
              (no_bits rest []
                (omega (
                  arith,
                  length-window key valid,
                  ap length e,
                  length-append (window part) rest,
                  ap length holds,
                  len,
                ))
                refl)
          ∙ append-nil (window part)
          ∙ holds

      rest_empty :
          (part : SliceData) (rest : List Bool) (key' : SliceData)
          → window part ≡ label
          → window key ≡ window part ++ rest
          → Passed key rest key'
          → remaining_bits key' ≡ 0
      rest_empty part rest key' holds e passed = omega (
        arith,
        length-window key' passed.valid,
        ap length passed.left,
        length-window key valid,
        ap length e,
        length-append (window part) rest,
        ap length holds,
        len,
      )

      missing :
          (part : SliceData)
          → window part ≡ label
          → ((rest : List Bool) → window key ≢ window part ++ rest)
          → Answers (lookup (leaf label (xs, refs)) (window key)) none
      missing part holds never =
          let s : strip label (window key) ≡ none =
            strip-none label (window key)
              (λ rest e. never rest (e ∙ ap (λ l. l ++ rest) (sym holds))) in
          unfold lookup Answers in rw s tt

  Child : Trie → Type 0
  Child t =
      (n : ℕ) (c : Cell) (key : SliceData) (fuel : ℕ)
      → Represents n c t
      → n ≤ 1023
      → n < fuel
      → IsValid key
      → RefsFit key
      → remaining_bits key ≡ n
      → Reached n c key fuel (lookup t (window key))

  at_a_fork :
      (label : List Bool) (t0 t1 : Trie)
      → Child t0
      → Child t1
      → (n : ℕ) (c : Cell) (key : SliceData) (fuel : ℕ) → Represents n c (fork label t0 t1)
      → n ≤ 1023
      → n < suc fuel
      → IsValid key
      → RefsFit key
      → remaining_bits key ≡ n
      → Reached n c key (suc fuel) (lookup (fork label t0 t1) (window key))
  unfolding Represents Reached Child lookup
  at_a_fork label t0 t1 in_left in_right n c key fuel
        (lt, xs, c0, c1, others, made, refs_is, rep0, rep1) small enough valid fit size =
      let (s, part, cursor, loads, r, bare, holds, over) =
        load_cell-Labelled n c label xs made (omega arith) small in
      elim (erase_prefix_lem same key part valid bare.valid fit (RefsFit-none part bare.no_refs)
        (no_references part bare.no_refs) (omega arith)) [
          | inr (erased, never) ↦ (
            s,
            part,
            cursor,
            none,
            loads,
            r,
            stops_missing fuel cursor part key n erased (full_of key (omega arith)),
            missing part holds never,
          )
          | inl (rest, key', e, erased, passed) ↦
              let (out, runs, answers) =
                branch s part cursor bare holds over rest key' e erased passed in
              (s, part, cursor, out, loads, r, runs, answers)
        ]
    where
      missing :
          (part : SliceData)
          → window part ≡ label
          → ((rest : List Bool) → window key ≢ window part ++ rest)
          → Answers (lookup (fork label t0 t1) (window key)) none
      missing part holds never =
          let s : strip label (window key) ≡ none =
            strip-none label (window key)
              (λ rest e. never rest (e ∙ ap (λ l. l ++ rest) (sym holds))) in
          unfold lookup Answers in rw s tt

      part_size :
          (part : SliceData) → Bare part → window part ≡ label → remaining_bits part ≡ length label
      part_size part bare holds = sym (length-window part bare.valid) ∙ ap length holds

      next_turn :
          (b : Bool) (key'' : SliceData)
          → length label < n
          → RefsFit key''
          → IsValid key''
          → remaining_bits key'' ≡ n - suc (length label)
          → Reached
              (n - suc (length label))
              (if b then c1 else c0)
              key''
              fuel
              (lookup (if b then t1 else t0) (window key''))
      next_turn true key'' le fit' valid' size' =
          in_right (n - suc (length label)) c1 key'' fuel rep1 (omega arith) (omega arith) valid'
            fit' size'
      next_turn false key'' le fit' valid' size' =
          in_left (n - suc (length label)) c0 key'' fuel rep0 (omega arith) (omega arith) valid'
            fit' size'

      found :
          (b : Bool) (rest : List Bool) (out : Option SliceData)
          → window key ≡ label ++ b ∷ rest
          → Answers (lookup (if b then t1 else t0) rest) out
          → Answers (lookup (fork label t0 t1) (window key)) out
      found b rest out e answers =
          in_child b (ap (strip label) e ∙ strip-append label (b ∷ rest)) answers
        where
          in_child :
              (b : Bool)
              → strip label (window key) ≡ some (b ∷ rest)
              → Answers (lookup (if b then t1 else t0) rest) out
              → Answers (lookup (fork label t0 t1) (window key)) out
          in_child true s answers =
              subst (λ o. Answers (at_fork (λ l. lookup t0 l) (λ l. lookup t1 l) o) out) (sym s)
                answers
          in_child false s answers =
              subst (λ o. Answers (at_fork (λ l. lookup t0 l) (λ l. lookup t1 l) o) out) (sym s)
                answers

      left_size :
          (part : SliceData) (b : Bool) (rest : List Bool) (key'' : SliceData)
          → window part ≡ label
          → window key'' ≡ rest
          → IsValid key''
          → window key ≡ window part ++ b ∷ rest
          → remaining_bits key'' ≡ n - suc (length label)
      left_size part b rest key'' holds left valid' e = omega (
        arith,
        length-window key'' valid',
        ap length left,
        length-window key valid,
        ap length e,
        length-append (window part) (b ∷ rest),
        ap length holds,
      )

      branch :
          (s part cursor : SliceData)
          → Bare part
          → window part ≡ label
          → Over c xs cursor
          → (rest : List Bool) (key' : SliceData) → window key ≡ window part ++ rest
          → erase_prefix same key part ≡ ok (true, key')
          → Passed key rest key'
          → (out : Option SliceData) × (get_loop same load_cell (suc fuel) cursor part key n
              ≡ ok out)
            × Answers (lookup (fork label t0 t1) (window key)) out
      branch s part cursor bare holds over [] key' e erased passed = absurd (
          omega (
            arith,
            length-window key valid,
            ap length e,
            length-append (window part) [],
            ap length holds,
          ))
      branch s part cursor bare holds over (b ∷ rest) key' e erased passed =
          let (key'', r, passed') = get_next_bit_int_front key' b rest passed.valid passed.left in
          let (s', part', cursor', out, loads', r', runs', answers) =
            next_turn b key'' lt
              (RefsFit-kept key key'' (passed'.inner_kept ∙ passed.inner_kept)
                (passed'.last_kept ∙ passed.last_kept) fit)
              passed'.valid (left_size part b rest key'' holds passed'.left passed'.valid e) in
          (
            out,
            goes_on fuel cursor part key key' key'' n (n - suc (length label)) (if b then 1 else 0)
                  (if b then c1 else c0) s' part' cursor' erased
                  (full_of key'
                    (omega (arith, length-window key' passed.valid, ap length passed.left)))
                  (forks c c0 c1 others xs cursor over refs_is) r
                  (child c c0 c1 others xs b cursor over refs_is) loads'
                  (omega (arith, part_size part bare holds))
                  (omega (arith, part_size part bare holds)) r'
                ∙ runs',
            found b rest out (e ∙ ap (λ l. l ++ b ∷ rest) holds)
                (subst (λ l. Answers (lookup (if b then t1 else t0) l) out) passed'.left answers),
          )

  get_reaches : (t : Trie) → Child t
  unfolding Child
  get_reaches (leaf label v) n c key zero rep small enough valid fit size = absurd (omega arith)
  get_reaches (leaf label v) n c key (suc fuel) rep small enough valid fit size =
      at_a_leaf n c label v key fuel rep small valid fit size
  get_reaches (fork label t0 t1) n c key zero rep small enough valid fit size = absurd (omega arith)
  get_reaches (fork label t0 t1) n c key (suc fuel) rep small enough valid fit size =
      at_a_fork label t0 t1 (get_reaches t0) (get_reaches t1) n c key fuel rep small enough valid
        fit size

  -- `get` of a dictionary whose cells stand for a trie, with a valid key of the dictionary's length, at
  -- least one bit and at most 1023, returns what the trie has under the key's bits: a slice of the
  -- value's bits over a cell with the value's references, or nothing.
  pub get-lookup :
      (t : Trie) (n : ℕ) (c : Cell) (key : SliceData)
      → Represents n c t
      → 1 ≤ n
      → n ≤ 1023
      → IsValid key
      → RefsFit key
      → remaining_bits key ≡ n
      → (out : Option SliceData) × (get same (with_hashmap n (some c)) key ≡ ok out)
        × Answers (lookup t (window key)) out
  unfolding Reached Child
  get-lookup t n c key rep more small valid fit size =
      let (s, label, cursor, out, loads, r, runs, answers) =
        get_reaches t n c key (suc n) rep small (omega arith) valid fit size in
      (out, answer s label cursor out loads r runs, answers)
    where
      answer :
          (s label cursor : SliceData) (out : Option SliceData)
          → load_cell c ≡ ok s
          → read_label s n ≡ ok (label, cursor)
          → get_loop same load_cell (suc n) cursor label key n ≡ ok out
          → get same (with_hashmap n (some c)) key ≡ ok out
      answer s label cursor out loads r runs =
          let equal : (n == remaining_bits key) ≡ true = ground arith in
          unfold get hashmap_get check_key_fail check_key in
          rw (full_of key (omega arith), equal, loads, r) runs
