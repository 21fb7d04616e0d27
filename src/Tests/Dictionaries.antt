-- ===== src/Tests/Dictionaries.antt =====
-- The theorems on labels, dictionaries, prefixes and byte strings at concrete inputs.
use block.Common.{
  ℕ, ◌⊎◌, ◌-◌, ◌≤◌, ◌≡◌, ◌≢◌, refl, arith, Bool, true, false, List, [], ◌∷◌, ◌++◌, length, drop,
  replicate, Option, some,
}
use block.Common.Bytes.{flat}
use block.Common.Word.{bits}
use block.Types.{ok, err, exception, cell_underflow, ◌>>=◌}
use block.Cell.{Cell, cell, cells, no_cells, ordinary}
use block.Builder
use block.Builder.{BuilderData}
use block.Builder.Content.{Adds}
use block.Builder.Raw.Packing.{Packs}
use block.Slice.{SliceData, of_bits, storage, remaining_bits, remaining_references, load_bitstring}
use block.Slice.Read.{bit_width, get_bytestring}
use block.Slice.Window.{IsValid, window}
use block.Slice.Bytestring.{get_bytestring_lem}
use block.Slice.Cursor.{Passed, Bare}
use block.Slice.Prefix.{erase_prefix}
use block.Slice.Prefix.Laws.{Splits, common_prefix_lem}
use block.Slice.Prefix.Erase.{erase_prefix_lem}
use block.Dictionary.Label.{
  append_bytestring, hm_label, length_bits, read_label, read_label_raw, skip_label, new,
  unary_length,
}
use block.Dictionary.Label.Format.{HmLabel, hml_short, hml_long, encoding, Suits}
use block.Dictionary.Label.Write.{hm_label_lem, hm_label_shortest}
use block.Dictionary.Label.Steps.{append_bytestring-content, empty-IsValid}
use block.Dictionary.Label.Front.{unary_length_ends}
use block.Dictionary.Label.Read.{
  read_label_lem, read_label_raw_lem, skip_label_lem, read_label-hm_label,
}
use block.Slice.{new_empty, is_empty, move_by, shrink_data}
use block.Slice.Read.{
  get_next_bit, get_bit, get_bit_opt, get_next_size, get_next_int, word_loop, get_byte, get_bits,
  bits_at,
}
use block.Dictionary.Label.{label_kind, get_label_long, cut_label, pass_label}
use block.Common.{ltb, min, ◌+◌, All, Mem}
use block.Dictionary.Hashmap.{get_min_max}
use block.Dictionary.Hashmap.Order.{extreme, Before}
use block.Dictionary.Hashmap.Extreme.{Holds, get_min_max-extreme}
use block.Types.{Outcome}
use block.Dictionary.Hashmap.{get, with_hashmap, iterate_slices, count}
use block.Dictionary.Hashmap.Iterate.{entries, Slices, visit, iterate_slices-entries}
use block.Dictionary.Hashmap.Count.{count-entries}
use block.Dictionary.Hashmap.Trie.{strip, Trie, leaf, fork, lookup, Represents, Labelled}
use block.Dictionary.Hashmap.Get.{Answers, get-lookup}

-- The bits 1010 1011 1100.
abbrev twelve_bits : SliceData
twelve_bits = record {
  inner = of_bits (0xab ∷ 0xc0 ∷ []) 12;
  start = 0;
  stop = 12;
  ref_start = 0;
  ref_stop = 0;
}

twelve_bits-IsValid : IsValid twelve_bits
unfolding storage
twelve_bits-IsValid = record {
  ordered = omega arith;
  inside = omega arith;
  bytes = (omega arith, (omega arith, tt));
}

-- The bits 1010.
abbrev four_bits : SliceData
four_bits = record {
  inner = of_bits (0xa0 ∷ []) 4;
  start = 0;
  stop = 4;
  ref_start = 0;
  ref_stop = 0;
}

four_bits-IsValid : IsValid four_bits
unfolding storage
four_bits-IsValid = record {
  ordered = omega arith;
  inside = omega arith;
  bytes = (omega arith, tt);
}

twelve_left : remaining_bits twelve_bits ≡ 12
unfolding remaining_bits
twelve_left = refl

width_of_sixteen : length_bits 16 ≡ 5
unfolding bit_width
width_of_sixteen = refl

get_bytestring_lem_example :
    (out : List ℕ) × (get_bytestring twelve_bits 3 ≡ ok out)
    × Packs out (drop 3 (window twelve_bits))
get_bytestring_lem_example =
    get_bytestring_lem twelve_bits 3 twelve_bits-IsValid (omega (arith, twelve_left))

append_bytestring-content_example :
    (b : BuilderData) × (append_bytestring Builder.empty twelve_bits ≡ ok b)
    × Adds Builder.empty (window twelve_bits) b
append_bytestring-content_example =
    append_bytestring-content Builder.empty twelve_bits empty-IsValid twelve_bits-IsValid
      (omega (arith, twelve_left))

common_prefix_lem_example : Splits twelve_bits four_bits twelve_bits-IsValid four_bits-IsValid
common_prefix_lem_example =
    common_prefix_lem twelve_bits four_bits twelve_bits-IsValid four_bits-IsValid tt tt

nothing_there : remaining_bits four_bits ≡ 4
unfolding remaining_bits
nothing_there = refl

erase_prefix_lem_example :
    ((rest : List Bool) × (s' : SliceData) × (window twelve_bits ≡ window four_bits ++ rest)
      × (erase_prefix (λ c d. false) twelve_bits four_bits ≡ ok (true, s'))
      × Passed twelve_bits rest s')
    ⊎ ((erase_prefix (λ c d. false) twelve_bits four_bits ≡ ok (false, twelve_bits))
        × ((rest : List Bool) → window twelve_bits ≢ window four_bits ++ rest))
unfolding remaining_references
erase_prefix_lem_example =
    erase_prefix_lem (λ c d. false) twelve_bits four_bits twelve_bits-IsValid four_bits-IsValid tt
      tt refl (omega (arith, twelve_left))

hm_label_lem_example :
    (l : HmLabel) × (b : BuilderData) × (hm_label twelve_bits 16 ≡ ok b)
    × Suits l (window twelve_bits)
    × Adds Builder.empty (encoding l (length_bits 16) (window twelve_bits)) b
hm_label_lem_example =
    hm_label_lem twelve_bits 16 twelve_bits-IsValid (omega (arith, twelve_left)) (omega arith)
      (omega (arith, twelve_left, width_of_sixteen))

hm_label_shortest_example :
    (hm_label_lem_example.1).length_in_bits
    ≤ length (encoding hml_short (length_bits 16) (window twelve_bits))
hm_label_shortest_example =
    hm_label_shortest twelve_bits 16 twelve_bits-IsValid (omega (arith, twelve_left)) (omega arith)
      (omega (arith, twelve_left, width_of_sixteen)) hml_short (hm_label_lem_example.1) tt
      (hm_label_lem_example.2)

read_label-hm_label_example :
    (label : SliceData) × (s' : SliceData) × ((do
      b ← hm_label twelve_bits 16
      s ← load_bitstring b
      read_label s 16)
      ≡ ok (label, s'))
    × (window label ≡ window twelve_bits)
    × (window s' ≡ [])
read_label-hm_label_example =
    read_label-hm_label twelve_bits 16 twelve_bits-IsValid (omega (arith, twelve_left))
      (omega arith) (omega (arith, twelve_left, width_of_sixteen))

-- A long label, `10 01100` and twelve bits, with five bits behind it.
abbrev labelled : SliceData
labelled = record {
  inner = of_bits (0x99 ∷ 0x57 ∷ 0x9e ∷ []) 24;
  start = 0;
  stop = 24;
  ref_start = 0;
  ref_stop = 0;
}

labelled-IsValid : IsValid labelled
unfolding storage
labelled-IsValid = record {
  ordered = omega arith;
  inside = omega arith;
  bytes = (omega arith, (omega arith, (omega arith, tt)));
}

abbrev label_bits : List Bool
label_bits = bits 12 0xabc

labelled-window : window labelled ≡ encoding hml_long (length_bits 16) label_bits ++ bits 5 0x1e
unfolding window storage flat bits encoding bit_width
labelled-window = refl

twelve_fit : length label_bits ≤ 16
unfolding bits
twelve_fit = omega arith

read_label_lem_example :
    (label : SliceData) × (s' : SliceData) × (read_label labelled 16 ≡ ok (label, s'))
    × Bare label
    × (window label ≡ label_bits)
    × Passed labelled (bits 5 0x1e) s'
read_label_lem_example =
    read_label_lem hml_long labelled 16 label_bits (bits 5 0x1e) labelled-IsValid twelve_fit
      (omega arith) tt labelled-window

read_label_raw_lem_example :
    (key : BuilderData) × (s' : SliceData) × (read_label_raw labelled 16 Builder.empty
      ≡ ok (key, 16 - length label_bits, s'))
    × Adds Builder.empty label_bits key
    × Passed labelled (bits 5 0x1e) s'
read_label_raw_lem_example =
    read_label_raw_lem hml_long labelled 16 label_bits (bits 5 0x1e) labelled-IsValid twelve_fit
      (omega arith) tt labelled-window Builder.empty empty-IsValid (omega (arith, twelve_fit))

skip_label_lem_example :
    (s' : SliceData) × (skip_label (new labelled) 16
      ≡ ok (16 - length label_bits, record { cursor = s'; already_read = true }))
    × Passed labelled (bits 5 0x1e) s'
skip_label_lem_example =
    skip_label_lem hml_long labelled 16 label_bits (bits 5 0x1e) labelled-IsValid twelve_fit
      (omega arith) tt labelled-window

unary_length_ends_example :
    ((window labelled ≡ replicate (length (window labelled)) true)
      × (unary_length labelled ≡ err (exception cell_underflow)))
    ⊎ ((n : ℕ) × (rest : List Bool) × (s' : SliceData) × (window labelled
          ≡ replicate n true ++ false ∷ rest)
        × (unary_length labelled ≡ ok (n, s'))
        × Passed labelled rest s')
unary_length_ends_example = unary_length_ends labelled labelled-IsValid

-- A dictionary with the keys 01 and 10 and the values 1010 and 1100.
abbrev leaf_of : ℕ → Cell
leaf_of byte = cell ordinary 0 (byte ∷ []) 8 no_cells

abbrev two_keys : Cell
two_keys = cell ordinary 0 (0x20 ∷ []) 2 (cells (leaf_of 0x5a) (cells (leaf_of 0x4c) no_cells))

abbrev two_key_trie : Trie
two_key_trie = fork [] (leaf (true ∷ []) (bits 4 0xa, [])) (leaf (false ∷ []) (bits 4 0xc, []))

left_leaf : Labelled 1 (leaf_of 0x5a) (true ∷ []) (bits 4 0xa)
unfolding flat bits encoding bit_width
left_leaf = record {
  not_pruned = refl;
  not_big = refl;
  fits = omega arith;
  bytes = (omega arith, tt);
  format = hml_short;
  suits = tt;
  holds = refl;
}

right_leaf : Labelled 1 (leaf_of 0x4c) (false ∷ []) (bits 4 0xc)
unfolding flat bits encoding bit_width
right_leaf = record {
  not_pruned = refl;
  not_big = refl;
  fits = omega arith;
  bytes = (omega arith, tt);
  format = hml_short;
  suits = tt;
  holds = refl;
}

two_keys_root : Labelled 2 two_keys [] []
unfolding flat bits encoding bit_width
two_keys_root = record {
  not_pruned = refl;
  not_big = refl;
  fits = omega arith;
  bytes = (omega arith, tt);
  format = hml_short;
  suits = tt;
  holds = refl;
}

two_keys-Represents : Represents 2 two_keys two_key_trie
unfolding Represents
two_keys-Represents = (
  omega arith,
  [],
  leaf_of 0x5a,
  leaf_of 0x4c,
  [],
  two_keys_root,
  refl,
  (refl, left_leaf, refl),
  (refl, right_leaf, refl),
)

abbrev second_key : SliceData
second_key = record {
  inner = of_bits (0x80 ∷ []) 2;
  start = 0;
  stop = 2;
  ref_start = 0;
  ref_stop = 0;
}

second_key-IsValid : IsValid second_key
unfolding storage
second_key-IsValid = record {
  ordered = omega arith;
  inside = omega arith;
  bytes = (omega arith, tt);
}

second_value : lookup two_key_trie (window second_key) ≡ some (bits 4 0xc, [])
unfolding lookup window storage flat bits strip
second_value = refl

get-lookup_example :
    (out : Option SliceData) × (get (λ c d. false) (with_hashmap 2 (some two_keys)) second_key
      ≡ ok out)
    × Answers (lookup two_key_trie (window second_key)) out
unfolding remaining_bits
get-lookup_example =
    get-lookup (λ c d. false) two_key_trie 2 two_keys second_key two_keys-Represents (omega arith)
      (omega arith) second_key-IsValid tt refl

-- A callback that adds up the values' lengths, and stops at 8.
abbrev adding : SliceData → SliceData → ℕ → Outcome (Bool × ℕ)
adding key value kept = ok (ltb (kept + 4) 8, kept + 4)

iterate_slices-entries_example :
    (ks : List (SliceData × SliceData)) × Slices (entries two_key_trie) ks
    × (iterate_slices adding (with_hashmap 2 (some two_keys)) 0 ≡ visit adding ks 0)
iterate_slices-entries_example =
    iterate_slices-entries adding two_key_trie 2 two_keys 0 two_keys-Represents (omega arith)

count-entries_example :
    count (with_hashmap 2 (some two_keys)) 1 ≡ ok (min (length (entries two_key_trie)) 1)
count-entries_example = count-entries two_key_trie 2 1 two_keys two_keys-Represents (omega arith)

get_min_max-extreme_example :
    (path : BuilderData) × (s : SliceData) × (get_min_max (with_hashmap 2 (some two_keys)) true true
      ≡ ok (some (path, s)))
    × Holds [] (extreme true false two_key_trie) path s
    × Mem (extreme true false two_key_trie) (entries two_key_trie)
    × All (λ e. Before true false (extreme true false two_key_trie).0 e.0) (entries two_key_trie)
get_min_max-extreme_example =
    get_min_max-extreme two_key_trie 2 two_keys true true two_keys-Represents (omega arith)

-- The least signed key is 10.
least_signed : extreme true false two_key_trie ≡ (true ∷ false ∷ [], (bits 4 0xc, []))
unfolding extreme
least_signed = refl

-- A long label of five bits, `10 00101`, with two bits behind it.
abbrev too_short : SliceData
too_short = record {
  inner = of_bits (0x8b ∷ 0x00 ∷ []) 9;
  start = 0;
  stop = 9;
  ref_start = 0;
  ref_stop = 0;
}

-- It is read as an empty label, and what stands behind it is left.
empty_label : read_label too_short 16 ≡ ok (new_empty, record too_short { start = 7 })
unfolding read_label is_empty label_kind get_next_bit get_bit get_bit_opt remaining_bits storage
    move_by get_label_long get_next_size get_next_int bit_width word_loop get_byte get_bits bits_at
    cut_label shrink_data
empty_label = refl

-- But it cannot be skipped.
no_skip : skip_label (new too_short) 16 ≡ err (exception cell_underflow)
unfolding skip_label new pass_label is_empty label_kind get_next_bit get_bit get_bit_opt
    remaining_bits storage move_by get_next_size get_next_int bit_width word_loop get_byte get_bits
    bits_at
no_skip = refl
