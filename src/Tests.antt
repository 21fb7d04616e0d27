-- ===== src/Tests.antt =====
-- The library's theorems at concrete inputs, and runs of the definitions.
mod Dictionaries
use block.Common.{
  ℕ, ◌≤◌, ◌<◌, ◌≡◌, ◌↔◌, refl, arith, true, false, ◌&&◌, ◌||◌, List, [], ◌∷◌, ◌++◌, take, drop, inl,
  ◌⊎◌, zero, suc, All, replicate, length-replicate,
}
use block.Common.Bytes.{IsByte, flat}
use block.Common.Word.{bits}
use block.Types.{
  ok, err, exception, message, fatal_error, cell_overflow, cell_underflow, range_check_error, ◌>>=◌,
}
use block.Cell.{Cell, reference, cell, no_cells, cells, ordinary}
use block.Cell.LevelMask.{level, calc_hash_index, with_mask, with_level, is_valid}
use block.Cell.LevelMask.Laws.{levels, calc_hash_index_bounds}
use block.Cell.Tag.{find_tag, append_tag}
use block.Cell.Tag.Laws.{find_tag-append_tag}
use block.Cell.{CellType}
use block.Cell.Layout.{
  calc_d1, calc_d2, mask_of, level_of, is_big_cell, store_hashes, exotic, refs_count, hashes_count,
  data_offset, data_of, cell_data_len, bit_len, build_cell_buf,
}
use block.Cell.Layout.Laws.{calc_d1_fields, cell_data_len-calc_d2}
use block.Common.{none, ◌/◌, ◌+◌}
use block.Builder.{
  BuilderData, append_raw, with_raw, trunc, append_word, append_bits, append_bit_bool,
  append_builder, prepend_raw,
}
use block.Builder.Content.{
  content, IsValid, IsCanonical, Extends, append_raw_content, with_raw-content, trunc-content,
}
use block.Builder.Writes.{
  append_word_content, append_bits_content, append_bit_bool_content, append_builder-content,
  prepend_raw-content,
}
use block.Slice.{
  SliceData, of_bits, storage, remaining_bits, move_by, shrink_data, included, excluded, unbounded,
  of_cell, shrink_references, collect_references, remaining_references, load_bitstring,
}
use block.Slice.Read.{get_bits, get_next_word, get_next_int}
use block.Slice.Prefix.{common_prefix, byte_loop, same_byte, remaining_data}
use block.Slice.Read.{bits_at, get_byte, bit_width}
use block.Common.{some}
use block.Slice.Window
use block.Slice.Window.{window, move_by-window, shrink_data-window}
use block.Slice.Field.{Reads, get_bits-window, get_bits_refused}
use block.Slice.Words.{get_next_word-window, get_next_int-window, get_next_int_refused}
use block.RoundTrip.{load_bitstring-window, get_next_word-append_word, get_next_int-append_bits}
use block.Shard.{
  ShardIdent, split, merge, sibling, contains, contains_prefix, shard_intersects, is_ancestor,
  write_to, read_from, with_tagged_prefix, check_workchain_id, prefix_len, trailing_zeros,
}
use block.Shard.Address.{AccountIdPrefixFull, IntermediateAddress, interpolate_addr, routing_loop}
use block.Shard.Address.Laws.{address_bits, interpolate_addr_lem}
use block.Shard.Address.{
  perform_hypercube_routing, interpolate_addr_intermediate, regular, contains_full_prefix,
}
use block.Shard.Address.Hops.{perform_hypercube_routing_ends}
use block.Shard.Address.Routing.{routing_loop_ends}
use block.Common.{bit_xor, inr}
use block.Shard.Prefix.{IsTagged, contains_first_bits}
use block.Shard.Family
use block.Shard.Family.{split_family, split_covers, shard_intersects_lem}
use block.Builder.Joins.{append_builder_assoc}
use block.Shard.Written.{encoded, write_to_lem}
use block.Shard.Serial.{read_from-write_to}

-- A builder with the bits 101.
abbrev three_bits : BuilderData
three_bits = record { bytes = 0xa0 ∷ []; length_in_bits = 3; refs = []; ty = ordinary }

three_bits_IsValid : IsValid three_bits
three_bits_IsValid = record {
  fits = omega arith;
  short = omega arith;
  small = omega arith;
  bytes = (omega arith, tt);
  few = omega arith;
}

three_bits-IsCanonical : IsCanonical three_bits
unfolding flat bits
three_bits-IsCanonical = record {
  pad = 5;
  small = omega arith;
  filled = refl;
  bytes = (omega arith, tt);
}

-- A builder with the bits 110011, and a stray one behind them.
abbrev six_bits : BuilderData
six_bits = record { bytes = 0xce ∷ []; length_in_bits = 6; refs = []; ty = ordinary }

six_bits_IsValid : IsValid six_bits
six_bits_IsValid = record {
  fits = omega arith;
  short = omega arith;
  small = omega arith;
  bytes = (omega arith, tt);
  few = omega arith;
}

-- A builder of 1000 bits.
All-replicate : (n : ℕ) → All IsByte (replicate n 0xfe)
All-replicate zero = tt
All-replicate (suc n) = (omega arith, All-replicate n)

abbrev almost_full : BuilderData
almost_full = record { bytes = replicate 125 0xfe; length_in_bits = 1000; refs = []; ty = ordinary }

almost_full_IsValid : IsValid almost_full
almost_full_IsValid = record {
  fits = omega (arith, length-replicate {A = ℕ} 125 0xfe);
  short = omega arith;
  small = omega (arith, length-replicate {A = ℕ} 125 0xfe);
  bytes = All-replicate 125;
  few = omega arith;
}

-- A window of 20 bits that starts in the middle of a byte.
abbrev twenty_bits : SliceData
twenty_bits = record {
  inner = of_bits (0x12 ∷ 0x34 ∷ 0x56 ∷ []) 24;
  start = 3;
  stop = 23;
  ref_start = 0;
  ref_stop = 0;
}

twenty_bits_IsValid : Window.IsValid twenty_bits
unfolding storage
twenty_bits_IsValid = record {
  ordered = omega arith;
  inside = omega arith;
  bytes = (omega arith, (omega arith, (omega arith, tt)));
}

twenty_left : remaining_bits twenty_bits ≡ 20
unfolding remaining_bits
twenty_left = refl

-- The shard of the base workchain with the prefix 10.
abbrev some_shard : ShardIdent
some_shard = record { workchain_id = 0; prefix = 0xa000000000000000 }

abbrev some_tag : IsTagged 2 0xa000000000000000
some_tag = record { high = 2; shift = 61; sizes = refl; below = omega arith; shape = refl }

abbrev some_shard_IsValid : Family.IsValid some_shard
some_shard_IsValid = record { len = 2; tag = some_tag; depth = omega arith }

get_next_word-append_word_example :
    (s : SliceData) × ((do
      b' ← append_word 2 three_bits 0xabcd
      s ← load_bitstring b'
      s' ← move_by s three_bits.length_in_bits
      get_next_word 2 s')
      ≡ ok (0xabcd, s))
    × (window s ≡ [])
get_next_word-append_word_example =
    get_next_word-append_word three_bits three_bits_IsValid refl refl 2 0xabcd (omega arith)
      (omega arith)

read_from-write_to_example :
    (cell : SliceData) × ((do
      b' ← write_to some_shard three_bits
      whole ← load_bitstring b'
      at_shard ← move_by whole three_bits.length_in_bits
      read_from at_shard)
      ≡ ok (some_shard, cell))
    × (window cell ≡ [])
read_from-write_to_example =
    read_from-write_to some_shard some_shard_IsValid (λ e. absurd (omega arith)) (omega arith)
      three_bits three_bits_IsValid refl refl (omega arith)

append_raw_content_example :
    (b' : BuilderData) × (append_raw three_bits (0xff ∷ 0x81 ∷ []) 13 ≡ ok b')
    × Extends three_bits (take 13 (flat (0xff ∷ 0x81 ∷ []))) b'
append_raw_content_example =
    append_raw_content three_bits (0xff ∷ 0x81 ∷ []) 13 three_bits_IsValid
      (omega arith, (omega arith, tt)) (omega arith) (omega arith)

split_family_example :
    (l : ShardIdent) × (r : ShardIdent) × (split some_shard ≡ ok (l, r))
    × Family.IsValid l
    × Family.IsValid r
    × (merge l ≡ ok some_shard)
    × (merge r ≡ ok some_shard)
    × (sibling l ≡ r)
    × (sibling r ≡ l)
split_family_example = split_family some_shard some_shard_IsValid (omega arith)

split_covers_example :
    (l : ShardIdent) × (r : ShardIdent) × (split some_shard ≡ ok (l, r))
    × (contains_prefix some_shard 0 0xb123456789abcdef
        ≡ (contains_prefix l 0 0xb123456789abcdef || contains_prefix r 0 0xb123456789abcdef))
    × ((contains_prefix l 0 0xb123456789abcdef && contains_prefix r 0 0xb123456789abcdef) ≡ false)
split_covers_example =
    split_covers some_shard some_shard_IsValid 0 0xb123456789abcdef (omega arith) (omega arith)

get_next_int-append_bits_example :
    (s : SliceData) × ((do
      b' ← append_bits three_bits 0x15 5
      s ← load_bitstring b'
      s' ← move_by s three_bits.length_in_bits
      get_next_int s' 5)
      ≡ ok (0x15, s))
    × (window s ≡ [])
get_next_int-append_bits_example =
    get_next_int-append_bits three_bits three_bits_IsValid refl refl 0x15 5 (omega arith)
      (omega arith) (omega arith)

get_bits-window_example :
    (v : ℕ) × (get_bits twenty_bits 2 7 ≡ ok v) × Reads 7 (take 7 (drop 2 (window twenty_bits))) v
get_bits-window_example =
    get_bits-window twenty_bits 2 7 twenty_bits_IsValid (omega arith) (omega arith)
      (omega (arith, twenty_left))

get_next_int-window_example :
    (v : ℕ) × (s' : SliceData) × (get_next_int twenty_bits 19 ≡ ok (v, s'))
    × Window.IsValid s'
    × (window s' ≡ drop 19 (window twenty_bits))
    × (s' ≡ record twenty_bits { start = 22 })
    × Reads 19 (take 19 (window twenty_bits)) v
get_next_int-window_example =
    get_next_int-window twenty_bits 19 twenty_bits_IsValid (omega arith)
      (omega (arith, twenty_left))

get_next_word-window_example :
    (v : ℕ) × (s' : SliceData) × (get_next_word 2 twenty_bits ≡ ok (v, s'))
    × Window.IsValid s'
    × (window s' ≡ drop 16 (window twenty_bits))
    × Reads 16 (take 16 (window twenty_bits)) v
get_next_word-window_example =
    get_next_word-window 2 twenty_bits twenty_bits_IsValid (omega (arith, twenty_left))

find_tag-append_tag_example :
    (cs : List ℕ) × (append_tag (0xff ∷ 0x81 ∷ []) 11 ≡ ok cs) × (find_tag cs ≡ 11)
find_tag-append_tag_example =
    find_tag-append_tag (0xff ∷ 0x81 ∷ []) 11 (omega arith) (omega arith, (omega arith, tt))

append_builder_assoc_example :
    (ab : BuilderData) × (bc : BuilderData) × (abc : BuilderData) × (append_builder three_bits
        six_bits
      ≡ ok ab)
    × (append_builder ab three_bits ≡ ok abc)
    × (append_builder six_bits three_bits ≡ ok bc)
    × (append_builder three_bits bc ≡ ok abc)
append_builder_assoc_example =
    append_builder_assoc three_bits six_bits three_bits three_bits_IsValid six_bits_IsValid
      three_bits_IsValid three_bits-IsCanonical (omega arith) (omega arith)

write_to_lem_example :
    ((1000 + 104 ≤ 1023)
      × (b' : BuilderData) × (write_to some_shard almost_full ≡ ok b')
      × Extends almost_full (encoded some_shard some_shard_IsValid) b')
    ⊎ ((1023 < 1000 + 104) × (write_to some_shard almost_full ≡ err (exception cell_overflow)))
write_to_lem_example = write_to_lem some_shard some_shard_IsValid almost_full almost_full_IsValid

trunc-content_example :
    (b' : BuilderData) × (trunc three_bits 2 ≡ ok b')
    × IsValid b'
    × (content b' ≡ take 2 (content three_bits))
    × (b'.refs ≡ [])
trunc-content_example = trunc-content three_bits 2 three_bits_IsValid (omega arith)

append_builder-content_example :
    (b' : BuilderData) × (append_builder three_bits three_bits ≡ ok b')
    × IsValid b'
    × (content b' ≡ content three_bits ++ content three_bits)
    × (b'.refs ≡ [])
append_builder-content_example =
    append_builder-content three_bits three_bits three_bits_IsValid three_bits_IsValid (omega arith)
      (omega arith)

prepend_raw-content_example :
    (b' : BuilderData) × (prepend_raw three_bits (0x5f ∷ []) 6 ≡ ok b')
    × IsValid b'
    × (content b' ≡ take 6 (flat (0x5f ∷ [])) ++ content three_bits)
    × (b'.refs ≡ [])
prepend_raw-content_example =
    prepend_raw-content three_bits (0x5f ∷ []) 6 three_bits_IsValid (omega arith, tt) (omega arith)
      (omega arith)

move_by-window_example :
    (s' : SliceData) × (move_by twenty_bits 9 ≡ ok s')
    × Window.IsValid s'
    × (window s' ≡ drop 9 (window twenty_bits))
    × (s' ≡ record twenty_bits { start = 12 })
move_by-window_example =
    move_by-window twenty_bits 9 twenty_bits_IsValid (omega (arith, twenty_left))

shrink_data-window_example :
    (cut : SliceData) × (s' : SliceData) × (shrink_data twenty_bits (included 4) (excluded 15)
      ≡ (cut, s'))
    × Window.IsValid s'
    × (window s' ≡ drop 4 (take 15 (window twenty_bits)))
    × Window.IsValid cut
    × (window cut ≡ take 4 (window twenty_bits))
shrink_data-window_example =
    shrink_data-window twenty_bits 4 15 twenty_bits_IsValid (omega arith)
      (omega (arith, twenty_left))

load_bitstring-window_example :
    (s : SliceData) × (load_bitstring three_bits ≡ ok s)
    × Window.IsValid s
    × (window s ≡ content three_bits)
load_bitstring-window_example = load_bitstring-window three_bits three_bits_IsValid refl refl

contains_first_bits_example :
    (contains 0xa000000000000000 0xbc00000000000000 ≡ true)
    ↔ (take 2 (bits 64 0xa000000000000000) ≡ take 2 (bits 64 0xbc00000000000000))
contains_first_bits_example = contains_first_bits some_tag 0xbc00000000000000 (omega arith)

shard_intersects_lem_example : shard_intersects 0xa000000000000000 0xb000000000000000 ≡ (
    is_ancestor 0xa000000000000000 0xb000000000000000
    || is_ancestor 0xb000000000000000 0xa000000000000000)
shard_intersects_lem_example = shard_intersects_lem 0xa000000000000000 0xb000000000000000

calc_hash_index_bounds_example :
    (calc_hash_index 5 2 ≡ levels 5 2)
    × (calc_hash_index 5 1 ≤ calc_hash_index 5 2)
    × (calc_hash_index 5 2 ≤ level 5)
    × (calc_hash_index 5 2 ≤ 2)
    × (3 ≤ 2 → calc_hash_index 5 2 ≡ level 5)
    × (calc_hash_index 5 2 ≡ 1)
calc_hash_index_bounds_example = calc_hash_index_bounds 5 1 2 (omega arith) (omega arith)

abbrev buffer : List ℕ
buffer = 0x16 ∷ []

calc_d1_fields_example :
    (mask_of (calc_d1 5 true CellType.merkle_proof 1 ∷ buffer) ≡ ok 5)
    × (is_big_cell (calc_d1 5 true CellType.merkle_proof 1 ∷ buffer) ≡ ok false)
    × (store_hashes (calc_d1 5 true CellType.merkle_proof 1 ∷ buffer) ≡ ok true)
    × (exotic (calc_d1 5 true CellType.merkle_proof 1 ∷ buffer) ≡ ok true)
    × (refs_count (calc_d1 5 true CellType.merkle_proof 1 ∷ buffer) ≡ ok 1)
calc_d1_fields_example =
    calc_d1_fields 5 true CellType.merkle_proof 1 buffer (omega arith) (omega arith)

-- A cell of 11 bits and two references, written and read.
written_cell :
    build_cell_buf ordinary (0xab ∷ 0xf0 ∷ []) 0 2 false none none ≡ ok (2 ∷ 3 ∷ 0xab ∷ 0xf0 ∷ [])
unfolding build_cell_buf calc_d1 calc_d2 with_mask is_valid find_tag
written_cell = refl

read_cell : bit_len (2 ∷ 3 ∷ 0xab ∷ 0xf0 ∷ []) ≡ ok 11
unfolding bit_len is_big_cell data_of data_offset cell_data_len store_hashes hashes_count exotic
    refs_count level_of mask_of with_mask is_valid level find_tag
read_cell = refl

abbrev one_address : AccountIdPrefixFull
one_address = record { workchain_id = 0; prefix = 0x1122334455667788 }

abbrev other_address : AccountIdPrefixFull
other_address = record { workchain_id = 0; prefix = 0xffeeddccbbaa9988 }

interpolate_addr_lem_example :
    address_bits (interpolate_addr one_address other_address 42)
    ≡ take 42 (address_bits other_address) ++ drop 42 (address_bits one_address)
interpolate_addr_lem_example =
    interpolate_addr_lem one_address other_address 42 (omega arith) (omega arith)

out_of_shard : 0x1fffffffffffffff < bit_xor 0 0x3000000000000000
out_of_shard = omega arith

-- From the prefix 0xa1... of the shard 10 to 0xff..., which it does not hold.
abbrev inner_address : AccountIdPrefixFull
inner_address = record { workchain_id = 0; prefix = 0xa122334455667788 }

inner_address_held :
    contains_full_prefix some_shard (interpolate_addr inner_address other_address 0) ≡ true
unfolding contains_full_prefix contains_prefix interpolate_addr prefix_len trailing_zeros
inner_address_held = refl

perform_hypercube_routing_ends_example :
    (cur : IntermediateAddress) × (next : IntermediateAddress) × (hop : AccountIdPrefixFull)
    × (perform_hypercube_routing inner_address other_address some_shard (regular 0)
        ≡ ok (cur, next))
    × (interpolate_addr_intermediate
          (interpolate_addr inner_address other_address 0)
          other_address
          next
        ≡ ok hop)
    × (((contains_full_prefix some_shard other_address ≡ true) × (hop ≡ other_address))
        ⊎ (contains_full_prefix some_shard hop ≡ false))
perform_hypercube_routing_ends_example =
    perform_hypercube_routing_ends inner_address other_address some_shard some_shard_IsValid 0
      (omega arith) (omega arith) inner_address_held

routing_loop_ends_example :
    (cur : IntermediateAddress) × (next : IntermediateAddress) × (routing_loop 17 0
        0x1fffffffffffffff 0 0x3000000000000000 0xffffffffffffffff 0
      ≡ ok (cur, next))
routing_loop_ends_example =
    routing_loop_ends 16 17 0 0x1fffffffffffffff 0 0x3000000000000000 0xffffffffffffffff 0
      (omega arith) (omega arith) refl (omega arith) (omega arith) (inr out_of_shard)

-- Two strings of twelve bits that share eleven.
abbrev twelve_bits : ℕ → SliceData
twelve_bits last = record {
  inner = of_bits (0xab ∷ last ∷ []) 12;
  start = 0;
  stop = 12;
  ref_start = 0;
  ref_stop = 0;
}

shared_eleven :
    common_prefix (twelve_bits 0xc0) (twelve_bits 0xd0)
    ≡ ok (
      some (record (twelve_bits 0xc0) { stop = 11 }),
      (
        some (record (twelve_bits 0xc0) { start = 11 }),
        some (record (twelve_bits 0xd0) { start = 11 }),
      ),
    )
unfolding common_prefix byte_loop same_byte get_byte get_bits bits_at storage remaining_bits
    shrink_data shrink_references bit_width
shared_eleven = refl

-- Twelve bits from a byte's edge on, with the bytes that hold them.
twelve_of_two_bytes :
    remaining_data (record twenty_bits { start = 8; stop = 20 }) ≡ ok (0x34 ∷ 0x56 ∷ [], 12)
unfolding remaining_data
twelve_of_two_bytes = refl

-- Of the mask 101 the index 2 has the hash of level 1.
hash_index_of_101 : calc_hash_index 5 2 ≡ 1
unfolding calc_hash_index with_mask with_level is_valid level
hash_index_of_101 = refl

-- A tag without a prefix in front of it: a prefix of 0 is taken.
no_tag : with_tagged_prefix 0 0 ≡ ok (record { workchain_id = 0; prefix = 0 })
unfolding with_tagged_prefix check_workchain_id
no_tag = refl

-- The reference cut off in front of the window is not the window's first, but the cell's.
abbrev leaf : ℕ → Cell
leaf n = cell ordinary 0 (n ∷ []) 8 no_cells

abbrev second_of_three : SliceData
second_of_three = record {
  inner =
      of_cell (cell ordinary 0 [] 0 (cells (leaf 1) (cells (leaf 2) (cells (leaf 3) no_cells))));
  start = 0;
  stop = 0;
  ref_start = 1;
  ref_stop = 3;
}

cut_of_the_cell :
    shrink_references second_of_three (included 1) unbounded
    ≡ ok (leaf 1 ∷ [], record second_of_three { ref_start = 2 })
unfolding shrink_references collect_references remaining_references reference
cut_of_the_cell = refl
