-- ===== src/Shard.antt =====
-- struct ShardIdent of shard.rs: a workchain and the prefix of the accounts of a shard, a u64 whose
-- lowest one is the tag behind the prefix's bits. An i32 is kept as its bit pattern, a number below
-- 2 ^ 32.
pub mod Address
pub mod Masks
pub mod Prefix
pub mod Family
pub mod Written
pub mod Serial
use block.Common.{
  ℕ, zero, suc, ◌+◌, ◌-◌, ◌*◌, ◌/◌, ◌%◌, ◌^◌, max, Bool, true, false, not, ◌&&◌, ◌||◌, ltb, leb,
  ◌==◌, if◌then◌else◌, Option, none, some, bit_or, bit_and, bit_xor,
}
use block.Types.{
  Outcome, ok, err, panic, ◌>>=◌, ◌>>◌, invalid_arg, invalid_data, require, unwrap_ok, minus,
}
use block.Builder.{BuilderData, empty, append_word, append_bits}
use block.Slice.{SliceData, load_bitstring, remaining_bits}
use block.Slice.Read.{get_next_bit_opt, get_next_int, get_next_byte, get_next_word, bit_width}

abbrev pub max_split_depth : ℕ
max_split_depth = 60

abbrev pub masterchain_id : ℕ
masterchain_id = 0xffffffff

abbrev pub base_workchain_id : ℕ
base_workchain_id = 0

abbrev pub invalid_workchain_id : ℕ
invalid_workchain_id = 0x80000000

abbrev pub shard_full : ℕ
shard_full = 0x8000000000000000

pub record ShardIdent : Type 0 where
  pub workchain_id : ℕ
  pub prefix : ℕ

-- `!v`, `v << n` and the zeros at either end of a u64.
abbrev pub complement : ℕ → ℕ
complement v = 2 ^ 64 - 1 - v

abbrev pub shl : ℕ → ℕ → ℕ
shl v n = v * 2 ^ n % 2 ^ 64

unfoldable pub trailing_zeros : ℕ → ℕ → ℕ
trailing_zeros zero v = 0
trailing_zeros (suc fuel) v =
    let rest = suc (trailing_zeros fuel (v / 2)) in if v % 2 == 1 then 0 else rest

abbrev pub leading_zeros : ℕ → ℕ
leading_zeros v = 64 - bit_width 64 v

unfoldable pub negate_bits : ℕ → ℕ
negate_bits prefix = (complement prefix + 1) % 2 ^ 64

unfoldable pub lower_bits : ℕ → ℕ
lower_bits prefix = bit_and prefix (negate_bits prefix)

unfoldable pub prefix_lower_bits : ShardIdent → ℕ
prefix_lower_bits s = lower_bits s.prefix

-- The length is at most 63: both callers check it against the greatest depth, 60, first.
unfoldable pub add_tag : ℕ → ℕ → ℕ
add_tag prefix len = let tag = 2 ^ (63 - len) in bit_or (bit_and prefix (negate_bits tag)) tag

unfoldable pub prefix_len : ShardIdent → ℕ
prefix_len s = if s.prefix == 0 then 64 else 63 - trailing_zeros 64 s.prefix

abbrev pub masterchain : ShardIdent
masterchain = record { workchain_id = masterchain_id; prefix = shard_full }

abbrev pub full : ℕ → ShardIdent
full wc = record { workchain_id = wc; prefix = shard_full }

unfoldable pub check_workchain_id : ℕ → Outcome (Unit {0})
check_workchain_id wc = require (not (wc == invalid_workchain_id)) invalid_arg

unfoldable pub with_prefix_len : ℕ → ℕ → ℕ → Outcome ShardIdent
with_prefix_len shard_pfx_len wc shard_prefix =
    if ltb max_split_depth shard_pfx_len then err invalid_arg else do
      check_workchain_id wc
      ok (record { workchain_id = wc; prefix = add_tag shard_prefix shard_pfx_len })

unfoldable pub with_tagged_prefix : ℕ → ℕ → Outcome ShardIdent
with_tagged_prefix wc tagged =
    if not (bit_and tagged (complement 0 / 2 ^ (max_split_depth + 1)) == 0)
    then err invalid_arg
    else do check_workchain_id wc; ok (record { workchain_id = wc; prefix = tagged })

-- The loop of `with_prefix_slice`: the bits of the slice from the top of a word. `64 - bits`
-- overflows at the 65th. `fuel` is above the number of the slice's bits.
unfoldable pub prefix_slice_loop : ℕ → SliceData → ℕ → ℕ → Outcome (ℕ × ℕ)
prefix_slice_loop zero s n prefix = ok (n, prefix)
prefix_slice_loop (suc fuel) s n prefix = do
  (bit, s') ← get_next_bit_opt s
  elim bit [
    | none ↦ ok (n, prefix)
    | some b ↦ do
      place ← minus 64 (n + 1)
      prefix_slice_loop fuel s' (n + 1) (bit_or prefix (shl b place))
  ]

unfoldable pub with_prefix_slice : ℕ → SliceData → Outcome ShardIdent
with_prefix_slice wc s = do
  (n, prefix) ← prefix_slice_loop (remaining_bits s + 1) s 0 0
  if ltb max_split_depth n
      then err invalid_arg
      else do check_workchain_id wc; ok (record { workchain_id = wc; prefix = add_tag prefix n })

unfoldable pub with_workchain_id : ℕ → Outcome ShardIdent
with_workchain_id wc = do check_workchain_id wc; ok (full wc)

unfoldable pub shard_prefix_without_tag : ShardIdent → ℕ
shard_prefix_without_tag s = s.prefix - prefix_lower_bits s

unfoldable pub shard_key : ShardIdent → Bool → Outcome SliceData
shard_key s include_workchain = do
  b ← if include_workchain then unwrap_ok (append_word 4 empty s.workchain_id) else ok empty
  b' ←
      if not (s.prefix == shard_full)
      then unwrap_ok (append_bits b (s.prefix / 2 ^ (64 - prefix_len s)) (prefix_len s))
      else ok b
  unwrap_ok (load_bitstring b')

unfoldable pub full_key : ShardIdent → Outcome SliceData
full_key s = do
  b ← append_word 4 empty s.workchain_id
  b' ← append_word 8 b (shard_prefix_without_tag s)
  load_bitstring b'

unfoldable pub full_key_with_tag : ShardIdent → Outcome SliceData
full_key_with_tag s = do
  b ← append_word 4 empty s.workchain_id
  b' ← append_word 8 b s.prefix
  load_bitstring b'

unfoldable pub is_full : ShardIdent → Bool
is_full s = s.prefix == shard_full

unfoldable pub is_masterchain : ShardIdent → Bool
is_masterchain s = s.workchain_id == masterchain_id

unfoldable pub is_masterchain_ext : ShardIdent → Bool
is_masterchain_ext s = is_masterchain s && is_full s

unfoldable pub is_base_workchain : ShardIdent → Bool
is_base_workchain s = s.workchain_id == base_workchain_id

-- From 0 to 255 as an i32.
unfoldable pub is_standard_workchain : ShardIdent → Bool
is_standard_workchain s = ltb s.workchain_id (2 ^ 31) && leb s.workchain_id 255

unfoldable pub merge : ShardIdent → Outcome ShardIdent
merge s =
    let lb = prefix_lower_bits s in
    if s.prefix == shard_full
    then err invalid_arg
    else ok (record s { prefix = bit_or (s.prefix - lb) (shl lb 1) })

unfoldable pub split : ShardIdent → Outcome (ShardIdent × ShardIdent)
split s =
    let lb = prefix_lower_bits s / 2 in
    if not (bit_and lb (complement 0 / 2 ^ (max_split_depth + 1)) == 0)
    then err invalid_arg
    else ok (record s { prefix = s.prefix - lb }, record s { prefix = s.prefix + lb })

unfoldable pub sibling : ShardIdent → ShardIdent
sibling s = record s { prefix = bit_xor s.prefix (shl (bit_and s.prefix (negate_bits s.prefix)) 1) }

unfoldable pub can_split : ShardIdent → Bool
can_split s = ltb (prefix_len s) max_split_depth

unfoldable pub is_parent_for : ShardIdent → ShardIdent → Bool
is_parent_for s child =
    if is_full child
    then false
    else s.workchain_id == child.workchain_id
      && elim (merge child) [ ok parent ↦ s.prefix == parent.prefix | _ ↦ false ]

unfoldable pub is_child_for : ShardIdent → ShardIdent → Bool
is_child_for s parent = is_parent_for parent s

unfoldable pub is_right_child : ShardIdent → Bool
is_right_child s = not (bit_and s.prefix (shl (prefix_lower_bits s) 1) == 0)

unfoldable pub is_left_child : ShardIdent → Bool
is_left_child s = not (is_right_child s)

unfoldable pub contains : ℕ → ℕ → Bool
contains parent child =
    let x = lower_bits parent in bit_and (bit_xor parent child) (shl (negate_bits x) 1) == 0

unfoldable pub is_ancestor : ℕ → ℕ → Bool
is_ancestor parent child =
    let x = lower_bits parent in
    let y = lower_bits child in
    leb y x && bit_and (bit_xor parent child) (shl (negate_bits x) 1) == 0

unfoldable pub is_ancestor_for : ShardIdent → ShardIdent → Bool
is_ancestor_for s descendant =
    s.workchain_id == descendant.workchain_id && is_ancestor s.prefix descendant.prefix

unfoldable pub shard_intersects : ℕ → ℕ → Bool
shard_intersects x y =
    let z = shl (negate_bits (max (lower_bits x) (lower_bits y))) 1 in bit_and (bit_xor x y) z == 0

unfoldable pub intersect_with : ShardIdent → ShardIdent → Bool
intersect_with s other =
    if not (s.workchain_id == other.workchain_id)
    then false
    else shard_intersects s.prefix other.prefix

unfoldable pub shard_intersection : ℕ → ℕ → ℕ
shard_intersection x y = if ltb (lower_bits x) (lower_bits y) then x else y

unfoldable pub is_neighbor_for : ShardIdent → ShardIdent → Bool
is_neighbor_for s other =
    if is_masterchain s || is_masterchain other
    then true
    else let z =
        bit_and (bit_xor s.prefix other.prefix)
          (negate_bits (shl (max (prefix_lower_bits s) (prefix_lower_bits other)) 1)) in
      if z == 0
      then true
      else if not (s.workchain_id == other.workchain_id)
      then false
      else leading_zeros z / 4 + trailing_zeros 64 z / 4 == 15

unfoldable pub contains_prefix : ShardIdent → ℕ → ℕ → Bool
contains_prefix s wc prefix_without_tag =
    if s.workchain_id == wc
    then if s.prefix == shard_full
      then true
      else s.prefix / 2 ^ (64 - prefix_len s) == prefix_without_tag / 2 ^ (64 - prefix_len s)
    else false

unfoldable pub contains_account : ShardIdent → SliceData → Outcome Bool
contains_account s acc_addr = if s.prefix == shard_full then ok true else do
  (addr_pfx, rest) ← get_next_int acc_addr (prefix_len s)
  ok (addr_pfx == s.prefix / 2 ^ (64 - prefix_len s))

unfoldable pub left_ancestor_mask : ShardIdent → Outcome ShardIdent
left_ancestor_mask s = do
  below ← minus s.prefix 1
  with_tagged_prefix s.workchain_id (bit_and below (shl (complement 0) (64 - max_split_depth)))

-- The sum is checked for overflow.
unfoldable pub right_ancestor_mask : ShardIdent → Outcome ShardIdent
right_ancestor_mask s =
    let above = s.prefix + 2 ^ (64 - max_split_depth) in
    if ltb above (2 ^ 64) then with_tagged_prefix s.workchain_id above else panic

unfoldable pub write_to : ShardIdent → BuilderData → Outcome BuilderData
write_to s b = do
  b₁ ← append_word 1 b (prefix_len s)
  b₂ ← append_word 4 b₁ s.workchain_id
  append_word 8 b₂ (shard_prefix_without_tag s)

unfoldable pub read_from : SliceData → Outcome (ShardIdent × SliceData)
read_from cell = do
  (constructor_and_pfx, cell₁) ← get_next_byte cell
  if not (bit_and constructor_and_pfx 0xc0 == 0) then err invalid_data else do
    let shard_pfx_bits = bit_and constructor_and_pfx 0x3f
    if ltb max_split_depth shard_pfx_bits then err invalid_arg else do
      (wc, cell₂) ← get_next_word 4 cell₁
      (shard_prefix, cell₃) ← get_next_word 8 cell₂
      s ← with_prefix_len shard_pfx_bits wc shard_prefix
      ok (s, cell₃)
