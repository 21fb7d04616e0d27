-- ===== src/Shard/Address.antt =====
-- struct AccountIdPrefixFull of shard.rs and hypercube routing, with IntermediateAddress of
-- envelope_message.rs.
pub mod Laws
pub mod Routing
pub mod Range
pub mod Hops
use block.Common.{
  ℕ, zero, suc, ◌+◌, ◌-◌, ◌/◌, ◌^◌, Bool, true, false, not, ◌||◌, ltb, leb, ◌==◌, if◌then◌else◌,
  bit_or, bit_and, bit_xor,
}
use block.Types.{Outcome, ok, err, panic, ◌>>=◌, ◌>>◌, message, invalid_arg, minus, assert}
use block.Slice.Read.{bit_width}
use block.Shard.{
  ShardIdent, masterchain_id, invalid_workchain_id, shard_full, max_split_depth, complement, shl,
  leading_zeros, with_tagged_prefix, contains_prefix,
}

pub record AccountIdPrefixFull : Type 0 where
  pub workchain_id : ℕ
  pub prefix : ℕ

unfoldable pub is_valid : AccountIdPrefixFull → Bool
is_valid a = not (a.workchain_id == invalid_workchain_id)

unfoldable pub is_masterchain : AccountIdPrefixFull → Bool
is_masterchain a = a.workchain_id == masterchain_id

abbrev pub any_masterchain : AccountIdPrefixFull
any_masterchain = record { workchain_id = masterchain_id; prefix = shard_full }

unfoldable pub shard_ident : AccountIdPrefixFull → Outcome ShardIdent
shard_ident a =
    with_tagged_prefix a.workchain_id (bit_and a.prefix (shl (complement 0) (64 - max_split_depth)))

-- `FULL_BITS`
abbrev pub full_bits : ℕ
full_bits = 96

-- `dest_bits` bits of `dest` and the others of `a`, counted over the 32 of the workchain and the 64 of
-- the prefix; the source's comment counts 64 bits in all.
unfoldable pub interpolate_addr :
    AccountIdPrefixFull → AccountIdPrefixFull → ℕ → AccountIdPrefixFull
interpolate_addr a dest dest_bits =
    if dest_bits == 0
    then a
    else if leb full_bits dest_bits
    then dest
    else if leb 32 dest_bits
    then (let mask = (2 ^ 64 - 1) / 2 ^ (dest_bits - 32) in
        record {
          workchain_id = dest.workchain_id;
          prefix = bit_or (bit_and dest.prefix (complement mask)) (bit_and a.prefix mask);
        })
    else let mask = (2 ^ 32 - 1) / 2 ^ dest_bits in
      record {
        workchain_id =
            bit_or (bit_and dest.workchain_id (2 ^ 32 - 1 - mask)) (bit_and a.workchain_id mask);
        prefix = a.prefix;
      }

unfoldable pub count_matching_bits : AccountIdPrefixFull → AccountIdPrefixFull → ℕ
count_matching_bits a other =
    if not (a.workchain_id == other.workchain_id)
    then 32 - bit_width 32 (bit_xor a.workchain_id other.workchain_id)
    else if not (a.prefix == other.prefix)
    then 32 + leading_zeros (bit_xor a.prefix other.prefix)
    else 96

unfoldable pub contains_full_prefix : ShardIdent → AccountIdPrefixFull → Bool
contains_full_prefix s a = contains_prefix s a.workchain_id a.prefix

-- enum IntermediateAddress: the bits taken from the destination, or an address by itself.
pub data IntermediateAddress : Type 0 where
  regular : ℕ → IntermediateAddress
  simple ext : ℕ → ℕ → IntermediateAddress

unfoldable pub use_dest_bits : ℕ → Outcome IntermediateAddress
use_dest_bits n = if ltb full_bits n then err invalid_arg else ok (regular n)

abbrev pub full_dest : IntermediateAddress
full_dest = regular full_bits

unfoldable pub interpolate_addr_intermediate :
    AccountIdPrefixFull → AccountIdPrefixFull → IntermediateAddress → Outcome AccountIdPrefixFull
interpolate_addr_intermediate a dest (regular n) = ok (interpolate_addr a dest n)
interpolate_addr_intermediate a dest _ = err message

-- Addition of two u8, with its overflow check.
unfoldable pub byte_add : ℕ → ℕ → Outcome ℕ
byte_add a b = if leb (a + b) 255 then ok (a + b) else panic

-- The loop that looks for the first four bits that lead out of the shard, which holds the numbers
-- from `x` to `y`. Sixteen rounds clear the mask. There is no other way out of the loop, so if the
-- destination itself is in the shard it goes on until `i` overflows, in the 64th round at the latest:
-- with 64 rounds of `fuel`, running out of it never comes first.
unfoldable pub routing_loop :
    ℕ → ℕ → ℕ → ℕ → ℕ → ℕ → ℕ → Outcome (IntermediateAddress × IntermediateAddress)
routing_loop zero x y t q m i = panic
routing_loop (suc fuel) x y t q m i =
    let m' = m / 2 ^ 4 in
    let h = bit_xor t (bit_and q (complement m')) in
    let rest = routing_loop fuel x y t q m' (i + 4) in
    do
      i' ← byte_add i 4
      if ltb h x || ltb y h
          then (do
            cur_bits ← byte_add 28 i'
            cur_prefix ← use_dest_bits cur_bits
            next_bits ← byte_add 32 i'
            next_prefix ← use_dest_bits next_bits
            ok (cur_prefix, next_prefix))
          else rest

-- `u64::MAX >> i` overflows if `i` is 64.
unfoldable pub perform_hypercube_routing :
    AccountIdPrefixFull
    → AccountIdPrefixFull
    → ShardIdent
    → IntermediateAddress
    → Outcome (IntermediateAddress × IntermediateAddress)
perform_hypercube_routing a dest cur_shard ia = do
  transit ← interpolate_addr_intermediate a dest ia
  if not (contains_full_prefix cur_shard transit)
      then err message
      else if contains_full_prefix cur_shard dest
      then ok (full_dest, full_dest)
      else if is_masterchain transit || is_masterchain dest
      then ok (ia, full_dest)
      else if not (transit.workchain_id == dest.workchain_id)
      then (do next ← use_dest_bits 32; ok (ia, next))
      else do
        below ← minus cur_shard.prefix 1
        let x = bit_and cur_shard.prefix below
        let y = bit_or cur_shard.prefix below
        let t = transit.prefix
        let q = bit_xor dest.prefix t
        let i = bit_and (leading_zeros q) 0xfc
        assert (ltb i 64)
        routing_loop 64 x y t q ((2 ^ 64 - 1) / 2 ^ i) i
