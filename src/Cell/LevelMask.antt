-- ===== src/Cell/LevelMask.antt =====
-- LevelMask of cell/mod.rs: which of the three upper hash levels a cell has.
pub mod Laws
use block.Common.{
  ℕ, suc, zero, ◌+◌, ◌/◌, ◌%◌, ◌^◌, Bool, not, ◌||◌, min, bit_or, bit_and, leb, ◌==◌, if◌then◌else◌,
}

-- A mask is a u8, and a `virt_offset` is below 8. A rejected mask is logged and becomes 0.
unfoldable pub with_level : ℕ → ℕ
with_level zero = 0
with_level (suc zero) = 1
with_level (suc (suc zero)) = 3
with_level (suc (suc (suc zero))) = 7
with_level (suc (suc (suc (suc level)))) = 0

unfoldable pub is_valid : ℕ → Bool
is_valid mask = leb mask 7

unfoldable pub with_mask : ℕ → ℕ
with_mask mask = if is_valid mask then mask else 0

unfoldable pub for_merkle_cell : ℕ → ℕ
for_merkle_cell children_mask = children_mask / 2

unfoldable pub level : ℕ → ℕ
level mask =
    if not (is_valid mask)
    then 255
    else bit_and mask 1 + bit_and (mask / 2) 1 + bit_and (mask / 4) 1

unfoldable pub calc_hash_index : ℕ → ℕ → ℕ
calc_hash_index mask index = level (with_mask (bit_and mask (with_level (min index 3))))

unfoldable pub virtualize : ℕ → ℕ → ℕ
virtualize mask virt_offset = with_mask (mask / 2 ^ virt_offset)

unfoldable pub calc_virtual_hash_index : ℕ → ℕ → ℕ → ℕ
calc_virtual_hash_index mask index virt_offset =
    calc_hash_index (with_mask (mask / 2 ^ virt_offset)) index

unfoldable pub is_significant_index : ℕ → ℕ → Bool
is_significant_index mask index = index == 0 || not (bit_and mask (with_level (index % 256)) == 0)

unfoldable pub union : ℕ → ℕ → ℕ
union mask rhs = with_mask (bit_or mask rhs)

-- `|=`, which does not check the mask.
unfoldable pub union_assign : ℕ → ℕ → ℕ
union_assign mask rhs = bit_or mask rhs
