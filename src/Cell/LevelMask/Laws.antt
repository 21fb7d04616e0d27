-- ===== src/Cell/LevelMask/Laws.antt =====
-- The hashes of a cell are counted by its level mask (cell/mod.rs).
use native.Mathlib.Nat.{mod-le}
use block.Common.{
  ℕ, zero, suc, ◌+◌, ◌-◌, ◌/◌, ◌%◌, ◌^◌, ◌≤◌, ◌≡◌, refl, sym, ap, ◌∙◌, arith, min, bit_and, le→leb,
}
use block.Common.Word.{bit_and-low}
use block.Cell.LevelMask.{with_level, is_valid, with_mask, level, calc_hash_index}

-- The ones among the three lowest bits.
abbrev ones : ℕ → ℕ
ones mask = mask % 2 + mask / 2 % 2 + mask / 4 % 2

level_lem : (mask : ℕ) → mask ≤ 7 → level mask ≡ ones mask
unfolding level is_valid
level_lem mask h =
    rw (le→leb mask 7 h)
      (omega (arith, bit_and-low 1 mask, bit_and-low 1 (mask / 2), bit_and-low 1 (mask / 4)))

with_level_lem : (k : ℕ) → k ≤ 3 → with_level k ≡ 2 ^ k - 1
unfolding with_level
with_level_lem zero h = refl
with_level_lem (suc zero) h = refl
with_level_lem (suc (suc zero)) h = refl
with_level_lem (suc (suc (suc zero))) h = refl
with_level_lem (suc (suc (suc (suc k)))) h = absurd (omega arith)

-- How many of the lowest bits of a mask are one, for as many bits as the index says, at most three.
unfoldable pub levels : ℕ → ℕ → ℕ
levels mask zero = 0
levels mask (suc zero) = mask % 2
levels mask (suc (suc zero)) = mask % 2 + mask / 2 % 2
levels mask (suc (suc (suc i))) = ones mask

masked :
    (mask k : ℕ)
    → mask ≤ 7
    → k ≤ 3
    → level (with_mask (bit_and mask (with_level k))) ≡ ones (mask % 2 ^ k)
unfolding with_mask is_valid
masked mask k h le =
    let low : bit_and mask (with_level k) ≡ mask % 2 ^ k =
      ap (bit_and mask) (with_level_lem k le) ∙ bit_and-low k mask in
    let small : mask % 2 ^ k ≤ 7 = omega (arith, mod-le mask (2 ^ k)) in
    rw (low, le→leb (mask % 2 ^ k) 7 small) (level_lem (mask % 2 ^ k) small)

calc_hash_index_lem : (mask index : ℕ) → mask ≤ 7 → calc_hash_index mask index ≡ levels mask index
unfolding calc_hash_index levels
calc_hash_index_lem mask zero h = masked mask 0 h (omega arith) ∙ omega arith
calc_hash_index_lem mask (suc zero) h = masked mask 1 h (omega arith) ∙ omega arith
calc_hash_index_lem mask (suc (suc zero)) h = masked mask 2 h (omega arith) ∙ omega arith
calc_hash_index_lem mask (suc (suc (suc i))) h =
    let top : min (suc (suc (suc i))) 3 ≡ 3 = omega arith in
    ap (λ k. level (with_mask (bit_and mask (with_level k)))) top
    ∙ masked mask 3 h (omega arith)
    ∙ omega arith

levels_monotone : (mask i j : ℕ) → i ≤ j → levels mask i ≤ levels mask j
unfolding levels
levels_monotone mask zero j h = omega arith
levels_monotone mask (suc i) zero h = absurd (omega arith)
levels_monotone mask (suc zero) (suc zero) h = omega arith
levels_monotone mask (suc zero) (suc (suc zero)) h = omega arith
levels_monotone mask (suc zero) (suc (suc (suc j))) h = omega arith
levels_monotone mask (suc (suc i)) (suc zero) h = absurd (omega arith)
levels_monotone mask (suc (suc zero)) (suc (suc zero)) h = omega arith
levels_monotone mask (suc (suc zero)) (suc (suc (suc j))) h = omega arith
levels_monotone mask (suc (suc (suc i))) (suc (suc zero)) h = absurd (omega arith)
levels_monotone mask (suc (suc (suc i))) (suc (suc (suc j))) h = omega arith

levels_bounded :
    (mask j : ℕ)
    → (levels mask j ≤ ones mask) × (levels mask j ≤ j) × (3 ≤ j → levels mask j ≡ ones mask)
unfolding levels
levels_bounded mask zero = (omega arith, omega arith, λ h. absurd (omega arith))
levels_bounded mask (suc zero) = (omega arith, omega arith, λ h. absurd (omega arith))
levels_bounded mask (suc (suc zero)) = (omega arith, omega arith, λ h. absurd (omega arith))
levels_bounded mask (suc (suc (suc j))) = (omega arith, omega arith, λ h. refl)

-- For a mask of three bits, 101 included: `calc_hash_index` is the number of ones among the lowest
-- bits of the mask, as many bits as the index says and at most three. So a later index has no earlier
-- hash, no index passes the level of the cell or itself, and the indices from 3 on give the level.
-- At index 2 of the mask 101 it is 1, where the table in the source has 0.
pub calc_hash_index_bounds :
    (mask i j : ℕ)
    → mask ≤ 7
    → i ≤ j
    → (calc_hash_index mask j ≡ levels mask j)
      × (calc_hash_index mask i ≤ calc_hash_index mask j)
      × (calc_hash_index mask j ≤ level mask)
      × (calc_hash_index mask j ≤ j)
      × (3 ≤ j → calc_hash_index mask j ≡ level mask)
      × (calc_hash_index 5 2 ≡ 1)
unfolding levels
calc_hash_index_bounds mask i j h le =
    let (a, b, c) = levels_bounded mask j in
    let at_j = calc_hash_index_lem mask j h in
    let all = level_lem mask h in
    (
      at_j,
      omega (arith, calc_hash_index_lem mask i h, at_j, levels_monotone mask i j le),
      omega (arith, at_j, all, a),
      omega (arith, at_j, b),
      λ k. at_j ∙ c k ∙ sym all,
      calc_hash_index_lem 5 2 (omega arith) ∙ omega arith,
    )
