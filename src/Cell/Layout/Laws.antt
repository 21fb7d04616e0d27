-- ===== src/Cell/Layout/Laws.antt =====
-- What is written into the description bytes of a cell is what the readers of cell/mod.rs find.
use native.Mathlib.Nat.{pow-succ', div-div-eq-div-mul}
use block.Common.{
  ℕ, zero, suc, ◌+◌, ◌*◌, ◌/◌, ◌%◌, ◌^◌, ◌≤◌, ◌<◌, ◌≡◌, ◌≢◌, refl, ap, ap₂, ◌∙◌, arith, Bool, true,
  false, not, List, ◌∷◌, ◌==◌, le→leb, ==_ne, ==_refl, bit_or, bit_and,
}
use block.Common.Word.{bit_and-low, bit_or-add}
use block.Common.Word.Digits.{bit_and_lowest}
use block.Types.{ok}
use block.Cell.{CellType, is_ordinary}
use block.Cell.LevelMask.{with_mask, is_valid}
use block.Cell.Layout.{
  calc_d1, calc_d2, flag, mask_of, is_big_cell, store_hashes, exotic, refs_count, cell_data_len,
  big_cell_d1,
}

-- One bit of a number.
bit_and-bit : (j d : ℕ) → bit_and d (2 ^ j) ≡ d / 2 ^ j % 2 * 2 ^ j
bit_and-bit zero d = bit_and-low 1 d ∙ omega arith
bit_and-bit (suc j) d = omega (
  arith,
  bit_and_lowest d (2 ^ suc j),
  pow-succ' 2 j,
  ap (bit_and (d / 2)) half,
  bit_and-bit j (d / 2),
  ap (λ (t : ℕ). t % 2 * 2 ^ suc j) same,
  ap (λ (t : ℕ). d / 2 / 2 ^ j % 2 * t) (pow-succ' 2 j),
)
  where
    half : 2 ^ suc j / 2 ≡ 2 ^ j
    half = omega (arith, pow-succ' 2 j)

    same : d / 2 / 2 ^ j ≡ d / 2 ^ suc j
    same = div-div-eq-div-mul d 2 (2 ^ j) ∙ ap (λ (t : ℕ). d / t) (omega (arith, pow-succ' 2 j))

flag-below : (b : Bool) → flag b ≤ 1
flag-below true = omega arith
flag-below false = omega arith

flag_test : (b : Bool) (n : ℕ) → 0 < n → (flag b * n == n) ≡ b
flag_test true n pos = let e : 1 * n ≡ n = omega arith in ap (λ t. t == n) e ∙ ==_refl n
flag_test false n pos = ==_ne (0 * n) n (omega arith)

-- The first description byte as a sum of its fields.
d1_sum :
    (mask s e refs : ℕ)
    → mask ≤ 7
    → s ≤ 1
    → e ≤ 1
    → refs ≤ 4
    → bit_or (bit_or (bit_or (mask * 2 ^ 5 % 256) (s * 16)) (e * 8)) (refs % 256)
      ≡ mask * 32 + s * 16 + e * 8 + refs
d1_sum mask s e refs hm hs he hr =
    ap₂ bit_or
      (ap (λ t. bit_or t (e * 8))
          (ap (λ t. bit_or t (s * 16)) top ∙ bit_or-add 5 mask (s * 16) (omega arith) ∙ second)
        ∙ bit_or-add 4 (mask * 2 + s) (e * 8) (omega arith)
        ∙ third)
      low
    ∙ bit_or-add 3 (mask * 4 + s * 2 + e) refs (omega arith)
    ∙ omega arith
  where
    top : mask * 2 ^ 5 % 256 ≡ mask * 2 ^ 5
    top = omega arith

    second : mask * 2 ^ 5 + s * 16 ≡ (mask * 2 + s) * 2 ^ 4
    second = omega arith

    third : (mask * 2 + s) * 2 ^ 4 + e * 8 ≡ (mask * 4 + s * 2 + e) * 2 ^ 3
    third = omega arith

    low : refs % 256 ≡ refs
    low = omega arith

module _ (mask s e refs d : ℕ) (hm : mask ≤ 7) (hs : s ≤ 1) (he : e ≤ 1) (hr : refs ≤ 4)
    (sum : d ≡ mask * 32 + s * 16 + e * 8 + refs) where
  mask_field : with_mask (d / 2 ^ 5) ≡ mask
  unfolding with_mask is_valid
  mask_field = let f : d / 2 ^ 5 ≡ mask = omega arith in rw (f, le→leb mask 7 hm) refl

  not_big : (d == big_cell_d1) ≡ false
  not_big = ==_ne d big_cell_d1 (omega arith)

  hashes_field : bit_and d 16 ≡ s * 16
  hashes_field = bit_and-bit 4 d ∙ omega arith

  exotic_field : bit_and d 8 ≡ e * 8
  exotic_field = bit_and-bit 3 d ∙ omega arith

  refs_field : bit_and d 7 ≡ refs
  refs_field = bit_and-low 3 d ∙ omega arith

-- A first description byte made of a mask of three bits and at most four references is that of no
-- big cell, and gives back the mask, whether hashes are stored, whether the cell is exotic, and the
-- number of references.
pub calc_d1_fields :
    (mask : ℕ) (stored : Bool) (ty : CellType) (refs : ℕ) (rest : List ℕ)
    → mask ≤ 7
    → refs ≤ 4
    → (mask_of (calc_d1 mask stored ty refs ∷ rest) ≡ ok mask)
      × (is_big_cell (calc_d1 mask stored ty refs ∷ rest) ≡ ok false)
      × (store_hashes (calc_d1 mask stored ty refs ∷ rest) ≡ ok stored)
      × (exotic (calc_d1 mask stored ty refs ∷ rest) ≡ ok (not (is_ordinary ty)))
      × (refs_count (calc_d1 mask stored ty refs ∷ rest) ≡ ok refs)
unfolding mask_of is_big_cell store_hashes exotic refs_count
calc_d1_fields mask stored ty refs rest hm hr =
    let d = calc_d1 mask stored ty refs in
    let s = flag stored in
    let e = flag (not (is_ordinary ty)) in
    let hs = flag-below stored in
    let he = flag-below (not (is_ordinary ty)) in
    let small = not_big mask s e refs d hm hs he hr sum in
    (
      ap ok (mask_field mask s e refs d hm hs he hr sum),
      ap ok small,
      rw small (
          ap (λ t. ok (t == 16)) (hashes_field mask s e refs d hm hs he hr sum)
          ∙ ap ok (flag_test stored 16 (omega arith))),
      ap (λ t. ok (t == 8)) (exotic_field mask s e refs d hm hs he hr sum)
          ∙ ap ok (flag_test (not (is_ordinary ty)) 8 (omega arith)),
      rw small (ap ok (refs_field mask s e refs d hm hs he hr sum)),
    )
  where
    sum :
        calc_d1 mask stored ty refs
        ≡ mask * 32 + flag stored * 16 + flag (not (is_ordinary ty)) * 8 + refs
    sum =
        unfold calc_d1 in
        d1_sum mask (flag stored) (flag (not (is_ordinary ty))) refs hm (flag-below stored)
          (flag-below (not (is_ordinary ty))) hr

-- Behind the byte of a cell that is not big, the second description byte of at most 1023 bits gives
-- the number of bytes that hold them.
pub cell_data_len-calc_d2 :
    (d1 len : ℕ) (rest : List ℕ)
    → d1 ≢ big_cell_d1
    → len ≤ 1023
    → cell_data_len (d1 ∷ calc_d2 len ∷ rest) ≡ ok ((len + 7) / 8)
unfolding cell_data_len is_big_cell calc_d2
cell_data_len-calc_d2 d1 len rest other short =
    rw (==_ne d1 big_cell_d1 other) (ap ok (bytes_of (len % 8 == 0) refl))
  where
    bytes_of :
        (b : Bool)
        → (len % 8 == 0) ≡ b
        → (len / 8 * 2 % 256 + flag (not b)) / 2 + bit_and (len / 8 * 2 % 256 + flag (not b)) 1
          ≡ (len + 7) / 8
    bytes_of true whole = ground (arith, bit_and-low 1 (len / 8 * 2 % 256 + 0))
    bytes_of false part = ground (arith, bit_and-low 1 (len / 8 * 2 % 256 + 1))
