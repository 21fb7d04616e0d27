-- ===== src/Cell/Layout.antt =====
-- The serialized form of a cell in cell/mod.rs: two description bytes, hashes and depths if they are
-- stored, and the data. The readers index the buffer, and panic out of its bounds.
pub mod Laws
use block.Common.{
  ℕ, zero, suc, ◌+◌, ◌-◌, ◌*◌, ◌/◌, ◌%◌, ◌^◌, Bool, true, false, not, ◌&&◌, ◌||◌, List, [], ◌∷◌,
  ◌++◌, length, take, drop, get_elem?, ltb, leb, ◌==◌, if◌then◌else◌, Option, none, some, bit_or,
  bit_and,
}
use block.Types.{Outcome, ok, err, panic, ◌>>=◌, ◌>>◌, message, require, unwrap, sub_slice}
use block.Cell.{
  CellType, unknown, ordinary, pruned_branch, library_reference, merkle_proof, merkle_update, big,
  is_ordinary, is_big, is_pruned, max_references_count,
}
use block.Cell.LevelMask
use block.Cell.LevelMask.{with_mask}
use block.Cell.Tag.{find_tag}

abbrev pub sha256_size : ℕ
sha256_size = 32

abbrev pub depth_size : ℕ
depth_size = 2

abbrev pub max_data_bytes : ℕ
max_data_bytes = 128

abbrev pub max_big_data_bytes : ℕ
max_big_data_bytes = 0xffffff

abbrev pub max_level_mask : ℕ
max_level_mask = 7

abbrev pub big_cell_d1 : ℕ
big_cell_d1 = 13

-- `b as u8`
abbrev pub flag : Bool → ℕ
flag true = 1
flag false = 0

unfoldable pub calc_d1 : ℕ → Bool → CellType → ℕ → ℕ
calc_d1 mask stored ty refs =
    bit_or
      (bit_or (bit_or (mask * 2 ^ 5 % 256) (flag stored * 16)) (flag (not (is_ordinary ty)) * 8))
      (refs % 256)

unfoldable pub calc_d2 : ℕ → ℕ
calc_d2 data_bit_len = data_bit_len / 8 * 2 % 256 + flag (not (data_bit_len % 8 == 0))

-- `CellType::try_from`
unfoldable pub try_from : ℕ → Outcome CellType
try_from num =
    if num == 1
    then ok pruned_branch
    else if num == 2
    then ok library_reference
    else if num == 3
    then ok merkle_proof
    else if num == 4
    then ok merkle_update
    else if num == 5
    then ok big
    else if num == 0xff
    then ok ordinary
    else err message

-- `u8::from`
unfoldable pub from_type : CellType → ℕ
from_type unknown = 0
from_type ordinary = 0xff
from_type pruned_branch = 1
from_type library_reference = 2
from_type merkle_proof = 3
from_type merkle_update = 4
from_type big = 5

unfoldable pub mask_of : List ℕ → Outcome ℕ
mask_of buf = do d1 ← unwrap (get_elem? buf 0); ok (with_mask (d1 / 2 ^ 5))

unfoldable pub level_of : List ℕ → Outcome ℕ
level_of buf = do mask ← mask_of buf; ok (LevelMask.level mask)

unfoldable pub is_big_cell : List ℕ → Outcome Bool
is_big_cell buf = do d1 ← unwrap (get_elem? buf 0); ok (d1 == big_cell_d1)

unfoldable pub store_hashes : List ℕ → Outcome Bool
store_hashes buf = do
  d1 ← unwrap (get_elem? buf 0)
  ok (if d1 == big_cell_d1 then false else bit_and d1 16 == 16)

unfoldable pub exotic : List ℕ → Outcome Bool
exotic buf = do d1 ← unwrap (get_elem? buf 0); ok (bit_and d1 8 == 8)

unfoldable pub refs_count : List ℕ → Outcome ℕ
refs_count buf = do
  d1 ← unwrap (get_elem? buf 0)
  ok (if d1 == big_cell_d1 then 0 else bit_and d1 7)

-- The length of a big cell, in three bytes.
unfoldable pub big_data_len : List ℕ → Outcome ℕ
big_data_len buf = do
  high ← unwrap (get_elem? buf 1)
  middle ← unwrap (get_elem? buf 2)
  low ← unwrap (get_elem? buf 3)
  ok (bit_or (bit_or (high * 2 ^ 16) (middle * 2 ^ 8)) low)

unfoldable pub cell_data_len : List ℕ → Outcome ℕ
cell_data_len buf = do
  large ← is_big_cell buf
  if large then big_data_len buf else (do d2 ← unwrap (get_elem? buf 1); ok (d2 / 2 + bit_and d2 1))

unfoldable pub hashes_count : List ℕ → Outcome ℕ
hashes_count buf = do
  special ← exotic buf
  refs ← refs_count buf
  level ← level_of buf
  ok (if special && refs == 0 && not (level == 0) then 1 else level + 1)

unfoldable pub data_offset : List ℕ → Outcome ℕ
data_offset buf = do
  large ← is_big_cell buf
  if large then ok 4 else (do
    stored ← store_hashes buf
    count ← hashes_count buf
    ok (2 + flag stored * count * (sha256_size + depth_size)))

unfoldable pub data_of : List ℕ → Outcome (List ℕ)
data_of buf = do
  offset ← data_offset buf
  len ← cell_data_len buf
  sub_slice buf offset (offset + len)

unfoldable pub type_of : List ℕ → Outcome CellType
type_of buf = do
  special ← exotic buf
  large ← is_big_cell buf
  if not special then ok ordinary else if large then ok big else (do
    data_bytes ← data_of buf
    ok (elim (get_elem? data_bytes 0) [
      | none ↦ unknown
      | some byte ↦ elim (try_from byte) [ ok ty ↦ ty | _ ↦ unknown ]
    ]))

unfoldable pub bit_len : List ℕ → Outcome ℕ
bit_len buf = do
  large ← is_big_cell buf
  if large then (do len ← big_data_len buf; ok (len * 8)) else (do
    d2 ← unwrap (get_elem? buf 1)
    if bit_and d2 1 == 0
        then ok (d2 / 2 * 8)
        else (do data_bytes ← data_of buf; ok (find_tag data_bytes)))

unfoldable pub full_len : List ℕ → Outcome ℕ
full_len buf = do offset ← data_offset buf; len ← cell_data_len buf; ok (offset + len)

unfoldable pub hashes_len : List ℕ → Outcome ℕ
hashes_len buf = do count ← hashes_count buf; ok (count * sha256_size)

unfoldable pub hash : List ℕ → ℕ → Outcome (List ℕ)
hash buf index = sub_slice buf (2 + index * sha256_size) (2 + index * sha256_size + sha256_size)

unfoldable pub depths_offset : List ℕ → Outcome ℕ
depths_offset buf = do len ← hashes_len buf; ok (2 + len)

unfoldable pub depth : List ℕ → ℕ → Outcome ℕ
depth buf index = do
  start ← depths_offset buf
  d ← sub_slice buf (start + index * depth_size) (start + index * depth_size + depth_size)
  high ← unwrap (get_elem? d 0)
  low ← unwrap (get_elem? d 1)
  ok (bit_or (high * 256 % 65536) low)

-- The three low bytes of the length are written behind the mark of a big cell.
unfoldable pub build_big_cell_buf :
    List ℕ → ℕ → ℕ → Bool → Option (List (List ℕ)) → Option (List ℕ) → Outcome (List ℕ)
build_big_cell_buf data_bytes mask refs stored hashes depths =
    if not (mask == 0)
    then err message
    else if not (refs == 0)
    then err message
    else if stored || present hashes || present depths
    then err message
    else if ltb max_big_data_bytes (length data_bytes)
    then err message
    else ok (
        big_cell_d1
        ∷ length data_bytes / 2 ^ 16 % 256
        ∷ length data_bytes / 2 ^ 8 % 256
        ∷ length data_bytes % 256
        ∷ data_bytes)
  where
    present : {A : Type 0} → Option A → Bool
    present none = false
    present (some a) = true

-- `hashes` and `depths` as they are stored, `count` of each: 32 bytes and a u16.
abbrev pub stored_prefix : List (List ℕ) → List ℕ → ℕ → List ℕ
stored_prefix hashes depths count = flatten (take count hashes) ++ words (take count depths)
  where
    flatten : List (List ℕ) → List ℕ
    flatten [] = []
    flatten (h ∷ hs) = h ++ flatten hs

    words : List ℕ → List ℕ
    words [] = []
    words (d ∷ ds) = d / 2 ^ 8 % 256 ∷ bit_and d 0xff ∷ words ds

unfoldable pub build_cell_buf :
    CellType → List ℕ → ℕ → ℕ → Bool → Option (List (List ℕ)) → Option (List ℕ) → Outcome (List ℕ)
build_cell_buf ty data_bytes mask refs stored hashes depths =
    if is_big ty
    then err message
    else if not (is_ordinary ty) && length data_bytes == 1
    then err message
    else if ltb max_data_bytes (length data_bytes)
    then err message
    else if ltb max_references_count refs
    then err message
    else if ltb max_level_mask mask
    then err message
    else do
      let data_bit_len = find_tag data_bytes
      let data_len = data_bit_len / 8 + flag (not (data_bit_len % 8 == 0))
      let level = LevelMask.level (with_mask mask)
      let count = if is_pruned ty then 1 else level + 1
      front ← if stored then with_hashes count hashes depths else ok []
      body ← sub_slice data_bytes 0 data_len
      ok (calc_d1 (with_mask mask) stored ty refs ∷ calc_d2 data_bit_len ∷ front ++ body)
  where
    with_hashes : ℕ → Option (List (List ℕ)) → Option (List ℕ) → Outcome (List ℕ)
    with_hashes count (some hs) (some ds) = ok (stored_prefix hs ds count)
    with_hashes count _ _ = err message
