-- ===== src/Cell.antt =====
-- cell/mod.rs: cells as values. A cell is what `DataCell` keeps: its type, its level mask, the data
-- bytes (with the completion tag where the last byte is not full), its length in bits, its
-- references.
pub mod LevelMask
pub mod Tag
pub mod Layout
use block.Common.{ℕ, zero, suc, ◌+◌, Bool, true, false, Option, none, some, List, [], ◌∷◌, length}
use block.Common.{get_elem?}
use block.Types.{Outcome, ok_or, Error, exception, cell_underflow}

pub data CellType : Type 0 where
  unknown ordinary pruned_branch library_reference merkle_proof merkle_update big : CellType

mutual
  pub data Cell : Type 0 where
    cell : CellType → ℕ → List ℕ → ℕ → Cells → Cell

  pub data Cells : Type 0 where
    no_cells : Cells
    cells : Cell → Cells → Cells

abbrev pub cell_list : Cells → List Cell
cell_list no_cells = []
cell_list (cells c cs) = c ∷ cell_list cs

abbrev pub cell_chain : List Cell → Cells
cell_chain [] = no_cells
cell_chain (c ∷ cs) = cells c (cell_chain cs)

-- `cell_type()`, `level_mask()`, `data()`, `bit_length()` and `clone_references()`.
abbrev pub cell_type : Cell → CellType
cell_type (cell ty mask data_bytes len refs) = ty

abbrev pub level_mask : Cell → ℕ
level_mask (cell ty mask data_bytes len refs) = mask

abbrev pub cell_data : Cell → List ℕ
cell_data (cell ty mask data_bytes len refs) = data_bytes

abbrev pub bit_length : Cell → ℕ
bit_length (cell ty mask data_bytes len refs) = len

abbrev pub references : Cell → List Cell
references (cell ty mask data_bytes len refs) = cell_list refs

abbrev pub references_count : Cell → ℕ
references_count c = length (references c)

abbrev pub max_data_bits : ℕ
max_data_bits = 1023

abbrev pub max_references_count : ℕ
max_references_count = 4

abbrev pub is_ordinary : CellType → Bool
is_ordinary CellType.ordinary = true
is_ordinary _ = false

abbrev pub is_big : CellType → Bool
is_big CellType.big = true
is_big _ = false

abbrev pub is_pruned : CellType → Bool
is_pruned CellType.pruned_branch = true
is_pruned _ = false

-- `Cell::reference`: `DataCell` answers CellUnderflow past the last reference.
unfoldable pub reference : Cell → ℕ → Outcome Cell
reference c index = ok_or (get_elem? (references c) index) (exception cell_underflow)
