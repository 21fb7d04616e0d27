-- ===== src/Dictionary/Hashmap/Trie.antt =====
-- What a dictionary of dictionary/mod.rs means: a binary trie of bit strings and values, the partial map
-- it stands for, and when a tree of cells is one.
use block.Common.{
  ℕ, suc, ◌-◌, ◌*◌, ◌≤◌, ◌<◌, ◌≡◌, ◌≢◌, refl, ap, Bool, true, false, List, [], ◌∷◌, ◌++◌, length,
  take, All, Option, none, some,
}
use block.Common.Bytes.{IsByte, flat}
use block.Cell.{Cell, is_pruned, is_big, cell_type, cell_data, bit_length, references}
use block.Dictionary.Label.{length_bits}
use block.Dictionary.Label.Format.{HmLabel, encoding, Suits}

-- A value: bits and references.
abbrev pub Value : Type 0
Value = List Bool × List Cell

pub data Trie : Type 0 where
  leaf : List Bool → Value → Trie
  fork : List Bool → Trie → Trie → Trie

-- What stands behind a prefix, if the list starts with it.
unfoldable pub strip : List Bool → List Bool → Option (List Bool)
strip [] ys = some ys
strip (x ∷ xs) [] = none
strip (true ∷ xs) (true ∷ ys) = strip xs ys
strip (false ∷ xs) (false ∷ ys) = strip xs ys
strip (true ∷ xs) (false ∷ ys) = none
strip (false ∷ xs) (true ∷ ys) = none

abbrev pub at_leaf : Value → Option (List Bool) → Option Value
at_leaf v (some []) = some v
at_leaf v (some (x ∷ xs)) = none
at_leaf v none = none

abbrev pub at_fork :
    (List Bool → Option Value) → (List Bool → Option Value) → Option (List Bool) → Option Value
at_fork left right (some (false ∷ key)) = left key
at_fork left right (some (true ∷ key)) = right key
at_fork left right (some []) = none
at_fork left right none = none

-- The value under a key.
unfoldable pub lookup : Trie → List Bool → Option Value
lookup (leaf label v) key = at_leaf v (strip label key)
lookup (fork label t0 t1) key =
    at_fork (λ rest. lookup t0 rest) (λ rest. lookup t1 rest) (strip label key)

-- A cell that can be loaded, with a label and the bits `rest` behind it.
pub record Labelled (n : ℕ) (c : Cell) (label rest : List Bool) : Type 0 where
  pub not_pruned : is_pruned (cell_type c) ≡ false
  pub not_big : is_big (cell_type c) ≡ false
  pub fits : bit_length c ≤ 8 * length (cell_data c)
  pub bytes : All IsByte (cell_data c)
  pub format : HmLabel
  pub suits : Suits format label
  pub holds :
      take (bit_length c) (flat (cell_data c)) ≡ encoding format (length_bits n) label ++ rest

-- The cell is the root of a tree of cells for the trie, with keys of `n` bits.
unfoldable pub Represents : ℕ → Cell → Trie → Type 0
Represents n c (leaf label (value_bits, refs)) =
    (length label ≡ n) × Labelled n c label value_bits × (references c ≡ refs)
Represents n c (fork label t0 t1) =
    (length label < n)
    × (rest : List Bool) × (c0 : Cell) × (c1 : Cell) × (others : List Cell) × Labelled n c label
        rest
    × (references c ≡ c0 ∷ c1 ∷ others)
    × Represents (n - suc (length label)) c0 t0
    × Represents (n - suc (length label)) c1 t1

pub strip-append : (xs rest : List Bool) → strip xs (xs ++ rest) ≡ some rest
unfolding strip
strip-append [] rest = refl
strip-append (true ∷ xs) rest = strip-append xs rest
strip-append (false ∷ xs) rest = strip-append xs rest

pub strip-none : (xs ys : List Bool) → ((rest : List Bool) → ys ≢ xs ++ rest) → strip xs ys ≡ none
unfolding strip
strip-none [] ys never = absurd (never ys refl)
strip-none (x ∷ xs) [] never = refl
strip-none (true ∷ xs) (true ∷ ys) never =
    strip-none xs ys (λ rest e. never rest (ap (λ l. true ∷ l) e))
strip-none (false ∷ xs) (false ∷ ys) never =
    strip-none xs ys (λ rest e. never rest (ap (λ l. false ∷ l) e))
strip-none (true ∷ xs) (false ∷ ys) never = refl
strip-none (false ∷ xs) (true ∷ ys) never = refl
