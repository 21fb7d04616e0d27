-- ===== src/Dictionary/Label/Front.antt =====
-- The parts of a label at the front of a cursor, and what `LabelReader` of dictionary/mod.rs makes of
-- each.
use block.Common.{
  ℕ, ◌⊎◌, zero, suc, ◌+◌, ◌-◌, ◌*◌, ◌/◌, ◌%◌, ◌≤◌, ◌<◌, ◌≡◌, refl, sym, ap, ap₂, ◌∙◌, subst, arith,
  Bool, true, false, List, [], ◌∷◌, ◌++◌, append_assoc, length, take, replicate, if◌then◌else◌,
  length-append, length-replicate, replicate-add, le→leb, leb-false, inl, inr, All,
}
use block.Common.Word.{bits}
use block.Common.Bytes.{IsByte, flat}
use block.Types.{ok, err, exception, cell_underflow}
use block.Builder.{BuilderData, append_raw}
use block.Builder.Content.{content, Adds, Extends-Adds, append_raw_content}
use block.Builder.Content
use block.Slice.{SliceData, remaining_bits, is_empty, shrink_data, included, unbounded}
use block.Slice.Read.{bit_width, get_next_bit, get_next_size}
use block.Slice.Window.{IsValid, window, length-window, remaining_bits_lem}
use block.Slice.Cursor.{
  Passed, Bare, Passed-trans, get_next_bit_front, get_next_bit_none, get_next_size_front,
  shrink_data_front,
}
use block.Dictionary.Label.{
  length_bits, LabelKind, short_label, long_label, same_label, count_ones, unary_length, cut_label,
  label_kind, get_label_short, get_label_long, get_label_same,
}
use block.Dictionary.Label.Format.{HmLabel, hml_short, hml_long, hml_same, encoding}

count_ones_front :
    (fuel n : ℕ) (s : SliceData) (rest : List Bool)
    → IsValid s
    → n < fuel
    → window s ≡ replicate n true ++ false ∷ rest
    → (s' : SliceData) × (count_ones fuel s ≡ ok (n, s')) × Passed s rest s'
unfolding count_ones
count_ones_front zero n s rest valid lt holds = absurd (omega arith)
count_ones_front (suc fuel) zero s rest valid lt holds =
    let (s', r, passed) = get_next_bit_front s false rest valid holds in (s', rw r refl, passed)
count_ones_front (suc fuel) (suc n) s rest valid lt holds =
    let (s1, r, passed) =
      get_next_bit_front s true (replicate n true ++ false ∷ rest) valid holds in
    let (s', r', passed') =
      count_ones_front fuel n s1 rest passed.valid (omega arith) passed.left in
    (s', rw (r, r') refl, Passed-trans passed passed')

count_ones_none :
    (fuel n : ℕ) (s : SliceData)
    → IsValid s
    → n < fuel
    → window s ≡ replicate n true
    → count_ones fuel s ≡ err (exception cell_underflow)
unfolding count_ones
count_ones_none zero n s valid lt holds = absurd (omega arith)
count_ones_none (suc fuel) zero s valid lt holds = rw (get_next_bit_none s valid holds) refl
count_ones_none (suc fuel) (suc n) s valid lt holds =
    let (s1, r, passed) = get_next_bit_front s true (replicate n true) valid holds in
    rw (r, count_ones_none fuel n s1 passed.valid (omega arith) passed.left) refl

-- A list of bits is all ones, or has a first zero.
ones_first :
    (xs : List Bool)
    → (xs ≡ replicate (length xs) true)
      ⊎ ((n : ℕ) × (rest : List Bool) × (xs ≡ replicate n true ++ false ∷ rest))
ones_first [] = inl refl
ones_first (false ∷ xs) = inr (0, xs, refl)
ones_first (true ∷ xs) = elim (ones_first xs) [
  | inl all ↦ inl (ap (λ l. true ∷ l) all)
  | inr (n, rest, e) ↦ inr (suc n, rest, ap (λ l. true ∷ l) e)
]

-- The loop that counts the ones at the cursor ends on every valid slice: behind the first zero, with
-- the number of ones before it, or with a CellUnderflow if there are only ones.
pub unary_length_ends :
    (s : SliceData)
    → IsValid s
    → ((window s ≡ replicate (length (window s)) true)
        × (unary_length s ≡ err (exception cell_underflow)))
      ⊎ ((n : ℕ) × (rest : List Bool) × (s' : SliceData) × (window s
            ≡ replicate n true ++ false ∷ rest)
          × (unary_length s ≡ ok (n, s'))
          × Passed s rest s')
unfolding unary_length
unary_length_ends s valid = elim (ones_first (window s)) [
  | inl all ↦ inl (
    all,
    count_ones_none (suc (remaining_bits s)) (length (window s)) s valid
        (omega (arith, length-window s valid)) all,
  )
  | inr (n, rest, e) ↦
      let (s', r, passed) =
        count_ones_front (suc (remaining_bits s)) n s rest valid (short n rest e) e in
      inr (n, rest, s', e, r, passed)
]
  where
    short :
        (n : ℕ) (rest : List Bool)
        → window s ≡ replicate n true ++ false ∷ rest
        → n < suc (remaining_bits s)
    short n rest e = omega (
      arith,
      length-window s valid,
      ap length e,
      length-append (replicate n true) (false ∷ rest),
      length-replicate n true,
    )

pub unary_length_front :
    (s : SliceData) (n : ℕ) (rest : List Bool)
    → IsValid s
    → window s ≡ replicate n true ++ false ∷ rest
    → (s' : SliceData) × (unary_length s ≡ ok (n, s')) × Passed s rest s'
unfolding unary_length
unary_length_front s n rest valid e =
    count_ones_front (suc (remaining_bits s)) n s rest valid
      (omega (
        arith,
        length-window s valid,
        ap length e,
        length-append (replicate n true) (false ∷ rest),
        length-replicate n true,
      ))
      e

cut_label_front :
    (s : SliceData) (max : ℕ) (kb rest : List Bool)
    → IsValid s
    → length kb ≤ max
    → window s ≡ kb ++ rest
    → (label : SliceData) × (s' : SliceData) × (cut_label s max (length kb)
        ≡ ok (label, max - length kb, s'))
      × Bare label
      × (window label ≡ kb)
      × Passed s rest s'
cut_label_front s max kb rest valid le holds =
    let (label, s', e, valid_label, bits_label, passed) =
      shrink_data_front s kb rest (length kb) valid refl holds in
    (label, s', runs label s' e, valid_label, bits_label, passed)
  where
    runs :
        (label s' : SliceData)
        → shrink_data s (included (length kb)) unbounded ≡ (label, s')
        → cut_label s max (length kb) ≡ ok (label, max - length kb, s')
    runs label s' e = unfold cut_label in rw (le→leb (length kb) max le, e) refl

-- What the bits behind the first ones must be, kind by kind.
abbrev pub kind_of : HmLabel → LabelKind
kind_of hml_short = short_label
kind_of hml_long = long_label
kind_of (hml_same v) = same_label

abbrev pub body : HmLabel → ℕ → List Bool → List Bool
body hml_short k kb = replicate (length kb) true ++ false ∷ kb
body hml_long k kb = bits k (length kb) ++ kb
body (hml_same v) k kb = v ∷ bits k (length kb)

-- A slice with a bit left is not empty.
full :
    (s : SliceData) (b : Bool) (rest : List Bool)
    → IsValid s
    → window s ≡ b ∷ rest
    → is_empty s ≡ false
unfolding is_empty
full s b rest valid holds =
    leb-false s.stop s.start
      (omega (arith, length-window s valid, ap length holds, remaining_bits_lem s))

pub label_kind_front :
    (l : HmLabel) (s : SliceData) (k : ℕ) (kb rest : List Bool)
    → IsValid s
    → window s ≡ encoding l k kb ++ rest
    → (s' : SliceData) × (is_empty s ≡ false)
      × (label_kind s ≡ ok (kind_of l, s'))
      × Passed s (body l k kb ++ rest) s'
unfolding encoding label_kind
label_kind_front hml_short s k kb rest valid holds =
    let (s', r, passed) = get_next_bit_front s false (body hml_short k kb ++ rest) valid holds in
    (s', full s false (body hml_short k kb ++ rest) valid holds, rw r refl, passed)
label_kind_front hml_long s k kb rest valid holds =
    let (s1, r, passed) =
      get_next_bit_front s true (false ∷ body hml_long k kb ++ rest) valid holds in
    let (s', r', passed') =
      get_next_bit_front s1 false (body hml_long k kb ++ rest) passed.valid passed.left in
    (
      s',
      full s true (false ∷ body hml_long k kb ++ rest) valid holds,
      rw (r, r') refl,
      Passed-trans passed passed',
    )
label_kind_front (hml_same v) s k kb rest valid holds =
    let (s1, r, passed) =
      get_next_bit_front s true (true ∷ body (hml_same v) k kb ++ rest) valid holds in
    let (s', r', passed') =
      get_next_bit_front s1 true (body (hml_same v) k kb ++ rest) passed.valid passed.left in
    (
      s',
      full s true (true ∷ body (hml_same v) k kb ++ rest) valid holds,
      rw (r, r') refl,
      Passed-trans passed passed',
    )

-- The front of what repeats one bit.
take-replicate : (n m : ℕ) (v : Bool) → n ≤ m → take n (replicate m v) ≡ replicate n v
take-replicate zero m v h = refl
take-replicate (suc n) zero v h = absurd (omega arith)
take-replicate (suc n) (suc m) v h = ap (λ l. v ∷ l) (take-replicate n m v (omega arith))

flat-replicate :
    (m : ℕ) (v : Bool) → flat (replicate m (if v then 0xFF else 0)) ≡ replicate (8 * m) v
unfolding flat
flat-replicate zero v = refl
flat-replicate (suc m) v =
    ap₂ ◌++◌ (byte v) (flat-replicate m v) ∙ replicate-add 8 (8 * m) (8 * suc m) v (omega arith)
  where
    byte : (v : Bool) → bits 8 (if v then 0xFF else 0) ≡ replicate 8 v
    byte true = unfold bits in refl
    byte false = unfold bits in refl

All-replicate : (m : ℕ) (v : Bool) → All IsByte (replicate m (if v then 0xFF else 0))
All-replicate zero v = tt
All-replicate (suc m) v = (byte v, All-replicate m v)
  where
    byte : (v : Bool) → IsByte (if v then 0xFF else 0)
    byte true = omega arith
    byte false = omega arith

append_repeated :
    (key : BuilderData) (n : ℕ) (v : Bool)
    → Content.IsValid key
    → key.length_in_bits + n ≤ 1023
    → (key' : BuilderData) × (append_raw key (replicate (n / 8 + 1) (if v then 0xFF else 0)) n
        ≡ ok key')
      × Adds key (replicate n v) key'
append_repeated key n v valid room =
    let (key', r, x) =
      append_raw_content key (replicate (n / 8 + 1) (if v then 0xFF else 0)) n valid
        (All-replicate (n / 8 + 1) v)
        (omega (arith, length-replicate {A = ℕ} (n / 8 + 1) (if v then 0xFF else 0))) room in
    (key', r, subst (λ xs. Adds key xs key') repeated (Extends-Adds x))
  where
    repeated : take n (flat (replicate (n / 8 + 1) (if v then 0xFF else 0))) ≡ replicate n v
    repeated =
        ap (take n) (flat-replicate (n / 8 + 1) v)
        ∙ take-replicate n (8 * (n / 8 + 1)) v (omega arith)

module _ (s : SliceData) (max : ℕ) (kb rest : List Bool) (valid : IsValid s) (le : length kb ≤ max)
    (small : max ≤ 1023) where
  pub size_front :
      window s ≡ bits (length_bits max) (length kb) ++ rest
      → (s' : SliceData) × (get_next_size s max ≡ ok (length kb, s')) × Passed s rest s'
  size_front holds =
      let same : max % 65536 ≡ max = omega arith in
      get_next_size_front s max (length kb) rest valid (omega arith) le
        (holds ∙ ap (λ m. bits (bit_width 16 m) (length kb) ++ rest) same)

module _ (s : SliceData) (max : ℕ) (kb rest : List Bool) (valid : IsValid s) (le : length kb ≤ max)
    (small : max ≤ 1023) where
  pub short_front :
      window s ≡ body hml_short (length_bits max) kb ++ rest
      → (label : SliceData) × (s' : SliceData) × (get_label_short s max
          ≡ ok (label, max - length kb, s'))
        × Bare label
        × (window label ≡ kb)
        × Passed s rest s'
  unfolding get_label_short
  short_front holds =
      let (s1, r, passed) =
        unary_length_front s (length kb) (kb ++ rest) valid
          (holds ∙ append_assoc (replicate (length kb) true) (false ∷ kb) rest) in
      let (label, s', r', valid_label, bits_label, passed') =
        cut_label_front s1 max kb rest passed.valid le passed.left in
      (label, s', rw r r', valid_label, bits_label, Passed-trans passed passed')

  pub long_front :
      window s ≡ body hml_long (length_bits max) kb ++ rest
      → (label : SliceData) × (s' : SliceData) × (get_label_long s max
          ≡ ok (label, max - length kb, s'))
        × Bare label
        × (window label ≡ kb)
        × Passed s rest s'
  unfolding get_label_long
  long_front holds =
      let (s1, r, passed) =
        size_front s max kb (kb ++ rest) valid le small
          (holds ∙ append_assoc (bits (length_bits max) (length kb)) kb rest) in
      let (label, s', r', valid_label, bits_label, passed') =
        cut_label_front s1 max kb rest passed.valid le passed.left in
      (label, s', rw r r', valid_label, bits_label, Passed-trans passed passed')

  pub same_front :
      (v : Bool) (key : BuilderData)
      → kb ≡ replicate (length kb) v
      → Content.IsValid key
      → key.length_in_bits + length kb ≤ 1023
      → window s ≡ body (hml_same v) (length_bits max) kb ++ rest
      → (key' : BuilderData) × (s' : SliceData) × (get_label_same s max key
          ≡ ok (key', max - length kb, s'))
        × Adds key kb key'
        × Passed s rest s'
  same_front v key all valid_key room holds =
      let (s1, r, passed) =
        get_next_bit_front s v (bits (length_bits max) (length kb) ++ rest) valid holds in
      let (s', r', passed') = size_front s1 max kb rest passed.valid le small passed.left in
      let (key', r'', x) = append_repeated key (length kb) v valid_key room in
      (
        key',
        s',
        runs s1 s' key' r r' r'',
        subst (λ xs. Adds key xs key') (sym all) x,
        Passed-trans passed passed',
      )
    where
      runs :
          (s1 s' : SliceData) (key' : BuilderData)
          → get_next_bit s ≡ ok (v, s1)
          → get_next_size s1 max ≡ ok (length kb, s')
          → append_raw key (replicate (length kb / 8 + 1) (if v then 0xFF else 0)) (length kb)
            ≡ ok key'
          → get_label_same s max key ≡ ok (key', max - length kb, s')
      runs s1 s' key' r r' r'' =
          unfold get_label_same in rw (r, r', r'', le→leb (length kb) max le) refl
