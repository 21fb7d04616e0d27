-- ===== src/Dictionary/Label/Steps.antt =====
-- The steps in which `hm_label` of dictionary/mod.rs writes a label, and the key behind it.
use block.Common.{
  ℕ, ◌⊎◌, suc, ◌+◌, ◌-◌, ◌/◌, ◌^◌, ◌≤◌, ◌≡◌, ◌≢◌, refl, sym, ap, ap₂, ◌∙◌, subst, arith, Bool, true,
  false, List, [], ◌∷◌, ◌++◌, length, take, drop, replicate, if◌then◌else◌, drop-drop, inl, inr,
  some,
}
use block.Common.Word.{bits, bits-zero, bits-add, length-bits}
use block.Common.Bytes.{flat}
use block.Types.{ok}
use block.Builder
use block.Builder.{BuilderData, append_bits, append_bit_zero, append_bit_bool}
use block.Builder.Content.{content, Adds, Adds-trans, Adds-length, Extends-Adds, append_raw_content}
use block.Builder.Content
use block.Builder.Raw.Packing.{Packs, length-Packs, Packs-view}
use block.Builder.Writes.{append_bits_content, append_bit_bool_content}
use block.Slice.{SliceData, remaining_bits}
use block.Slice.Read.{get_bit_opt, get_bytestring}
use block.Slice.Window.{IsValid, window, length-window}
use block.Slice.Bytestring.{get_bytestring_lem}
use block.Slice.Cursor.{get_bit_opt-window}
use block.Dictionary.Label.{append_bytestring, usize_max, same_bits, same_bits_from}
use block.Dictionary.Label.Format.{bits-ones}

-- `append_bytestring` of a slice whose bits fit a valid builder appends the bits of its window.
pub append_bytestring-content :
    (b : BuilderData) (s : SliceData)
    → Content.IsValid b
    → IsValid s
    → b.length_in_bits + remaining_bits s ≤ 1023
    → (b' : BuilderData) × (append_bytestring b s ≡ ok b') × Adds b (window s) b'
append_bytestring-content b s vb vs room =
    let (out, e, packed) = get_bytestring_lem s 0 vs (omega arith) in
    let (b', r, x) =
      append_raw_content b out (remaining_bits s) vb packed.bytes
        (omega (arith, length-Packs packed, length-window s vs)) room in
    (b', answer out b' e r, subst (λ xs. Adds b xs b') (view out packed) (Extends-Adds x))
  where
    answer :
        (out : List ℕ) (b' : BuilderData)
        → get_bytestring s 0 ≡ ok out
        → Builder.append_raw b out (remaining_bits s) ≡ ok b'
        → append_bytestring b s ≡ ok b'
    answer out b' e r = unfold append_bytestring in rw (e, r) refl

    view : (out : List ℕ) → Packs out (window s) → take (remaining_bits s) (flat out) ≡ window s
    view out packed = ap (λ n. take n (flat out)) (sym (length-window s vs)) ∙ Packs-view packed

same :
    (s : SliceData) (bit : Bool)
    → IsValid s
    → (offset : ℕ) (xs : List Bool) → drop offset (window s) ≡ xs
    → ((same_bits_from s bit offset (length xs) ≡ ok true) × (xs ≡ replicate (length xs) bit))
      ⊎ ((same_bits_from s bit offset (length xs) ≡ ok false) × (xs ≢ replicate (length xs) bit))
unfolding same_bits_from
same s bit valid offset [] holds = inl (refl, refl)
same s bit valid offset (x ∷ xs) holds =
    test x bit xs (get_bit_opt-window s offset x xs valid holds) (
      same s bit valid (offset + 1) xs
        (sym (drop-drop 1 offset (offset + 1) (window s) (omega arith)) ∙ ap (drop 1) holds))
  where
    test :
        (x c : Bool) (xs : List Bool)
        → get_bit_opt s offset ≡ ok (some x)
        → ((same_bits_from s c (offset + 1) (length xs) ≡ ok true) × (xs ≡ replicate (length xs) c))
          ⊎ ((same_bits_from s c (offset + 1) (length xs) ≡ ok false)
              × (xs ≢ replicate (length xs) c))
        → ((same_bits_from s c offset (suc (length xs)) ≡ ok true)
            × (x ∷ xs ≡ c ∷ replicate (length xs) c))
          ⊎ ((same_bits_from s c offset (suc (length xs)) ≡ ok false)
              × (x ∷ xs ≢ c ∷ replicate (length xs) c))
    test true true xs e (inl (r, l)) = inl (rw e r, ap (λ l. true ∷ l) l)
    test true true xs e (inr (r, l)) = inr (rw e r, λ h. l (cc h))
    test false false xs e (inl (r, l)) = inl (rw e r, ap (λ l. false ∷ l) l)
    test false false xs e (inr (r, l)) = inr (rw e r, λ h. l (cc h))
    test true false xs e _ = inr (rw e refl, λ h. cc h)
    test false true xs e _ = inr (rw e refl, λ h. cc h)

pub same_bits_lem :
    (s : SliceData) (bit : Bool)
    → IsValid s
    → ((same_bits s bit ≡ ok true) × (window s ≡ replicate (length (window s)) bit))
      ⊎ ((same_bits s bit ≡ ok false) × (window s ≢ replicate (length (window s)) bit))
same_bits_lem s bit valid =
    unfold same_bits in rw⁻¹ (length-window s valid) (same s bit valid 0 (window s) refl)

pub empty-IsValid : Content.IsValid Builder.empty
empty-IsValid = record {
  fits = omega arith;
  short = omega arith;
  small = omega arith;
  bytes = tt;
  few = omega arith;
}

-- One more step of a label that is being written.
pub then_bits :
    (xs : List Bool) (b : BuilderData) (v count : ℕ)
    → Adds Builder.empty xs b
    → count ≤ 63
    → length xs + count ≤ 1023
    → (b' : BuilderData) × (append_bits b v count ≡ ok b')
      × Adds Builder.empty (xs ++ bits count v) b'
then_bits xs b v count x small room =
    let (b', r, y) =
      append_bits_content b v count x.valid (omega (arith, Adds-length empty-IsValid x)) small in
    (b', r, Adds-trans x (Extends-Adds y))

pub then_key :
    (xs : List Bool) (b : BuilderData) (key : SliceData)
    → Adds Builder.empty xs b
    → IsValid key
    → length xs + remaining_bits key ≤ 1023
    → (b' : BuilderData) × (append_bytestring b key ≡ ok b')
      × Adds Builder.empty (xs ++ window key) b'
then_key xs b key x valid room =
    let (b', r, y) =
      append_bytestring-content b key x.valid valid (omega (arith, Adds-length empty-IsValid x)) in
    (b', r, Adds-trans x y)

zero_first :
    (b : BuilderData) × (append_bit_zero Builder.empty ≡ ok b) × Adds Builder.empty (false ∷ []) b
zero_first =
    let (b, r, x) = append_bit_bool_content Builder.empty false empty-IsValid (omega arith) in
    (b, unfold append_bit_zero append_bit_bool in r, Extends-Adds x)

two_first :
    (v : ℕ)
    → (b : BuilderData) × (append_bits Builder.empty v 2 ≡ ok b) × Adds Builder.empty (bits 2 v) b
two_first v =
    let (b, r, x) =
      append_bits_content Builder.empty v 2 empty-IsValid (omega arith) (omega arith) in
    (b, r, Extends-Adds x)

-- The length in unary, with the zero behind it.
unary_bits : (n : ℕ) → n ≤ 63 → bits (n + 1) (usize_max - 1) ≡ replicate n true ++ false ∷ []
unary_bits n h =
    bits-add n 1 (n + 1) (usize_max - 1) refl
    ∙ ap₂ ◌++◌ (ap (bits n) half ∙ bits-ones n 63 h) (unfold bits in refl)
  where
    half : (usize_max - 1) / 2 ^ 1 ≡ 2 ^ 63 - 1
    half = refl

-- What `if same { usize::MAX } else { 0 }` has in its lowest bits.
pub repeated_bits :
    (n : ℕ) (v : Bool) → n ≤ 63 → bits n (if v then usize_max else 0) ≡ replicate n v
repeated_bits n true h = bits-ones n 64 (omega arith)
repeated_bits n false h = bits-zero n

-- The three beginnings of a label.
pub long_prefix :
    (n k : ℕ)
    → k ≤ 16
    → (b : BuilderData) × (b' : BuilderData) × (append_bits Builder.empty 2 2 ≡ ok b)
      × (append_bits b n k ≡ ok b')
      × Adds Builder.empty (true ∷ false ∷ bits k n) b'
long_prefix n k small =
    let (b, r, x) = two_first 2 in
    let (b', r', x') =
      then_bits (bits 2 2) b n k x (omega arith) (omega (arith, length-bits 2 2)) in
    (b, b', r, r', subst (λ xs. Adds Builder.empty (xs ++ bits k n) b') front_bits x')
  where
    front_bits : bits 2 2 ≡ true ∷ false ∷ []
    front_bits = unfold bits in refl

pub short_prefix :
    (n : ℕ)
    → n ≤ 16
    → (b : BuilderData) × (b' : BuilderData) × (append_bit_zero Builder.empty ≡ ok b)
      × (append_bits b (usize_max - 1) (n + 1) ≡ ok b')
      × Adds Builder.empty (false ∷ replicate n true ++ false ∷ []) b'
short_prefix n small =
    let (b, r, x) = zero_first in
    let (b', r', x') =
      then_bits (false ∷ []) b (usize_max - 1) (n + 1) x (omega arith) (omega arith) in
    (b, b', r, r', subst (λ xs. Adds Builder.empty (false ∷ xs) b') (unary_bits n (omega arith)) x')

pub same_prefix :
    (n k : ℕ) (v : Bool)
    → k ≤ 16
    → (b : BuilderData) × (b' : BuilderData) × (b'' : BuilderData) × (append_bits Builder.empty 3 2
        ≡ ok b)
      × (append_bits b (if v then 1 else 0) 1 ≡ ok b')
      × (append_bits b' n k ≡ ok b'')
      × Adds Builder.empty (true ∷ true ∷ v ∷ bits k n) b''
same_prefix n k v small =
    let (b, r, x) = two_first 3 in
    let (b', r', x') =
      then_bits (bits 2 3) b (if v then 1 else 0) 1 x (omega arith)
        (omega (arith, length-bits 2 3)) in
    let front = subst (λ xs. Adds Builder.empty xs b') (front_bits v) x' in
    let (b'', r'', x'') =
      then_bits (true ∷ true ∷ v ∷ []) b' n k front (omega arith) (omega arith) in
    (b, b', b'', r, r', r'', x'')
  where
    front_bits : (v : Bool) → bits 2 3 ++ bits 1 (if v then 1 else 0) ≡ true ∷ true ∷ v ∷ []
    front_bits true = unfold bits in refl
    front_bits false = unfold bits in refl
