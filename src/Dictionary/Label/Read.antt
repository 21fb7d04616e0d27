-- ===== src/Dictionary/Label/Read.antt =====
-- What `LabelReader` of dictionary/mod.rs reads where a label of the format stands at the cursor, and
-- that it reads what `hm_label` wrote.
use block.Common.{
  ℕ, ◌⊎◌, ◌+◌, ◌-◌, ◌≤◌, ◌≡◌, refl, sym, ap, ◌∙◌, subst, arith, Bool, true, false, not, List, [],
  ◌∷◌, ◌++◌, append-nil, append_assoc, length, replicate, ltb, le→leb, inl, inr, Bool-cases,
}
use block.Common.Word.{bits}
use block.Types.{ok, err, ◌>>=◌}
use block.Builder
use block.Builder.{BuilderData, append_raw}
use block.Builder.Content.{content, Adds, Extends-Adds, append_raw_content}
use block.Builder.Content
use block.Slice.{SliceData, remaining_bits, is_empty, load_bitstring}
use block.Slice.Window.{IsValid, window, length-window}
use block.Slice.Cursor.{Passed, Bare, Passed-trans, get_next_bit_front, move_by_front}
use block.Dictionary.Label.{
  length_bits, append_bytestring, label_kind, read_label, read_label_raw, label_of_kind,
  label_of_kind_raw, skip_of_kind, skip_label, new, pass_label,
}
use block.Dictionary.Label.Format.{HmLabel, hml_short, hml_long, hml_same, encoding, Suits}
use block.Dictionary.Label.Steps.{append_bytestring-content, empty-IsValid}
use block.Cell.{is_ordinary, max_data_bits}
use block.Builder.{is_nil}
use block.Types.{err, message}
use block.Slice.{with_bitstring}
use block.Common.{Bool-cases, inl, inr, ltb, ◌⊎◌, not, true, false}
use block.RoundTrip.{load_bitstring-window}
use block.Dictionary.Label.Front.{
  unary_length_front, kind_of, body, label_kind_front, size_front, short_front, long_front,
  same_front,
}
use block.Dictionary.Label.{hm_label}
use block.Dictionary.Label.Write.{hm_label_lem}

load_bitstring-no_refs :
    (b : BuilderData) (s : SliceData) → load_bitstring b ≡ ok s → s.ref_stop ≡ 0
load_bitstring-no_refs b s e = by_type (Bool-cases (not (is_ordinary b.ty)))
  where
    by_refs :
        not (is_ordinary b.ty) ≡ false
        → ltb max_data_bits b.length_in_bits ≡ false
        → (not (is_nil b.refs) ≡ true) ⊎ (not (is_nil b.refs) ≡ false)
        → s.ref_stop ≡ 0
    by_refs plain short (inl refs) =
        let r : load_bitstring b ≡ err message =
          unfold load_bitstring in rw (plain, short, refs) refl in
        absurd cc
    by_refs plain short (inr leaf) =
        let r : load_bitstring b ≡ ok (with_bitstring b.bytes b.length_in_bits) =
          unfold load_bitstring in rw (plain, short, leaf) refl in
        let same : with_bitstring b.bytes b.length_in_bits ≡ s = cc in
        ap (λ t. t.ref_stop) (sym same) ∙ (unfold with_bitstring in refl)

    by_size :
        not (is_ordinary b.ty) ≡ false
        → (ltb max_data_bits b.length_in_bits ≡ true) ⊎ (ltb max_data_bits b.length_in_bits ≡ false)
        → s.ref_stop ≡ 0
    by_size plain (inl long) =
        let r : load_bitstring b ≡ err message = unfold load_bitstring in rw (plain, long) refl in
        absurd cc
    by_size plain (inr short) = by_refs plain short (Bool-cases (not (is_nil b.refs)))

    by_type : (not (is_ordinary b.ty) ≡ true) ⊎ (not (is_ordinary b.ty) ≡ false) → s.ref_stop ≡ 0
    by_type (inl other) =
        let r : load_bitstring b ≡ err message = unfold load_bitstring in rw other refl in absurd cc
    by_type (inr plain) = by_size plain (Bool-cases (ltb max_data_bits b.length_in_bits))

module _ (l : HmLabel) (s : SliceData) (max : ℕ) (kb rest : List Bool) (valid : IsValid s)
    (le : length kb ≤ max) (small : max ≤ 1023) (suits : Suits l kb)
    (holds : window s ≡ encoding l (length_bits max) kb ++ rest) where
  -- `read_label` where a label of the format on at most `max <= 1023` bits stands at the cursor returns
  -- a valid slice of exactly those bits and no references, and the cursor behind the label.
  pub read_label_lem :
      (label : SliceData) × (s' : SliceData) × (read_label s max ≡ ok (label, s'))
      × Bare label
      × (window label ≡ kb)
      × Passed s rest s'
  read_label_lem =
      let (s1, not_empty, r, passed) = label_kind_front l s (length_bits max) kb rest valid holds in
      let (label, s', r', valid_label, bits_label, passed') =
        of_kind l suits s1 passed.valid passed.left in
      (
        label,
        s',
        unfold read_label in rw (not_empty, r) r',
        valid_label,
        bits_label,
        Passed-trans passed passed',
      )
    where
      of_kind :
          (l : HmLabel)
          → Suits l kb
          → (s1 : SliceData) → IsValid s1
          → window s1 ≡ body l (length_bits max) kb ++ rest
          → (label : SliceData) × (s' : SliceData) × (label_of_kind (kind_of l) s1 max
              ≡ ok (label, s'))
            × Bare label
            × (window label ≡ kb)
            × Passed s1 rest s'
      of_kind hml_short _ s1 valid1 left =
          let (label, s', r, a, b, c) = short_front s1 max kb rest valid1 le small left in
          (label, s', rw r refl, a, b, c)
      of_kind hml_long _ s1 valid1 left =
          let (label, s', r, a, b, c) = long_front s1 max kb rest valid1 le small left in
          (label, s', rw r refl, a, b, c)
      of_kind (hml_same v) all s1 valid1 left =
          let (key, s', r, x, c) =
            same_front s1 max kb rest valid1 le small v Builder.empty all empty-IsValid
              (omega arith) left in
          let (label, loads, valid_label, holds_label) =
            load_bitstring-window key x.valid x.ty_kept x.refs_kept in
          (
            label,
            s',
            rw (r, loads) refl,
            record { valid = valid_label; no_refs = load_bitstring-no_refs key label loads },
            holds_label ∙ x.bits,
            c,
          )

  -- `read_label_raw` there appends exactly those bits to a valid key with room for them, and takes
  -- their number off `max`.
  pub read_label_raw_lem :
      (key : BuilderData)
      → Content.IsValid key
      → key.length_in_bits + length kb ≤ 1023
      → (key' : BuilderData) × (s' : SliceData) × (read_label_raw s max key
          ≡ ok (key', max - length kb, s'))
        × Adds key kb key'
        × Passed s rest s'
  read_label_raw_lem key valid_key room =
      let (s1, not_empty, r, passed) = label_kind_front l s (length_bits max) kb rest valid holds in
      let (key', s', r', x, passed') = of_kind l suits s1 passed.valid passed.left in
      (key', s', unfold read_label_raw in rw (not_empty, r) r', x, Passed-trans passed passed')
    where
      with_label :
          (s1 label s' : SliceData)
          → Bare label
          → window label ≡ kb
          → (key' : BuilderData) × (append_bytestring key label ≡ ok key') × Adds key kb key'
      with_label s1 label s' valid_label bits_label =
          let (key', r, x) =
            append_bytestring-content key label valid_key valid_label.valid
              (omega (arith, length-window label valid_label.valid, ap length bits_label)) in
          (key', r, subst (λ xs. Adds key xs key') bits_label x)

      of_kind :
          (l : HmLabel)
          → Suits l kb
          → (s1 : SliceData) → IsValid s1
          → window s1 ≡ body l (length_bits max) kb ++ rest
          → (key' : BuilderData) × (s' : SliceData) × (label_of_kind_raw (kind_of l) s1 max key
              ≡ ok (key', max - length kb, s'))
            × Adds key kb key'
            × Passed s1 rest s'
      of_kind hml_short _ s1 valid1 left =
          let (label, s', r, a, b, c) = short_front s1 max kb rest valid1 le small left in
          let (key', r', x) = with_label s1 label s' a b in (key', s', rw (r, r') refl, x, c)
      of_kind hml_long _ s1 valid1 left =
          let (label, s', r, a, b, c) = long_front s1 max kb rest valid1 le small left in
          let (key', r', x) = with_label s1 label s' a b in (key', s', rw (r, r') refl, x, c)
      of_kind (hml_same v) all s1 valid1 left =
          same_front s1 max kb rest valid1 le small v key all valid_key room left

  -- `skip_label` of a fresh reader there leaves the cursor behind the label and takes its length off
  -- `max`.
  pub skip_label_lem :
      (s' : SliceData) × (skip_label (new s) max
        ≡ ok (max - length kb, record { cursor = s'; already_read = true }))
      × Passed s rest s'
  skip_label_lem =
      let (s1, not_empty, r, passed) = label_kind_front l s (length_bits max) kb rest valid holds in
      let (s', r', passed') = of_kind l s1 passed.valid passed.left in
      (s', runs s1 s' not_empty r r', Passed-trans passed passed')
    where
      of_kind :
          (l : HmLabel)
          → (s1 : SliceData) → IsValid s1
          → window s1 ≡ body l (length_bits max) kb ++ rest
          → (s' : SliceData) × (skip_of_kind (kind_of l) s1 max ≡ ok (length kb, s'))
            × Passed s1 rest s'
      of_kind hml_short s1 valid1 left =
          let (s2, r, p) =
            unary_length_front s1 (length kb) (kb ++ rest) valid1
              (left ∙ append_assoc (replicate (length kb) true) (false ∷ kb) rest) in
          let (s', r', p') = move_by_front s2 kb rest p.valid p.left in
          (s', rw (r, r') refl, Passed-trans p p')
      of_kind hml_long s1 valid1 left =
          let (s2, r, p) =
            size_front s1 max kb (kb ++ rest) valid1 le small
              (left ∙ append_assoc (bits (length_bits max) (length kb)) kb rest) in
          let (s', r', p') = move_by_front s2 kb rest p.valid p.left in
          (s', rw (r, r') refl, Passed-trans p p')
      of_kind (hml_same v) s1 valid1 left =
          let (s2, r, p) =
            get_next_bit_front s1 v (bits (length_bits max) (length kb) ++ rest) valid1 left in
          let (s', r', p') = size_front s2 max kb rest p.valid le small p.left in
          (s', rw r r', Passed-trans p p')

      runs :
          (s1 s' : SliceData)
          → is_empty s ≡ false
          → label_kind s ≡ ok (kind_of l, s1)
          → skip_of_kind (kind_of l) s1 max ≡ ok (length kb, s')
          → skip_label (new s) max
            ≡ ok (max - length kb, record { cursor = s'; already_read = true })
      runs s1 s' not_empty r r' =
          unfold skip_label pass_label new in rw (not_empty, r, r', le→leb (length kb) max le) refl

-- What `hm_label` writes for a valid key of at most `max_len <= 1023` bits, the label's room in a cell
-- included, `read_label` reads back as the same bits, with nothing left behind them.
pub read_label-hm_label :
    (key : SliceData) (max_len : ℕ)
    → IsValid key
    → remaining_bits key ≤ max_len
    → max_len ≤ 1023
    → remaining_bits key + length_bits max_len ≤ 1021
    → (label : SliceData) × (s' : SliceData) × ((do
      b ← hm_label key max_len
      s ← load_bitstring b
      read_label s max_len)
        ≡ ok (label, s'))
      × (window label ≡ window key)
      × (window s' ≡ [])
read_label-hm_label key max_len valid fits small room =
    let (l, b, r, suits, x) = hm_label_lem key max_len valid fits small room in
    let (s, loads, valid_s, holds) = load_bitstring-window b x.valid x.ty_kept x.refs_kept in
    let (label, s', r', _, bits_label, passed) =
      read_label_lem l s max_len (window key) [] valid_s (omega (arith, length-window key valid))
        small suits
        (holds ∙ x.bits ∙ sym (append-nil (encoding l (length_bits max_len) (window key)))) in
    (label, s', rw (r, loads) r', bits_label, passed.left)
