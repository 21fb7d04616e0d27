-- ===== src/Dictionary/Label/Write.antt =====
-- What `hm_label` of dictionary/mod.rs writes: a label of the format, and the shortest one.
use block.Common.{
  ℕ, ◌⊎◌, ◌+◌, ◌-◌, ◌*◌, ◌%◌, ◌≤◌, ◌<◌, ◌≡◌, ◌≢◌, refl, sym, ap, ◌∙◌, subst, arith, Bool, true,
  false, ◌&&◌, List, [], ◌∷◌, ◌++◌, append_assoc, length, replicate, ltb, if◌then◌else◌,
  length-append, length-replicate, inl, inr, Bool-cases, ltb-false, ==_ne,
}
use block.Common.Word.{bits, length-bits}
use block.Types.{Outcome, ok}
use block.Builder
use block.Builder.{BuilderData, append_bits, append_bit_zero, append_bit_bool}
use block.Builder.Content.{Adds, Adds-length}
use block.Slice.{SliceData, remaining_bits}
use block.Slice.Read.{bit_width, get_bit}
use block.Slice.Window.{IsValid, window, length-window}
use block.Slice.Cursor.{get_bit_opt-window, bit_width-bound}
use block.Dictionary.Label.{
  append_bytestring, usize_max, length_bits, hm_label_same, hm_label_mixed, hm_label, same_bits,
}
use block.Dictionary.Label.Format.{
  HmLabel, hml_short, hml_long, hml_same, encoding, Suits, size, length-encoding,
}
use block.Dictionary.Label.Steps.{
  same_bits_lem, empty-IsValid, then_bits, then_key, repeated_bits, long_prefix, short_prefix,
  same_prefix,
}

-- A label of the key was written, and no label of it is shorter.
abbrev Wrote : SliceData → ℕ → Outcome BuilderData → Type 0
Wrote key k r =
    (l : HmLabel) × (b : BuilderData) × (r ≡ ok b)
    × Suits l (window key)
    × Adds Builder.empty (encoding l k (window key)) b
    × ((other : HmLabel)
        → Suits other (window key)
        → size l k (length (window key)) ≤ size other k (length (window key)))

module _ (key : SliceData) (max_len : ℕ) (valid : IsValid key)
    (room : remaining_bits key + length_bits max_len ≤ 1021) where
  k_small : length_bits max_len ≤ 16
  k_small = bit_width-bound 16 (max_len % 65536)

  -- The two endings that append the key.
  long_key :
      (b : BuilderData)
      → Adds Builder.empty (true ∷ false ∷ bits (length_bits max_len) (remaining_bits key)) b
      → (b' : BuilderData) × (append_bytestring b key ≡ ok b')
        × Adds Builder.empty (encoding hml_long (length_bits max_len) (window key)) b'
  unfolding encoding
  long_key b x =
      let k = length_bits max_len in
      let (b', r, y) =
        then_key (true ∷ false ∷ bits k (remaining_bits key)) b key x valid
          (omega (arith, length-bits k (remaining_bits key))) in
      (
        b',
        r,
        subst (λ m. Adds Builder.empty (true ∷ false ∷ bits k m ++ window key) b')
            (sym (length-window key valid)) y,
      )

  short_key :
      (b : BuilderData)
      → remaining_bits key ≤ 16
      → Adds Builder.empty (false ∷ replicate (remaining_bits key) true ++ false ∷ []) b
      → (b' : BuilderData) × (append_bytestring b key ≡ ok b')
        × Adds Builder.empty (encoding hml_short (length_bits max_len) (window key)) b'
  unfolding encoding
  short_key b few x =
      let n = remaining_bits key in
      let (b', r, y) =
        then_key (false ∷ replicate n true ++ false ∷ []) b key x valid
          (omega (arith, length-append (replicate n true) (false ∷ []), length-replicate n true)) in
      let z =
        subst (λ xs. Adds Builder.empty (false ∷ xs) b')
          (append_assoc (replicate n true) (false ∷ []) (window key)) y in
      (
        b',
        r,
        subst (λ m. Adds Builder.empty (false ∷ replicate m true ++ false ∷ window key) b')
            (sym (length-window key valid)) z,
      )

  mixed :
      (remaining_bits key ≡ 0) ⊎ ((v : Bool) → window key ≢ replicate (length (window key)) v)
      → Wrote key (length_bits max_len) (hm_label_mixed key max_len)
  mixed differs = elim (Bool-cases (ltb (length_bits max_len) (remaining_bits key))) [
    | inl long ↦
        let (b, b', r, r', x) = long_prefix (remaining_bits key) (length_bits max_len) k_small in
        let (b'', r'', y) = long_key b' x in
        (
          hml_long,
          b'',
          unfold hm_label_mixed in rw (long, r, r') r'',
          tt,
          y,
          best_long (ground arith) differs,
        )
    | inr short ↦
        let (b, b', r, r', x) = short_prefix (remaining_bits key) (ground (arith, k_small)) in
        let (b'', r'', y) = short_key b' (ground (arith, k_small)) x in
        (
          hml_short,
          b'',
          unfold hm_label_mixed in rw (short, r, r') r'',
          tt,
          y,
          best_short (ground arith) differs,
        )
  ]
    where
      best_long :
          length_bits max_len < remaining_bits key
          → (remaining_bits key ≡ 0) ⊎ ((v : Bool) → window key ≢ replicate (length (window key)) v)
          → (other : HmLabel) → Suits other (window key)
          → size hml_long (length_bits max_len) (length (window key))
            ≤ size other (length_bits max_len) (length (window key))
      best_long lt d hml_short suits = unfold size in omega (arith, length-window key valid)
      best_long lt d hml_long suits = unfold size in omega arith
      best_long lt (inl e) (hml_same v) suits = absurd (omega arith)
      best_long lt (inr never) (hml_same v) suits = absurd (never v suits)

      best_short :
          remaining_bits key ≤ length_bits max_len
          → (remaining_bits key ≡ 0) ⊎ ((v : Bool) → window key ≢ replicate (length (window key)) v)
          → (other : HmLabel) → Suits other (window key)
          → size hml_short (length_bits max_len) (length (window key))
            ≤ size other (length_bits max_len) (length (window key))
      best_short le d hml_short suits = unfold size in omega arith
      best_short le d hml_long suits = unfold size in omega (arith, length-window key valid)
      best_short le (inl e) (hml_same v) suits =
          unfold size in omega (arith, length-window key valid)
      best_short le (inr never) (hml_same v) suits = absurd (never v suits)

  short_repeat :
      (b : BuilderData) (v : Bool)
      → window key ≡ replicate (length (window key)) v
      → remaining_bits key ≤ 16
      → Adds Builder.empty (false ∷ replicate (remaining_bits key) true ++ false ∷ []) b
      → (b' : BuilderData) × (append_bits b (if v then usize_max else 0) (remaining_bits key)
          ≡ ok b')
        × Adds Builder.empty (encoding hml_short (length_bits max_len) (window key)) b'
  short_repeat b v all few x =
      let n = remaining_bits key in
      let (b', r, y) =
        then_bits (false ∷ replicate n true ++ false ∷ []) b (if v then usize_max else 0) n x
          (omega arith)
          (omega (arith, length-append (replicate n true) (false ∷ []), length-replicate n true)) in
      (
        b',
        r,
        placed b' (
            subst (λ xs. Adds Builder.empty ((false ∷ replicate n true ++ false ∷ []) ++ xs) b')
              same_bits_there y),
      )
    where
      same_bits_there : bits (remaining_bits key) (if v then usize_max else 0) ≡ window key
      same_bits_there =
          repeated_bits (remaining_bits key) v (omega arith)
          ∙ ap (λ m. replicate m v) (sym (length-window key valid))
          ∙ sym all

      placed :
          (b' : BuilderData)
          → Adds Builder.empty
              ((false ∷ replicate (remaining_bits key) true ++ false ∷ []) ++ window key)
              b'
          → Adds Builder.empty (encoding hml_short (length_bits max_len) (window key)) b'
      placed b' y =
          unfold encoding in
          let z =
            subst (λ xs. Adds Builder.empty (false ∷ xs) b')
              (append_assoc (replicate (remaining_bits key) true) (false ∷ []) (window key)) y in
          subst (λ m. Adds Builder.empty (false ∷ replicate m true ++ false ∷ window key) b')
            (sym (length-window key valid)) z

  -- The shortest label of a repeated bit.
  uniform :
      (v : Bool)
      → window key ≡ replicate (length (window key)) v
      → 0 < remaining_bits key
      → 0 < length_bits max_len
      → Wrote key (length_bits max_len) (hm_label_same key v max_len)
  uniform v all open_key wide =
      elim (Bool-cases
        (ltb 1 (remaining_bits key) && ltb (length_bits max_len) (2 * remaining_bits key - 1))) [
          | inl repeated ↦
              let (b, b', b'', r, r', r'', x) =
                same_prefix (remaining_bits key) (length_bits max_len) v k_small in
              (
                hml_same v,
                b'',
                unfold hm_label_same in rw (repeated, r, r') r'',
                all,
                whole b'' x,
                best_same (ground arith),
              )
          | inr other ↦
              let few : remaining_bits key ≤ length_bits max_len = ground arith in
              let (b, b', r, r', x) = short_prefix (remaining_bits key) (omega (arith, k_small)) in
              let (b'', r'', y) = short_repeat b' v all (omega (arith, k_small)) x in
              (
                hml_short,
                b'',
                short_runs b b' b'' other (ltb-false (length_bits max_len) (remaining_bits key) few)
                    r r' r'',
                tt,
                y,
                best_short (narrow other) few,
              )
        ]
    where
      narrow :
          (ltb 1 (remaining_bits key) && ltb (length_bits max_len) (2 * remaining_bits key - 1))
            ≡ false
          → (remaining_bits key ≤ 1) ⊎ (2 * remaining_bits key - 1 ≤ length_bits max_len)
      narrow other = elim (Bool-cases (ltb 1 (remaining_bits key))) [
        | inl more ↦ inr (ground arith)
        | inr one ↦ inl (ground arith)
      ]

      whole :
          (b : BuilderData)
          → Adds Builder.empty (true ∷ true ∷ v ∷ bits (length_bits max_len) (remaining_bits key)) b
          → Adds Builder.empty (encoding (hml_same v) (length_bits max_len) (window key)) b
      whole b x =
          unfold encoding in
          subst (λ m. Adds Builder.empty (true ∷ true ∷ v ∷ bits (length_bits max_len) m) b)
            (sym (length-window key valid)) x

      best_same :
          (1 < remaining_bits key) × (length_bits max_len < 2 * remaining_bits key - 1)
          → (other : HmLabel) → Suits other (window key)
          → size (hml_same v) (length_bits max_len) (length (window key))
            ≤ size other (length_bits max_len) (length (window key))
      best_same (a, b) hml_short suits = unfold size in omega (arith, length-window key valid)
      best_same (a, b) hml_long suits = unfold size in omega (arith, length-window key valid)
      best_same (a, b) (hml_same u) suits = unfold size in omega arith

      short_runs :
          (b b' b'' : BuilderData)
          → (ltb 1 (remaining_bits key) && ltb (length_bits max_len) (2 * remaining_bits key - 1))
            ≡ false
          → ltb (length_bits max_len) (remaining_bits key) ≡ false
          → append_bit_zero Builder.empty ≡ ok b
          → append_bits b (usize_max - 1) (remaining_bits key + 1) ≡ ok b'
          → append_bits b' (if v then usize_max else 0) (remaining_bits key) ≡ ok b''
          → hm_label_same key v max_len ≡ ok b''
      short_runs b b' b'' other few r r' r'' = unfold hm_label_same in rw (other, few, r, r') r''

      best_short :
          (remaining_bits key ≤ 1) ⊎ (2 * remaining_bits key - 1 ≤ length_bits max_len)
          → remaining_bits key ≤ length_bits max_len
          → (other : HmLabel) → Suits other (window key)
          → size hml_short (length_bits max_len) (length (window key))
            ≤ size other (length_bits max_len) (length (window key))
      best_short d le hml_short suits = unfold size in omega arith
      best_short d le hml_long suits = unfold size in omega (arith, length-window key valid)
      best_short (inl d) le (hml_same u) suits =
          unfold size in omega (arith, length-window key valid)
      best_short (inr d) le (hml_same u) suits =
          unfold size in omega (arith, length-window key valid)

width_positive : (v : ℕ) → 0 < v → 0 < bit_width 16 v
unfolding bit_width
width_positive v h = rw (==_ne v 0 (omega arith)) (omega arith)

module _ (key : SliceData) (max_len : ℕ) (valid : IsValid key) (fits : remaining_bits key ≤ max_len)
    (small : max_len ≤ 1023) (room : remaining_bits key + length_bits max_len ≤ 1021) where
  wrote : Wrote key (length_bits max_len) (hm_label key max_len)
  wrote = elim (Bool-cases (ltb 0 (remaining_bits key))) [
    | inr nothing ↦
        subst (Wrote key (length_bits max_len)) (sym (closed nothing))
          (mixed key max_len valid room (inl (ground arith)))
    | inl open_key ↦ opened (window key) refl open_key
  ]
    where
      closed :
          ltb 0 (remaining_bits key) ≡ false → hm_label key max_len ≡ hm_label_mixed key max_len
      closed nothing = unfold hm_label in rw nothing refl

      first_bit : (bit : Bool) (rest : List Bool) → window key ≡ bit ∷ rest → get_bit key 0 ≡ ok bit
      first_bit bit rest e = unfold get_bit in rw (get_bit_opt-window key 0 bit rest valid e) refl

      chosen :
          (bit c : Bool)
          → ltb 0 (remaining_bits key) ≡ true
          → get_bit key 0 ≡ ok bit
          → same_bits key bit ≡ ok c
          → hm_label key max_len
            ≡ (if c then hm_label_same key bit max_len else hm_label_mixed key max_len)
      chosen bit c open_key r r' = unfold hm_label in rw (open_key, r, r') refl

      differs :
          (bit : Bool) (rest : List Bool)
          → window key ≡ bit ∷ rest
          → window key ≢ replicate (length (window key)) bit
          → (v : Bool) → window key ≢ replicate (length (window key)) v
      differs bit rest e never v all =
          never (all ∙ ap (replicate (length (window key))) (sym first))
        where
          first : bit ≡ v
          first =
              let both : bit ∷ rest ≡ replicate (length (bit ∷ rest)) v =
                subst (λ xs. xs ≡ replicate (length xs) v) e all in
              cc both

      opened :
          (xs : List Bool)
          → window key ≡ xs
          → ltb 0 (remaining_bits key) ≡ true
          → Wrote key (length_bits max_len) (hm_label key max_len)
      opened [] e open_key = absurd (ground (arith, length-window key valid, ap length e))
      opened (bit ∷ rest) e open_key = elim (same_bits_lem key bit valid) [
        | inl (r, all) ↦
            subst (Wrote key (length_bits max_len))
              (sym (chosen bit true open_key (first_bit bit rest e) r))
              (uniform key max_len valid room bit all (ground arith)
                (width_positive (max_len % 65536) (ground arith)))
        | inr (r, never) ↦
            subst (Wrote key (length_bits max_len))
              (sym (chosen bit false open_key (first_bit bit rest e) r))
              (mixed key max_len valid room (inr (differs bit rest e never)))
      ]

  -- `hm_label` of a valid key of at most `max_len <= 1023` bits, the label's room in a cell included,
  -- returns a builder that holds a label of the format on exactly the key's bits.
  pub hm_label_lem :
      (l : HmLabel) × (b : BuilderData) × (hm_label key max_len ≡ ok b)
      × Suits l (window key)
      × Adds Builder.empty (encoding l (length_bits max_len) (window key)) b
  hm_label_lem = let (l, b, r, suits, x, _) = wrote in (l, b, r, suits, x)

  -- For a valid key of at most `max_len <= 1023` bits, the label's room in a cell included, no label
  -- of the format on the key's bits is shorter than the one `hm_label` writes.
  pub hm_label_shortest :
      (other : HmLabel) (b : BuilderData)
      → Suits other (window key)
      → hm_label key max_len ≡ ok b
      → b.length_in_bits ≤ length (encoding other (length_bits max_len) (window key))
  hm_label_shortest other b suits e =
      let (l, b', r, _, x, best) = wrote in
      let same_builder : b' ≡ b = cc (e, r) in
      omega (
        arith,
        ap (λ c. c.length_in_bits) same_builder,
        Adds-length empty-IsValid x,
        best other suits,
        length-encoding l (length_bits max_len) (window key),
        length-encoding other (length_bits max_len) (window key),
      )
