-- ===== src/Cell/Tag/Laws.antt =====
-- The completion tag marks where the data end: reading it back gives the length in bits.
use mathlib.Core.List.{reverse, reverse-reverse, reverse-cons}
use native.Mathlib.Nat.{pow-suc, div-div-eq-div-mul}
use block.Common.{
  ℕ, zero, suc, ◌+◌, ◌-◌, ◌*◌, ◌/◌, ◌%◌, ◌^◌, ◌≤◌, ◌<◌, ◌≡◌, ◌≢◌, refl, sym, ap, ap₂, ◌∙◌, subst,
  arith, List, [], ◌∷◌, ◌++◌, append_assoc, append-nil, length, take, ◌==◌, bit_or, ◌||◌, ◌&&◌,
  Bool, true, false, leb, ◌⊎◌, inl, inr, Bool-cases, All, replicate, length-append, length-take,
  All-append, replicate-add, All-front, All-back, pop-ne-nil, All-take, take-take,
}
use block.Common.Bytes.{
  IsByte, flat, flat-append, length-flat, flat-take, take-flat_last, flat-singleton,
}
use block.Common.Word.{
  bits, bits-add, bits-mod, bits-zero, length-bits, bits-shl, bits-shr, bit_or-zero,
}
use block.Common.Word.Digits.{bit_or_lowest}
use block.Types.{ok}
use block.Cell.Tag.{skip_loop, find_tag_loop, find_tag, append_tag, tag_byte, is_nil}

-- The bits `ys`, a one, and `k` zeros.
abbrev pub tagged : List Bool → ℕ → List Bool
tagged ys k = ys ++ true ∷ replicate k false

zeros-ne-one : (k j : ℕ) (ys : List Bool) → replicate k false ≡ tagged ys j → ⊥
zeros-ne-one zero j [] e = cc
zeros-ne-one zero j (y ∷ ys) e = cc
zeros-ne-one (suc k) j [] e = cc
zeros-ne-one (suc k) j (y ∷ ys) e = zeros-ne-one k j ys (ground arith)

-- The last one stands at one place only.
tagged_unique : (xs ys : List Bool) (k j : ℕ) → tagged xs k ≡ tagged ys j → xs ≡ ys
tagged_unique [] [] k j e = refl
tagged_unique [] (y ∷ ys) k j e = absurd (zeros-ne-one k j ys (ground arith))
tagged_unique (x ∷ xs) [] k j e = absurd (zeros-ne-one j k xs (ground arith))
tagged_unique (x ∷ xs) (y ∷ ys) k j e =
    let tails : tagged xs k ≡ tagged ys j = ground arith in
    ap₂ ◌∷◌ (ground arith) (tagged_unique xs ys k j tails)

-- Every byte that is not zero, by evaluation: the loop stops at its lowest one.
stops_at : ℕ → ℕ → Bool
stops_at x s = leb 1 s && (leb s 8 && (x % 2 ^ (s - 1) == 0 && x / 2 ^ (s - 1) % 2 == 1))

skips : ℕ → Bool
skips x = x == 0 || stops_at x (skip_loop 8 x 1 1)

skips_below : ℕ → Bool
skips_below zero = true
skips_below (suc n) = skips n && skips_below n

skips_below_sound : (n x : ℕ) → skips_below n ≡ true → x < n → skips x ≡ true
unfolding skips_below
skips_below_sound zero x h lt = absurd (omega arith)
skips_below_sound (suc n) x h lt = ground (arith, skips_below_sound n x)

skip_table : skips_below 256 ≡ true
unfolding skips_below skips stops_at skip_loop
skip_table = refl

-- A byte whose lowest one stands above `c` zeros.
byte_tagged :
    (x c m : ℕ)
    → 8 ≡ suc m + c
    → x % 2 ^ c ≡ 0
    → x / 2 ^ c % 2 ≡ 1
    → bits 8 x ≡ tagged (bits m (x / 2 ^ c / 2)) c
byte_tagged x c m h low one =
    bits-add (suc m) c 8 x h
    ∙ ap₂ ◌++◌ (last_one (x / 2 ^ c) one)
        (sym (bits-mod c c x (omega arith)) ∙ ap (bits c) low ∙ bits-zero c)
    ∙ append_assoc (bits m (x / 2 ^ c / 2)) (true ∷ []) (replicate c false)
  where
    last_one : (v : ℕ) → v % 2 ≡ 1 → bits (suc m) v ≡ bits m (v / 2) ++ true ∷ []
    last_one v e = unfold bits in rw e refl

stops_at_facts :
    (x s : ℕ)
    → stops_at x s ≡ true
    → (1 ≤ s) × (s ≤ 8) × (x % 2 ^ (s - 1) ≡ 0) × (x / 2 ^ (s - 1) % 2 ≡ 1)
unfolding stops_at
stops_at_facts x s h = ground arith

skip_loop-stops_at : (x : ℕ) → x < 256 → (x == 0) ≡ false → stops_at x (skip_loop 8 x 1 1) ≡ true
unfolding skips
skip_loop-stops_at x h e = ground (arith, skips_below_sound 256 x skip_table h)

skipped :
    (x : ℕ)
    → x < 256
    → (x == 0) ≡ false
    → (ys : List Bool) × (k : ℕ) × (bits 8 x ≡ tagged ys k) × (length ys + skip_loop 8 x 1 1 ≡ 8)
skipped x h e =
    let s = skip_loop 8 x 1 1 in
    let (low, high, zeros, one) = stops_at_facts x s (skip_loop-stops_at x h e) in
    (
      bits (8 - s) (x / 2 ^ (s - 1) / 2),
      s - 1,
      byte_tagged x (s - 1) (8 - s) (omega arith) zeros one,
      omega (arith, length-bits (8 - s) (x / 2 ^ (s - 1) / 2)),
    )

-- What the loop over the bytes answers: 0 if there is no one, and else what stands before the last.
Found : List Bool → ℕ → Type 0
Found xs n =
    ((xs ≡ replicate (length xs) false) × (n ≡ 0))
    ⊎ ((ys : List Bool) × (k : ℕ) × (xs ≡ tagged ys k) × (n ≡ length ys))

length-reverse : (bs : List ℕ) → length (reverse bs) ≡ length bs
length-reverse [] = refl
length-reverse (b ∷ bs) =
    ap length (reverse-cons b bs)
    ∙ omega (arith, length-append (reverse bs) (b ∷ []), length-reverse bs)

zero_byte : (xs : List Bool) (n : ℕ) → Found xs n → Found (xs ++ replicate 8 false) n
unfolding Found
zero_byte xs n (inl (e, z)) = inl (
  ap (λ l. l ++ replicate 8 false) e
      ∙ replicate-add (length xs) 8 (length (xs ++ replicate 8 false)) false
          (length-append xs (replicate 8 false)),
  z,
)
zero_byte xs n (inr (ys, k, e, l)) = inr (
  ys,
  k + 8,
  ap (λ l. l ++ replicate 8 false) e
      ∙ append_assoc ys (true ∷ replicate k false) (replicate 8 false)
      ∙ ap (λ l. ys ++ true ∷ l) (replicate-add k 8 (k + 8) false refl),
  l,
)

find_tag_loop-Found :
    (rev : List ℕ) (n : ℕ)
    → n ≡ 8 * length rev
    → All IsByte rev
    → Found (flat (reverse rev)) (find_tag_loop rev n)
unfolding find_tag_loop
find_tag_loop-Found [] n h hb = unfold Found flat in inl (refl, omega arith)
find_tag_loop-Found (x ∷ rev) n h hb = elim (Bool-cases (x == 0)) [
  | inl blank ↦ rw blank (
      subst (λ l. Found l (find_tag_loop rev (n - 8))) (last_zero blank)
        (zero_byte (flat (reverse rev)) _ (find_tag_loop-Found rev (n - 8) (omega arith) hb.1)))
  | inr one ↦
      let (ys, k, e, l) = skipped x hb.0 one in
      rw one (
        unfold Found in
        inr (
          flat (reverse rev) ++ ys,
          k,
          split
              ∙ ap (λ l. flat (reverse rev) ++ l) e
              ∙ sym (append_assoc (flat (reverse rev)) ys (true ∷ replicate k false)),
          omega (
            arith,
            l,
            length-append (flat (reverse rev)) ys,
            length-flat (reverse rev),
            length-reverse rev,
          ),
        ))
]
  where
    split : flat (reverse (x ∷ rev)) ≡ flat (reverse rev) ++ bits 8 x
    split =
        ap flat (reverse-cons x rev)
        ∙ flat-append (reverse rev) (x ∷ [])
        ∙ ap (λ l. flat (reverse rev) ++ l) (unfold flat in append-nil (bits 8 x))

    last_zero : (x == 0) ≡ true → flat (reverse rev) ++ replicate 8 false ≡ flat (reverse (x ∷ rev))
    last_zero e =
        let z : x ≡ 0 = ground arith in
        ap (λ l. flat (reverse rev) ++ l) (sym (bits-zero 8) ∙ ap (bits 8) (sym z)) ∙ sym split

All-reverse : (bs : List ℕ) → All IsByte bs → All IsByte (reverse bs)
All-reverse [] h = tt
All-reverse (b ∷ bs) h =
    rw reverse-cons (All-append IsByte (reverse bs) (b ∷ []) (All-reverse bs h.1) (h.0, tt))

find_tag-Found : (bs : List ℕ) → All IsByte bs → Found (flat bs) (find_tag bs)
unfolding find_tag
find_tag-Found bs h =
    subst (λ l. Found (flat l) (find_tag bs)) (reverse-reverse bs)
      (find_tag_loop-Found (reverse bs) (length bs * 8) (omega (arith, length-reverse bs))
        (All-reverse bs h))

-- The tag is the last one: `find_tag` counts the bits before it.
pub find_tag-tagged :
    (bs : List ℕ) (xs : List Bool) (k : ℕ)
    → All IsByte bs
    → flat bs ≡ tagged xs k
    → find_tag bs ≡ length xs
find_tag-tagged bs xs k hb e = read (unfold Found in find_tag-Found bs hb)
  where
    read :
        ((flat bs ≡ replicate (length (flat bs)) false) × (find_tag bs ≡ 0))
          ⊎ ((ys : List Bool) × (j : ℕ) × (flat bs ≡ tagged ys j) × (find_tag bs ≡ length ys))
        → find_tag bs ≡ length xs
    read (inl (z, n)) = absurd (zeros-ne-one (length (flat bs)) k xs (sym z ∙ e))
    read (inr (ys, j, t, n)) = n ∙ ap length (tagged_unique ys xs j k (sym t ∙ e))

-- Bytes with no one in them have no data.
pub find_tag-zeros :
    (bs : List ℕ) (n : ℕ) → flat bs ≡ replicate n false → All IsByte bs → find_tag bs ≡ 0
find_tag-zeros bs n e hb = read (unfold Found in find_tag-Found bs hb)
  where
    read :
        ((flat bs ≡ replicate (length (flat bs)) false) × (find_tag bs ≡ 0))
          ⊎ ((ys : List Bool) × (j : ℕ) × (flat bs ≡ tagged ys j) × (find_tag bs ≡ length ys))
        → find_tag bs ≡ 0
    read (inl (z, k)) = k
    read (inr (ys, j, t, k)) = absurd (zeros-ne-one n j ys (sym e ∙ t))

-- The last data byte with the tag behind its `s` highest bits.
tag_byte_lem :
    (s b : ℕ) → s ≤ 7 → b < 256 → tag_byte s b ≡ (b / 2 ^ (7 - s) / 2 * 2 + 1) * 2 ^ (7 - s) % 256
tag_byte_lem s b hs hb = elim (Bool-cases (s == 7)) [
  | inl full ↦ let e : 7 - s ≡ 0 = ground arith in rw (full, e, set_lowest b) (omega arith)
  | inr part ↦ rw (part, set_lowest (b / 2 ^ (7 - s))) refl
]
  where
    set_lowest : (v : ℕ) → bit_or v 1 ≡ v / 2 * 2 + 1
    set_lowest v = omega (arith, bit_or_lowest v 1, bit_or-zero (v / 2) (v / 2))

tag_byte-bits :
    (s b : ℕ) → s ≤ 7 → b < 256 → bits 8 (tag_byte s b) ≡ tagged (take s (bits 8 b)) (7 - s)
tag_byte-bits s b hs hb =
    ap (bits 8) (tag_byte_lem s b hs hb)
    ∙ bits-mod 8 8 (v * 2 ^ (7 - s)) (omega arith)
    ∙ bits-shl (suc s) (7 - s) 8 v (omega arith)
    ∙ ap (λ l. l ++ replicate (7 - s) false)
        (last_bit
          ∙ ap (λ l. l ++ true ∷ []) (ap (bits s) high ∙ bits-shr s (8 - s) 8 b (omega arith)))
    ∙ append_assoc (take s (bits 8 b)) (true ∷ []) (replicate (7 - s) false)
  where
    v : ℕ
    v = b / 2 ^ (7 - s) / 2 * 2 + 1

    last_bit : bits (suc s) v ≡ bits s (v / 2) ++ true ∷ []
    last_bit = unfold bits in ap (λ (t : Bool). bits s (v / 2) ++ t ∷ []) (ground arith)

    high : v / 2 ≡ b / 2 ^ (8 - s)
    high =
        let e : 8 - s ≡ suc (7 - s) = omega arith in
        omega (
          arith,
          div-div-eq-div-mul b (2 ^ (7 - s)) 2,
          ap (λ (t : ℕ). b / 2 ^ t) e,
          ap (λ (t : ℕ). b / t) (pow-suc 2 (7 - s)),
        )

is_nil-false :
    (bs : List ℕ) (count : ℕ) → count ≤ 8 * length bs → (count % 8 == 0) ≡ false → is_nil bs ≡ false
is_nil-false [] count h e = let z : count ≡ 0 = omega arith in absurd (ground arith)
is_nil-false (b ∷ bs) count h e = refl

-- `append_tag` keeps the first `count` bits and puts the tag behind them.
pub append_tag-tagged :
    (bs : List ℕ) (count : ℕ)
    → count ≤ 8 * length bs
    → All IsByte bs
    → (cs : List ℕ) × (k : ℕ) × (append_tag bs count ≡ ok cs)
      × (flat cs ≡ tagged (take count (flat bs)) k)
      × (k < 8)
      × All IsByte cs
unfolding append_tag
append_tag-tagged bs count h hb = elim (Bool-cases (count % 8 == 0)) [
  | inl whole ↦ (
    take (count / 8) bs ++ 0x80 ∷ [],
    7,
    rw whole refl,
    flat-append (take (count / 8) bs) (0x80 ∷ [])
        ∙ ap₂ ◌++◌ (flat-take (count / 8) count bs (ground arith))
            (flat-singleton 0x80 ∙ unfold bits in refl),
    omega arith,
    All-append IsByte (take (count / 8) bs) (0x80 ∷ []) (All-take IsByte (count / 8) bs hb)
        (omega arith, tt),
  )
  | inr part ↦
      let (front, last, popped, split) =
        pop-ne-nil (take (1 + count / 8) bs) (ground (arith, length-take (1 + count / 8) bs)) in
      (
        front ++ tag_byte (count % 8) last ∷ [],
        7 - count % 8,
        rw (part, is_nil-false bs count h part, popped) refl,
        partial front last split (ground arith),
        omega arith,
        All-append IsByte front (tag_byte (count % 8) last ∷ [])
            (All-front IsByte front (last ∷ [])
              (subst (All IsByte) split (All-take IsByte (1 + count / 8) bs hb)))
            (below front last split, tt),
      )
]
  where
    last_is_byte :
        (front : List ℕ) (last : ℕ) → take (1 + count / 8) bs ≡ front ++ last ∷ [] → last < 256
    last_is_byte front last split =
        (All-back IsByte front (last ∷ [])
          (subst (All IsByte) split (All-take IsByte (1 + count / 8) bs hb))).0

    below :
        (front : List ℕ) (last : ℕ)
        → take (1 + count / 8) bs ≡ front ++ last ∷ []
        → tag_byte (count % 8) last < 256
    below front last split =
        rw (tag_byte_lem (count % 8) last (omega arith) (last_is_byte front last split))
          (omega arith)

    partial :
        (front : List ℕ) (last : ℕ)
        → take (1 + count / 8) bs ≡ front ++ last ∷ []
        → count % 8 ≢ 0
        → flat (front ++ tag_byte (count % 8) last ∷ [])
          ≡ tagged (take count (flat bs)) (7 - count % 8)
    partial front last split p =
        flat-append front (tag_byte (count % 8) last ∷ [])
        ∙ ap (λ l. flat front ++ l)
            (flat-singleton (tag_byte (count % 8) last)
              ∙ tag_byte-bits (count % 8) last (omega arith) (last_is_byte front last split))
        ∙ sym (
            append_assoc (flat front) (take (count % 8) (bits 8 last))
              (true ∷ replicate (7 - count % 8) false))
        ∙ ap (λ l. tagged l (7 - count % 8))
            (sym (
                take-flat_last front last (count % 8) count (
                  omega (
                    arith,
                    ap length split,
                    length-append front (last ∷ []),
                    length-take (1 + count / 8) bs,
                  )))
              ∙ ap (λ l. take count (flat l)) (sym split)
              ∙ ap (take count) (flat-take (1 + count / 8) (8 * (1 + count / 8)) bs refl)
              ∙ take-take count (8 * (1 + count / 8)) (flat bs) (omega arith))

-- `append_tag` of `count` bits that the bytes hold returns bytes in which `find_tag` finds `count`.
pub find_tag-append_tag :
    (bs : List ℕ) (count : ℕ)
    → count ≤ 8 * length bs
    → All IsByte bs
    → (cs : List ℕ) × (append_tag bs count ≡ ok cs) × (find_tag cs ≡ count)
find_tag-append_tag bs count h hb =
    let (cs, k, e, t, small, bytes) = append_tag-tagged bs count h hb in
    (
      cs,
      e,
      find_tag-tagged cs (take count (flat bs)) k bytes t
          ∙ omega (arith, length-take count (flat bs), length-flat bs),
    )
