-- ===== src/Shard/Family.antt =====
-- Parents, children and siblings among the shards of shard.rs.
use native.Mathlib.Nat.{div-div-eq-div-mul, pow-succ'}
use block.Common.{
  ℕ, zero, suc, ◌+◌, ◌-◌, ◌*◌, ◌/◌, ◌%◌, ◌^◌, max, ◌≤◌, ◌<◌, ◌≡◌, refl, sym, ap, ap₂, ◌∙◌, arith,
  Bool, true, false, ◌&&◌, ◌||◌, leb, ◌==◌, if◌then◌else◌, ==_refl, ==_ne, inl, inr, Bool-cases,
  bit_or, bit_and, bit_xor,
}
use block.Common.Word.{bit_and-low, two_pow_add}
use block.Common.Word.Digits.{bit_xor_lowest}
use block.Types.{ok}
use block.Shard.{
  ShardIdent, negate_bits, lower_bits, prefix_lower_bits, shl, prefix_len, shard_full, split, merge,
  sibling, contains_prefix, is_ancestor, shard_intersects,
}
use block.Shard.Masks.{bit_or-double, bit_or-one, bit_xor-double, bit_xor-one, bit_xor_comm}
use block.Shard.Prefix.{IsTagged, tagged, lower_bits_lem, prefix_len_lem, tagged-below, front}

-- At most 60 bits of prefix, and the tag.
pub record IsValid (s : ShardIdent) : Type 0 where
  pub len : ℕ
  pub tag : IsTagged len s.prefix
  pub depth : len ≤ 60

full_tag : IsTagged 0 shard_full
full_tag = record { high = 0; shift = 63; sizes = refl; below = omega arith; shape = refl }

-- Only the shard without a prefix is full.
pub not_full : {n p : ℕ} → IsTagged (suc n) p → (p == shard_full) ≡ false
not_full {n} {p} t = ==_ne p shard_full λ e. absurd (
    omega (
      arith,
      prefix_len_lem t 0,
      ap (λ q. prefix_len (record { workchain_id = 0; prefix = q })) e,
      prefix_len_lem full_tag 0,
    ))

module _ (wc n h j : ℕ) (sizes : n + suc j ≡ 63) (lt : h < 2 ^ n) where
  abbrev shard : ℕ → ℕ → ShardIdent
  shard high shift = record { workchain_id = wc; prefix = tagged high shift }

  abbrev parent_tag : IsTagged n (tagged h (suc j))
  parent_tag = record { high = h; shift = suc j; sizes = sizes; below = lt; shape = refl }

  abbrev child_tag : (c : ℕ) → c / 2 ≡ h → IsTagged (suc n) (tagged c j)
  child_tag c e = record {
    high = c;
    shift = j;
    sizes = omega arith;
    below = omega (arith, pow-succ' 2 n);
    shape = refl;
  }

  double : (c : ℕ) → c * 2 ^ suc j ≡ 2 * (c * 2 ^ j)
  double c = omega (arith, ap (λ (t : ℕ). c * t) (pow-succ' 2 j))

  split_lem : n < 60 → split (shard h (suc j)) ≡ ok (shard (2 * h) j, shard (2 * h + 1) j)
  unfolding split prefix_lower_bits
  split_lem room =
      let lb : lower_bits (tagged h (suc j)) / 2 ≡ 2 ^ j =
        omega (arith, lower_bits_lem parent_tag, pow-succ' 2 j) in
      let low : bit_and (2 ^ j) (2 ^ 3 - 1) ≡ 0 =
        bit_and-low 3 (2 ^ j) ∙ omega (arith, two_pow_add 3 (j - 3) j (omega arith)) in
      rw (lb, low)
        (ap₂
          (λ l r.
            ok (record { workchain_id = wc; prefix = l }, record { workchain_id = wc; prefix = r }))
          (omega (arith, double (2 * h + 1))) (omega (arith, double (2 * h + 1))))

  merge_lem : (c : ℕ) → c / 2 ≡ h → merge (shard c j) ≡ ok (shard h (suc j))
  unfolding merge prefix_lower_bits
  merge_lem c e =
      rw (not_full (child_tag c e), lower_bits_lem (child_tag c e))
        (ap (λ p. ok (record { workchain_id = wc; prefix = p }))
          (ap₂ bit_or front_part tag_part
            ∙ bit_or-double (suc j) c 1
            ∙ ap (λ x. x * 2 ^ suc j) (bit_or-one c ∙ ap (λ x. 2 * x + 1) e)))
    where
      front_part : tagged c j - 2 ^ j ≡ c * 2 ^ suc j
      front_part = omega (arith, double c)

      tag_part : 2 ^ j * 2 ^ 1 % 2 ^ 64 ≡ 1 * 2 ^ suc j
      tag_part = omega (arith, pow-succ' 2 j, tagged-below parent_tag, double (2 * h + 1))

  sibling_lem : (c d : ℕ) → c / 2 ≡ h → d ≡ 2 * h + (c + 1) % 2 → sibling (shard c j) ≡ shard d j
  unfolding sibling lower_bits
  sibling_lem c d e f =
      ap (λ p. record { workchain_id = wc; prefix = p })
        (ap (bit_xor (tagged c j)) shifted
          ∙ bit_xor-double j (2 * c + 1) 2
          ∙ ap (λ x. x * 2 ^ j) flipped)
    where
      flipped : bit_xor (2 * c + 1) 2 ≡ 2 * d + 1
      flipped =
          let half : (2 * c + 1) / 2 ≡ c = omega arith in
          omega (arith, bit_xor_lowest (2 * c + 1) 2, ap (λ x. bit_xor x 1) half, bit_xor-one c)

      shifted : shl (bit_and (tagged c j) (negate_bits (tagged c j))) 1 ≡ 2 * 2 ^ j
      shifted =
          ap (λ x. shl x 1) (lower_bits_lem (child_tag c e))
          ∙ omega (arith, tagged-below parent_tag, double (2 * h + 1), pow-succ' 2 j)

-- Splitting a valid shard of fewer than 60 bits gives two valid shards, each other's sibling, which
-- both merge back into it.
pub split_family :
    (s : ShardIdent) (v : IsValid s)
    → v.len < 60
    → (l : ShardIdent) × (r : ShardIdent) × (split s ≡ ok (l, r))
      × IsValid l
      × IsValid r
      × (merge l ≡ ok s)
      × (merge r ≡ ok s)
      × (sibling l ≡ r)
      × (sibling r ≡ l)
split_family s v room =
    family s.prefix v.len v.tag.high v.tag.shift v.tag.sizes v.tag.below v.tag.shape room
  where
    family :
        (p n h k : ℕ)
        → n + k ≡ 63
        → h < 2 ^ n
        → p ≡ tagged h k
        → n < 60
        → (l : ShardIdent) × (r : ShardIdent) × (split (record s { prefix = p }) ≡ ok (l, r))
          × IsValid l
          × IsValid r
          × (merge l ≡ ok (record s { prefix = p }))
          × (merge r ≡ ok (record s { prefix = p }))
          × (sibling l ≡ r)
          × (sibling r ≡ l)
    family p n h zero sizes lt e room = absurd (omega arith)
    family p n h (suc j) sizes lt e room =
        let wc = s.workchain_id in
        let same = ap (λ q. record s { prefix = q }) (sym e) in
        let left : 2 * h / 2 ≡ h = omega arith in
        let right : (2 * h + 1) / 2 ≡ h = omega arith in
        (
          shard wc n h j sizes lt (2 * h) j,
          shard wc n h j sizes lt (2 * h + 1) j,
          ap split (sym same) ∙ split_lem wc n h j sizes lt room,
          record { len = suc n; tag = child_tag wc n h j sizes lt (2 * h) left; depth = room },
          record { len = suc n; tag = child_tag wc n h j sizes lt (2 * h + 1) right; depth = room },
          merge_lem wc n h j sizes lt (2 * h) left ∙ ap ok same,
          merge_lem wc n h j sizes lt (2 * h + 1) right ∙ ap ok same,
          sibling_lem wc n h j sizes lt (2 * h) (2 * h + 1) left (omega arith),
          sibling_lem wc n h j sizes lt (2 * h + 1) (2 * h) right (omega arith),
        )

-- Which account prefixes a shard holds.
pub contains_prefix_lem :
    {n p : ℕ} (t : IsTagged n p) (wc wc' a : ℕ)
    → a < 2 ^ 64
    → contains_prefix (record { workchain_id = wc; prefix = p }) wc' a
      ≡ (if wc == wc' then t.high == a / 2 ^ suc t.shift else false)
unfolding contains_prefix
contains_prefix_lem {n} {p} t wc wc' a h = elim (Bool-cases (wc == wc')) [
  | inr e ↦ rw e refl
  | inl e ↦ rw e (inside n t)
]
  where
    inside :
        (n : ℕ) (t : IsTagged n p)
        → (if p == shard_full
            then true
            else p / 2 ^ (64 - prefix_len (record { workchain_id = wc; prefix = p }))
              == a / 2 ^ (64 - prefix_len (record { workchain_id = wc; prefix = p })))
          ≡ (t.high == a / 2 ^ suc t.shift)
    inside zero t =
        let s : t.shift ≡ 63 = omega (arith, t.sizes) in
        let z : t.high ≡ 0 = omega (arith, t.below) in
        let whole : p ≡ shard_full = t.shape ∙ ap₂ tagged z s in
        let none : a / 2 ^ suc t.shift ≡ 0 = ap (λ k. a / 2 ^ suc k) s ∙ omega arith in
        rw (ap (λ q. q == shard_full) whole ∙ ==_refl shard_full)
          (sym (ap₂ ◌==◌ z none ∙ ==_refl 0))
    inside (suc n) t =
        let k : 64 - prefix_len (record { workchain_id = wc; prefix = p }) ≡ suc t.shift =
          omega (arith, prefix_len_lem t wc, t.sizes) in
        rw (not_full t, k) (ap (λ q. q == a / 2 ^ suc t.shift) (front t))

-- A valid shard of fewer than 60 bits holds exactly the account prefixes that one of the two shards
-- it is split into holds, and no account prefix is in both.
pub split_covers :
    (s : ShardIdent) (v : IsValid s) (wc a : ℕ)
    → v.len < 60
    → a < 2 ^ 64
    → (l : ShardIdent) × (r : ShardIdent) × (split s ≡ ok (l, r))
      × (contains_prefix s wc a ≡ (contains_prefix l wc a || contains_prefix r wc a))
      × ((contains_prefix l wc a && contains_prefix r wc a) ≡ false)
split_covers s v wc' a room small =
    covers s.prefix v.len v.tag.high v.tag.shift v.tag.sizes v.tag.below v.tag.shape room
  where
    halves :
        (h y : ℕ) (b : Bool)
        → ((if b then h == y / 2 else false)
            ≡ ((if b then 2 * h == y else false) || (if b then 2 * h + 1 == y else false)))
          × (((if b then 2 * h == y else false) && (if b then 2 * h + 1 == y else false)) ≡ false)
    halves h y true = (ground arith, ground arith)
    halves h y false = (refl, refl)

    covers :
        (p n h k : ℕ)
        → n + k ≡ 63
        → h < 2 ^ n
        → p ≡ tagged h k
        → n < 60
        → (l : ShardIdent) × (r : ShardIdent) × (split (record s { prefix = p }) ≡ ok (l, r))
          × (contains_prefix (record s { prefix = p }) wc' a
              ≡ (contains_prefix l wc' a || contains_prefix r wc' a))
          × ((contains_prefix l wc' a && contains_prefix r wc' a) ≡ false)
    covers p n h zero sizes lt e room = absurd (omega arith)
    covers p n h (suc j) sizes lt e room =
        let wc = s.workchain_id in
        let same = ap (λ q. record s { prefix = q }) e in
        let left =
          contains_prefix_lem (child_tag wc n h j sizes lt (2 * h) (omega arith)) wc wc' a small in
        let right =
          contains_prefix_lem (child_tag wc n h j sizes lt (2 * h + 1) (omega arith)) wc wc' a
            small in
        let mine = contains_prefix_lem (parent_tag wc n h j sizes lt) wc wc' a small in
        let half : a / 2 ^ suc (suc j) ≡ a / 2 ^ suc j / 2 = sym (
          div-div-eq-div-mul a (2 ^ suc j) 2
          ∙ ap (λ (t : ℕ). a / t) (omega (arith, pow-succ' 2 (suc j)))) in
        let (cover, apart) = halves h (a / 2 ^ suc j) (wc == wc') in
        (
          shard wc n h j sizes lt (2 * h) j,
          shard wc n h j sizes lt (2 * h + 1) j,
          ap split same ∙ split_lem wc n h j sizes lt room,
          ap (λ x. contains_prefix x wc' a) same
              ∙ mine
              ∙ ap (λ y. if wc == wc' then h == y else false) half
              ∙ cover
              ∙ sym (ap₂ ◌||◌ left right),
          ap₂ ◌&&◌ left right ∙ apart,
        )

-- `shard_intersects` holds exactly if one prefix is an ancestor of the other.
pub shard_intersects_lem : (x y : ℕ) → shard_intersects x y ≡ (is_ancestor x y || is_ancestor y x)
unfolding shard_intersects is_ancestor
shard_intersects_lem x y =
    sides (lower_bits x) (lower_bits y) (bit_xor x y)
    ∙ ap
        (λ d.
          (leb (lower_bits y) (lower_bits x) && clear (lower_bits x) (bit_xor x y))
          || (leb (lower_bits x) (lower_bits y) && clear (lower_bits y) d))
        (bit_xor_comm x y)
  where
    clear : ℕ → ℕ → Bool
    clear z d = bit_and d (shl (negate_bits z) 1) == 0

    sides : (a b d : ℕ) → clear (max a b) d ≡ ((leb b a && clear a d) || (leb a b && clear b d))
    sides a b d = elim (Bool-cases (leb b a)) [
      | inl e ↦ elim (Bool-cases (leb a b)) [
        | inl f ↦
            let same : a ≡ b = ground arith in
            let top : max a b ≡ b = ground arith in
            rw (e, f)
              (ap (λ z. clear z d) top
                ∙ twice (clear b d)
                ∙ ap (λ z. clear z d || clear b d) (sym same))
        | inr f ↦
            let top : max a b ≡ a = ground arith in
            rw (e, f) (ap (λ z. clear z d) top ∙ or_false (clear a d))
      ]
      | inr e ↦
          let f : leb a b ≡ true = ground arith in
          let top : max a b ≡ b = ground arith in rw (e, f) (ap (λ z. clear z d) top)
    ]
      where
        twice : (b : Bool) → b ≡ (b || b)
        twice true = refl
        twice false = refl

        or_false : (b : Bool) → b ≡ (b || false)
        or_false true = refl
        or_false false = refl
