-- ===== src/Shard/Serial.antt =====
-- Writing a ShardIdent into a builder and reading it back (Serializable and Deserializable of
-- shard.rs), and the tag put behind a prefix.
use native.Mathlib.Nat.{one-le-pow, mul-div_cancel, pow-succ'}
use block.Common.{
  ℕ, ◌≢◌, suc, ◌+◌, ◌-◌, ◌*◌, ◌^◌, ◌≤◌, ◌<◌, ◌≡◌, refl, sym, ap, ap₂, ◌∙◌, subst, arith, Bool, List,
  [], ◌++◌, append-nil, append_assoc, ltb-false, ==_ne, bit_or, bit_and,
}
use block.Common.Word.{bits, bit_and-low}
use block.Types.{ok, ◌>>=◌}
use block.Cell.{ordinary}
use block.Builder.{BuilderData}
use block.Builder.Content.{IsValid}
use block.Slice.{SliceData, load_bitstring, move_by}
use block.Slice.Read.{get_next_byte, get_next_word}
use block.Slice.Window.{window}
use block.Slice.Front.{get_next_word_front, get_next_byte_front}
use block.RoundTrip.{appended_window}
use block.Shard.{
  ShardIdent, negate_bits, add_tag, invalid_workchain_id, check_workchain_id, with_prefix_len,
  write_to, read_from,
}
use block.Shard.Masks.{bit_and-high, bit_or-double, bit_or-one}
use block.Shard.Prefix.{IsTagged, tagged, tagged-below, mirror}
use block.Shard.Family
use block.Shard.Written.{encoded, write_to_content}
use block.Slice.Window

-- Cutting the tag off and putting it back.
add_tag-without : {n p : ℕ} (t : IsTagged n p) → add_tag (p - 2 ^ t.shift) n ≡ p
unfolding add_tag
add_tag-without {n} {p} t =
    ap (λ k. bit_or (bit_and (p - 2 ^ t.shift) (negate_bits (2 ^ k))) (2 ^ k)) place
    ∙ ap₂ bit_or
        (ap₂ bit_and cut mask
          ∙ bit_and-high (suc n) t.shift (2 * t.high * 2 ^ t.shift)
              (subst (λ k. 2 * t.high * 2 ^ t.shift < 2 ^ k) word small)
          ∙ ap (λ x. x * 2 ^ t.shift)
              (mul-div_cancel (2 * t.high) (one-le-pow t.shift 2 (omega arith))))
        one
    ∙ bit_or-double t.shift (2 * t.high) 1
    ∙ ap (λ x. x * 2 ^ t.shift) odd
    ∙ sym t.shape
  where
    place : 63 - n ≡ t.shift
    place = omega (arith, t.sizes)

    word : 64 ≡ suc n + t.shift
    word = omega (arith, t.sizes)

    one : 2 ^ t.shift ≡ 1 * 2 ^ t.shift
    one = omega arith

    cut : p - 2 ^ t.shift ≡ 2 * t.high * 2 ^ t.shift
    cut = omega (arith, t.shape)

    small : 2 * t.high * 2 ^ t.shift < 2 ^ 64
    small = omega (arith, cut, tagged-below t)

    odd : bit_or (2 * t.high) 1 ≡ 2 * t.high + 1
    odd = omega (arith, bit_or-one (2 * t.high))

    mask : negate_bits (2 ^ t.shift) ≡ (2 ^ suc n - 1) * 2 ^ t.shift
    mask =
        let first : 2 ^ t.shift ≡ tagged 0 t.shift = omega arith in
        let ones : 2 * (2 ^ n - 1) + 1 ≡ 2 ^ suc n - 1 =
          omega (arith, pow-succ' 2 n, one-le-pow n 2 (omega arith)) in
        ap negate_bits first
        ∙ mirror n t.shift 0 (2 ^ n - 1) t.sizes (omega (arith, one-le-pow n 2 (omega arith)))
        ∙ ap (λ x. x * 2 ^ t.shift) ones

module _ (s : ShardIdent) (v : Family.IsValid s) (known : s.workchain_id ≢ invalid_workchain_id)
    (narrow : s.workchain_id < 2 ^ 32) where
  with_prefix_len-parts : with_prefix_len v.len s.workchain_id (s.prefix - 2 ^ v.tag.shift) ≡ ok s
  unfolding with_prefix_len check_workchain_id
  with_prefix_len-parts =
      rw (ltb-false 60 v.len v.depth, ==_ne s.workchain_id invalid_workchain_id known)
        (ap (λ p. ok (record s { prefix = p })) (add_tag-without v.tag))

  read_from_front :
      (cell : SliceData) (rest : List Bool)
      → Window.IsValid cell
      → window cell ≡ encoded s v ++ rest
      → (cell' : SliceData) × (read_from cell ≡ ok (s, cell'))
        × Window.IsValid cell'
        × (window cell' ≡ rest)
  read_from_front cell rest vc holds =
      let (c₁, r₁, v₁, h₁) = get_next_byte_front cell v.len _ vc (omega (arith, v.depth)) (
        holds
        ∙ append_assoc (bits 8 v.len)
            (bits 32 s.workchain_id ++ bits 64 (s.prefix - 2 ^ v.tag.shift)) rest) in
      let (c₂, r₂, v₂, h₂) =
        get_next_word_front 4 c₁ s.workchain_id _ v₁ narrow (
          h₁ ∙ append_assoc (bits 32 s.workchain_id) (bits 64 (s.prefix - 2 ^ v.tag.shift)) rest) in
      let (c₃, r₃, v₃, h₃) =
        get_next_word_front 8 c₂ (s.prefix - 2 ^ v.tag.shift) rest v₂
          (omega (arith, tagged-below v.tag)) h₂ in
      (c₃, chain c₁ c₂ c₃ r₁ r₂ r₃, v₃, h₃)
    where
      high_clear : bit_and v.len 0xc0 ≡ 0
      high_clear = bit_and-high 2 6 v.len (omega (arith, v.depth)) ∙ omega (arith, v.depth)

      low_kept : bit_and v.len 0x3f ≡ v.len
      low_kept = bit_and-low 6 v.len ∙ omega (arith, v.depth)

      chain :
          (c₁ c₂ c₃ : SliceData)
          → get_next_byte cell ≡ ok (v.len, c₁)
          → get_next_word 4 c₁ ≡ ok (s.workchain_id, c₂)
          → get_next_word 8 c₂ ≡ ok (s.prefix - 2 ^ v.tag.shift, c₃)
          → read_from cell ≡ ok (s, c₃)
      chain c₁ c₂ c₃ r₁ r₂ r₃ =
          unfold read_from in
          rw (r₁, high_clear, low_kept, ltb-false 60 v.len v.depth, r₂, r₃, with_prefix_len-parts)
            refl

  -- A valid shard of a known workchain, written behind the bits of a valid builder of ordinary type
  -- that has room for its 104 bits and no references, is read back by `read_from` from the same
  -- place, with nothing left behind it.
  pub read_from-write_to :
      (b : BuilderData)
      → IsValid b
      → b.ty ≡ ordinary
      → b.refs ≡ []
      → b.length_in_bits + 104 ≤ 1023
      → (cell : SliceData) × ((do
        b' ← write_to s b
        whole ← load_bitstring b'
        at_shard ← move_by whole b.length_in_bits
        read_from at_shard)
          ≡ ok (s, cell))
        × (window cell ≡ [])
  read_from-write_to b vb plain leaf room =
      let (b', wrote, x) = write_to_content s v b vb room in
      let (whole, at_shard, loads, moved, vs, bits) =
        appended_window b vb plain leaf (encoded s v) b' x in
      let (cell, reads, _, empty) =
        read_from_front at_shard [] vs (bits ∙ sym (append-nil (encoded s v))) in
      (cell, chain b' whole at_shard wrote loads moved ∙ reads, empty)
    where
      chain :
          (b' : BuilderData) (whole at_shard : SliceData)
          → write_to s b ≡ ok b'
          → load_bitstring b' ≡ ok whole
          → move_by whole b.length_in_bits ≡ ok at_shard
          → (do
            b' ← write_to s b
            whole ← load_bitstring b'
            at_shard ← move_by whole b.length_in_bits
            read_from at_shard)
            ≡ read_from at_shard
      chain b' whole at_shard wrote loads moved = rw (wrote, loads, moved) refl
