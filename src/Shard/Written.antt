-- ===== src/Shard/Written.antt =====
-- What `write_to` of ShardIdent (shard.rs) leaves in a builder.
use block.Common.{
  ◌⊎◌, ◌+◌, ◌-◌, ◌^◌, ◌≤◌, ◌<◌, ◌≡◌, refl, ap, subst, arith, Bool, List, ◌++◌, append_assoc, leb,
  Bool-cases, inl, inr,
}
use block.Common.Word.{bits, length-bits}
use block.Types.{ok, err, exception, cell_overflow}
use block.Builder.{BuilderData, append_word}
use block.Builder.Content.{IsValid, Extends, Extends-trans, Extends-length}
use block.Builder.Writes.{append_word_content, append_word_overflow}
use block.Shard.{ShardIdent, prefix_len, prefix_lower_bits, shard_prefix_without_tag, write_to}
use block.Shard.Prefix.{lower_bits_lem, prefix_len_lem}
use block.Shard.Family

module _ (s : ShardIdent) (v : Family.IsValid s) where
  pub prefix_len_valid : prefix_len s ≡ v.len
  prefix_len_valid = prefix_len_lem v.tag s.workchain_id

  pub without_tag : shard_prefix_without_tag s ≡ s.prefix - 2 ^ v.tag.shift
  unfolding shard_prefix_without_tag prefix_lower_bits
  without_tag = ap (λ x. s.prefix - x) (lower_bits_lem v.tag)

  -- The 8 bits of the length, the 32 of the workchain, the 64 of the prefix with its tag cut off.
  abbrev pub encoded : List Bool
  encoded = bits 8 v.len ++ (bits 32 s.workchain_id ++ bits 64 (s.prefix - 2 ^ v.tag.shift))

  module _ (b : BuilderData) (vb : IsValid b) where
    chain :
        (b₁ b₂ b₃ : BuilderData)
        → append_word 1 b v.len ≡ ok b₁
        → append_word 4 b₁ s.workchain_id ≡ ok b₂
        → append_word 8 b₂ (s.prefix - 2 ^ v.tag.shift) ≡ ok b₃
        → write_to s b ≡ ok b₃
    chain b₁ b₂ b₃ w₁ w₂ w₃ = unfold write_to in rw (prefix_len_valid, without_tag, w₁, w₂, w₃) refl

    pub write_to_content :
        b.length_in_bits + 104 ≤ 1023
        → (b' : BuilderData) × (write_to s b ≡ ok b') × Extends b encoded b'
    write_to_content room =
        let (b₁, w₁, x₁) = append_word_content 1 b v.len vb (omega arith) in
        let l₁ = Extends-length vb x₁ in
        let (b₂, w₂, x₂) =
          append_word_content 4 b₁ s.workchain_id x₁.valid
            (omega (arith, l₁, length-bits 8 v.len)) in
        let l₂ = Extends-length x₁.valid x₂ in
        let (b₃, w₃, x₃) =
          append_word_content 8 b₂ (s.prefix - 2 ^ v.tag.shift) x₂.valid
            (omega (arith, l₁, length-bits 8 v.len, l₂, length-bits 32 s.workchain_id)) in
        (
          b₃,
          chain b₁ b₂ b₃ w₁ w₂ w₃,
          subst (λ xs. Extends b xs b₃)
              (append_assoc (bits 8 v.len) (bits 32 s.workchain_id)
                (bits 64 (s.prefix - 2 ^ v.tag.shift)))
              (Extends-trans (Extends-trans x₁ x₂ (omega (arith, length-bits 32 s.workchain_id))) x₃
                (omega (arith, length-bits 64 (s.prefix - 2 ^ v.tag.shift)))),
        )

    -- The first of the three numbers that passes the end of the builder.
    write_to_full : 1023 < b.length_in_bits + 104 → write_to s b ≡ err (exception cell_overflow)
    write_to_full full = elim (Bool-cases (leb (b.length_in_bits + 8) 1023)) [
      | inr first ↦
          let w₁ = append_word_overflow 1 b v.len (ground arith) in
          unfold write_to in rw (prefix_len_valid, w₁) refl
      | inl fits₁ ↦
          let (b₁, w₁, x₁) = append_word_content 1 b v.len vb (ground arith) in
          let l₁ = Extends-length vb x₁ in
          elim (Bool-cases (leb (b.length_in_bits + 40) 1023)) [
            | inr second ↦
                let w₂ =
                  append_word_overflow 4 b₁ s.workchain_id
                    (ground (arith, l₁, length-bits 8 v.len)) in
                unfold write_to in rw (prefix_len_valid, w₁, w₂) refl
            | inl fits₂ ↦
                let (b₂, w₂, x₂) =
                  append_word_content 4 b₁ s.workchain_id x₁.valid
                    (ground (arith, l₁, length-bits 8 v.len)) in
                let l₂ = Extends-length x₁.valid x₂ in
                let w₃ =
                  append_word_overflow 8 b₂ (s.prefix - 2 ^ v.tag.shift)
                    (omega (arith, l₁, length-bits 8 v.len, l₂, length-bits 32 s.workchain_id)) in
                unfold write_to in rw (prefix_len_valid, without_tag, w₁, w₂, w₃) refl
          ]
    ]

    -- `write_to` of a valid shard into a valid builder: either its 104 bits fit, and the result is
    -- valid and has the length, the workchain and the prefix without its tag behind the builder's
    -- bits, references and type kept; or they do not, and it is a CellOverflow, wherever the first
    -- of the three numbers ends that does not fit.
    pub write_to_lem :
        ((b.length_in_bits + 104 ≤ 1023)
          × (b' : BuilderData) × (write_to s b ≡ ok b')
          × Extends b encoded b')
        ⊎ ((1023 < b.length_in_bits + 104) × (write_to s b ≡ err (exception cell_overflow)))
    write_to_lem = elim (Bool-cases (leb (b.length_in_bits + 104) 1023)) [
      | inl fits ↦
          let room : b.length_in_bits + 104 ≤ 1023 = ground arith in
          let (b', wrote, x) = write_to_content room in inl (room, b', wrote, x)
      | inr full ↦
          let more : 1023 < b.length_in_bits + 104 = ground arith in inr (more, write_to_full more)
    ]
