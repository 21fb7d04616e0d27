-- ===== src/Shard/Address/Hops.antt =====
-- `perform_hypercube_routing` of shard.rs and the next hop it finds.
use native.Mathlib.Nat.{one-le-pow}
use block.Common.{
  ℕ, ◌⊎◌, ◌≢◌, suc, ◌+◌, ◌-◌, ◌*◌, ◌/◌, ◌^◌, ◌≤◌, ◌<◌, ◌≡◌, refl, sym, ap, ◌∙◌, subst, arith, Bool,
  true, false, ◌||◌, leb, ◌==◌, if◌then◌else◌, lt→ltb, le→leb, ==_ne, bit_or, bit_and, bit_xor,
  Bool-cases, inl, inr,
}
use block.Types.{ok}
use block.Shard.{ShardIdent, leading_zeros, complement, contains_prefix}
use block.Shard.Masks.{bit_xor-zero, bit_xor-below}
use block.Shard.Family
use block.Shard.Family.{contains_prefix_lem}
use block.Shard.Address.{
  AccountIdPrefixFull, IntermediateAddress, regular, full_dest, is_masterchain, interpolate_addr,
  interpolate_addr_intermediate, contains_full_prefix, use_dest_bits, routing_loop,
  perform_hypercube_routing,
}
use block.Shard.Address.Routing.{routing_loop_leaves}
use block.Shard.Address.Range.{
  xor_cancel, and_below, or_below, ends, outside, inside, starts, hop_number,
}
use block.Shard.Address.Laws.{merged_number}

interpolated_below :
    (a dest : AccountIdPrefixFull) (n : ℕ)
    → a.prefix < 2 ^ 64
    → dest.prefix < 2 ^ 64
    → (interpolate_addr a dest n).prefix < 2 ^ 64
unfolding interpolate_addr
interpolated_below a dest n ha hd = elim (Bool-cases (n == 0)) [
  | inl none ↦ rw none ha
  | inr some ↦ elim (Bool-cases (leb 96 n)) [
    | inl all ↦ rw (some, all) hd
    | inr part ↦ elim (Bool-cases (leb 32 n)) [
      | inl far ↦
          rw (some, part, far)
            (or_below 64 (bit_and dest.prefix (complement ((2 ^ 64 - 1) / 2 ^ (n - 32))))
              (bit_and a.prefix ((2 ^ 64 - 1) / 2 ^ (n - 32))) (and_below 64 dest.prefix _ hd)
              (and_below 64 a.prefix _ ha))
      | inr near ↦ rw (some, part, near) ha
    ]
  ]
]

module _ (s : ShardIdent) (v : Family.IsValid s) (c : AccountIdPrefixFull)
    (small : c.prefix < 2 ^ 64) where
  -- The two parts of an address that a shard tests.
  both :
      (b : Bool)
      → contains_full_prefix s c ≡ b
      → (if s.workchain_id == c.workchain_id
          then v.tag.high == c.prefix / 2 ^ suc v.tag.shift
          else false)
        ≡ b
  unfolding contains_full_prefix
  both b e = sym (contains_prefix_lem v.tag s.workchain_id c.workchain_id c.prefix small) ∙ e

  holds :
      contains_full_prefix s c ≡ true
      → (s.workchain_id ≡ c.workchain_id) × (v.tag.high ≡ c.prefix / 2 ^ suc v.tag.shift)
  holds e = let h = both true e in (ground arith, ground arith)

  misses :
      contains_full_prefix s c ≡ false
      → s.workchain_id ≡ c.workchain_id
      → v.tag.high ≢ c.prefix / 2 ^ suc v.tag.shift
  misses e same at = let h = both false e in absurd (ground arith)

-- The prefix of an address of `32 + j` bits of the destination is what the loop tests.
hop_prefix :
    (c dest : AccountIdPrefixFull) (j : ℕ)
    → 4 ≤ j
    → j ≤ 64
    → c.prefix < 2 ^ 64
    → dest.prefix < 2 ^ 64
    → (interpolate_addr c dest (32 + j)).prefix
      ≡ bit_xor c.prefix
          (bit_and (bit_xor dest.prefix c.prefix) (complement ((2 ^ 64 - 1) / 2 ^ j)))
unfolding interpolate_addr
hop_prefix c dest j lower upper hc hd =
    let some = ==_ne (32 + j) 0 (omega arith) in
    let back : 32 + j - 32 ≡ j = omega arith in
    elim (Bool-cases (leb 96 (32 + j))) [
      | inl all ↦
          let e : j ≡ 64 = ground arith in
          rw (some, all)
            (sym (hop_number j 0 c.prefix dest.prefix (omega arith) hc hd ∙ omega arith))
      | inr part ↦
          rw (some, part, le→leb 32 (32 + j) (omega arith), back)
            (merged_number j (64 - j) 64 dest.prefix c.prefix (omega arith) hd
              ∙ sym (hop_number j (64 - j) c.prefix dest.prefix (omega arith) hc hd))
    ]

-- The transit address, where a message is, and the way from there.
module _ (a dest : AccountIdPrefixFull) (s : ShardIdent) (v : Family.IsValid s) (n : ℕ)
    (ha : a.prefix < 2 ^ 64) (hd : dest.prefix < 2 ^ 64) where
  abbrev transit : AccountIdPrefixFull
  transit = interpolate_addr a dest n

  abbrev way : ℕ
  way = bit_xor dest.prefix transit.prefix

  low : transit.prefix < 2 ^ 64
  low = interpolated_below a dest n ha hd

  -- The ends of the shard, as the code computes them.
  abbrev first_end : ℕ
  first_end = bit_and s.prefix (s.prefix - 1)

  abbrev last_end : ℕ
  last_end = bit_or s.prefix (s.prefix - 1)

  first_end_lem : first_end ≡ v.tag.high * 2 ^ suc v.tag.shift
  first_end_lem = ap (λ p. bit_and p (p - 1)) v.tag.shape ∙ (ends v.tag.shift v.tag.high).0

  last_end_lem : last_end + 1 ≡ (v.tag.high + 1) * 2 ^ suc v.tag.shift
  last_end_lem = ap (λ p. bit_or p (p - 1) + 1) v.tag.shape ∙ (ends v.tag.shift v.tag.high).1

  some_prefix : 1 ≤ s.prefix
  some_prefix = omega (arith, v.tag.shape, one-le-pow v.tag.shift 2 (omega arith))

  -- An address whose prefix lies outside of the ends is not in the shard.
  not_held :
      (c : AccountIdPrefixFull)
      → c.prefix < 2 ^ 64
      → (c.prefix < first_end) ⊎ (last_end < c.prefix)
      → contains_full_prefix s c ≡ false
  not_held c small out = elim (Bool-cases (contains_full_prefix s c)) [
    | inr away ↦ away
    | inl held ↦ absurd (
        inside v.tag.shift v.tag.high c.prefix first_end last_end first_end_lem last_end_lem
          (holds s v c small held).1 out)
  ]

  module _ (here : contains_full_prefix s transit ≡ true) where
    -- In the workchain of the destination, which another shard holds.
    hops :
        contains_full_prefix s dest ≡ false
        → transit.workchain_id ≡ dest.workchain_id
        → (j : ℕ) × (bit_and (leading_zeros way) 0xfc < 64)
          × (routing_loop 64 first_end last_end transit.prefix way
                ((2 ^ 64 - 1) / 2 ^ bit_and (leading_zeros way) 0xfc)
                (bit_and (leading_zeros way) 0xfc)
              ≡ ok (regular (28 + j), regular (32 + j)))
          × (contains_full_prefix s (interpolate_addr transit dest (32 + j)) ≡ false)
    hops away same =
        let (wc, at) = holds s v transit low here in
        let far = misses s v dest hd away (wc ∙ same) in
        let some : way ≢ 0 = λ z. far (
          at
          ∙ ap (λ (t : ℕ). t / 2 ^ suc v.tag.shift)
              (sym (
                bit_xor-zero (2 ^ 64) dest.prefix transit.prefix (omega arith) (omega (arith, low))
                  z))) in
        let (rounds, one, enough, total, _) = starts way some in
        let (j, lower, upper, runs, out) =
          routing_loop_leaves rounds 64 first_end last_end transit.prefix way _ one enough total
            (bit_xor-below 64 dest.prefix transit.prefix hd low)
            (subst (λ d. (d < first_end) ⊎ (last_end < d))
              (sym
                (xor_cancel (2 ^ 64) transit.prefix dest.prefix (omega (arith, low)) (omega arith)))
              (outside v.tag.shift v.tag.high dest.prefix first_end last_end first_end_lem
                last_end_lem far)) in
        (
          j,
          omega (arith, one, total),
          runs,
          not_held (interpolate_addr transit dest (32 + j))
              (interpolated_below transit dest (32 + j) low hd)
              (subst (λ d. (d < first_end) ⊎ (last_end < d))
                (sym (hop_prefix transit dest j lower upper low hd)) out),
        )

    other_workchain :
        (transit.workchain_id == dest.workchain_id) ≡ false
        → contains_full_prefix s (interpolate_addr transit dest 32) ≡ false
    unfolding contains_full_prefix contains_prefix interpolate_addr
    other_workchain other =
        let (wc, _) = holds s v transit low here in
        let ne : s.workchain_id ≢ dest.workchain_id = λ e. absurd (ground arith) in
        rw (==_ne s.workchain_id dest.workchain_id ne) refl

    -- For a valid shard that holds the transit address (`n` bits of the destination, the others of
    -- the address `a`, both with prefixes of 64 bits), `perform_hypercube_routing` returns two
    -- addresses: the loop ends, and nothing overflows. The second of them stands for the next hop,
    -- which is the destination if the shard holds it, and otherwise lies outside of the shard.
    pub perform_hypercube_routing_ends :
        (cur : IntermediateAddress) × (next : IntermediateAddress) × (hop : AccountIdPrefixFull)
        × (perform_hypercube_routing a dest s (regular n) ≡ ok (cur, next))
        × (interpolate_addr_intermediate transit dest next ≡ ok hop)
        × (((contains_full_prefix s dest ≡ true) × (hop ≡ dest))
            ⊎ (contains_full_prefix s hop ≡ false))
    unfolding perform_hypercube_routing interpolate_addr_intermediate use_dest_bits
    perform_hypercube_routing_ends = elim (Bool-cases (contains_full_prefix s dest)) [
      | inl arrived ↦
          (full_dest, full_dest, dest, rw (here, arrived) refl, ap ok all, inl (arrived, refl))
      | inr away ↦ elim (Bool-cases (is_masterchain transit || is_masterchain dest)) [
        | inl direct ↦
            (regular n, full_dest, dest, rw (here, away, direct) refl, ap ok all, inr away)
        | inr base ↦ elim (Bool-cases (transit.workchain_id == dest.workchain_id)) [
          | inr other ↦ (
            regular n,
            regular 32,
            interpolate_addr transit dest 32,
            rw (here, away, base, other) refl,
            refl,
            inr (other_workchain other),
          )
          | inl same ↦
              let e : transit.workchain_id ≡ dest.workchain_id = ground arith in
              let (j, below, runs, left) = hops away e in
              (
                regular (28 + j),
                regular (32 + j),
                interpolate_addr transit dest (32 + j),
                rw (here, away, base, same, le→leb 1 s.prefix some_prefix, lt→ltb _ _ below) runs,
                refl,
                inr left,
              )
        ]
      ]
    ]
      where
        all : interpolate_addr transit dest 96 ≡ dest
        all = unfold interpolate_addr in refl
