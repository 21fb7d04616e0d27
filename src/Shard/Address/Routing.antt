-- ===== src/Shard/Address/Routing.antt =====
-- The loop of hypercube routing in shard.rs comes to an end.
use native.Mathlib.Nat.{mod-eq_of_lt, div-div-eq-div-mul}
use block.Common.{
  ℕ, ◌⊎◌, zero, suc, ◌+◌, ◌-◌, ◌*◌, ◌/◌, ◌^◌, ◌≤◌, ◌<◌, ◌≡◌, refl, sym, ap, ◌∙◌, subst, arith, Bool,
  true, false, ◌||◌, ltb, ltb-false, lt→ltb, le→leb, bit_and, bit_xor, Bool-cases, inl, inr,
}
use block.Common.Word.{bit_and-low, shr_below, two_pow_add}
use block.Types.{ok}
use block.Shard.{complement}
use block.Shard.Address.{IntermediateAddress, use_dest_bits, byte_add, routing_loop}

use_dest_bits_lem : (n : ℕ) → n ≤ 96 → (ia : IntermediateAddress) × (use_dest_bits n ≡ ok ia)
unfolding use_dest_bits
use_dest_bits_lem n h = (IntermediateAddress.regular n, rw (ltb-false 96 n h) refl)

byte_add_lem : (a b : ℕ) → a + b ≤ 255 → byte_add a b ≡ ok (a + b)
unfolding byte_add
byte_add_lem a b h = rw (le→leb (a + b) 255 h) refl

test_true : (a b : Bool) → (a ≡ true) ⊎ (b ≡ true) → (a || b) ≡ true
test_true true b h = refl
test_true false b (inl h) = absurd (ground arith)
test_true false b (inr h) = h

not_out : (h x y : ℕ) → (ltb h x || ltb y h) ≡ false → (h < x) ⊎ (y < h) → ⊥
not_out h x y inside (inl low) =
    differ (sym (test_true (ltb h x) (ltb y h) (inl (lt→ltb h x low))) ∙ inside)
  where
    differ : true ≡ false → ⊥
    differ e = cc
not_out h x y inside (inr high) =
    differ (sym (test_true (ltb h x) (ltb y h) (inr (lt→ltb y h high))) ∙ inside)
  where
    differ : true ≡ false → ⊥
    differ e = cc

-- With at least one round left until the mask is empty, fuel for these rounds, a `q` of 64 bits, and
-- a destination `t ^ q` below `x` or above `y`, the routing loop returns a pair of addresses.
pub routing_loop_ends :
    (rounds fuel x y t q m i : ℕ)
    → 1 ≤ rounds
    → rounds ≤ fuel
    → i + 4 * rounds ≡ 64
    → m < 2 ^ (4 * rounds)
    → q < 2 ^ 64
    → (bit_xor t q < x) ⊎ (y < bit_xor t q)
    → (cur : IntermediateAddress) × (next : IntermediateAddress) × (routing_loop fuel x y t q m i
        ≡ ok (cur, next))
unfolding routing_loop
routing_loop_ends zero fuel x y t q m i some enough sizes small narrow out = absurd (omega arith)
routing_loop_ends (suc rounds) zero x y t q m i some enough sizes small narrow out =
    absurd (omega arith)
routing_loop_ends (suc rounds) (suc fuel) x y t q m i some enough sizes small narrow out =
    let h = bit_xor t (bit_and q (complement (m / 2 ^ 4))) in
    elim (Bool-cases (ltb h x || ltb y h)) [
      | inl leaves ↦
          let (cur, a) = use_dest_bits_lem (28 + (i + 4)) (omega arith) in
          let (next, b) = use_dest_bits_lem (32 + (i + 4)) (omega arith) in
          let counted = byte_add_lem i 4 (omega arith) in
          let c = byte_add_lem 28 (i + 4) (omega arith) in
          let d = byte_add_lem 32 (i + 4) (omega arith) in
          (cur, next, rw (counted, leaves, c, a, d, b) refl)
      | inr stays ↦ elim (Bool-cases (ltb 0 rounds)) [
        | inl more ↦
            let (cur, next, runs) =
              routing_loop_ends rounds fuel x y t q (m / 2 ^ 4) (i + 4) (ground arith) (omega arith)
                (omega arith) (shr_below (4 * rounds) 4 (4 * suc rounds) m (omega arith) small)
                narrow out in
            (cur, next, rw (byte_add_lem i 4 (omega arith), stays) runs)
        | inr last ↦ absurd (stuck (ground arith) stays)
      ]
    ]
  where
    -- In the last round the mask is empty.
    stuck :
        rounds ≡ 0
        → (ltb (bit_xor t (bit_and q (complement (m / 2 ^ 4)))) x
            || ltb y (bit_xor t (bit_and q (complement (m / 2 ^ 4)))))
          ≡ false
        → ⊥
    stuck last stays = not_out (bit_xor t q) x y at_end out
      where
        empty : m / 2 ^ 4 ≡ 0
        empty = let e : 4 * suc rounds ≡ 4 = omega arith in omega (arith, ap (λ (k : ℕ). 2 ^ k) e)

        all : bit_xor t (bit_and q (complement (m / 2 ^ 4))) ≡ bit_xor t q
        all =
            ap (λ k. bit_xor t (bit_and q (complement k))) empty
            ∙ ap (bit_xor t) (bit_and-low 64 q ∙ mod-eq_of_lt narrow)

        at_end : (ltb (bit_xor t q) x || ltb y (bit_xor t q)) ≡ false
        at_end = ap (λ h. ltb h x || ltb y h) (sym all) ∙ stays

-- The loop from a mask of the bits behind the first `i`: it ends where the number it tests, of `j` bits
-- of the way, is below `x` or above `y`, and `j` is what the two addresses count.
pub routing_loop_leaves :
    (rounds fuel x y t q i : ℕ)
    → 1 ≤ rounds
    → rounds ≤ fuel
    → i + 4 * rounds ≡ 64
    → q < 2 ^ 64
    → (bit_xor t q < x) ⊎ (y < bit_xor t q)
    → (j : ℕ) × (4 ≤ j)
      × (j ≤ 64)
      × (routing_loop fuel x y t q ((2 ^ 64 - 1) / 2 ^ i) i
          ≡ ok (IntermediateAddress.regular (28 + j), IntermediateAddress.regular (32 + j)))
      × ((bit_xor t (bit_and q (complement ((2 ^ 64 - 1) / 2 ^ j))) < x)
          ⊎ (y < bit_xor t (bit_and q (complement ((2 ^ 64 - 1) / 2 ^ j)))))
unfolding routing_loop use_dest_bits
routing_loop_leaves zero fuel x y t q i some enough sizes narrow out = absurd (omega arith)
routing_loop_leaves (suc rounds) zero x y t q i some enough sizes narrow out = absurd (omega arith)
routing_loop_leaves (suc rounds) (suc fuel) x y t q i some enough sizes narrow out =
    let h = bit_xor t (bit_and q (complement ((2 ^ 64 - 1) / 2 ^ (i + 4)))) in
    let counted = byte_add_lem i 4 (omega arith) in
    elim (Bool-cases (ltb h x || ltb y h)) [
      | inl leaves ↦
          let c = byte_add_lem 28 (i + 4) (omega arith) in
          let d = byte_add_lem 32 (i + 4) (omega arith) in
          (
            i + 4,
            omega arith,
            omega arith,
            rw
                (
                  next_mask,
                  counted,
                  leaves,
                  c,
                  d,
                  ltb-false 96 (28 + (i + 4)) (omega arith),
                  ltb-false 96 (32 + (i + 4)) (omega arith),
                )
                refl,
            outside_of h leaves,
          )
      | inr stays ↦ elim (Bool-cases (ltb 0 rounds)) [
        | inl more ↦
            let (j, lower, upper, runs, left) =
              routing_loop_leaves rounds fuel x y t q (i + 4) (ground arith) (omega arith)
                (omega arith) narrow out in
            (j, lower, upper, rw (next_mask, counted, stays) runs, left)
        | inr last ↦ absurd (
            not_out h x y stays
              (subst (λ d. (d < x) ⊎ (y < d)) (sym (all_bits (ground arith))) out))
      ]
    ]
  where
    next_mask : (2 ^ 64 - 1) / 2 ^ i / 2 ^ 4 ≡ (2 ^ 64 - 1) / 2 ^ (i + 4)
    next_mask =
        div-div-eq-div-mul (2 ^ 64 - 1) (2 ^ i) (2 ^ 4)
        ∙ ap (λ (k : ℕ). (2 ^ 64 - 1) / k) (sym (two_pow_add i 4 (i + 4) refl))

    all_bits :
        i + 4 ≡ 64 → bit_xor t (bit_and q (complement ((2 ^ 64 - 1) / 2 ^ (i + 4)))) ≡ bit_xor t q
    all_bits e =
        ap (λ k. bit_xor t (bit_and q (complement ((2 ^ 64 - 1) / 2 ^ k)))) e
        ∙ ap (bit_xor t) (bit_and-low 64 q ∙ mod-eq_of_lt narrow)

    outside_of : (h : ℕ) → (ltb h x || ltb y h) ≡ true → (h < x) ⊎ (y < h)
    outside_of h e = elim (Bool-cases (ltb h x)) [
      | inl low ↦ inl (ground arith)
      | inr up ↦ inr (ground arith)
    ]
