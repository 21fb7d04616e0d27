-- ===== src/Builder/Joins.antt =====
-- `append_builder` of cell/builder_operations.rs, several times over.
use block.Common.{
  ◌+◌, ◌≤◌, ◌≡◌, sym, ap, ◌∙◌, subst, arith, ◌++◌, append_assoc, length, length-append, ◌==◌,
  Bool-cases, inl, inr,
}
use block.Types.{ok}
use block.Builder.{BuilderData, append_raw, append_builder}
use block.Builder.Content.{
  content, IsValid, IsCanonical, Extends, canonical_ext, append_raw_nothing, length-content,
}
use block.Builder.Writes.{append_builder_runs, appended_IsValid}

-- `r` is `a` with the bits and the references of `x` behind its own.
record Joined (a x r : BuilderData) : Type 0 where
  valid : IsValid r
  bits : content r ≡ content a ++ content x
  refs : r.refs ≡ a.refs ++ x.refs
  ty_kept : r.ty ≡ a.ty
  canonical : IsCanonical a → IsCanonical r

-- Appending leaves no stray bits: nothing is changed, or the last byte is written.
append_raw-IsCanonical :
    (a x a' : BuilderData)
    → IsValid a
    → IsValid x
    → append_raw a x.bytes x.length_in_bits ≡ ok a'
    → Extends a (content x) a'
    → IsCanonical a
    → IsCanonical a'
append_raw-IsCanonical a x a' va vx r ext h = elim (Bool-cases (x.length_in_bits == 0)) [
  | inl none ↦
      let same : a ≡ a' = cc (r, append_raw_nothing a x.bytes x.length_in_bits va (ground arith)) in
      subst IsCanonical same h
  | inr some ↦ ext.canonical (ground (arith, length-content x vx))
]

append_builder-Joined :
    (a x : BuilderData)
    → IsValid a
    → IsValid x
    → a.length_in_bits + x.length_in_bits ≤ 1023
    → length a.refs + length x.refs ≤ 4
    → (r : BuilderData) × (append_builder a x ≡ ok r) × Joined a x r
append_builder-Joined a x va vx room slots =
    let (a', r, ext, runs) = append_builder_runs a x va vx room slots in
    (
      record a' { refs = a'.refs ++ x.refs },
      runs,
      record {
        valid = appended_IsValid a x va vx room slots a' ext;
        bits = ext.bits;
        refs = ap (λ l. l ++ x.refs) ext.refs_kept;
        ty_kept = ext.ty_kept;
        canonical = append_raw-IsCanonical a x a' va vx r ext;
      },
    )

Joined-length :
    {a x r : BuilderData}
    → IsValid a
    → IsValid x
    → Joined a x r
    → (r.length_in_bits ≡ a.length_in_bits + x.length_in_bits)
      × (length r.refs ≡ length a.refs + length x.refs)
Joined-length {a} {x} {r} va vx j = (
  omega (
    arith,
    length-content r j.valid,
    length-content a va,
    length-content x vx,
    ap length j.bits,
    length-append (content a) (content x),
  ),
  omega (arith, ap length j.refs, length-append a.refs x.refs),
)

-- For three valid builders that fit together into one cell, the first without stray bits,
-- `append_builder` is associative: appending the second and then the third to the first gives the
-- same builder, buffer and type included, as appending the third to the second and both to the first.
pub append_builder_assoc :
    (a b c : BuilderData)
    → IsValid a
    → IsValid b
    → IsValid c
    → IsCanonical a
    → a.length_in_bits + b.length_in_bits + c.length_in_bits ≤ 1023
    → length a.refs + length b.refs + length c.refs ≤ 4
    → (ab : BuilderData) × (bc : BuilderData) × (abc : BuilderData) × (append_builder a b ≡ ok ab)
      × (append_builder ab c ≡ ok abc)
      × (append_builder b c ≡ ok bc)
      × (append_builder a bc ≡ ok abc)
append_builder_assoc a b c va vb vc pa room slots =
    let (ab, r, j) = append_builder-Joined a b va vb (omega arith) (omega arith) in
    let (bc, r', j') = append_builder-Joined b c vb vc (omega arith) (omega arith) in
    let (n, k) = Joined-length va vb j in
    let (n', k') = Joined-length vb vc j' in
    let (left, e, l) =
      append_builder-Joined ab c j.valid vc (omega (arith, n)) (omega (arith, k)) in
    let (right, e', l') =
      append_builder-Joined a bc va j'.valid (omega (arith, n')) (omega (arith, k')) in
    let same : left ≡ right =
      canonical_ext left right l.valid l'.valid (l.canonical (j.canonical pa)) (l'.canonical pa)
        (l.bits
          ∙ ap (λ xs. xs ++ content c) j.bits
          ∙ append_assoc (content a) (content b) (content c)
          ∙ ap (λ xs. content a ++ xs) (sym j'.bits)
          ∙ sym l'.bits)
        (l.refs
          ∙ ap (λ xs. xs ++ c.refs) j.refs
          ∙ append_assoc a.refs b.refs c.refs
          ∙ ap (λ xs. a.refs ++ xs) (sym j'.refs)
          ∙ sym l'.refs)
        (l.ty_kept ∙ j.ty_kept ∙ sym l'.ty_kept) in
    (ab, bc, left, r, e, r', e' ∙ ap ok (sym same))
