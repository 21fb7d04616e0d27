-- ===== src/RoundTrip.antt =====
-- What a builder (cell/builder.rs) was given is what a slice (cell/slice.rs) on its data reads.
use block.Common.{
  ℕ, ◌+◌, ◌*◌, ◌^◌, ◌≤◌, ◌<◌, ◌≡◌, refl, ap, ◌∙◌, arith, Bool, List, [], take, drop, length,
  take-all, drop-all, length-append, drop-append_right, ltb-false,
}
use block.Common.Bytes.{flat}
use block.Common.Word.{bits, length-bits, bits_injective}
use block.Types.{ok, ◌>>=◌}
use block.Cell.{ordinary, max_data_bits}
use block.Builder.{BuilderData, append_word, append_bits}
use block.Builder.Content.{content, IsValid, Extends, length-content}
use block.Builder.Writes.{append_word_content, append_bits_content}
use block.Slice.{SliceData, load_bitstring, with_bitstring, storage, move_by}
use block.Slice.Read.{get_next_word, get_next_int}
use block.Slice.Window.{window, move_by-window, length-window}
use block.Slice.Words.{get_next_word-window, get_next_int-window}
use block.Slice.Window

-- `load_bitstring` of a valid ordinary builder without references returns a valid slice whose window
-- is the builder's bits.
pub load_bitstring-window :
    (b : BuilderData)
    → IsValid b
    → b.ty ≡ ordinary
    → b.refs ≡ []
    → (s : SliceData) × (load_bitstring b ≡ ok s) × Window.IsValid s × (window s ≡ content b)
load_bitstring-window b valid plain leaf = (
  with_bitstring b.bytes b.length_in_bits,
  loads,
  unfold with_bitstring storage in
      record { ordered = omega arith; inside = omega (arith, valid.fits); bytes = valid.bytes },
  unfold window with_bitstring storage in ap (λ n. take n (flat b.bytes)) (omega arith),
)
  where
    loads : load_bitstring b ≡ ok (with_bitstring b.bytes b.length_in_bits)
    loads =
        unfold load_bitstring in
        rw (plain, ltb-false max_data_bits b.length_in_bits valid.short, leaf) refl

module _ (b : BuilderData) (valid : IsValid b) (plain : b.ty ≡ ordinary) (leaf : b.refs ≡ []) where
  -- What was appended is what is left behind the bits that were there.
  pub appended_window :
      (xs : List Bool) (b' : BuilderData)
      → Extends b xs b'
      → (s : SliceData) × (s' : SliceData) × (load_bitstring b' ≡ ok s)
        × (move_by s b.length_in_bits ≡ ok s')
        × Window.IsValid s'
        × (window s' ≡ xs)
  appended_window xs b' x =
      let (s, loads, vs, same) =
        load_bitstring-window b' x.valid (x.ty_kept ∙ plain) (x.refs_kept ∙ leaf) in
      let len = length-content b valid in
      let (s', moved, vs', rest, _) = move_by-window s b.length_in_bits vs (
        omega (
          arith,
          length-window s vs,
          ap length (same ∙ x.bits),
          length-append (content b) xs,
          len,
        )) in
      (
        s,
        s',
        loads,
        moved,
        vs',
        rest
            ∙ ap (drop b.length_in_bits) (same ∙ x.bits)
            ∙ drop-append_right b.length_in_bits 0 (content b) xs (omega (arith, len)),
      )

  -- A number below `2 ^ (8 * n)` that `append_word` writes behind the bits of a valid ordinary builder
  -- without references, with room for it, is what `get_next_word` reads there, and nothing is left.
  pub get_next_word-append_word :
      (n v : ℕ)
      → b.length_in_bits + 8 * n ≤ 1023
      → v < 2 ^ (8 * n)
      → (s'' : SliceData) × ((do
        b' ← append_word n b v
        s ← load_bitstring b'
        s' ← move_by s b.length_in_bits
        get_next_word n s')
          ≡ ok (v, s''))
        × (window s'' ≡ [])
  get_next_word-append_word n v room lt =
      let (b', wrote, x) = append_word_content n b v valid room in
      let (s, s', loads, moved, vs', holds) = appended_window (bits (8 * n) v) b' x in
      let len : length (window s') ≡ 8 * n = ap length holds ∙ length-bits (8 * n) v in
      let (w, s'', runs, _, rest, (lw, e)) =
        get_next_word-window n s' vs' (omega (arith, len, length-window s' vs')) in
      let same : w ≡ v =
        bits_injective (8 * n) w v lw lt
          (e ∙ take-all (8 * n) (window s') (omega (arith, len)) ∙ holds) in
      (
        s'',
        chain b' s s' wrote loads moved ∙ runs ∙ ap (λ t. ok (t, s'')) same,
        rest ∙ drop-all (8 * n) (window s') (omega (arith, len)),
      )
    where
      chain :
          (b' : BuilderData) (s s' : SliceData)
          → append_word n b v ≡ ok b'
          → load_bitstring b' ≡ ok s
          → move_by s b.length_in_bits ≡ ok s'
          → (do
            b' ← append_word n b v
            s ← load_bitstring b'
            s' ← move_by s b.length_in_bits
            get_next_word n s')
            ≡ get_next_word n s'
      chain b' s s' wrote loads moved = rw (wrote, loads, moved) refl

  -- A number of at most 63 bits that `append_bits` writes behind the bits of a valid ordinary builder
  -- without references, with room for it, is what `get_next_int` reads there, and nothing is left.
  pub get_next_int-append_bits :
      (v count : ℕ)
      → b.length_in_bits + count ≤ 1023
      → count ≤ 63
      → v < 2 ^ count
      → (s'' : SliceData) × ((do
        b' ← append_bits b v count
        s ← load_bitstring b'
        s' ← move_by s b.length_in_bits
        get_next_int s' count)
          ≡ ok (v, s''))
        × (window s'' ≡ [])
  get_next_int-append_bits v count room small lt =
      let (b', wrote, x) = append_bits_content b v count valid room small in
      let (s, s', loads, moved, vs', holds) = appended_window (bits count v) b' x in
      let len : length (window s') ≡ count = ap length holds ∙ length-bits count v in
      let (w, s'', runs, _, rest, _, (lw, e)) =
        get_next_int-window s' count vs' (omega arith) (omega (arith, len, length-window s' vs')) in
      let same : w ≡ v =
        bits_injective count w v lw lt
          (e ∙ take-all count (window s') (omega (arith, len)) ∙ holds) in
      (
        s'',
        chain b' s s' wrote loads moved ∙ runs ∙ ap (λ t. ok (t, s'')) same,
        rest ∙ drop-all count (window s') (omega (arith, len)),
      )
    where
      chain :
          (b' : BuilderData) (s s' : SliceData)
          → append_bits b v count ≡ ok b'
          → load_bitstring b' ≡ ok s
          → move_by s b.length_in_bits ≡ ok s'
          → (do
            b' ← append_bits b v count
            s ← load_bitstring b'
            s' ← move_by s b.length_in_bits
            get_next_int s' count)
            ≡ get_next_int s' count
      chain b' s s' wrote loads moved = rw (wrote, loads, moved) refl
