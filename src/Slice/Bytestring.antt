-- ===== src/Slice/Bytestring.antt =====
-- `get_bytestring` of cell/slice.rs: the bits of the window in bytes, from a byte's edge on.
use block.Common.{
  ℕ, zero, suc, ◌+◌, ◌-◌, ◌*◌, ◌/◌, ◌%◌, ◌^◌, ◌≤◌, ◌<◌, ◌≡◌, refl, sym, ap, ap₂, ◌∙◌, subst, arith,
  Bool, true, false, List, [], ◌∷◌, ◌++◌, append-nil, append_assoc, length, take, drop, replicate,
  All, All-append, All-take, All-drop, ltb, leb, ◌==◌, if◌then◌else◌, get_elem?, some, bit_or,
  length-drop, take-drop, drop-drop, take-all, leb-false, le→leb, ==_ne, inl, inr, Bool-cases,
}
use block.Common.Bytes.{
  IsByte, flat, flat_at, flat-take, flat-drop, flat-append, flat-singleton, All-get_elem?,
}
use block.Common.Word.{bits-mod, bits-shl, bit_or-add}
use block.Builder.Raw.Packing.{Packs}
use block.Types.{ok, ◌>>=◌, unwrap, sub_slice}
use block.Slice.{SliceData, storage, remaining_bits}
use block.Slice.Read.{bits_at, bytestring_loop, get_bytestring}
use block.Slice.Window.{IsValid, window, window_field, remaining_bits_lem, length-window}
use block.Slice.Words.{take-split}
use block.Slice.Field.{Reads, bits_at-Reads, get_bits-window}

-- Whole bytes read from the bit `head` on: how many, where they end, and what they hold.
record Run (bs : List ℕ) (head stop : ℕ) (out : List ℕ) (end_head : ℕ) : Type 0 where
  count : ℕ
  ends : end_head ≡ head + 8 * count
  near : stop - end_head < 8
  before : end_head ≤ stop
  holds : flat out ≡ take (8 * count) (drop head (flat bs))
  bytes : All IsByte out

module _ (bs : List ℕ) (hb : All IsByte bs) where
  -- The byte that the loop pushes is the one `get_bits` reads.
  pushed :
      (q r v b next : ℕ)
      → 1 ≤ r
      → r < 8
      → v % 256 ≡ b
      → get_elem? bs q ≡ some b
      → get_elem? bs (q + 1) ≡ some next
      → 8 * q + r + 8 ≤ 8 * length bs
      → (b < 256)
        × (next < 256)
        × (bit_or (v * 256 % 65536) next % 256 ≡ next)
        × Reads 8
            (take 8 (drop (8 * q + r) (flat bs)))
            (bit_or (v * 256 % 65536) next / 2 ^ (8 - r) % 256)
  pushed q r v b next h1 h8 low e f inside =
      let (w, read, reads) = bits_at-Reads bs q r 8 hb h8 (omega arith) (omega arith) inside in
      let same : w ≡ bit_or (v * 256 % 65536) next / 2 ^ (8 - r) % 256 = cc (read, direct) in
      (
        All-get_elem? q bs b hb e,
        next_byte,
        low_byte,
        subst (Reads 8 (take 8 (drop (8 * q + r) (flat bs)))) same reads,
      )
    where
      next_byte : next < 256
      next_byte = All-get_elem? (q + 1) bs next hb f

      high : v * 256 % 65536 ≡ v % 256 * 2 ^ 8
      high = omega arith

      low_byte : bit_or (v * 256 % 65536) next % 256 ≡ next
      low_byte =
          omega
            (arith, ap (λ t. bit_or t next) high, bit_or-add 8 (v % 256) next next_byte, next_byte)

      joined :
          bit_or (b * 256 % 65536) next / 2 ^ (8 - r) % 256 / 2 ^ (8 - 8)
          ≡ bit_or (v * 256 % 65536) next / 2 ^ (8 - r) % 256
      joined =
          let e : b * 256 % 65536 ≡ v * 256 % 65536 = omega (arith, low) in
          ap (λ t. bit_or t next / 2 ^ (8 - r) % 256 / 2 ^ 0) e ∙ omega arith

      direct : bits_at bs q r 8 ≡ ok (bit_or (v * 256 % 65536) next / 2 ^ (8 - r) % 256)
      direct =
          unfold bits_at in
          rw (==_ne r 0 (omega arith), leb-false 8 (8 - r) (omega arith), e, f) (ap ok joined)

  nothing : (head stop : ℕ) → head ≤ stop → stop - head < 8 → Run bs head stop [] head
  nothing head stop le near = record {
    count = 0;
    ends = omega arith;
    near = near;
    before = le;
    holds = unfold flat in refl;
    bytes = tt;
  }

  loop-Run :
      (fuel head v b stop : ℕ)
      → 1 ≤ head % 8
      → head ≤ stop
      → stop ≤ 8 * length bs
      → stop - head < 8 * fuel + 8
      → v % 256 ≡ b
      → get_elem? bs (head / 8) ≡ some b
      → (out : List ℕ) × (end_head : ℕ) × (bytestring_loop fuel bs head stop (8 - head % 8) v
          ≡ ok (out, end_head))
        × Run bs head stop out end_head
  unfolding bytestring_loop
  loop-Run zero head v b stop h1 le inside enough low e =
      ([], head, refl, nothing head stop le (omega arith))
  loop-Run (suc fuel) head v b stop h1 le inside enough low e =
      elim (Bool-cases (leb (head + 8) stop)) [
        | inr done ↦
            ([], head, rw (done, bytestring_loop) refl, nothing head stop le (ground arith))
        | inl more ↦
            let (next, f, _) = flat_at (head / 8 + 1) bs (ground arith) in
            let (_, _, low', reads) =
              pushed (head / 8) (head % 8) v b next h1 (omega arith) low e f (ground arith) in
            let w = bit_or (v * 256 % 65536) next in
            let (out, end_head, runs, run) =
              loop-Run fuel (head + 8) w next stop (omega arith) (ground arith) inside
                (ground arith) low' (next_at next f) in
            (
              w / 2 ^ (8 - head % 8) % 256 ∷ out,
              end_head,
              step next out end_head more (next_at next f) runs,
              grown next out end_head w (ground arith) reads run,
            )
      ]
    where
      step :
          (next : ℕ) (out : List ℕ) (end_head : ℕ)
          → leb (head + 8) stop ≡ true
          → get_elem? bs ((head + 8) / 8) ≡ some next
          → bytestring_loop fuel bs
              (head + 8)
              stop
              (8 - (head + 8) % 8)
              (bit_or (v * 256 % 65536) next)
            ≡ ok (out, end_head)
          → bytestring_loop (suc fuel) bs head stop (8 - head % 8) v
            ≡ ok (bit_or (v * 256 % 65536) next / 2 ^ (8 - head % 8) % 256 ∷ out, end_head)
      step next out end_head more f runs =
          let same : (head + 8) % 8 ≡ head % 8 = omega arith in
          let runs' =
            subst
              (λ r.
                bytestring_loop fuel bs (head + 8) stop (8 - r) (bit_or (v * 256 % 65536) next)
                ≡ ok (out, end_head))
              same runs in
          rw (more, f, runs', bytestring_loop) refl

      grown :
          (next : ℕ) (out : List ℕ) (end_head w : ℕ)
          → head + 8 ≤ stop
          → Reads 8
              (take 8 (drop (8 * (head / 8) + head % 8) (flat bs)))
              (w / 2 ^ (8 - head % 8) % 256)
          → Run bs (head + 8) stop out end_head
          → Run bs head stop (w / 2 ^ (8 - head % 8) % 256 ∷ out) end_head
      grown next out end_head w room reads run = record {
        count = suc run.count;
        ends = omega (arith, run.ends);
        near = run.near;
        before = run.before;
        holds =
            unfold flat in
            (ap₂ ◌++◌ (reads.1 ∙ ap (λ n. take 8 (drop n (flat bs))) (omega arith)) (
                run.holds
                ∙ ap (take (8 * run.count)) (sym (drop-drop 8 head (head + 8) (flat bs) refl)))
              ∙ take-split 8 (8 * run.count) (8 * suc run.count) (drop head (flat bs))
                  (omega arith));
        bytes = (reads.0, run.bytes);
      }

      next_at :
          (next : ℕ)
          → get_elem? bs (head / 8 + 1) ≡ some next
          → get_elem? bs ((head + 8) / 8) ≡ some next
      next_at next f =
          let e : (head + 8) / 8 ≡ head / 8 + 1 = omega arith in ap (get_elem? bs) e ∙ f

module _ (s : SliceData) (offset : ℕ) (valid : IsValid s) (before : offset ≤ remaining_bits s) where
  rest_bits : List Bool
  rest_bits = drop offset (window s)

  length-rest : length rest_bits ≡ s.stop - (s.start + offset)
  unfolding rest_bits
  length-rest =
      omega (arith, length-drop offset (window s), length-window s valid, remaining_bits_lem s)

  -- The whole bytes, however the window stands to a byte's edge.
  whole-Run :
      s.start + offset < s.stop
      → (whole : List ℕ) × (end_head : ℕ) × ((if 8 - (s.start + offset) % 8 == 8
            then (do
              aligned ← sub_slice (storage s) ((s.start + offset) / 8) (s.stop / 8)
              ok (aligned, s.stop / 8 * 8))
            else (do
              r ← unwrap (get_elem? (storage s) ((s.start + offset) / 8))
              bytestring_loop
                  (s.stop / 8)
                  (storage s)
                  (s.start + offset)
                  s.stop
                  (8 - (s.start + offset) % 8)
                  r))
          ≡ ok (whole, end_head))
        × Run (storage s) (s.start + offset) s.stop whole end_head
  whole-Run open_window = elim (Bool-cases (8 - (s.start + offset) % 8 == 8)) [
    | inl aligned ↦
        let h = s.start + offset in
        let bs = storage s in
        (
          drop (h / 8) (take (s.stop / 8) bs),
          s.stop / 8 * 8,
          rw
              (
                aligned,
                le→leb (h / 8) (s.stop / 8) (omega arith),
                le→leb (s.stop / 8) (length bs) (omega (arith, valid.inside)),
              )
              refl,
          record {
            count = s.stop / 8 - h / 8;
            ends = ground arith;
            near = omega arith;
            before = omega arith;
            holds = aligned_holds (ground arith);
            bytes =
                All-drop IsByte (h / 8) (take (s.stop / 8) bs)
                  (All-take IsByte (s.stop / 8) bs valid.bytes);
          },
        )
    | inr shifted ↦
        let (b, e, _) =
          flat_at ((s.start + offset) / 8) (storage s) (omega (arith, valid.inside)) in
        let b_small = All-get_elem? ((s.start + offset) / 8) (storage s) b valid.bytes e in
        let (out, end_head, runs, run) =
          loop-Run (storage s) valid.bytes (s.stop / 8) (s.start + offset) b b s.stop (ground arith)
            (omega arith) valid.inside (omega arith) (omega arith) e in
        (out, end_head, rw (shifted, e) runs, run)
  ]
    where
      aligned_holds :
          (s.start + offset) % 8 ≡ 0
          → flat (drop ((s.start + offset) / 8) (take (s.stop / 8) (storage s)))
            ≡ take
                (8 * (s.stop / 8 - (s.start + offset) / 8))
                (drop (s.start + offset) (flat (storage s)))
      aligned_holds edge =
          let h = s.start + offset in
          flat-drop (h / 8) h (take (s.stop / 8) (storage s)) (omega arith)
          ∙ ap (drop h) (flat-take (s.stop / 8) (8 * (s.stop / 8)) (storage s) refl)
          ∙ sym (
              take-drop (8 * (s.stop / 8 - h / 8)) h (8 * (s.stop / 8)) (flat (storage s))
                (omega arith))

  -- A whole run is the front of the rest of the window.
  front_of :
      (whole : List ℕ) (end_head : ℕ)
      → Run (storage s) (s.start + offset) s.stop whole end_head
      → (c : ℕ) × (end_head ≡ s.start + offset + 8 * c)
        × (flat whole ≡ take (8 * c) rest_bits)
        × (8 * c ≤ length rest_bits)
        × (length rest_bits < 8 * c + 8)
  unfolding rest_bits
  front_of whole end_head run =
      let len = length-rest in
      (
        run.count,
        run.ends,
        run.holds
            ∙ sym (window_field s offset (8 * run.count) (omega (arith, run.ends, run.before))),
        omega (arith, len, run.ends, run.before),
        omega (arith, len, run.ends, run.before, run.near),
      )

  -- `get_bytestring` of a valid slice returns the bits of its window from the offset on, in bytes,
  -- the last one filled up with zeros.
  pub get_bytestring_lem :
      (out : List ℕ) × (get_bytestring s offset ≡ ok out) × Packs out (drop offset (window s))
  unfolding rest_bits
  get_bytestring_lem = elim (Bool-cases (leb s.stop (s.start + offset))) [
    | inl closed ↦
        ([], unfold get_bytestring in rw closed refl, closed_pack (ground (arith, length-rest)))
    | inr open_window ↦
        let (whole, end_head, runs, run) = whole-Run (ground arith) in
        let (c, ends, holds, fits, near) = front_of whole end_head run in
        elim (Bool-cases (ltb end_head s.stop)) [
          | inr exact ↦ (
            whole,
            unfold get_bytestring in rw (open_window, runs, exact) refl,
            exact_pack c whole holds
                (omega (arith, length-rest, ends, ground_exact exact run.before)) run.bytes,
          )
          | inl more ↦
              let n = s.stop - end_head in
              let (v, read, field) =
                get_bits-window s (end_head - s.start) n valid (ground arith)
                  (omega (arith, run.near)) (ground (arith, remaining_bits_lem s)) in
              (
                whole ++ v * 2 ^ (8 - n) % 256 ∷ [],
                unfold get_bytestring in rw (open_window, runs, more, read) refl,
                more_pack c n whole v holds (omega (arith, length-rest, ends, run.before))
                    (ground arith) (omega (arith, run.near)) run.bytes
                    (moved c n v end_head ends field),
              )
        ]
  ]
    where
      ground_exact :
          {end_head : ℕ} → ltb end_head s.stop ≡ false → end_head ≤ s.stop → end_head ≡ s.stop
      ground_exact e le = ground arith

      closed_pack : length rest_bits ≡ 0 → Packs [] rest_bits
      closed_pack none = record {
        pad = 0;
        small = omega arith;
        filled = unfold flat in (sym (nothing_left rest_bits none) ∙ sym (append-nil rest_bits));
        bytes = tt;
      }
        where
          nothing_left : (xs : List Bool) → length xs ≡ 0 → xs ≡ []
          nothing_left [] h = refl
          nothing_left (x ∷ xs) h = absurd (omega arith)

      exact_pack :
          (c : ℕ) (whole : List ℕ)
          → flat whole ≡ take (8 * c) rest_bits
          → length rest_bits ≡ 8 * c
          → All IsByte whole
          → Packs whole rest_bits
      exact_pack c whole holds len bytes = record {
        pad = 0;
        small = omega arith;
        filled =
            holds ∙ take-all (8 * c) rest_bits (omega (arith, len)) ∙ sym (append-nil rest_bits);
        bytes = bytes;
      }

      moved :
          (c n v end_head : ℕ)
          → end_head ≡ s.start + offset + 8 * c
          → Reads n (take n (drop (end_head - s.start) (window s))) v
          → Reads n (take n (drop (8 * c) rest_bits)) v
      moved c n v end_head ends field =
          subst (λ xs. Reads n (take n xs) v)
            (sym (drop-drop (8 * c) offset (end_head - s.start) (window s) (omega (arith, ends))))
            field

      more_pack :
          (c n : ℕ) (whole : List ℕ) (v : ℕ)
          → flat whole ≡ take (8 * c) rest_bits
          → length rest_bits ≡ 8 * c + n
          → 0 < n
          → n < 8
          → All IsByte whole
          → Reads n (take n (drop (8 * c) rest_bits)) v
          → Packs (whole ++ v * 2 ^ (8 - n) % 256 ∷ []) rest_bits
      more_pack c n whole v holds len some_left near bytes (_, e) = record {
        pad = 8 - n;
        small = omega arith;
        filled =
            flat-append whole (v * 2 ^ (8 - n) % 256 ∷ [])
            ∙ ap₂ ◌++◌ holds (
                flat-singleton (v * 2 ^ (8 - n) % 256)
                ∙ bits-mod 8 8 (v * 2 ^ (8 - n)) (omega arith)
                ∙ bits-shl n (8 - n) 8 v (omega arith)
                ∙ ap (λ l. l ++ replicate (8 - n) false) e)
            ∙ sym (
                append_assoc (take (8 * c) rest_bits) (take n (drop (8 * c) rest_bits))
                  (replicate (8 - n) false))
            ∙ ap (λ l. l ++ replicate (8 - n) false)
                (take-split (8 * c) n (8 * c + n) rest_bits refl
                  ∙ take-all (8 * c + n) rest_bits (omega (arith, len)));
        bytes = All-append IsByte whole (v * 2 ^ (8 - n) % 256 ∷ []) bytes (omega arith, tt);
      }
