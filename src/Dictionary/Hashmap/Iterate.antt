-- ===== src/Dictionary/Hashmap/Iterate.antt =====
-- `iterate_slices` of dictionary/mod.rs on the entries of the trie that a dictionary stands for.
use block.Common.{
  ℕ, zero, suc, ◌+◌, ◌-◌, ◌≤◌, ◌<◌, ◌≡◌, refl, sym, ap, ◌∙◌, subst, arith, Bool, true, false, not,
  ◌==◌, if◌then◌else◌, List, [], ◌∷◌, ◌++◌, length, append_assoc, some,
}
use block.Types.{Outcome, ok, err, panic, ◌>>=◌}
use block.Cell.{Cell, ordinary, references}
use block.Builder
use block.Builder.{BuilderData, append_bit_bool}
use block.Builder.Content.{content, Adds, Adds-length, length-content, Extends-Adds}
use block.Builder.Content
use block.Builder.Writes.{append_bit_bool_content}
use block.Slice.{SliceData, load_cell, load_bitstring}
use block.Slice.Window.{IsValid, window}
use block.Dictionary.Label.{LabelReader, new, with_cell, remainder, reader_reference, get_label_raw}
use block.RoundTrip.{load_bitstring-window}
use block.Dictionary.Label.Steps.{empty-IsValid}
use block.Dictionary.Label.Read.{read_label_raw_lem}
use block.Dictionary.Hashmap.{
  with_hashmap, next_reader, read_once, iterate_internal, iterate_slices,
}
use block.Dictionary.Hashmap.Trie.{Value, Trie, leaf, fork, Labelled, Represents}
use block.Dictionary.Hashmap.Loaded.{Over, Over-Passed, load_cell-Over, forks, child}

abbrev pub Entry : Type 0
Entry = List Bool × Value

-- Entries below a common front.
unfoldable pub below : List Bool → List Entry → List Entry
below front [] = []
below front ((k, v) ∷ es) = (front ++ k, v) ∷ below front es

-- The keys and values of a trie, those of the left child first.
unfoldable pub entries : Trie → List Entry
entries (leaf label v) = (label, v) ∷ []
entries (fork label t0 t1) =
    below (label ++ false ∷ []) (entries t0) ++ below (label ++ true ∷ []) (entries t1)

-- A builder and a slice for an entry, behind the bits `front`.
unfoldable pub Items : List Bool → List Entry → List (BuilderData × SliceData) → Type 0
Items front [] [] = Unit {0}
Items front ((k, (xs, refs)) ∷ es) ((b, s) ∷ is) =
    (Content.IsValid b × (content b ≡ front ++ k) × (b.refs ≡ []) × (b.ty ≡ ordinary))
    × ((c : Cell) × Over c xs s × (references c ≡ refs))
    × Items front es is
Items front [] (i ∷ is) = ⊥
Items front (e ∷ es) [] = ⊥

Items-append :
    (front : List Bool) (es fs : List Entry) (is js : List (BuilderData × SliceData))
    → Items front es is
    → Items front fs js
    → Items front (es ++ fs) (is ++ js)
unfolding Items
Items-append front [] fs [] js h k = k
Items-append front [] fs (i ∷ is) js h k = absurd h
Items-append front (e ∷ es) fs [] js h k = absurd h
Items-append front (e ∷ es) fs (i ∷ is) js (key, value, rest) k =
    (key, value, Items-append front es fs is js rest k)

Items-below :
    (front label : List Bool) (es : List Entry) (is : List (BuilderData × SliceData))
    → Items (front ++ label) es is
    → Items front (below label es) is
unfolding Items below
Items-below front label [] [] h = tt
Items-below front label [] (i ∷ is) h = absurd h
Items-below front label (e ∷ es) [] h = absurd h
Items-below front label ((k, v) ∷ es) ((b, s) ∷ is)
      ((valid, holds, leaf_refs, plain), value, rest) =
    (
      (valid, holds ∙ append_assoc front label k, leaf_refs, plain),
      value,
      Items-below front label es is rest,
    )

module _ {K S : Type 0} (found : K → SliceData → S → Outcome (Bool × S)) where
  -- The callback on one item after the other, until it says no.
  unfoldable pub visit : List (K × SliceData) → S → Outcome (Bool × S)
  visit [] kept = ok (true, kept)
  visit ((b, s) ∷ is) kept = do
    (go_on, kept) ← found b s kept
    if go_on then visit is kept else ok (false, kept)

  visit-append :
      (is js : List (K × SliceData)) (kept : S)
      → visit (is ++ js) kept
        ≡ (visit is kept >>= λ r. if r.0 then visit js r.1 else ok (false, r.1))
  unfolding visit
  visit-append [] js kept = refl
  visit-append ((b, s) ∷ is) js kept = after (λ kept'. visit-append is js kept') (found b s kept)
    where
      after :
          ((kept' : S)
            → visit (is ++ js) kept'
              ≡ (visit is kept' >>= λ r. if r.0 then visit js r.1 else ok (false, r.1)))
          → (o : Outcome (Bool × S))
          → (o >>= λ r. if r.0 then visit (is ++ js) r.1 else ok (false, r.1)) ≡ (
              (o >>= λ r. if r.0 then visit is r.1 else ok (false, r.1)) >>= λ r.
              if r.0 then visit js r.1 else ok (false, r.1))
      after behind (ok (true, kept')) = behind kept'
      after behind (ok (false, kept')) = refl
      after behind (err e) = refl
      after behind panic = refl

  visit-single : (b : K) (s : SliceData) (kept : S) → visit ((b, s) ∷ []) kept ≡ found b s kept
  unfolding visit
  visit-single b s kept = after (found b s kept)
    where
      after :
          (o : Outcome (Bool × S))
          → (o >>= λ r. if r.0 then ok (true, r.1) else ok (false, r.1)) ≡ o
      after (ok (true, kept')) = refl
      after (ok (false, kept')) = refl
      after (err e) = refl
      after panic = refl

-- The reader of an edge, once its label is read.
abbrev pub read_edge : SliceData → LabelReader
read_edge s = record { cursor = s; already_read = true }

pub next_reader-child :
    (c c0 c1 : Cell) (others : List Cell) (xs : List Bool) (b : Bool) (cursor s : SliceData)
    → Over c xs cursor
    → references c ≡ c0 ∷ c1 ∷ others
    → load_cell (if b then c1 else c0) ≡ ok s
    → next_reader load_cell (read_edge cursor) (if b then 1 else 0) ≡ ok (new s)
next_reader-child c c0 c1 others xs b cursor s over refs_is loads =
    unfold next_reader reader_reference in
    rw
      (
        forks c c0 c1 others xs cursor over refs_is,
        child c c0 c1 others xs b cursor over refs_is,
        loads,
      )
      refl

-- What is kept of a key that goes down: it is a plain builder with room for `n` bits.
record Room (key : BuilderData) (n : ℕ) : Type 0 where
  valid : Content.IsValid key
  no_refs : key.refs ≡ []
  plain : key.ty ≡ ordinary
  room : key.length_in_bits + n ≤ 1023

Room-Adds :
    (key key' : BuilderData) (xs : List Bool) (n m : ℕ)
    → Room key n
    → Adds key xs key'
    → n ≡ length xs + m
    → Room key' m
Room-Adds key key' xs n m p x total = record {
  valid = x.valid;
  no_refs = x.refs_kept ∙ p.no_refs;
  plain = x.ty_kept ∙ p.plain;
  room = omega (arith, p.room, Adds-length p.valid x, total);
}

-- Reading the label of a cell that is loaded.
first_label :
    (n : ℕ) (c : Cell) (label rest : List Bool) (key : BuilderData)
    → Labelled n c label rest
    → length label ≤ n
    → n ≤ 1023
    → Room key n
    → (s : SliceData) × (key' : BuilderData) × (cursor : SliceData) × (load_cell c ≡ ok s)
      × (read_once (new s) n key ≡ ok (key', n - length label, read_edge cursor))
      × Adds key label key'
      × Over c rest cursor
first_label n c label rest key made le small path =
    let (s, loads, holds, over) = load_cell-Over n c label rest made in
    let (key', cursor, r, x, passed) =
      read_label_raw_lem made.format s n label rest over.valid le small made.suits holds key
        path.valid (omega (arith, path.room)) in
    (
      s,
      key',
      cursor,
      loads,
      unfold new get_label_raw in rw r refl,
      x,
      Over-Passed c (window s) rest s cursor over passed,
    )

module _ {S : Type 0} (found : BuilderData → SliceData → S → Outcome (Bool × S)) where
  Walks : Trie → Type 0
  Walks t =
      (n : ℕ) (c : Cell) (key : BuilderData) (fuel : ℕ)
      → Represents n c t
      → n ≤ 1023
      → n < fuel
      → Room key n
      → (s : SliceData) × (items : List (BuilderData × SliceData)) × (load_cell c ≡ ok s)
        × Items (content key) (entries t) items
        × ((kept : S) → iterate_internal found fuel (new s) key n kept ≡ visit found items kept)

  walks_leaf :
      (label : List Bool) (v : Value) (n : ℕ) (c : Cell) (key : BuilderData) (fuel : ℕ)
      → Represents n c (leaf label v)
      → n ≤ 1023
      → Room key n
      → (s : SliceData) × (items : List (BuilderData × SliceData)) × (load_cell c ≡ ok s)
        × Items (content key) (entries (leaf label v)) items
        × ((kept : S)
            → iterate_internal found (suc fuel) (new s) key n kept ≡ visit found items kept)
  unfolding Represents Items entries
  walks_leaf label (xs, refs) n c key fuel (len, made, refs_is) small room =
      let (s, key', cursor, loads, r, x, over) =
        first_label n c label xs key made (omega (arith, len)) small room in
      (
        s,
        (key', cursor) ∷ [],
        loads,
        (
          (x.valid, x.bits, x.refs_kept ∙ room.no_refs, x.ty_kept ∙ room.plain),
          (c, over, refs_is),
          tt,
        ),
        λ kept. runs s key' cursor kept r ∙ sym (visit-single found key' cursor kept),
      )
    where
      runs :
          (s : SliceData) (key' : BuilderData) (cursor : SliceData) (kept : S)
          → read_once (new s) n key ≡ ok (key', n - length label, read_edge cursor)
          → iterate_internal found (suc fuel) (new s) key n kept ≡ found key' cursor kept
      runs s key' cursor kept r =
          let done : (n - length label == 0) ≡ true = ground (arith, len) in
          unfold iterate_internal remainder in rw (r, done) refl

  Walks-fork :
      (label : List Bool) (t0 t1 : Trie)
      → Walks t0
      → Walks t1
      → (n : ℕ) (c : Cell) (key : BuilderData) (fuel : ℕ) → Represents n c (fork label t0 t1)
      → n ≤ 1023
      → n < suc fuel
      → Room key n
      → (s : SliceData) × (items : List (BuilderData × SliceData)) × (load_cell c ≡ ok s)
        × Items (content key) (entries (fork label t0 t1)) items
        × ((kept : S)
            → iterate_internal found (suc fuel) (new s) key n kept ≡ visit found items kept)
  unfolding Represents Walks entries
  Walks-fork label t0 t1 in_left in_right n c key fuel
        (lt, xs, c0, c1, others, made, refs_is, rep0, rep1) small enough room =
      let (s, key', cursor, loads, r, x, over) =
        first_label n c label xs key made (omega arith) small room in
      let m = n - suc (length label) in
      let inner = Room-Adds key key' label n (suc m) room x (omega arith) in
      let (k0, w0, x0) = append_bit_bool_content key' false x.valid (omega (arith, inner.room)) in
      let (k1, w1, x1) = append_bit_bool_content key' true x.valid (omega (arith, inner.room)) in
      let (s0, items0, loads0, in0, run0) =
        in_left m c0 k0 fuel rep0 (omega arith) (omega arith)
          (Room-Adds key' k0 (false ∷ []) (suc m) m inner (Extends-Adds x0) (omega arith)) in
      let (s1, items1, loads1, in1, run1) =
        in_right m c1 k1 fuel rep1 (omega arith) (omega arith)
          (Room-Adds key' k1 (true ∷ []) (suc m) m inner (Extends-Adds x1) (omega arith)) in
      (
        s,
        items0 ++ items1,
        loads,
        Items-append (content key) (below (label ++ false ∷ []) (entries t0))
            (below (label ++ true ∷ []) (entries t1)) items0 items1
            (placed false t0 key' k0 items0 x.bits x0.bits in0)
            (placed true t1 key' k1 items1 x.bits x1.bits in1),
        λ kept.
            runs s key' cursor k0 k1 s0 s1 r w0 w1
              (next_reader-child c c0 c1 others xs false cursor s0 over refs_is loads0)
              (next_reader-child c c0 c1 others xs true cursor s1 over refs_is loads1) items0 items1
              run0 run1 kept
            ∙ sym (visit-append found items0 items1 kept),
      )
    where
      placed :
          (b : Bool) (t : Trie) (key' k : BuilderData) (items : List (BuilderData × SliceData))
          → content key' ≡ content key ++ label
          → content k ≡ content key' ++ b ∷ []
          → Items (content k) (entries t) items
          → Items (content key) (below (label ++ b ∷ []) (entries t)) items
      placed b t key' k items e f h =
          Items-below (content key) (label ++ b ∷ []) (entries t) items (
            subst (λ l. Items l (entries t) items)
              (f ∙ ap (λ l. l ++ b ∷ []) e ∙ append_assoc (content key) label (b ∷ [])) h)

      runs :
          (s : SliceData) (key' : BuilderData) (cursor : SliceData) (k0 k1 : BuilderData)
          (s0 s1 : SliceData)
          → read_once (new s) n key ≡ ok (key', n - length label, read_edge cursor)
          → append_bit_bool key' false ≡ ok k0
          → append_bit_bool key' true ≡ ok k1
          → next_reader load_cell (read_edge cursor) 0 ≡ ok (new s0)
          → next_reader load_cell (read_edge cursor) 1 ≡ ok (new s1)
          → (items0 items1 : List (BuilderData × SliceData))
          → ((kept : S)
              → iterate_internal found fuel (new s0) k0 (n - suc (length label)) kept
                ≡ visit found items0 kept)
          → ((kept : S)
              → iterate_internal found fuel (new s1) k1 (n - suc (length label)) kept
                ≡ visit found items1 kept)
          → (kept : S)
          → iterate_internal found (suc fuel) (new s) key n kept ≡ (
              visit found items0 kept >>= λ q.
              if q.0 then visit found items1 q.1 else ok (false, q.1))
      runs s key' cursor k0 k1 s0 s1 r w0 w1 next0 next1 items0 items1 run0 run1 kept =
          let more : (n - length label == 0) ≡ false = ground arith in
          let shorter : n - length label - 1 ≡ n - suc (length label) = omega arith in
          unfold iterate_internal in
          rw (r, more, w0, next0, shorter, run0 kept) (after (visit found items0 kept))
        where
          after :
              (o : Outcome (Bool × S))
              → (o >>= λ q. if not q.0 then ok (false, q.1) else (do
                right_key ← append_bit_bool key' true
                right ← next_reader load_cell (read_edge cursor) 1
                iterate_internal found fuel right right_key (n - suc (length label)) q.1))
                ≡ (o >>= λ q. if q.0 then visit found items1 q.1 else ok (false, q.1))
          after (ok (true, kept')) = rw (w1, next1) (run1 kept')
          after (ok (false, kept')) = refl
          after (err e) = refl
          after panic = refl

  walks : (t : Trie) → Walks t
  unfolding Walks
  walks (leaf label v) n c key zero rep small enough room = absurd (omega arith)
  walks (leaf label v) n c key (suc fuel) rep small enough room =
      walks_leaf label v n c key fuel rep small room
  walks (fork label t0 t1) n c key zero rep small enough room = absurd (omega arith)
  walks (fork label t0 t1) n c key (suc fuel) rep small enough room =
      Walks-fork label t0 t1 (walks t0) (walks t1) n c key fuel rep small enough room

-- Two slices for an entry: the key and the value.
unfoldable pub Slices : List Entry → List (SliceData × SliceData) → Type 0
Slices [] [] = Unit {0}
Slices ((k, (xs, refs)) ∷ es) ((key, s) ∷ is) =
    (IsValid key × (window key ≡ k))
    × ((c : Cell) × Over c xs s × (references c ≡ refs))
    × Slices es is
Slices [] (i ∷ is) = ⊥
Slices (e ∷ es) [] = ⊥

module _ {S : Type 0} (p : SliceData → SliceData → S → Outcome (Bool × S)) where
  -- The callback that loads the key first.
  abbrev with_key : BuilderData → SliceData → S → Outcome (Bool × S)
  with_key k v kept = load_bitstring k >>= λ key. p key v kept

  loaded-Items :
      (es : List Entry) (is : List (BuilderData × SliceData))
      → Items [] es is
      → (ks : List (SliceData × SliceData)) × Slices es ks
        × ((kept : S) → visit with_key is kept ≡ visit p ks kept)
  unfolding Items Slices visit
  loaded-Items [] [] h = ([], tt, λ kept. refl)
  loaded-Items [] (i ∷ is) h = absurd h
  loaded-Items (e ∷ es) [] h = absurd h
  loaded-Items ((k, v) ∷ es) ((b, s) ∷ is) ((valid, holds, leaf_refs, plain), value, rest) =
      let (key, loads, valid_key, same) = load_bitstring-window b valid plain leaf_refs in
      let (ks, slices, runs) = loaded-Items es is rest in
      (
        (key, s) ∷ ks,
        ((valid_key, same ∙ holds), value, slices),
        λ kept. rw loads (after ks runs (p key s kept)),
      )
    where
      after :
          (ks : List (SliceData × SliceData))
          → ((kept : S) → visit with_key is kept ≡ visit p ks kept)
          → (o : Outcome (Bool × S))
          → (o >>= λ q. if q.0 then visit with_key is q.1 else ok (false, q.1))
            ≡ (o >>= λ q. if q.0 then visit p ks q.1 else ok (false, q.1))
      after ks runs (ok (true, kept)) = runs kept
      after ks runs (ok (false, kept)) = refl
      after ks runs (err e) = refl
      after ks runs panic = refl

  -- `iterate_slices` of a dictionary whose cells stand for a trie with keys of at most 1023 bits calls
  -- the callback on every entry of the trie, left before right, and stops where the callback says no or
  -- fails.
  pub iterate_slices-entries :
      (t : Trie) (n : ℕ) (c : Cell) (kept : S)
      → Represents n c t
      → n ≤ 1023
      → (ks : List (SliceData × SliceData)) × Slices (entries t) ks
        × (iterate_slices p (with_hashmap n (some c)) kept ≡ visit p ks kept)
  unfolding Walks
  iterate_slices-entries t n c kept rep small =
      let (s, items, loads, in_items, runs) =
        walks with_key t n c Builder.empty (suc n) rep small (omega arith) start in
      let (ks, slices, same) = loaded-Items (entries t) items in_items in
      (ks, slices, answer s loads ∙ runs kept ∙ same kept)
    where
      start : Room Builder.empty n
      start = record {
        valid = empty-IsValid;
        no_refs = refl;
        plain = refl;
        room = omega (arith, small);
      }

      answer :
          (s : SliceData)
          → load_cell c ≡ ok s
          → iterate_slices p (with_hashmap n (some c)) kept
            ≡ iterate_internal with_key (suc n) (new s) Builder.empty n kept
      answer s loads = unfold iterate_slices with_cell in rw loads refl
