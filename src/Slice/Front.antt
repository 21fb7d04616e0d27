-- ===== src/Slice/Front.antt =====
-- Words that stand at the front of the window are read and gone.
use block.Common.{
  ℕ, ◌*◌, ◌^◌, ◌≤◌, ◌<◌, ◌≡◌, refl, ap, ◌∙◌, arith, Bool, List, ◌++◌, take, drop, length,
  length-append, take-append_left, take-all, drop-append_right,
}
use block.Common.Word.{bits, length-bits, bits_injective}
use block.Types.{ok}
use block.Slice.{SliceData, remaining_bits, move_by}
use block.Slice.Read.{get_bits, get_byte, get_next_byte, get_next_word}
use block.Slice.Window.{IsValid, window, length-window, move_by-window}
use block.Slice.Field.{Reads, get_bits-window}
use block.Slice.Words.{get_next_word-window}

module _ (s : SliceData) (n v : ℕ) (rest : List Bool) (valid : IsValid s) (lt : v < 2 ^ n)
    (holds : window s ≡ bits n v ++ rest) where
  pub enough : n ≤ remaining_bits s
  enough = omega (
    arith,
    length-window s valid,
    ap length holds,
    length-append (bits n v) rest,
    length-bits n v,
  )

  pub same_number : (w : ℕ) → Reads n (take n (window s)) w → w ≡ v
  same_number w (lw, e) = bits_injective n w v lw lt (
      e
      ∙ ap (take n) holds
      ∙ take-append_left n (bits n v) rest (omega (arith, length-bits n v))
      ∙ take-all n (bits n v) (omega (arith, length-bits n v)))

  pub behind : drop n (window s) ≡ rest
  behind =
      ap (drop n) holds ∙ drop-append_right n 0 (bits n v) rest (omega (arith, length-bits n v))

pub get_next_word_front :
    (width : ℕ) (s : SliceData) (v : ℕ) (rest : List Bool)
    → IsValid s
    → v < 2 ^ (8 * width)
    → window s ≡ bits (8 * width) v ++ rest
    → (s' : SliceData) × (get_next_word width s ≡ ok (v, s')) × IsValid s' × (window s' ≡ rest)
get_next_word_front width s v rest valid lt holds =
    let (w, s', runs, valid', left, reads) =
      get_next_word-window width s valid (enough s (8 * width) v rest valid lt holds) in
    (
      s',
      runs ∙ ap (λ t. ok (t, s')) (same_number s (8 * width) v rest valid lt holds w reads),
      valid',
      left ∙ behind s (8 * width) v rest valid lt holds,
    )

pub get_next_byte_front :
    (s : SliceData) (v : ℕ) (rest : List Bool)
    → IsValid s
    → v < 2 ^ 8
    → window s ≡ bits 8 v ++ rest
    → (s' : SliceData) × (get_next_byte s ≡ ok (v, s')) × IsValid s' × (window s' ≡ rest)
get_next_byte_front s v rest valid lt holds =
    let room = enough s 8 v rest valid lt holds in
    let (w, r, reads) = get_bits-window s 0 8 valid (omega arith) (omega arith) (omega arith) in
    let (s', moved, valid', left, _) = move_by-window s 8 valid room in
    (
      s',
      answer w s' r moved ∙ ap (λ t. ok (t, s')) (same_number s 8 v rest valid lt holds w reads),
      valid',
      left ∙ behind s 8 v rest valid lt holds,
    )
  where
    answer :
        (w : ℕ) (s' : SliceData)
        → get_bits s 0 8 ≡ ok w
        → move_by s 8 ≡ ok s'
        → get_next_byte s ≡ ok (w, s')
    answer w s' r moved = unfold get_next_byte get_byte in rw (r, moved) refl
