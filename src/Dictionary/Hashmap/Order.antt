-- ===== src/Dictionary/Hashmap/Order.antt =====
-- The order of the keys of a trie, and the entry that is first in it.
use block.Common.{
  ◌⊎◌, ◌≡◌, ◌≢◌, refl, sym, subst, Bool, true, false, List, [], ◌∷◌, ◌++◌, append_assoc, All, ap,
  Mem, All-append, inl, inr,
}
use mathlib.Core.List.{Memᴰ}
use mathlib.Core.List.Memᴰ.{head, tail, append_left, append_right}
use block.Dictionary.Hashmap.Trie.{Value, Trie, leaf, fork}
use block.Dictionary.Hashmap.Iterate.{Entry, below, entries}

-- Where a fork turns: to `first` if the label in front of it is empty, else to `next`.
abbrev pub turn : Bool → Bool → List Bool → Bool
turn first next [] = first
turn first next (x ∷ label) = next

abbrev pub behind_turn : List Bool → Bool → Entry → Entry → Entry
behind_turn label true left right = (label ++ true ∷ right.0, right.1)
behind_turn label false left right = (label ++ false ∷ left.0, left.1)

-- The entry at the end of the branch whose first bit is `first`, if the keys do not share it, and that
-- goes to `next` at all other forks.
unfoldable pub extreme : Bool → Bool → Trie → Entry
extreme first next (leaf label v) = (label, v)
extreme first next (fork label t0 t1) =
    behind_turn label (turn first next label) (extreme next next t0) (extreme next next t1)

-- `xs` comes no later than `ys`: where they first differ, `xs` has the bit that comes first, which is
-- `first` at the first place and `next` behind it.
unfoldable pub Before : Bool → Bool → List Bool → List Bool → Type 0
Before first next [] ys = Unit {0}
Before first next (x ∷ xs) [] = ⊥
Before first next (x ∷ xs) (y ∷ ys) = ((x ≡ y) × Before next next xs ys) ⊎ ((x ≡ first) × (x ≢ y))

Before-same : (first next : Bool) (xs : List Bool) → Before first next xs xs
unfolding Before
Before-same first next [] = tt
Before-same first next (x ∷ xs) = inl (refl, Before-same next next xs)

Before-append :
    (first next : Bool) (label xs ys : List Bool)
    → Before (turn first next label) next xs ys
    → Before first next (label ++ xs) (label ++ ys)
unfolding Before
Before-append first next [] xs ys h = h
Before-append first next (x ∷ []) xs ys h = inl (refl, h)
Before-append first next (x ∷ y ∷ label) xs ys h =
    inl (refl, Before-append next next (y ∷ label) xs ys h)

-- All entries behind a front, if the key that comes first goes the same way or another one.
below-Before :
    (first next : Bool) (label key : List Bool) (b : Bool) (es : List Entry)
    → All (λ e. Before (turn first next label) next key (b ∷ e.0)) es
    → All (λ e. Before first next (label ++ key) e.0) (below (label ++ b ∷ []) es)
unfolding below
below-Before first next label key b [] h = tt
below-Before first next label key b ((k, v) ∷ es) (h, hs) = (
  subst (Before first next (label ++ key)) (sym (append_assoc label (b ∷ []) k))
      (Before-append first next label key (b ∷ k) h),
  below-Before first next label key b es hs,
)

same_way :
    (f n b : Bool) (key : List Bool) (es : List Entry)
    → All (λ e. Before n n key e.0) es
    → All (λ e. Before f n (b ∷ key) (b ∷ e.0)) es
unfolding Before
same_way f n b key [] h = tt
same_way f n b key (e ∷ es) (h, hs) = (inl (refl, h), same_way f n b key es hs)

other_way :
    (f n b : Bool) (key : List Bool) (es : List Entry)
    → f ≢ b
    → All (λ e. Before f n (f ∷ key) (b ∷ e.0)) es
unfolding Before
other_way f n b key [] h = tt
other_way f n b key (e ∷ es) h = (inr (refl, h), other_way f n b key es h)

Mem-below :
    (front k : List Bool) (v : Value) (es : List Entry)
    → Memᴰ (k, v) es
    → Memᴰ (front ++ k, v) (below front es)
unfolding below
Mem-below front k v [] m = elim m [ ]
Mem-below front k v (e ∷ es) (head h) = head (ap (λ (x : Entry). (front ++ x.0, x.1)) h)
Mem-below front k v ((k', v') ∷ es) (tail m) = tail (Mem-below front k v es m)

-- The entry at the end of the branch is one of the trie's.
extreme-Memᴰ : (t : Trie) (first next : Bool) → Memᴰ (extreme first next t) (entries t)
unfolding extreme entries
extreme-Memᴰ (leaf label v) first next = head refl
extreme-Memᴰ (fork label t0 t1) first next =
    at (turn first next label) (extreme-Memᴰ t0 next next) (extreme-Memᴰ t1 next next)
  where
    at :
        (b : Bool)
        → Memᴰ (extreme next next t0) (entries t0)
        → Memᴰ (extreme next next t1) (entries t1)
        → Memᴰ
            (behind_turn label b (extreme next next t0) (extreme next next t1))
            (below (label ++ false ∷ []) (entries t0) ++ below (label ++ true ∷ []) (entries t1))
    at false left right = append_left (below (label ++ true ∷ []) (entries t1)) (
        subst (λ k. Memᴰ (k, (extreme next next t0).1) (below (label ++ false ∷ []) (entries t0)))
          (append_assoc label (false ∷ []) (extreme next next t0).0)
          (Mem-below (label ++ false ∷ []) (extreme next next t0).0 (extreme next next t0).1
            (entries t0) left))
    at true left right = append_right (below (label ++ false ∷ []) (entries t0)) (
        subst (λ k. Memᴰ (k, (extreme next next t1).1) (below (label ++ true ∷ []) (entries t1)))
          (append_assoc label (true ∷ []) (extreme next next t1).0)
          (Mem-below (label ++ true ∷ []) (extreme next next t1).0 (extreme next next t1).1
            (entries t1) right))

pub extreme-Mem : (t : Trie) (first next : Bool) → Mem (extreme first next t) (entries t)
extreme-Mem t first next = ∣ extreme-Memᴰ t first next ∣₁

-- The entry at the end of the branch comes no later than any other.
pub extreme-Before :
    (t : Trie) (first next : Bool)
    → All (λ e. Before first next (extreme first next t).0 e.0) (entries t)
unfolding extreme entries
extreme-Before (leaf label v) first next = (Before-same first next label, tt)
extreme-Before (fork label t0 t1) first next =
    at (turn first next label) refl (extreme-Before t0 next next) (extreme-Before t1 next next)
  where
    at :
        (b : Bool)
        → turn first next label ≡ b
        → All (λ e. Before next next (extreme next next t0).0 e.0) (entries t0)
        → All (λ e. Before next next (extreme next next t1).0 e.0) (entries t1)
        → All
            (λ e.
              Before first next
                (behind_turn label b (extreme next next t0) (extreme next next t1)).0
                e.0)
            (below (label ++ false ∷ []) (entries t0) ++ below (label ++ true ∷ []) (entries t1))
    at false turned left right =
        All-append (λ e. Before first next (label ++ false ∷ (extreme next next t0).0) e.0)
          (below (label ++ false ∷ []) (entries t0)) (below (label ++ true ∷ []) (entries t1))
          (below-Before first next label (false ∷ (extreme next next t0).0) false (entries t0) (
            same_way (turn first next label) next false (extreme next next t0).0 (entries t0) left))
          (below-Before first next label (false ∷ (extreme next next t0).0) true (entries t1) (
            subst
              (λ f.
                All (λ e. Before f next (false ∷ (extreme next next t0).0) (true ∷ e.0))
                  (entries t1))
              (sym turned)
              (other_way false next true (extreme next next t0).0 (entries t1) (λ e. cc e))))
    at true turned left right =
        All-append (λ e. Before first next (label ++ true ∷ (extreme next next t1).0) e.0)
          (below (label ++ false ∷ []) (entries t0)) (below (label ++ true ∷ []) (entries t1))
          (below-Before first next label (true ∷ (extreme next next t1).0) false (entries t0) (
            subst
              (λ f.
                All (λ e. Before f next (true ∷ (extreme next next t1).0) (false ∷ e.0))
                  (entries t0))
              (sym turned)
              (other_way true next false (extreme next next t1).0 (entries t0) (λ e. cc e))))
          (below-Before first next label (true ∷ (extreme next next t1).0) true (entries t1) (
            same_way (turn first next label) next true (extreme next next t1).0 (entries t1) right))
