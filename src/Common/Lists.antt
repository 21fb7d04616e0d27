-- ===== src/Common/Lists.antt =====
-- Lists measured and cut by native numbers, under the library's names.
use Prim.Native.Nat.{ℕ, zero, suc, ◌+◌, ◌-◌, ◌≤◌, ◌<◌, min}
use mathlib.Core.Path.{◌≡◌, refl, ap, sym, ◌∙◌}
use mathlib.Core.List.{List, [], ◌∷◌, ◌++◌, append-nil}
use mathlib.Core.Option.{Option, none, some}
use native.Mathlib.Omega.{arith}

module _ {ℓ} {A : Type ℓ} where
  abbrev pub length : List A → ℕ
  length [] = 0
  length (x ∷ xs) = suc (length xs)

  abbrev pub get_elem? : List A → ℕ → Option A
  get_elem? [] i = none
  get_elem? (x ∷ xs) zero = some x
  get_elem? (x ∷ xs) (suc i) = get_elem? xs i

  abbrev pub take : ℕ → List A → List A
  take zero xs = []
  take (suc n) [] = []
  take (suc n) (x ∷ xs) = x ∷ take n xs

  abbrev pub drop : ℕ → List A → List A
  drop zero xs = xs
  drop (suc n) [] = []
  drop (suc n) (x ∷ xs) = drop n xs

  abbrev pub replicate : ℕ → A → List A
  replicate zero a = []
  replicate (suc n) a = a ∷ replicate n a

  -- A write out of bounds changes nothing.
  abbrev pub set : List A → ℕ → A → List A
  set [] i v = []
  set (x ∷ xs) zero v = v ∷ xs
  set (x ∷ xs) (suc i) v = x ∷ set xs i v

  -- `Vec::pop`: what is left, and the last element.
  abbrev pub pop : List A → Option (List A × A)
  pop [] = none
  pop (x ∷ []) = some ([], x)
  pop (x ∷ y ∷ ys) = elim (pop (y ∷ ys)) [ none ↦ none | some (zs, z) ↦ some (x ∷ zs, z) ]

  abbrev pub All {κ} : (A → Type κ) → List A → Type κ
  All P [] = Unit {κ}
  All P (x ∷ xs) = P x × All P xs

module _ {ℓ} {A : Type ℓ} where
  pub length-append : (xs ys : List A) → length (xs ++ ys) ≡ length xs + length ys
  length-append [] ys = omega arith
  length-append (x ∷ xs) ys = omega (arith, length-append xs ys)

  pub length-take : (n : ℕ) (xs : List A) → length (take n xs) ≡ min n (length xs)
  length-take zero xs = omega arith
  length-take (suc n) [] = omega arith
  length-take (suc n) (x ∷ xs) = omega (arith, length-take n xs)

  pub length-drop : (n : ℕ) (xs : List A) → length (drop n xs) ≡ length xs - n
  length-drop zero xs = omega arith
  length-drop (suc n) [] = omega arith
  length-drop (suc n) (x ∷ xs) = omega (arith, length-drop n xs)

  pub length-replicate : (n : ℕ) (a : A) → length (replicate n a) ≡ n
  length-replicate zero a = refl
  length-replicate (suc n) a = ap suc (length-replicate n a)

  pub take-append-drop : (n : ℕ) (xs : List A) → take n xs ++ drop n xs ≡ xs
  take-append-drop zero xs = refl
  take-append-drop (suc n) [] = refl
  take-append-drop (suc n) (x ∷ xs) = ap (λ l. x ∷ l) (take-append-drop n xs)

  pub take-nil : (n : ℕ) → take {A = A} n [] ≡ []
  take-nil zero = refl
  take-nil (suc n) = refl

  pub drop-nil : (n : ℕ) → drop {A = A} n [] ≡ []
  drop-nil zero = refl
  drop-nil (suc n) = refl

  -- A cut at or beyond the end takes all.
  pub take-all : (n : ℕ) (xs : List A) → length xs ≤ n → take n xs ≡ xs
  take-all zero [] h = refl
  take-all zero (x ∷ xs) h = absurd (omega arith)
  take-all (suc n) [] h = refl
  take-all (suc n) (x ∷ xs) h = ap (λ l. x ∷ l) (take-all n xs (omega arith))

  pub drop-all : (n : ℕ) (xs : List A) → length xs ≤ n → drop n xs ≡ []
  drop-all zero [] h = refl
  drop-all zero (x ∷ xs) h = absurd (omega arith)
  drop-all (suc n) [] h = refl
  drop-all (suc n) (x ∷ xs) h = drop-all n xs (omega arith)

  -- A cut inside the first of two lists.
  pub take-append_left : (n : ℕ) (xs ys : List A) → n ≤ length xs → take n (xs ++ ys) ≡ take n xs
  take-append_left zero xs ys h = refl
  take-append_left (suc n) [] ys h = absurd (omega arith)
  take-append_left (suc n) (x ∷ xs) ys h = ap (λ l. x ∷ l) (take-append_left n xs ys (omega arith))

  -- A cut behind the first of two lists; the sum is an equation, since `n + m` is stuck.
  pub take-append_right :
      (n m : ℕ) (xs ys : List A) → n ≡ length xs + m → take n (xs ++ ys) ≡ xs ++ take m ys
  take-append_right n m [] ys h = let e : n ≡ m = omega arith in ap (λ k. take k ys) e
  take-append_right zero m (x ∷ xs) ys h = absurd (omega arith)
  take-append_right (suc n) m (x ∷ xs) ys h =
      ap (λ l. x ∷ l) (take-append_right n m xs ys (omega arith))

  pub drop-append_left :
      (n : ℕ) (xs ys : List A) → n ≤ length xs → drop n (xs ++ ys) ≡ drop n xs ++ ys
  drop-append_left zero xs ys h = refl
  drop-append_left (suc n) [] ys h = absurd (omega arith)
  drop-append_left (suc n) (x ∷ xs) ys h = drop-append_left n xs ys (omega arith)

  pub drop-append_right :
      (n m : ℕ) (xs ys : List A) → n ≡ length xs + m → drop n (xs ++ ys) ≡ drop m ys
  drop-append_right n m [] ys h = let e : n ≡ m = omega arith in ap (λ k. drop k ys) e
  drop-append_right zero m (x ∷ xs) ys h = absurd (omega arith)
  drop-append_right (suc n) m (x ∷ xs) ys h = drop-append_right n m xs ys (omega arith)

  -- Two ways to cut one list at one place are the same.
  pub append_cancel :
      (xs xs' ys ys' : List A)
      → length xs ≡ length xs'
      → xs ++ ys ≡ xs' ++ ys'
      → (xs ≡ xs') × (ys ≡ ys')
  append_cancel xs xs' ys ys' h e =
      let n = length xs in
      (
        sym (front xs ys n refl) ∙ ap (take n) e ∙ front xs' ys' n h,
        sym (back xs ys n refl) ∙ ap (drop n) e ∙ back xs' ys' n h,
      )
    where
      front : (fs bs : List A) (n : ℕ) → n ≡ length fs → take n (fs ++ bs) ≡ fs
      front fs bs n p = take-append_right n 0 fs bs (omega arith) ∙ append-nil fs

      back : (fs bs : List A) (n : ℕ) → n ≡ length fs → drop n (fs ++ bs) ≡ bs
      back fs bs n p = drop-append_right n 0 fs bs (omega arith)

  pub take-take : (n m : ℕ) (xs : List A) → n ≤ m → take n (take m xs) ≡ take n xs
  take-take zero m xs h = refl
  take-take (suc n) zero xs h = absurd (omega arith)
  take-take (suc n) (suc m) [] h = refl
  take-take (suc n) (suc m) (x ∷ xs) h = ap (λ l. x ∷ l) (take-take n m xs (omega arith))

  pub drop-drop : (n m k : ℕ) (xs : List A) → k ≡ m + n → drop n (drop m xs) ≡ drop k xs
  drop-drop n zero k xs h = let e : n ≡ k = omega arith in ap (λ i. drop i xs) e
  drop-drop n (suc m) zero xs h = absurd (omega arith)
  drop-drop n (suc m) (suc k) [] h = drop-nil n
  drop-drop n (suc m) (suc k) (x ∷ xs) h = drop-drop n m k xs (omega arith)

  pub take-drop : (n m k : ℕ) (xs : List A) → k ≡ m + n → take n (drop m xs) ≡ drop m (take k xs)
  take-drop n zero k xs h = let e : n ≡ k = omega arith in ap (λ i. take i xs) e
  take-drop n (suc m) zero xs h = absurd (omega arith)
  take-drop n (suc m) (suc k) [] h = take-nil n
  take-drop n (suc m) (suc k) (x ∷ xs) h = take-drop n m k xs (omega arith)

  -- A list that is not empty ends in an element that `pop` takes.
  pub pop-ne-nil :
      (xs : List A)
      → 0 < length xs
      → (ys : List A) × (y : A) × (pop xs ≡ some (ys, y)) × (xs ≡ ys ++ y ∷ [])
  pop-ne-nil [] h = absurd (omega arith)
  pop-ne-nil (x ∷ []) h = ([], x, refl, refl)
  pop-ne-nil (x ∷ z ∷ zs) h =
      let (ys, y, p, e) = pop-ne-nil (z ∷ zs) (omega arith) in
      (x ∷ ys, y, ap extend p, ap (λ l. x ∷ l) e)
    where
      extend : Option (List A × A) → Option (List A × A)
      extend o = elim o [ none ↦ none | some (zs, z) ↦ some (x ∷ zs, z) ]

  pub get_elem?-some : (i : ℕ) (xs : List A) → i < length xs → (a : A) × (get_elem? xs i ≡ some a)
  get_elem?-some i [] h = absurd (omega arith)
  get_elem?-some zero (x ∷ xs) h = (x, refl)
  get_elem?-some (suc i) (x ∷ xs) h = get_elem?-some i xs (omega arith)

  pub replicate-snoc : (n : ℕ) (a : A) → replicate n a ++ a ∷ [] ≡ a ∷ replicate n a
  replicate-snoc zero a = refl
  replicate-snoc (suc n) a = ap (λ l. a ∷ l) (replicate-snoc n a)

  pub replicate-add :
      (n m k : ℕ) (a : A) → k ≡ n + m → replicate n a ++ replicate m a ≡ replicate k a
  replicate-add zero m k a h = let e : m ≡ k = omega arith in ap (λ i. replicate i a) e
  replicate-add (suc n) m zero a h = absurd (omega arith)
  replicate-add (suc n) m (suc k) a h = ap (λ l. a ∷ l) (replicate-add n m k a (omega arith))

module _ {ℓ κ μ} {A : Type ℓ} {B : Type κ} {C : Type μ} where
  -- Pointwise, as far as both lists go.
  abbrev pub zip_with : (A → B → C) → List A → List B → List C
  zip_with f [] ys = []
  zip_with f (x ∷ xs) [] = []
  zip_with f (x ∷ xs) (y ∷ ys) = f x y ∷ zip_with f xs ys

module _ {ℓ κ μ} {A : Type ℓ} {B : Type κ} {C : Type μ} where
  pub zip_with-append :
      (f : A → B → C) (xs xs' : List A) (ys ys' : List B)
      → length xs ≡ length ys
      → zip_with f (xs ++ xs') (ys ++ ys') ≡ zip_with f xs ys ++ zip_with f xs' ys'
  zip_with-append f [] xs' [] ys' h = refl
  zip_with-append f [] xs' (y ∷ ys) ys' h = absurd (omega arith)
  zip_with-append f (x ∷ xs) xs' [] ys' h = absurd (omega arith)
  zip_with-append f (x ∷ xs) xs' (y ∷ ys) ys' h =
      ap (λ l. f x y ∷ l) (zip_with-append f xs xs' ys ys' (omega arith))

module _ {ℓ κ} {A : Type ℓ} (P : A → Type κ) where
  pub All-append : (xs ys : List A) → All P xs → All P ys → All P (xs ++ ys)
  All-append [] ys hx hy = hy
  All-append (x ∷ xs) ys hx hy = (hx.0, All-append xs ys hx.1 hy)

  pub All-take : (n : ℕ) (xs : List A) → All P xs → All P (take n xs)
  All-take zero xs h = tt
  All-take (suc n) [] h = tt
  All-take (suc n) (x ∷ xs) h = (h.0, All-take n xs h.1)

  pub All-drop : (n : ℕ) (xs : List A) → All P xs → All P (drop n xs)
  All-drop zero xs h = h
  All-drop (suc n) [] h = tt
  All-drop (suc n) (x ∷ xs) h = All-drop n xs h.1

  pub All-front : (xs ys : List A) → All P (xs ++ ys) → All P xs
  All-front [] ys h = tt
  All-front (x ∷ xs) ys h = (h.0, All-front xs ys h.1)

  pub All-back : (xs ys : List A) → All P (xs ++ ys) → All P ys
  All-back [] ys h = h
  All-back (x ∷ xs) ys h = All-back xs ys h.1
