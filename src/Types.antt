-- ===== src/Types.antt =====
-- types.rs and error.rs: the error values, and the results of fallible code.
use block.Common.{
  List, length, take, drop, ◌&&◌, ℕ, ◌-◌, leb, if◌then◌else◌, ◌≡◌, refl, Bool, true, false, Option,
  none, some,
}

-- enum ExceptionCode, with the source's constructors in its order.
pub data ExceptionCode : Type 0 where
  normal_termination alternative_termination stack_underflow stack_overflow : ExceptionCode
  integer_overflow range_check_error invalid_opcode type_check_error : ExceptionCode
  cell_overflow cell_underflow dictionary_error unknown_error fatal_error : ExceptionCode
  out_of_gas illegal_instruction pruned_cell_access big_cell_access : ExceptionCode

-- An `anyhow::Error`: an exception code, a `BlockError` of error.rs by its kind, or a formatted
-- text, whose words are left out.
pub data Error : Type 0 where
  exception : ExceptionCode → Error
  invalid_arg invalid_data message : Error

-- What a call answers: a value, an `Err`, or a panic (a failed `assert!`, an `unwrap` or `expect`
-- of nothing, an index out of bounds).
pub data Outcome {ℓ} (A : Type ℓ) : Type ℓ where
  ok : A → Outcome A
  err : Error → Outcome A
  panic : Outcome A

infixl 5 ◌>>=◌ ◌>>◌
abbrev pub ◌>>=◌ {ℓ κ} : {A : Type ℓ} {B : Type κ} → Outcome A → (A → Outcome B) → Outcome B
ok a >>= f = f a
err e >>= f = err e
panic >>= f = panic

abbrev pub ◌>>◌ {ℓ} : {B : Type ℓ} → Outcome (Unit {0}) → Outcome B → Outcome B
m >> k = m >>= λ _. k

-- `assert!`
abbrev pub assert : Bool → Outcome (Unit {0})
assert true = ok tt
assert false = panic

-- `if !test { fail!(e) }`
abbrev pub require : Bool → Error → Outcome (Unit {0})
require true e = ok tt
require false e = err e

-- `unwrap` and `expect` of an `Option`, and an index into a slice.
abbrev pub unwrap {ℓ} : {A : Type ℓ} → Option A → Outcome A
unwrap none = panic
unwrap (some a) = ok a

-- `ok_or`
abbrev pub ok_or {ℓ} : {A : Type ℓ} → Option A → Error → Outcome A
ok_or none e = err e
ok_or (some a) e = ok a

-- `unwrap` of a `Result`.
abbrev pub unwrap_ok {ℓ} : {A : Type ℓ} → Outcome A → Outcome A
unwrap_ok (ok a) = ok a
unwrap_ok (err e) = panic
unwrap_ok panic = panic

-- Subtraction of unsigned numbers, with its overflow check.
abbrev pub minus : ℕ → ℕ → Outcome ℕ
minus a b = if leb b a then ok (a - b) else panic

-- `&data[from..to]`
abbrev pub sub_slice {ℓ} : {A : Type ℓ} → List A → ℕ → ℕ → Outcome (List A)
sub_slice bs from to =
    if leb from to && leb to (length bs) then ok (drop from (take to bs)) else panic

pub >>=-eq-ok {ℓ κ} :
    {A : Type ℓ} {B : Type κ} (m : Outcome A) (f : A → Outcome B) (b : B)
    → (m >>= f) ≡ ok b
    → (a : A) × (m ≡ ok a) × (f a ≡ ok b)
>>=-eq-ok (ok a) f b h = (a, refl, h)
>>=-eq-ok (err e) f b h = cc
>>=-eq-ok panic f b h = cc
