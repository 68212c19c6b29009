-- ===== src/Errors.antt =====
-- Errors as values: errors.go and the errors of Go's io package that the sources compare with.
pub mod Code
use copper.Prelude.{ℕ, List, [], Bool, true, false, ◌==◌}

-- A Go `error`, by the ways in which the sources tell errors apart.
pub data GoError : Type 0 where
  -- `ErrorCode(code)`
  error_code : ℕ → GoError
  -- `&copperError{error, code}`: a pointer, which has the method `ErrorCode`. The list is the message.
  copper_error : ℕ → List ℕ → GoError
  -- `copperError{error, code}`: a value. `ErrorCode` has a pointer receiver, so the value has only
  -- the method `Error`, and is no `Error` of errors.go.
  copper_error_value : ℕ → List ℕ → GoError
  -- `&timeoutError{}`
  timeout_error : GoError
  -- `io.EOF` and `io.ErrUnexpectedEOF`
  eof unexpected_eof : GoError
  -- Any other error, by its message.
  other_error : List ℕ → GoError

-- `err == io.EOF`
abbrev pub is_eof : GoError → Bool
is_eof eof = true
is_eof _ = false

-- `err == code`, for a constant of type `ErrorCode`.
abbrev pub is_code : ℕ → GoError → Bool
is_code c (error_code d) = d == c
is_code c _ = false

-- The result of a fallible operation.
pub data Result {ℓ} (A : Type ℓ) : Type ℓ where
  ok : A → Result A
  err : GoError → Result A

infixl 5 ◌>>=◌
abbrev pub ◌>>=◌ {ℓ κ} : {A : Type ℓ} {B : Type κ} → Result A → (A → Result B) → Result B
ok a >>= f = f a
err e >>= f = err e
