-- ===== src/Base/Action.antt =====
-- Go's `(value, error)` results, panics and `log.Fatal`, and functions that change a state.
use Prim.Native.Nat.{ℕ}
use Prim.Native.String.{String}
use mathlib.Core.List.{List}

-- Errors, by what they say. `%w` keeps the error that caused another.
pub data Error : Type 0 where
  eof : Error  -- io.EOF
  unexpected_eof : Error  -- io.ErrUnexpectedEOF
  failed : String → Error  -- an error that a call outside the repository returns
  wrap : String → Error → Error  -- fmt.Errorf("...: %w", err)
  wrap_at : String → ℕ → Error → Error  -- fmt.Errorf("... %d: %w", index, err)
  expected : String → ℕ → ℕ → Error  -- "expected %s (0x%02x), got 0x%02x"
  mismatch : String → ℕ → ℕ → Error  -- "...: want %d, got %d"
  illegal_transition : String → String → Error  -- "illegal transition %s -> %s"
  no_step : String → Error  -- "no step registered for state %s"
  hash_mismatch : String → List ℕ → List ℕ → Error  -- two hashes that differ

-- `panic` is a run-time panic, `fatal` the end of the process by `log.Fatal`.
pub data Result {ℓ} (A : Type ℓ) : Type ℓ where
  ok : A → Result A
  err : Error → Result A
  panic : Result A
  fatal : Error → Result A

-- A function on a state of type `S`. What it changed stays changed when it fails.
abbrev pub Act : Type 0 → Type 0 → Type 0
Act S A = S → Result A × S

abbrev pub pure : {S A : Type 0} → A → Act S A
pure a s = (ok a, s)

abbrev pub throw : {S A : Type 0} → Error → Act S A
throw e s = (err e, s)

abbrev pub and_then : {S A B : Type 0} → Result A × S → (A → Act S B) → Result B × S
and_then (ok a, s) f = f a s
and_then (err e, s) f = (err e, s)
and_then (panic, s) f = (panic, s)
and_then (fatal e, s) f = (fatal e, s)

infixl 5 ◌>>=◌ ◌>>◌
abbrev pub ◌>>=◌ : {S A B : Type 0} → Act S A → (A → Act S B) → Act S B
◌>>=◌ m f s = and_then (m s) f

abbrev pub ◌>>◌ : {S B : Type 0} → Act S (Unit {0}) → Act S B → Act S B
m >> k = m >>= λ _. k

-- `if err != nil { return ..., fmt.Errorf(..., err) }`
abbrev pub on_error : {S A : Type 0} → (Error → Error) → Result A × S → Result A × S
on_error g (ok a, s) = (ok a, s)
on_error g (err e, s) = (err (g e), s)
on_error g (panic, s) = (panic, s)
on_error g (fatal e, s) = (fatal e, s)

abbrev pub wrapping : {S A : Type 0} → (Error → Error) → Act S A → Act S A
wrapping g m s = on_error g (m s)

-- A result that is a value or an error, and so neither a panic nor the end of the process.
abbrev pub IsPlain : {S A : Type 0} → Result A × S → Type 0
IsPlain (ok a, s) = Unit
IsPlain (err e, s) = Unit
IsPlain (panic, s) = ⊥
IsPlain (fatal e, s) = ⊥

pub and_then-IsPlain :
    {S A B : Type 0} (r : Result A × S) (k : A → Act S B)
    → IsPlain r
    → ((a : A) (s : S) → IsPlain (k a s))
    → IsPlain (and_then r k)
and_then-IsPlain (ok a, s) k p h = h a s
and_then-IsPlain (err e, s) k p h = tt
and_then-IsPlain (panic, s) k p h = absurd p
and_then-IsPlain (fatal e, s) k p h = absurd p

pub on_error-IsPlain :
    {S A : Type 0} (g : Error → Error) (r : Result A × S) → IsPlain r → IsPlain (on_error g r)
on_error-IsPlain g (ok a, s) p = tt
on_error-IsPlain g (err e, s) p = tt
on_error-IsPlain g (panic, s) p = absurd p
on_error-IsPlain g (fatal e, s) p = absurd p

-- An error of a call ends the process by `log.Fatal`.
abbrev pub fatal_unless : {A B : Type 0} → String → Result A → (A → Result B) → Result B
fatal_unless what (ok a) k = k a
fatal_unless what (err e) k = fatal (wrap what e)
fatal_unless what panic k = panic
fatal_unless what (fatal e) k = fatal e
