-- ===== src/Controllers/Rules.antt =====
-- Rules for the steps: what holds after a call of the connection, of the source of randomness or of
-- the file, and after the rest of the step.
use file_transfer_using_libp.Base.{
  ℕ, ◌≡◌, refl, ap, Option, some, List, Error, Result, ok, err, panic, fatal, Act, and_then,
  on_error, IsPlain,
}
use file_transfer_using_libp.Protocol.Types.{Chunk}
use file_transfer_using_libp.Protocol.Stream.{Stream}
use file_transfer_using_libp.Protocol.File.{File}
use file_transfer_using_libp.Protocol.Session.{Session}
use file_transfer_using_libp.Controllers.Actions.{
  keep_conn, keep_entropy, keep_open_file, keep_pending,
}

module _ {A B : Type 0} (P : Result B × Session → Type 0) (s : Session) where
  -- `x ← on_conn m; k x`, with the error of `m` wrapped by `g`.
  pub conn_rule :
      (g : Error → Error) (r : Result A × Stream) (k : A → Act Session B)
      → IsPlain r
      → ((a : A) (c : Stream) → r ≡ (ok a, c) → P (k a (record s { conn = c })))
      → ((e : Error) (c : Stream) → r ≡ (err e, c) → P (err (g e), record s { conn = c }))
      → P (and_then (on_error g (keep_conn s r)) k)
  conn_rule g (ok a, c) k p h f = h a c refl
  conn_rule g (err e, c) k p h f = f e c refl
  conn_rule g (panic, c) k p h f = absurd p
  conn_rule g (fatal e, c) k p h f = absurd p

  -- `x ← on_entropy m; k x`.
  pub entropy_rule :
      (r : Result A × List ℕ) (k : A → Act Session B)
      → IsPlain r
      → ((a : A) (rest : List ℕ) → r ≡ (ok a, rest) → P (k a (record s { entropy = rest })))
      → ((e : Error) (rest : List ℕ) → r ≡ (err e, rest) → P (err e, record s { entropy = rest }))
      → P (and_then (keep_entropy s r) k)
  entropy_rule (ok a, c) k p h f = h a c refl
  entropy_rule (err e, c) k p h f = f e c refl
  entropy_rule (panic, c) k p h f = absurd p
  entropy_rule (fatal e, c) k p h f = absurd p

  -- `x ← on_file m; k x`, with the error of `m` wrapped by `g`.
  pub file_rule :
      (g : Error → Error) (r : Result A × Option File) (k : A → Act Session B)
      → IsPlain r
      → ((a : A) (f : Option File) → r ≡ (ok a, f) → P (k a (record s { file = f })))
      → ((e : Error) (f : Option File) → r ≡ (err e, f) → P (err (g e), record s { file = f }))
      → P (and_then (on_error g (keep_open_file s r)) k)
  file_rule g (ok a, c) k p h f = h a c refl
  file_rule g (err e, c) k p h f = f e c refl
  file_rule g (panic, c) k p h f = absurd p
  file_rule g (fatal e, c) k p h f = absurd p

  -- `x ← on_pending m; k x`, where there is a chunk in flight.
  pub pending_rule :
      (r : Result A × Chunk) (k : A → Act Session B)
      → IsPlain r
      → ((a : A) (c : Chunk) → r ≡ (ok a, c) → P (k a (record s { pending_chunk = some c })))
      → ((e : Error) (c : Chunk) → r ≡ (err e, c) → P (err e, record s { pending_chunk = some c }))
      → P (and_then (keep_pending s r) k)
  pending_rule (ok a, c) k p h f = h a c refl
  pending_rule (err e, c) k p h f = f e c refl
  pending_rule (panic, c) k p h f = absurd p
  pending_rule (fatal e, c) k p h f = absurd p

module _ {A B : Type 0} (s : Session) where
  -- The same as equations, for a call whose outcome is known.
  pub conn_eq :
      (g : Error → Error) (r : Result A × Stream) (k : A → Act Session B) (a : A) (c : Stream)
      → r ≡ (ok a, c)
      → and_then (on_error g (keep_conn s r)) k ≡ k a (record s { conn = c })
  conn_eq g r k a c e = ap (λ r'. and_then (on_error g (keep_conn s r')) k) e

  pub entropy_eq :
      (r : Result A × List ℕ) (k : A → Act Session B) (a : A) (rest : List ℕ)
      → r ≡ (ok a, rest)
      → and_then (keep_entropy s r) k ≡ k a (record s { entropy = rest })
  entropy_eq r k a rest e = ap (λ r'. and_then (keep_entropy s r') k) e

  pub file_eq :
      (g : Error → Error) (r : Result A × Option File) (k : A → Act Session B) (a : A)
      (f : Option File)
      → r ≡ (ok a, f)
      → and_then (on_error g (keep_open_file s r)) k ≡ k a (record s { file = f })
  file_eq g r k a f e = ap (λ r'. and_then (on_error g (keep_open_file s r')) k) e

  pub pending_eq :
      (r : Result A × Chunk) (k : A → Act Session B) (a : A) (c : Chunk)
      → r ≡ (ok a, c)
      → and_then (keep_pending s r) k ≡ k a (record s { pending_chunk = some c })
  pending_eq r k a c e = ap (λ r'. and_then (keep_pending s r') k) e
