-- ===== src/Wire/Reads.antt =====
-- How `read_full` and `read_sentinel` behave on a connection: what they take, and what they leave.
use file_transfer_using_libp.Base.{
  ℕ, ◌≡◌, refl, sym, ap, ◌∙◌, subst, subst₂, true, String, List, [], ◌∷◌, ◌++◌, length, arith,
  le→leb, ==_refl, append_assoc, take-append_exact, drop-append_exact, take-append-drop,
  length-take, length-append, wrap, Error, Result, ok, err, panic, fatal, Act, and_then, on_error,
  All, All-append_split, IsByte,
}
use file_transfer_using_libp.Protocol.Stream.{Stream, read_full, write}
use file_transfer_using_libp.Wire.{read_sentinel, first_byte, check_byte}

-- The connection `c` with other bytes to deliver.
abbrev pub feed : Stream → List ℕ → Stream
feed c bs = record c { incoming = bs }

-- `read_full` takes exactly the bytes that it is asked for.
pub read_full-append :
    (n : ℕ) (xs rest : List ℕ) (c : Stream)
    → length xs ≡ n
    → read_full n (feed c (xs ++ rest)) ≡ (ok xs, feed c rest)
unfolding read_full
read_full-append n xs rest c h =
    rw (le→leb n (length (xs ++ rest)) (omega (arith, length-append {0} xs rest)))
      (rw (take-append_exact n xs rest h, drop-append_exact n xs rest h))

-- A read and what follows it, where the bytes are there.
pub read_then :
    {A : Type 0} (g : Error → Error) (n : ℕ) (xs rest : List ℕ) (c : Stream)
    (k : List ℕ → Act Stream A)
    → length xs ≡ n
    → and_then (on_error g (read_full n (feed c (xs ++ rest)))) k ≡ k xs (feed c rest)
read_then g n xs rest c k h = rw (read_full-append n xs rest c h)

pub read_full_then :
    {A : Type 0} (n : ℕ) (xs rest : List ℕ) (c : Stream) (k : List ℕ → Act Stream A)
    → length xs ≡ n
    → and_then (read_full n (feed c (xs ++ rest))) k ≡ k xs (feed c rest)
read_full_then n xs rest c k h = rw (read_full-append n xs rest c h)

-- A sentinel that is there is taken.
pub read_sentinel-cons :
    (want : ℕ) (what : String) (rest : List ℕ) (c : Stream)
    → read_sentinel want what (feed c (want ∷ rest)) ≡ (ok tt, feed c rest)
unfolding read_sentinel
read_sentinel-cons want what rest c =
    rw (read_full-append 1 (want ∷ []) rest c refl) (rw (==_refl want))

pub read_sentinel_then :
    {A : Type 0} (want : ℕ) (what : String) (rest : List ℕ) (c : Stream)
    (k : Unit {0} → Act Stream A)
    → and_then (read_sentinel want what (feed c (want ∷ rest))) k ≡ k tt (feed c rest)
read_sentinel_then want what rest c k = rw (read_sentinel-cons want what rest c)

-- What a successful read says of the connection before and after it.
pub record Took (xs : List ℕ) (c c' : Stream) : Type 0 where
  pub before : c.incoming ≡ xs ++ c'.incoming
  pub after : c' ≡ feed c c'.incoming

pub Took-trans : {xs ys : List ℕ} {c d e : Stream} → Took xs c d → Took ys d e → Took (xs ++ ys) c e
Took-trans {xs} {ys} {c} {d} {e} p q = record {
  before = p.before ∙ ap (λ bs. xs ++ bs) q.before ∙ sym (append_assoc xs ys e.incoming);
  after = q.after ∙ ap (λ s. feed s e.incoming) p.after;
}

pub read_full-Took :
    (n : ℕ) (c : Stream) (xs : List ℕ) (c' : Stream)
    → read_full n c ≡ (ok xs, c')
    → Took xs c c' × (length xs ≡ n)
unfolding read_full
read_full-Took n c xs c' h = ground (arith, take-append-drop n c.incoming, length-take n c.incoming)

-- A chain of reads that succeeds, link by link.
bind_ok :
    {A B : Type 0} (r : Result A × Stream) (k : A → Act Stream B) (b : B) (c' : Stream)
    → and_then r k ≡ (ok b, c')
    → (a : A) × (d : Stream) × (r ≡ (ok a, d)) × (k a d ≡ (ok b, c'))
bind_ok (ok a, d) k b c' h = (a, d, refl, h)
bind_ok (err e, d) k b c' h = cc
bind_ok (panic, d) k b c' h = cc
bind_ok (fatal e, d) k b c' h = cc

on_error_ok :
    {A : Type 0} (g : Error → Error) (r : Result A × Stream) (a : A) (c' : Stream)
    → on_error g r ≡ (ok a, c')
    → r ≡ (ok a, c')
on_error_ok g (ok a', d) a c' h = h
on_error_ok g (err e, d) a c' h = cc
on_error_ok g (panic, d) a c' h = cc
on_error_ok g (fatal e, d) a c' h = cc

abbrev value_or : {A : Type 0} → A → Result A → A
value_or a (ok b) = b
value_or a (err e) = a
value_or a panic = a
value_or a (fatal e) = a

-- What holds of a result holds of what it is equal to.
pub ok_pair :
    {A : Type 0} {a b : A} {c d : Stream} (P : A → Stream → Type 0)
    → ◌≡◌ {A = Result A × Stream} (ok a, c) (ok b, d)
    → P a c
    → P b d
ok_pair {A} {a} P e =
    subst₂ P (ap (λ (r : Result A × Stream). value_or a r.0) e)
      (ap (λ (r : Result A × Stream). r.1) e)

-- What is known after a first read of `n` bytes, of a chain that ends with `b` at `c'`.
abbrev pub ReadThen : {A : Type 0} → ℕ → Stream → (List ℕ → Act Stream A) → A → Stream → Type 0
ReadThen n c k b c' =
    (xs : List ℕ) × (d : Stream) × Took xs c d × (length xs ≡ n) × (k xs d ≡ (ok b, c'))

pub read_full_then_took :
    {A : Type 0} (n : ℕ) (c : Stream) (k : List ℕ → Act Stream A) (b : A) (c' : Stream)
    → and_then (read_full n c) k ≡ (ok b, c')
    → ReadThen n c k b c'
read_full_then_took n c k b c' h =
    let (xs, d, e, h') = bind_ok (read_full n c) k b c' h in
    let t = read_full-Took n c xs d e in (xs, d, t.0, t.1, h')

pub wrapped_then_took :
    {A : Type 0} (g : Error → Error) (n : ℕ) (c : Stream) (k : List ℕ → Act Stream A) (b : A)
    (c' : Stream)
    → and_then (on_error g (read_full n c)) k ≡ (ok b, c')
    → ReadThen n c k b c'
wrapped_then_took g n c k b c' h =
    let (xs, d, e, h') = bind_ok (on_error g (read_full n c)) k b c' h in
    let t = read_full-Took n c xs d (on_error_ok g (read_full n c) xs d e) in (xs, d, t.0, t.1, h')

check_byte_took :
    (want : ℕ) (what : String) (xs : List ℕ) (d c' : Stream)
    → length xs ≡ 1
    → check_byte want what (first_byte xs) d ≡ (ok tt, c')
    → (xs ≡ want ∷ []) × (c' ≡ d)
check_byte_took want what [] d c' l h = absurd (omega arith)
check_byte_took want what (x ∷ []) d c' l h = ground arith
check_byte_took want what (x ∷ y ∷ xs) d c' l h = absurd (omega arith)

-- A sentinel that was read was there, and was the one that was wanted.
pub read_sentinel-Took :
    (want : ℕ) (what : String) (c c' : Stream)
    → read_sentinel want what c ≡ (ok tt, c')
    → Took (want ∷ []) c c'
unfolding read_sentinel
read_sentinel-Took want what c c' h =
    let (xs, d, t, l, h') =
      wrapped_then_took (wrap what) 1 c (λ b. check_byte want what (first_byte b)) tt c' h in
    let (e, e') = check_byte_took want what xs d c' l h' in
    subst₂ (λ ys d'. Took ys c d') e (sym e') t

pub sentinel_then-Took :
    {A : Type 0} (want : ℕ) (what : String) (c : Stream) (k : Unit {0} → Act Stream A) (b : A)
    (c' : Stream)
    → and_then (read_sentinel want what c) k ≡ (ok b, c')
    → (d : Stream) × Took (want ∷ []) c d × (k tt d ≡ (ok b, c'))
sentinel_then-Took want what c k b c' h =
    let (u, d, e, h') = bind_ok (read_sentinel want what c) k b c' h in
    (d, read_sentinel-Took want what c d e, h')

pub Took-IsByte :
    {xs : List ℕ} {c c' : Stream}
    → Took xs c c'
    → All IsByte c.incoming
    → All IsByte xs × All IsByte c'.incoming
Took-IsByte {xs} {c} {c'} t h =
    All-append_split IsByte xs c'.incoming (subst (All IsByte) t.before h)

-- A write that the connection accepts.
pub write_accepted :
    (buf : List ℕ) (c : Stream)
    → c.accepts c.outgoing ≡ true
    → write buf c ≡ (ok tt, record c { outgoing = c.outgoing ++ buf })
unfolding write
write_accepted buf c h = rw h
