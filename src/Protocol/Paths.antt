-- ===== src/Protocol/Paths.antt =====
-- The paths through the transition table of Protocol/state.go.
pub mod Transfers
pub mod Runs
use file_transfer_using_libp.Base.{
  ℕ, zero, suc, ◌+◌, ◌≤◌, ◌<◌, ◌≡◌, refl, sym, ap, ◌∙◌, subst, ◌⊎◌, inl, inr, true, false, Bool,
  Bool-cases, ◌==◌, ==_iff, List, [], ◌∷◌, ◌++◌, length, arith, ◌↔◌,
}
use file_transfer_using_libp.Protocol.State.{
  TransferState, code, contains_state, is_allowed, valid_transitions,
}

-- The states in the order of their numbers, and the state of a number.
abbrev all_states : List TransferState
all_states =
    TransferState.idle ∷ TransferState.send_header ∷ TransferState.receive_header
    ∷ TransferState.waiting_chunk_request ∷ TransferState.send_chunk_response
    ∷ TransferState.waiting_lottery_ticket ∷ TransferState.send_key_reveal
    ∷ TransferState.send_chunk_request ∷ TransferState.waiting_chunk_response
    ∷ TransferState.send_lottery_ticket ∷ TransferState.waiting_key_reveal
    ∷ TransferState.verify_chunk ∷ TransferState.verify_merkle ∷ TransferState.finished ∷ []

abbrev state_at : List TransferState → ℕ → TransferState
state_at [] n = TransferState.error
state_at (st ∷ rest) zero = st
state_at (st ∷ rest) (suc n) = state_at rest n

abbrev of_code : ℕ → TransferState
of_code = state_at all_states

of_code-code : (st : TransferState) → of_code (code st) ≡ st
of_code-code TransferState.idle = refl
of_code-code TransferState.send_header = refl
of_code-code TransferState.receive_header = refl
of_code-code TransferState.waiting_chunk_request = refl
of_code-code TransferState.send_chunk_response = refl
of_code-code TransferState.waiting_lottery_ticket = refl
of_code-code TransferState.send_key_reveal = refl
of_code-code TransferState.send_chunk_request = refl
of_code-code TransferState.waiting_chunk_response = refl
of_code-code TransferState.send_lottery_ticket = refl
of_code-code TransferState.waiting_key_reveal = refl
of_code-code TransferState.verify_chunk = refl
of_code-code TransferState.verify_merkle = refl
of_code-code TransferState.finished = refl
of_code-code TransferState.error = refl

-- The states that come after `st` on a path to `finished`, each allowed after the one before.
abbrev pub IsPath : TransferState → List TransferState → Type 0
IsPath st [] = st ≡ TransferState.finished
IsPath st (next ∷ rest) = (is_allowed st next ≡ true) × IsPath next rest

-- The states of one chunk, and then others: of a sender, and of a receiver.
abbrev pub sender_chunk : List TransferState → List TransferState
sender_chunk rest =
    TransferState.waiting_chunk_request ∷ TransferState.send_chunk_response
    ∷ TransferState.waiting_lottery_ticket ∷ TransferState.send_key_reveal ∷ rest

abbrev pub receiver_chunk : List TransferState → List TransferState
receiver_chunk rest =
    TransferState.send_chunk_request ∷ TransferState.waiting_chunk_response
    ∷ TransferState.send_lottery_ticket ∷ TransferState.waiting_key_reveal
    ∷ TransferState.verify_chunk ∷ rest

-- The states of `n` chunks, and then others.
abbrev pub chunks :
    (List TransferState → List TransferState) → ℕ → List TransferState → List TransferState
chunks chunk zero rest = rest
chunks chunk (suc n) rest = chunk (chunks chunk n rest)

-- The end of a path: at once for no chunks, else over the Merkle root.
abbrev pub ending : ℕ → List TransferState
ending zero = TransferState.finished ∷ []
ending (suc n) = TransferState.verify_merkle ∷ TransferState.finished ∷ []

-- A path of a sender or of a receiver with that many chunks.
abbrev pub IsTransfer : List TransferState → Type 0
IsTransfer path =
    (n : ℕ) × ((path ≡ TransferState.send_header ∷ chunks sender_chunk n (ending n))
      ⊎ (path ≡ TransferState.receive_header ∷ chunks receiver_chunk n (ending n)))

code_same : (st next : TransferState) → (code st == code next) ≡ true → next ≡ st
code_same st next e =
    sym (of_code-code next)
    ∙ ap of_code (sym ((==_iff (code st) (code next)).0 e))
    ∙ of_code-code st

-- A state among one or two is one of them.
one_of : (x next : TransferState) → contains_state (x ∷ []) next ≡ true → next ≡ x
one_of x next e = elim (Bool-cases (code x == code next)) [
  | inl same ↦ code_same x next same
  | inr differ ↦ absurd (cc (rw differ at e))
]

one_of_two :
    (x y next : TransferState) → contains_state (x ∷ y ∷ []) next ≡ true → (next ≡ x) ⊎ (next ≡ y)
one_of_two x y next e = elim (Bool-cases (code x == code next)) [
  | inl same ↦ inl (code_same x next same)
  | inr differ ↦ inr (one_of y next (rw differ at e))
]

-- The step from a state with one successor, and from one with two.
pub only :
    (st x : TransferState) (path : List TransferState)
    → valid_transitions st ≡ x ∷ []
    → code st < 13
    → IsPath st path
    → (rest : List TransferState) × (path ≡ x ∷ rest) × IsPath x rest
unfolding is_allowed
only st x [] e h p = absurd (omega (arith, h, ap code p))
only st x (next ∷ rest) e h (allowed, p) =
    let same = one_of x next (subst (λ l. contains_state l next ≡ true) e allowed) in
    (rest, ap (λ b. b ∷ rest) same, subst (λ b. IsPath b rest) same p)

pub either :
    (st x y : TransferState) (path : List TransferState)
    → valid_transitions st ≡ x ∷ y ∷ []
    → code st < 13
    → IsPath st path
    → (rest : List TransferState) × (((path ≡ x ∷ rest) × IsPath x rest)
        ⊎ ((path ≡ y ∷ rest) × IsPath y rest))
unfolding is_allowed
either st x y [] e h p = absurd (omega (arith, h, ap code p))
either st x y (next ∷ rest) e h (allowed, p) =
    elim (one_of_two x y next (subst (λ l. contains_state l next ≡ true) e allowed)) [
      | inl same ↦ (rest, inl (ap (λ b. b ∷ rest) same, subst (λ b. IsPath b rest) same p))
      | inr same ↦ (rest, inr (ap (λ b. b ∷ rest) same, subst (λ b. IsPath b rest) same p))
    ]

-- Nothing comes after `finished`.
pub finished_path : (path : List TransferState) → IsPath TransferState.finished path → path ≡ []
unfolding is_allowed valid_transitions
finished_path [] p = refl
finished_path (next ∷ rest) (allowed, p) = absurd (cc allowed)

pub merkle_path :
    (path : List TransferState)
    → IsPath TransferState.verify_merkle path
    → path ≡ TransferState.finished ∷ []
unfolding valid_transitions
merkle_path path p =
    let (rest, e, q) =
      only TransferState.verify_merkle TransferState.finished path refl (omega arith) p in
    e ∙ ap (λ r. TransferState.finished ∷ r) (finished_path rest q)
