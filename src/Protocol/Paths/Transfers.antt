-- ===== src/Protocol/Paths/Transfers.antt =====
-- The paths through the transition table of Protocol/state.go from `Idle` to `Finished`.
use file_transfer_using_libp.Base.{
  ℕ, zero, suc, ◌<◌, ◌≡◌, refl, sym, ap, ◌∙◌, subst, ◌⊎◌, inl, inr, List, ◌∷◌, length, arith, ◌↔◌,
}
use file_transfer_using_libp.Protocol.State.{TransferState, is_allowed, valid_transitions}
use file_transfer_using_libp.Protocol.Paths.{
  IsPath, IsTransfer, sender_chunk, receiver_chunk, chunks, ending, only, either, finished_path,
  merkle_path,
}

-- Where a chunk leads: to another one, or over the Merkle root to the end.
abbrev Onward : TransferState → List TransferState → Type 0
Onward st rest =
    ((next : List TransferState) × (rest ≡ st ∷ next) × IsPath st next) ⊎ (rest ≡ ending 1)

onward :
    (st : TransferState) (path rest : List TransferState)
    → ((path ≡ st ∷ rest) × IsPath st rest)
      ⊎ ((path ≡ TransferState.verify_merkle ∷ rest) × IsPath TransferState.verify_merkle rest)
    → Onward st path
onward st path rest (inl (e, q)) = inl (rest, e, q)
onward st path rest (inr (e, q)) =
    inr (e ∙ ap (λ r. TransferState.verify_merkle ∷ r) (merkle_path rest q))

-- One chunk of a sender: three more states, and what comes then.
one_sender_chunk :
    (path : List TransferState)
    → IsPath TransferState.waiting_chunk_request path
    → (rest : List TransferState) × (TransferState.waiting_chunk_request ∷ path ≡ sender_chunk rest)
      × Onward TransferState.waiting_chunk_request rest
unfolding valid_transitions
one_sender_chunk path p =
    let (path1, e1, p1) =
      only TransferState.waiting_chunk_request TransferState.send_chunk_response path refl
        (omega arith) p in
    let (path2, e2, p2) =
      only TransferState.send_chunk_response TransferState.waiting_lottery_ticket path1 refl
        (omega arith) p1 in
    let (path3, e3, p3) =
      only TransferState.waiting_lottery_ticket TransferState.send_key_reveal path2 refl
        (omega arith) p2 in
    let (path4, next) =
      either TransferState.send_key_reveal TransferState.waiting_chunk_request
        TransferState.verify_merkle path3 refl (omega arith) p3 in
    (path3, cc (e1, e2, e3), onward TransferState.waiting_chunk_request path3 path4 next)

one_receiver_chunk :
    (path : List TransferState)
    → IsPath TransferState.send_chunk_request path
    → (rest : List TransferState) × (TransferState.send_chunk_request ∷ path ≡ receiver_chunk rest)
      × Onward TransferState.send_chunk_request rest
unfolding valid_transitions
one_receiver_chunk path p =
    let (path1, e1, p1) =
      only TransferState.send_chunk_request TransferState.waiting_chunk_response path refl
        (omega arith) p in
    let (path2, e2, p2) =
      only TransferState.waiting_chunk_response TransferState.send_lottery_ticket path1 refl
        (omega arith) p1 in
    let (path3, e3, p3) =
      only TransferState.send_lottery_ticket TransferState.waiting_key_reveal path2 refl
        (omega arith) p2 in
    let (path4, e4, p4) =
      only TransferState.waiting_key_reveal TransferState.verify_chunk path3 refl (omega arith)
        p3 in
    let (path5, next) =
      either TransferState.verify_chunk TransferState.send_chunk_request TransferState.verify_merkle
        path4 refl (omega arith) p4 in
    (path4, cc (e1, e2, e3, e4), onward TransferState.send_chunk_request path4 path5 next)

module _ (st : TransferState) (chunk : List TransferState → List TransferState)
    (longer : (rest : List TransferState) → suc (length rest) < length (chunk rest))
    (one : (path : List TransferState)
      → IsPath st path
      → (rest : List TransferState) × (st ∷ path ≡ chunk rest) × Onward st rest) where
  -- From the first state of a chunk on, a path goes through that chunk, some more, and the end.
  some_chunks :
      (fuel : ℕ) (path : List TransferState)
      → length path < fuel
      → IsPath st path
      → (n : ℕ) × (st ∷ path ≡ chunks chunk (suc n) (ending (suc n)))
  some_chunks zero path short p = absurd (omega arith)
  some_chunks (suc fuel) path short p =
      let (rest, e, next) = one path p in
      elim next [
        | inl (more, e', q) ↦
            let (n, e'') =
              some_chunks fuel more (omega (arith, short, ap length e, ap length e', longer rest))
                q in
            (suc n, e ∙ ap chunk (e' ∙ e''))
        | inr e' ↦ (0, e ∙ ap chunk e')
      ]

  -- After the header: the chunks, if any.
  after_header :
      (path rest : List TransferState)
      → ((path ≡ st ∷ rest) × IsPath st rest)
        ⊎ ((path ≡ TransferState.finished ∷ rest) × IsPath TransferState.finished rest)
      → (n : ℕ) × (path ≡ chunks chunk n (ending n))
  after_header path rest (inl (e, p)) =
      let (n, e') = some_chunks (suc (length rest)) rest (omega arith) p in (suc n, e ∙ e')
  after_header path rest (inr (e, p)) =
      (0, e ∙ ap (λ r. TransferState.finished ∷ r) (finished_path rest p))

-- Every path from `Idle` to `Finished` is that of a transfer.
path-IsTransfer : (path : List TransferState) → IsPath TransferState.idle path → IsTransfer path
unfolding valid_transitions
path-IsTransfer path p =
    let (rest, first) =
      either TransferState.idle TransferState.send_header TransferState.receive_header path refl
        (omega arith) p in
    elim first [
      | inl (e, q) ↦
          let (rest', next) =
            either TransferState.send_header TransferState.waiting_chunk_request
              TransferState.finished rest refl (omega arith) q in
          let (n, e') =
            after_header TransferState.waiting_chunk_request sender_chunk (λ r. omega arith)
              one_sender_chunk rest rest' next in
          (n, inl (e ∙ ap (λ r. TransferState.send_header ∷ r) e'))
      | inr (e, q) ↦
          let (rest', next) =
            either TransferState.receive_header TransferState.send_chunk_request
              TransferState.finished rest refl (omega arith) q in
          let (n, e') =
            after_header TransferState.send_chunk_request receiver_chunk (λ r. omega arith)
              one_receiver_chunk rest rest' next in
          (n, inr (e ∙ ap (λ r. TransferState.receive_header ∷ r) e'))
    ]

-- The chunks of a transfer are a path.
sender_chunks-IsPath :
    (n : ℕ) → IsPath TransferState.send_key_reveal (chunks sender_chunk n (ending 1))
unfolding is_allowed valid_transitions
sender_chunks-IsPath zero = (refl, (refl, refl))
sender_chunks-IsPath (suc n) = (refl, (refl, (refl, (refl, sender_chunks-IsPath n))))

receiver_chunks-IsPath :
    (n : ℕ) → IsPath TransferState.verify_chunk (chunks receiver_chunk n (ending 1))
unfolding is_allowed valid_transitions
receiver_chunks-IsPath zero = (refl, (refl, refl))
receiver_chunks-IsPath (suc n) = (refl, (refl, (refl, (refl, (refl, receiver_chunks-IsPath n)))))

transfer-IsPath : (path : List TransferState) → IsTransfer path → IsPath TransferState.idle path
unfolding is_allowed valid_transitions
transfer-IsPath path (zero, inl e) = subst (IsPath TransferState.idle) (sym e) (refl, (refl, refl))
transfer-IsPath path (zero, inr e) = subst (IsPath TransferState.idle) (sym e) (refl, (refl, refl))
transfer-IsPath path (suc n, inl e) =
    subst (IsPath TransferState.idle) (sym e)
      (refl, (refl, (refl, (refl, (refl, sender_chunks-IsPath n)))))
transfer-IsPath path (suc n, inr e) =
    subst (IsPath TransferState.idle) (sym e)
      (refl, (refl, (refl, (refl, (refl, (refl, receiver_chunks-IsPath n))))))

-- The transition table accepts exactly the transfers: a list of states leads from `Idle` to `Finished`
-- by allowed transitions exactly when it is the header, then for some number of chunks the states of
-- each of them in order, all of a sender or all of a receiver, and then `VerifyMerkle` where there was
-- a chunk, and `Finished`.
pub paths_exact : (path : List TransferState) → IsPath TransferState.idle path ↔ IsTransfer path
paths_exact path = (path-IsTransfer path, transfer-IsPath path)
