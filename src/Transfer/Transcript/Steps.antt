-- ===== src/Transfer/Transcript/Steps.antt =====
-- The steps of `RecieveFile` that read or write a message, against the transcript of the session.
use file_transfer_using_libp.Base.{
  ℕ, ◌≡◌, refl, sym, ap, ◌∙◌, subst, inl, inr, List, [], ◌∷◌, ◌++◌, append_assoc, append-nil, All,
  IsByte, ok, ◌==◌, ==_iff, Bool-cases, and_then, pure,
}
use file_transfer_using_libp.Protocol.State.{TransferState}
use file_transfer_using_libp.Protocol.Types.{Chunk, MetaData}
use file_transfer_using_libp.Protocol.Stream.{Stream, write}
use file_transfer_using_libp.Protocol.Session.{Session}
use file_transfer_using_libp.Wire.{
  encode_header, encode_chunk_request, encode_lottery_ticket, encode_chunk_response,
  encode_key_reveal, read_chunk_response, read_key_reveal, send_chunk_request, send_lottery_ticket,
}
use file_transfer_using_libp.Wire.Plain.{
  write-IsPlain, read_chunk_response-IsPlain, read_key_reveal-IsPlain,
}
use file_transfer_using_libp.Wire.Messages.{read_key_reveal-Took}
use file_transfer_using_libp.Wire.Response.{IsWireChunk, IsWireChunk-same, read_chunk_response-Took}
use file_transfer_using_libp.Wire.Reads.{Took}
use file_transfer_using_libp.Crypto.{Crypto}
use file_transfer_using_libp.Controllers.Actions.{on_some_pending}
use file_transfer_using_libp.Controllers.Rules.{conn_rule}
use file_transfer_using_libp.Controllers.Receiver.{
  step_receiver_send_chunk_request, step_receiver_wait_chunk_response,
  step_receiver_send_lottery_ticket, step_receiver_wait_key_reveal, keep_response, keep_key,
  set_key,
}
use file_transfer_using_libp.Controllers.Receiver.Rounds.{HasPending}
use file_transfer_using_libp.Transfer.{sender_says, receiver_says}
use file_transfer_using_libp.Transfer.Transcript.{
  Hearing, Hearing-IsByte, Transcript, Then, hears, tells, sender_says-append, receiver_says-append,
}

module _ (C : Crypto) (conn0 : Stream) where
  -- A message more that was read on the chunk in work.
  pub hears_more :
      {c d : Stream} (h : MetaData) (ks : List Chunk) (heard : List ℕ) {told bytes : List ℕ}
      → Hearing conn0 c (encode_header h ++ sender_says ks heard) told
      → Took bytes c d
      → Hearing conn0 d (encode_header h ++ sender_says ks (heard ++ bytes)) told
  hears_more {d = d} h ks heard {told} {bytes} x t =
      subst (λ xs. Hearing conn0 d xs told)
        (append_assoc (encode_header h) (sender_says ks heard) bytes
          ∙ ap (λ xs. encode_header h ++ xs) (sender_says-append ks heard bytes))
        (hears x t)

  -- A message more that was written.
  pub tells_more :
      {c d : Stream} (ks : List Chunk) {heard : List ℕ} (told bytes : List ℕ)
      → Hearing conn0 c heard (receiver_says ks told)
      → write bytes c ≡ (ok tt, d)
      → Hearing conn0 d heard (receiver_says ks (told ++ bytes))
  tells_more {d = d} ks {heard} told bytes x e =
      subst (Hearing conn0 d heard) (receiver_says-append ks told bytes) (tells bytes x e)

  pub send_chunk_request-Then :
      (s : Session)
      → Transcript C conn0 TransferState.send_chunk_request s
      → Then (Transcript C conn0) (step_receiver_send_chunk_request s)
  unfolding step_receiver_send_chunk_request send_chunk_request
  send_chunk_request-Then s (h, ks, holds, x) =
      conn_rule (Then (Transcript C conn0)) s _
        (write (encode_chunk_request s.current_chunk) s.conn) _
        (write-IsPlain (encode_chunk_request s.current_chunk) s.conn)
        (λ _ c e. (h, ks, holds, tells_more ks [] (encode_chunk_request s.current_chunk) x e))
        (λ e c p. tt)

  module _ (bytes : All IsByte conn0.incoming) where
    kept_response-Then :
        (s : Session) (k : Chunk) (c : Stream)
        → Transcript C conn0 TransferState.waiting_chunk_response s
        → Took (encode_chunk_response k) s.conn c
        → IsWireChunk k
        → Then (Transcript C conn0) (keep_response k (record s { conn = c }))
    kept_response-Then s k c (h, ks, holds, x) t wire =
        elim (Bool-cases (k.index == s.current_chunk)) [
          | inl same ↦ rw same (
            k,
            refl,
            wire,
            (
              h,
              ks,
              holds,
              subst
                  (λ i.
                    Hearing conn0 c (encode_header h ++ sender_says ks (encode_chunk_response k))
                      (receiver_says ks (encode_chunk_request i)))
                  (sym ((==_iff k.index s.current_chunk).0 same)) (hears_more h ks [] x t),
            ),
          )
          | inr differ ↦ rw differ tt
        ]

    pub wait_chunk_response-Then :
        (s : Session)
        → Transcript C conn0 TransferState.waiting_chunk_response s
        → Then (Transcript C conn0) (step_receiver_wait_chunk_response s)
    unfolding step_receiver_wait_chunk_response
    wait_chunk_response-Then s (h, ks, holds, x) =
        conn_rule (Then (Transcript C conn0)) s _ (read_chunk_response s.file_id s.conn) _
          (read_chunk_response-IsPlain s.file_id s.conn)
          (λ k c e.
            let (t, wire, _) =
              read_chunk_response-Took s.file_id s.conn c k (Hearing-IsByte bytes x) e in
            kept_response-Then s k c (h, ks, holds, x) t wire)
          (λ e c p. tt)

    kept_key-Then :
        (s : Session) (idx : ℕ) (key : List ℕ) (c : Stream)
        → HasPending s
        → Transcript C conn0 TransferState.waiting_key_reveal s
        → Took (encode_key_reveal idx key) s.conn c
        → Then (Transcript C conn0) (keep_key (idx, key) (record s { conn = c }))
    unfolding encode_chunk_response
    kept_key-Then s idx key c (k', e', _, _, in_order) (k, e, wire, (h, ks, holds, x)) t =
        elim (Bool-cases (idx == s.current_chunk)) [
          | inl same ↦
              let is_k : k' ≡ k = cc (e', e) in
              let index : idx ≡ k.index =
                (==_iff idx s.current_chunk).0 same
                ∙ sym (subst (λ j. j.index ≡ s.current_chunk) is_k in_order) in
              rw same (
                subst
                  (λ o. Then (Transcript C conn0) (
                    and_then (on_some_pending (set_key key) o (record s { conn = c }))
                      (λ _. pure TransferState.verify_chunk)))
                  (sym e)
                  (
                    record k { key = key },
                    refl,
                    IsWireChunk-same k (record k { key = key }) refl refl refl refl wire,
                    (
                      h,
                      ks,
                      holds,
                      subst
                          (λ xs.
                            Hearing conn0 c (encode_header h ++ sender_says ks xs)
                              (receiver_says ks (receiver_says (k ∷ []) [])))
                          (ap (λ xs. encode_chunk_response k ++ xs)
                            (ap (λ i. encode_key_reveal i key) index ∙ sym (append-nil _)))
                          (hears_more h ks (encode_chunk_response k) x t),
                    ),
                  ))
          | inr differ ↦ rw differ tt
        ]

    pub wait_key_reveal-Then :
        (s : Session)
        → HasPending s
        → Transcript C conn0 TransferState.waiting_key_reveal s
        → Then (Transcript C conn0) (step_receiver_wait_key_reveal s)
    unfolding step_receiver_wait_key_reveal
    wait_key_reveal-Then s p (k, e, wire, (h, ks, holds, x)) =
        conn_rule (Then (Transcript C conn0)) s _ (read_key_reveal s.conn) _
          (read_key_reveal-IsPlain s.conn)
          (λ revealed c e'.
            kept_key-Then s revealed.0 revealed.1 c p (k, e, wire, (h, ks, holds, x))
              (read_key_reveal-Took s.conn c revealed.0 revealed.1 (Hearing-IsByte bytes x) e').0)
          (λ e c p. tt)

  pub send_lottery_ticket-Then :
      (s : Session)
      → HasPending s
      → Transcript C conn0 TransferState.send_lottery_ticket s
      → Then (Transcript C conn0) (step_receiver_send_lottery_ticket s)
  unfolding step_receiver_send_lottery_ticket send_lottery_ticket
  send_lottery_ticket-Then s (k', e', _, _, in_order) (k, e, wire, (h, ks, holds, x)) =
      let is_k : k' ≡ k = cc (e', e) in
      let index : k.index ≡ s.current_chunk =
        subst (λ j. j.index ≡ s.current_chunk) is_k in_order in
      conn_rule (Then (Transcript C conn0)) s _
        (write (encode_lottery_ticket s.current_chunk) s.conn) _
        (write-IsPlain (encode_lottery_ticket s.current_chunk) s.conn)
        (λ _ c e''. (
          k,
          e,
          wire,
          (
            h,
            ks,
            holds,
            subst
                (λ ys.
                  Hearing conn0 c (encode_header h ++ sender_says ks (encode_chunk_response k))
                    (receiver_says ks (encode_chunk_request k.index ++ ys)))
                (ap encode_lottery_ticket (sym index) ∙ sym (append-nil _))
                (tells_more ks (encode_chunk_request k.index)
                  (encode_lottery_ticket s.current_chunk) x e''),
          ),
        ))
        (λ e c p. tt)
