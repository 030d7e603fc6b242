-- ===== src/Transfer/Told/Steps.antt =====
-- The steps of `SendFile` against what the session has read and written.
use file_transfer_using_libp.Base.{
  ℕ, ◌<◌, ◌≡◌, refl, sym, ap, ◌∙◌, subst, inl, inr, List, [], ◌++◌, append-nil, arith, All, IsByte,
  Result, ok, wrap, ◌==◌, ==_iff, Bool-cases,
}
use file_transfer_using_libp.Protocol.State.{TransferState}
use file_transfer_using_libp.Protocol.Types.{MetaData}
use file_transfer_using_libp.Protocol.Stream.{Stream, write}
use file_transfer_using_libp.Protocol.File.{File}
use file_transfer_using_libp.Protocol.Session.{Session}
use file_transfer_using_libp.Wire.{
  encode_header, encode_chunk_request, encode_lottery_ticket, encode_root, send_header,
  read_chunk_request, read_lottery_ticket, read_final_ack, send_root,
}
use file_transfer_using_libp.Wire.Plain.{
  write-IsPlain, read_chunk_request-IsPlain, read_lottery_ticket-IsPlain, read_final_ack-IsPlain,
}
use file_transfer_using_libp.Wire.Messages.{read_chunk_request-Took, read_lottery_ticket-Took}
use file_transfer_using_libp.Wire.Reads.{read_sentinel-Took}
use file_transfer_using_libp.Crypto.{Crypto}
use file_transfer_using_libp.Merkle.{build_tree, root_of_tree}
use file_transfer_using_libp.Merkle.Shape.{root_of_tree-build_tree}
use file_transfer_using_libp.Controllers.Rules.{conn_rule}
use file_transfer_using_libp.Controllers.Sender.{
  session_header, step_sender_idle, step_sender_send_header, step_sender_wait_chunk_request,
  step_sender_wait_lottery_ticket, step_sender_verify_merkle, verify_root,
}
use file_transfer_using_libp.Controllers.Sender.Steps.{IsFresh, IsComplete}
use file_transfer_using_libp.Transfer.{receiver_says}
use file_transfer_using_libp.Transfer.Transcript.{Hearing-same, Hearing-IsByte, Then, tells}
use file_transfer_using_libp.Transfer.Told

module _ (C : Crypto) (h : MetaData) (f : File) (entropy0 : List ℕ) (conn0 : Stream) where
  abbrev Goes : Result TransferState × Session → Type 0
  Goes = Then (Told.ToldAt C h f entropy0 conn0)

  pub idle_told :
      (s : Session)
      → Told.ToldAt C h f entropy0 conn0 TransferState.idle s
      → Goes (step_sender_idle s)
  unfolding step_sender_idle
  idle_told s x = x

  pub send_header_told :
      (s : Session)
      → IsFresh s
      → Told.ToldAt C h f entropy0 conn0 TransferState.send_header s
      → Goes (step_sender_send_header s)
  unfolding step_sender_send_header send_header session_header
  send_header_told s fresh (is_header, seals, x) =
      conn_rule Goes s (wrap "sending header") (write (encode_header (session_header s)) s.conn) _
        (write-IsPlain (encode_header (session_header s)) s.conn)
        (λ _ c e.
          let said =
            Hearing-same (tells (encode_header (session_header s)) x e) refl
              (ap encode_header is_header) in
          elim (Bool-cases (s.total_chunks == 0)) [
            | inl zero ↦ rw zero (
              [],
              sym ((==_iff s.total_chunks 0).0 zero) ∙ seals.same_total,
              tt,
              seals.drew,
              inl (sym seals.same_total ∙ (==_iff s.total_chunks 0).0 zero, said),
            )
            | inr more ↦ rw more (
              [],
              subst (λ n. Told.Seals C h f entropy0 [] n s.entropy s) (sym fresh.first_chunk) seals,
              Hearing-same said refl (sym (append-nil (encode_header h))),
            )
          ])
        (λ e c p. tt)

  module _ (bytes : All IsByte conn0.incoming) where
    pub wait_chunk_request_told :
        (s : Session)
        → Told.ToldAt C h f entropy0 conn0 TransferState.waiting_chunk_request s
        → Goes (step_sender_wait_chunk_request s)
    unfolding step_sender_wait_chunk_request
    wait_chunk_request_told s (ss, seals, x) =
        conn_rule Goes s _ (read_chunk_request s.conn) _ (read_chunk_request-IsPlain s.conn)
          (λ idx c e. elim (Bool-cases (idx == s.current_chunk)) [
            | inl same ↦ rw same (
              ss,
              seals,
              Hearing-same
                  (Told.answers_more _ [] x
                    (read_chunk_request-Took s.conn c idx (Hearing-IsByte bytes x) e).0)
                  (ap (λ i. receiver_says (Told.sealed C h f entropy0 ss) (encode_chunk_request i))
                    ((==_iff idx s.current_chunk).0 same))
                  refl,
            )
            | inr differ ↦ rw differ tt
          ])
          (λ e c p. tt)

    pub wait_lottery_ticket_told :
        (s : Session)
        → Told.ToldAt C h f entropy0 conn0 TransferState.waiting_lottery_ticket s
        → Goes (step_sender_wait_lottery_ticket s)
    unfolding step_sender_wait_lottery_ticket
    wait_lottery_ticket_told s (ss, key, nonce, secret, (pending, seals, x)) =
        conn_rule Goes s _ (read_lottery_ticket s.conn) _ (read_lottery_ticket-IsPlain s.conn)
          (λ idx c e. elim (Bool-cases (idx == s.current_chunk)) [
            | inl same ↦ rw same (
              ss,
              key,
              nonce,
              secret,
              (
                pending,
                seals,
                Hearing-same
                    (Told.answers_more _ (encode_chunk_request s.current_chunk) x
                      (read_lottery_ticket-Took s.conn c idx (Hearing-IsByte bytes x) e).0)
                    (ap
                      (λ i.
                        receiver_says (Told.sealed C h f entropy0 ss)
                          (encode_chunk_request s.current_chunk ++ encode_lottery_ticket i))
                      ((==_iff idx s.current_chunk).0 same))
                    refl,
              ),
            )
            | inr differ ↦ rw differ tt
          ])
          (λ e c p. tt)

    root_told :
        (s : Session) (root : List ℕ)
        → root_of_tree (build_tree C s.leaves) ≡ ok root
        → Told.ToldAt C h f entropy0 conn0 TransferState.verify_merkle s
        → Goes (verify_root (ok root) s)
    unfolding send_root read_final_ack
    root_told s root is_root (ss, seals, x) =
        let ks = Told.sealed C h f entropy0 ss in
        conn_rule Goes s _ (write (encode_root root) s.conn) _
          (write-IsPlain (encode_root root) s.conn)
          (λ _ c e.
            conn_rule Goes (record s { conn = c }) _ (read_final_ack c) _ (read_final_ack-IsPlain c)
              (λ _ d e'. (
                ss,
                seals.count ∙ seals.same_total,
                seals.secrets,
                seals.drew,
                inr (
                  root,
                  ap (λ ls. root_of_tree (build_tree C ls)) (sym seals.same_leaves) ∙ is_root,
                  Told.answers_more ks [] (Told.says_more h ks [] (encode_root root) x e)
                      (read_sentinel-Took _ _ c d e'),
                ),
              ))
              (λ e c p. tt))
          (λ e c p. tt)

    pub verify_merkle_told :
        (s : Session)
        → IsComplete s × (0 < s.total_chunks)
        → Told.ToldAt C h f entropy0 conn0 TransferState.verify_merkle s
        → Goes (step_sender_verify_merkle C s)
    unfolding step_sender_verify_merkle
    verify_merkle_told s v x =
        let (root, e) = root_of_tree-build_tree C s.leaves (omega (arith, v.0.leaves_done, v.1)) in
        subst (λ r. Goes (verify_root r s)) (sym e) (root_told s root e x)
