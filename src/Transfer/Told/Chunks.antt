-- ===== src/Transfer/Told/Chunks.antt =====
-- The step of `SendFile` that reveals the key of a chunk and goes on to the next, against what the
-- session has read and written.
use file_transfer_using_libp.Base.{
  ℕ, suc, ◌+◌, ◌*◌, ◌^◌, ◌<◌, ◌≡◌, refl, sym, ap, ap₂, ◌∙◌, subst, subst₂, inl, inr, true, Option,
  none, some, List, [], ◌∷◌, ◌++◌, append_assoc, append-nil, arith, All, All-append, IsByte, IsU32,
  Result, ok, err, wrap, ◌==◌, ==_iff, Bool-cases, take, drop, ltb,
}
use file_transfer_using_libp.Base
use file_transfer_using_libp.Protocol.State.{TransferState}
use file_transfer_using_libp.Protocol.Types.{Chunk, MetaData}
use file_transfer_using_libp.Protocol.Stream.{Stream, write}
use file_transfer_using_libp.Protocol.File.{File}
use file_transfer_using_libp.Protocol.Session.{Session, is_last_chunk}
use file_transfer_using_libp.Wire.{
  encode_header, encode_chunk_request, encode_lottery_ticket, encode_chunk_response,
  encode_key_reveal, send_key_reveal,
}
use file_transfer_using_libp.Wire.Plain.{write-IsPlain}
use file_transfer_using_libp.Crypto.{Crypto}
use file_transfer_using_libp.Crypto.Chunks.{sealed_chunk}
use file_transfer_using_libp.Merkle.{generate_leaf}
use file_transfer_using_libp.Controllers.Actions.{finish_chunk}
use file_transfer_using_libp.Controllers.Rules.{conn_rule}
use file_transfer_using_libp.Controllers.Sender.{step_sender_send_key_reveal, reveal}
use file_transfer_using_libp.Controllers.Sender.Steps.{InChunk}
use file_transfer_using_libp.Transfer.{
  Secrets, IsSecret, slice, with_leaves, sender_says, receiver_says,
}
use file_transfer_using_libp.Transfer.Transcript.{
  Hearing, Hearing-same, Then, sender_says-snoc, receiver_says-snoc,
}
use file_transfer_using_libp.Transfer.Transcript.Chunks.{with_leaves-snoc}
use file_transfer_using_libp.Transfer.Told
use file_transfer_using_libp.Transfer.Told.{chunks_from-snoc, drawn-snoc}

module _ (C : Crypto) (h : MetaData) (f : File) (entropy0 : List ℕ) (conn0 : Stream) where
  abbrev Goes : Result TransferState × Session → Type 0
  Goes = Then (Told.ToldAt C h f entropy0 conn0)

  finish_chunk-Told :
      (n : ℕ) (t : Session)
      → n < t.total_chunks
      → IsU32 t.total_chunks
      → t.current_chunk ≡ n
      → Told.Told C h f entropy0 conn0 (suc n) t [] []
      → Goes (finish_chunk TransferState.waiting_chunk_request t)
  unfolding finish_chunk
  finish_chunk-Told n t less fits same (ss, seals, x) = elim (Bool-cases (is_last_chunk t)) [
    | inl last ↦
        unfold is_last_chunk in
        rw last
          (ss, subst (λ m. Told.Seals C h f entropy0 ss m t.entropy t) (ground arith) seals, x)
    | inr more ↦
        unfold is_last_chunk in
        rw more
          (ss, subst (λ m. Told.Seals C h f entropy0 ss m t.entropy t) (ground arith) seals, x)
  ]

  module _ (s : Session) (ss : Secrets) (key nonce : List ℕ) where
    abbrev k : Chunk
    k = sealed_chunk C key nonce h.file_id s.current_chunk (slice f.content s.current_chunk)

    abbrev ss' : Secrets
    ss' = ss ++ ((key, nonce) ∷ [])

    grown :
        Told.Seals C h f entropy0 ss s.current_chunk (key ++ (nonce ++ s.entropy)) s
        → Told.sealed C h f entropy0 ss' ≡ Told.sealed C h f entropy0 ss ++ (k ∷ [])
    grown seals =
        chunks_from-snoc C h.file_id f.content 0 ss key nonce
        ∙ ap
            (λ j.
              Told.sealed C h f entropy0 ss
              ++ (sealed_chunk C key nonce h.file_id j (slice f.content j) ∷ []))
            (let e : 0 + Base.length ss ≡ s.current_chunk = omega (arith, seals.count) in e)

    revealed-Told :
        (c : Stream)
        → IsSecret (key, nonce)
        → Told.Seals C h f entropy0 ss s.current_chunk (key ++ (nonce ++ s.entropy)) s
        → Hearing conn0 s.conn
            (receiver_says
              (Told.sealed C h f entropy0 ss)
              (encode_chunk_request s.current_chunk ++ encode_lottery_ticket s.current_chunk))
            (encode_header h
              ++ sender_says (Told.sealed C h f entropy0 ss) (encode_chunk_response k))
        → write (encode_key_reveal s.current_chunk key) s.conn ≡ (ok tt, c)
        → Told.Told C h f entropy0 conn0
            (suc s.current_chunk)
            (record s {
              conn = c;
              pending_chunk = none;
              leaves = s.leaves ++ (generate_leaf C k ∷ []);
            })
            []
            []
    unfolding sealed_chunk
    revealed-Told c secret seals x e = (
      ss',
      record {
        same_id = seals.same_id;
        same_total = seals.same_total;
        same_size = seals.same_size;
        same_file = seals.same_file;
        count = omega (arith, seals.count, Base.length-append ss ((key, nonce) ∷ []));
        secrets = All-append IsSecret ss ((key, nonce) ∷ []) seals.secrets (secret, tt);
        same_leaves =
            ap (λ ls. ls ++ (generate_leaf C k ∷ [])) seals.same_leaves
            ∙ sym (with_leaves-snoc C [] (Told.sealed C h f entropy0 ss) k)
            ∙ ap (with_leaves C []) (sym (grown seals));
        drew = seals.drew ∙ sym (drawn-snoc ss key nonce s.entropy);
      },
      Hearing-same
          (Told.says_more h (Told.sealed C h f entropy0 ss) (encode_chunk_response k)
            (encode_key_reveal s.current_chunk key) x e)
          (ap
              (λ r.
                receiver_says (Told.sealed C h f entropy0 ss)
                  (encode_chunk_request s.current_chunk ++ r))
              (sym (append-nil (encode_lottery_ticket s.current_chunk)))
            ∙ sym (receiver_says-snoc (Told.sealed C h f entropy0 ss) k [])
            ∙ ap (λ ks. receiver_says ks []) (sym (grown seals)))
          (ap (λ r. encode_header h ++ r)
            (ap (λ r. sender_says (Told.sealed C h f entropy0 ss) (encode_chunk_response k ++ r))
                (sym (append-nil (encode_key_reveal s.current_chunk key)))
              ∙ sym (sender_says-snoc (Told.sealed C h f entropy0 ss) k [])
              ∙ ap (λ ks. sender_says ks []) (sym (grown seals)))),
    )

  pub send_key_reveal_told :
      (s : Session)
      → InChunk s
      → Told.ToldAt C h f entropy0 conn0 TransferState.send_key_reveal s
      → Goes (step_sender_send_key_reveal C s)
  unfolding step_sender_send_key_reveal send_key_reveal sealed_chunk
  send_key_reveal_told s v (ss, key, nonce, secret, (pending, seals, x)) =
      subst (λ o. Goes (reveal C o s)) (sym pending)
        (conn_rule Goes s _ (write (encode_key_reveal s.current_chunk key) s.conn) _
          (write-IsPlain (encode_key_reveal s.current_chunk key) s.conn)
          (λ _ c e.
            finish_chunk-Told s.current_chunk
              (record s {
                conn = c;
                pending_chunk =
                    some (record (k s ss key nonce) { leaf = generate_leaf C (k s ss key nonce) });
                leaves = s.leaves ++ (generate_leaf C (k s ss key nonce) ∷ []);
              })
              v.in_range v.fits refl (revealed-Told s ss key nonce c secret seals x e))
          (λ e c p. tt))
