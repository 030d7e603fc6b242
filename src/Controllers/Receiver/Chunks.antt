-- ===== src/Controllers/Receiver/Chunks.antt =====
-- The step of the receiver that verifies a chunk and writes it to the file.
use file_transfer_using_libp.Base.{
  length, ℕ, suc, ◌<◌, ◌≡◌, refl, sym, subst, Option, some, List, [], ◌∷◌, ◌++◌, IsU32, arith, ok,
  Bool-cases, inl, inr, and_then,
}
use file_transfer_using_libp.Protocol.State.{TransferState, is_allowed}
use file_transfer_using_libp.Protocol.Types.{Chunk, key_size, nonce_size, hash_size}
use file_transfer_using_libp.Protocol.File.{File, write_file, on_some_file, keep_file}
use file_transfer_using_libp.Protocol.Session.{Session, is_last_chunk}
use file_transfer_using_libp.Crypto.{Crypto, decrypt_and_check}
use file_transfer_using_libp.Crypto.Chunks.{Accepted, decrypt_and_check_sound}
use file_transfer_using_libp.Merkle.{generate_leaf}
use file_transfer_using_libp.Controllers.Actions.{finish_chunk, on_some_pending}
use file_transfer_using_libp.Controllers.Rules.{file_rule, pending_rule}
use file_transfer_using_libp.Controllers.Plain.{
  on_some_file-IsPlain, write_file-IsPlain, decrypt_and_check-IsPlain,
}
use file_transfer_using_libp.Controllers.Receiver.{step_receiver_verify_chunk, store_chunk}
use file_transfer_using_libp.Controllers.Receiver.Verified.{Verified, one_more, IsGenuine}
use file_transfer_using_libp.Controllers.Receiver.Rounds.{
  InChunk, HasPending, HasKey, HasVerified, ReceiverLeads,
}

-- A write without an error adds the whole buffer.
pub write_file_ok :
    (buf : List ℕ) (f : File) (o : Option File)
    → keep_file (write_file buf f) ≡ (ok tt, o)
    → (g : File) × (o ≡ some g) × (g.content ≡ f.content ++ buf)
unfolding write_file
write_file_ok buf f o e = ((write_file buf f).1, ground arith, ground arith)

module _ (C : Crypto) where
  -- One chunk more is verified: the next begins, or the tree is verified.
  finish_chunk_leads :
      (s t : Session)
      → t.state ≡ TransferState.verify_chunk
      → s.current_chunk < s.total_chunks
      → IsU32 s.total_chunks
      → length s.file_id ≡ hash_size
      → t.file_id ≡ s.file_id
      → t.current_chunk ≡ s.current_chunk
      → t.total_chunks ≡ s.total_chunks
      → HasVerified C (suc s.current_chunk) t
      → ReceiverLeads C TransferState.verify_chunk s
          (finish_chunk TransferState.send_chunk_request t)
  unfolding finish_chunk is_allowed
  finish_chunk_leads s t st less fits size id same same' (f, e, v) =
      elim (Bool-cases (is_last_chunk t)) [
        | inl last ↦
            unfold is_last_chunk in
            rw last (
              st,
              refl,
              (
                (f, e, subst (λ n. Verified C t.file_id n t.leaves f.content) (ground arith) v),
                ground arith,
              ),
              ground arith,
            )
        | inr more ↦
            unfold is_last_chunk in
            rw more (
              st,
              refl,
              (
                ground arith,
                ground arith,
                subst (λ i. length i ≡ hash_size) (sym id) size,
                (f, e, subst (λ n. Verified C t.file_id n t.leaves f.content) (ground arith) v),
              ),
              ground arith,
            )
      ]

  store_chunk_leads :
      (s : Session) (k : Chunk) (plaintext : List ℕ) (f : File)
      → s.state ≡ TransferState.verify_chunk
      → s.current_chunk < s.total_chunks
      → IsU32 s.total_chunks
      → length s.file_id ≡ hash_size
      → s.file ≡ some f
      → Verified C s.file_id s.current_chunk s.leaves f.content
      → IsGenuine C s.file_id s.current_chunk k plaintext
      → ReceiverLeads C TransferState.verify_chunk s
          (store_chunk C plaintext (record s { pending_chunk = some k }))
  store_chunk_leads s k plaintext f st less fits size is_f v genuine =
      file_rule (ReceiverLeads C TransferState.verify_chunk s)
        (record s {
          pending_chunk = some (record k { leaf = generate_leaf C k });
          leaves = s.leaves ++ (generate_leaf C k ∷ []);
        })
        _ (on_some_file (write_file plaintext) s.file) _
        (on_some_file-IsPlain (write_file plaintext) s.file (write_file-IsPlain plaintext))
        (λ _ o e.
          let (g, is_g, grown) =
            write_file_ok plaintext f o
              (subst (λ o'. on_some_file (write_file plaintext) o' ≡ (ok tt, o)) is_f e) in
          finish_chunk_leads s _ st less fits size refl refl refl (
            g,
            is_g,
            subst
                (Verified C s.file_id (suc s.current_chunk) (s.leaves ++ (generate_leaf C k ∷ [])))
                (sym grown) (one_more k plaintext v genuine),
          ))
        (λ e o p. tt)

  -- A chunk whose plaintext was handed out is genuine.
  pub IsGenuine-of :
      (s : Session) (k k' : Chunk) (plaintext : List ℕ)
      → k.file_id ≡ s.file_id
      → k.index ≡ s.current_chunk
      → length s.file_id ≡ hash_size
      → length k.key ≡ key_size
      → length k.nonce ≡ nonce_size
      → Accepted C k plaintext k'
      → IsGenuine C s.file_id s.current_chunk k' plaintext
  IsGenuine-of s k k' plaintext same in_order size key nonce a =
      subst (λ x. IsGenuine C s.file_id s.current_chunk x plaintext) (sym a.filled)
        (record {
          of_file = same;
          file_id_length = size;
          key_length = key;
          nonce_length = nonce;
          in_order = in_order;
          authentic = a.authentic;
          committed = a.committed;
        })

  pub verify_chunk_leads :
      (s : Session)
      → s.state ≡ TransferState.verify_chunk
      → InChunk C s × HasPending s × HasKey s
      → ReceiverLeads C TransferState.verify_chunk s (step_receiver_verify_chunk C s)
  unfolding step_receiver_verify_chunk
  verify_chunk_leads s st
        (
          (less, fits, size, (f, is_f, v)),
          (k, pending, nonce, same, in_order),
          (k', pending', key'),
        ) =
      let is_k : k' ≡ k = cc (pending, pending') in
      let key = subst (λ c. length c.key ≡ key_size) is_k key' in
      subst
        (λ o.
          ReceiverLeads C TransferState.verify_chunk s
            (and_then (on_some_pending (decrypt_and_check C) o s) (store_chunk C)))
        (sym pending)
        (pending_rule (ReceiverLeads C TransferState.verify_chunk s) s (decrypt_and_check C k) _
          (decrypt_and_check-IsPlain C k nonce)
          (λ plaintext k' e. store_chunk_leads s k' plaintext f st less fits size is_f v (
            IsGenuine-of s k k' plaintext same in_order size key nonce
              (decrypt_and_check_sound C k k' plaintext e)))
          (λ e k' p. tt))
