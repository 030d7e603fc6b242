-- ===== src/Transfer/Told/Responses.antt =====
-- The step of `SendFile` that seals a chunk and sends its response, against what the session has read
-- and written.
use file_transfer_using_libp.Base.{
  ℕ, ◌*◌, ◌^◌, ◌≡◌, refl, sym, ap, ◌∙◌, subst, subst₂, inl, inr, Option, some, List, [], ◌++◌,
  Result, ok, Bool-cases, ltb,
}
use file_transfer_using_libp.Protocol.State.{TransferState}
use file_transfer_using_libp.Protocol.Types.{Chunk, MetaData, chunk_size}
use file_transfer_using_libp.Protocol.Stream.{Stream, write}
use file_transfer_using_libp.Protocol.File.{File, on_some_file, keep_file}
use file_transfer_using_libp.Protocol.Session.{Session}
use file_transfer_using_libp.Wire.{
  encode_header, encode_chunk_request, encode_chunk_response, send_chunk_response,
}
use file_transfer_using_libp.Wire.Plain.{write-IsPlain}
use file_transfer_using_libp.Crypto.{Crypto, build_and_encrypt_chunk}
use file_transfer_using_libp.Crypto.Chunks.{sealed_chunk, Built, build_and_encrypt_chunk-Built}
use file_transfer_using_libp.Controllers.Actions.{read_chunk_plaintext}
use file_transfer_using_libp.Controllers.Plain.{
  on_some_file-IsPlain, read_chunk_plaintext-IsPlain, build_and_encrypt_chunk-IsPlain,
}
use file_transfer_using_libp.Controllers.Rules.{conn_rule, entropy_rule, file_rule}
use file_transfer_using_libp.Controllers.Sender.{step_sender_send_chunk_response}
use file_transfer_using_libp.Transfer.{Secrets, drawn, slice, sender_says, receiver_says}
use file_transfer_using_libp.Transfer.Transcript.{Hearing, Hearing-same, Then}
use file_transfer_using_libp.Transfer.Told
use file_transfer_using_libp.Transfer.Told.{chunks_from-snoc, drawn-snoc}

-- A read that succeeds hands out the bytes of the chunk, and leaves the file as it is.
abbrev HandsOut : ℕ → File → Result (List ℕ) × Option File → Type 0
HandsOut i f (ok plaintext, o) = (plaintext ≡ slice f.content i) × (o ≡ some f)
HandsOut i f _ = Unit

read_chunk_plaintext-HandsOut :
    (i : ℕ) (f : File) → HandsOut i f (keep_file (read_chunk_plaintext i chunk_size f))
unfolding read_chunk_plaintext
read_chunk_plaintext-HandsOut i f = elim (Bool-cases f.closed) [
  | inl closed ↦ rw closed tt
  | inr open' ↦ elim (Bool-cases (ltb (chunk_size * i) (2 ^ 63))) [
    | inl near ↦ elim (Bool-cases f.readable) [
      | inl readable ↦ rw (open', near, readable) (refl, refl)
      | inr broken ↦ rw (open', near, broken) tt
    ]
    | inr far ↦ rw (open', far) tt
  ]
]

module _ (C : Crypto) (h : MetaData) (f : File) (entropy0 : List ℕ) (conn0 : Stream) where
  abbrev Goes : Result TransferState × Session → Type 0
  Goes = Then (Told.ToldAt C h f entropy0 conn0)

  module _ (s : Session) (ss : Secrets) where
    abbrev done : List Chunk
    done = Told.sealed C h f entropy0 ss

    Built-Told :
        (k : Chunk) (rest : List ℕ)
        → Told.Seals C h f entropy0 ss s.current_chunk s.entropy s
        → Hearing conn0 s.conn
            (receiver_says done (encode_chunk_request s.current_chunk))
            (encode_header h ++ sender_says done [])
        → Built C s.file_id s.current_chunk (slice f.content s.current_chunk) s.entropy k rest
        → (c : Stream) → write (encode_chunk_response k) s.conn ≡ (ok tt, c)
        → Told.ToldOf C h f entropy0 conn0
            (record s { conn = c; entropy = rest; pending_chunk = some k; file = some f })
            (encode_chunk_request s.current_chunk)
            encode_chunk_response
    Built-Told k rest seals x b c e =
        let is_k : k
            ≡ sealed_chunk C b.key b.nonce h.file_id s.current_chunk
                (slice f.content s.current_chunk) =
          b.is_sealed
          ∙ ap
              (λ i.
                sealed_chunk C b.key b.nonce i s.current_chunk (slice f.content s.current_chunk))
              seals.same_id in
        (
          ss,
          b.key,
          b.nonce,
          (b.key_length, b.nonce_length),
          (
            ap some is_k,
            record {
              same_id = seals.same_id;
              same_total = seals.same_total;
              same_size = seals.same_size;
              same_file = refl;
              count = seals.count;
              secrets = seals.secrets;
              same_leaves = seals.same_leaves;
              drew = seals.drew ∙ ap (drawn ss) b.drew;
            },
            Hearing-same (Told.says_more h done [] (encode_chunk_response k) x e) refl
                (ap (λ j. encode_header h ++ sender_says done (encode_chunk_response j)) is_k),
          ),
        )

  pub send_chunk_response_told :
      (s : Session)
      → Told.ToldAt C h f entropy0 conn0 TransferState.send_chunk_response s
      → Goes (step_sender_send_chunk_response C s)
  unfolding step_sender_send_chunk_response send_chunk_response
  send_chunk_response_told s (ss, seals, x) =
      file_rule Goes s _ _ _
        (on_some_file-IsPlain (read_chunk_plaintext s.current_chunk s.chunk_size) s.file
          (read_chunk_plaintext-IsPlain s.current_chunk s.chunk_size))
        (λ plaintext o e.
          let read : keep_file (read_chunk_plaintext s.current_chunk chunk_size f)
              ≡ (ok plaintext, o) =
            subst₂
              (λ n o'. on_some_file (read_chunk_plaintext s.current_chunk n) o' ≡ (ok plaintext, o))
              seals.same_size seals.same_file e in
          let (is_slice, is_f) : HandsOut s.current_chunk f (ok plaintext, o) =
            subst (HandsOut s.current_chunk f) read
              (read_chunk_plaintext-HandsOut s.current_chunk f) in
          entropy_rule Goes (record s { file = o })
            (build_and_encrypt_chunk C s.file_id s.current_chunk plaintext s.entropy) _
            (build_and_encrypt_chunk-IsPlain C s.file_id s.current_chunk plaintext s.entropy)
            (λ k rest e'.
              conn_rule Goes (record s { file = o; entropy = rest }) _
                (write (encode_chunk_response k) s.conn) _
                (write-IsPlain (encode_chunk_response k) s.conn)
                (λ _ c e''.
                  subst
                    (λ o'.
                      Told.ToldOf C h f entropy0 conn0
                        (record s { conn = c; entropy = rest; pending_chunk = some k; file = o' })
                        (encode_chunk_request s.current_chunk) encode_chunk_response)
                    (sym is_f)
                    (Built-Told s ss k rest seals x
                      (build_and_encrypt_chunk-Built C s.file_id s.current_chunk
                        (slice f.content s.current_chunk) s.entropy rest k
                        (subst
                          (λ p.
                            build_and_encrypt_chunk C s.file_id s.current_chunk p s.entropy
                            ≡ (ok k, rest))
                          is_slice e'))
                      c e''))
                (λ e c p. tt))
            (λ e rest p. tt))
        (λ e o p. tt)
