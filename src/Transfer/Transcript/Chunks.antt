-- ===== src/Transfer/Transcript/Chunks.antt =====
-- The step of `RecieveFile` that verifies a chunk, against the transcript of the session.
use file_transfer_using_libp.Base.{
  ℕ, suc, ◌+◌, ◌<◌, ◌≡◌, refl, sym, ap, ◌∙◌, subst, subst₂, inl, inr, Option, some, List, [], ◌∷◌,
  ◌++◌, append_assoc, append-nil, length, length-append, arith, IsU32, ok, Bool-cases, and_then,
}
use file_transfer_using_libp.Protocol.State.{TransferState}
use file_transfer_using_libp.Protocol.Types.{Chunk, MetaData, key_size}
use file_transfer_using_libp.Protocol.Stream.{Stream}
use file_transfer_using_libp.Protocol.File.{File, write_file, on_some_file}
use file_transfer_using_libp.Protocol.Session.{Session, is_last_chunk}
use file_transfer_using_libp.Wire.{encode_header, encode_chunk_response}
use file_transfer_using_libp.Wire.Response.{IsWireChunk, IsWireChunk-same}
use file_transfer_using_libp.Crypto.{Crypto, decrypt_and_check}
use file_transfer_using_libp.Crypto.Chunks.{decrypt_and_check_sound}
use file_transfer_using_libp.Merkle.{generate_leaf}
use file_transfer_using_libp.Controllers.Actions.{finish_chunk, on_some_pending}
use file_transfer_using_libp.Controllers.Rules.{file_rule, pending_rule}
use file_transfer_using_libp.Controllers.Plain.{
  on_some_file-IsPlain, write_file-IsPlain, decrypt_and_check-IsPlain,
}
use file_transfer_using_libp.Controllers.Receiver.{step_receiver_verify_chunk, store_chunk}
use file_transfer_using_libp.Controllers.Receiver.Verified.{IsGenuine}
use file_transfer_using_libp.Controllers.Receiver.Binding.{plaintexts}
use file_transfer_using_libp.Controllers.Receiver.Rounds.{InChunk, HasPending, HasKey}
use file_transfer_using_libp.Controllers.Receiver.Chunks.{write_file_ok, IsGenuine-of}
use file_transfer_using_libp.Transfer.{sender_says, receiver_says, with_leaves}
use file_transfer_using_libp.Transfer.Transcript.{
  Hearing, Transcript, Then, Heard, Holds, Kept, EachGenuine, sender_says-snoc, receiver_says-snoc,
}

plaintexts-snoc :
    (ks : List Chunk) (k : Chunk) → plaintexts (ks ++ (k ∷ [])) ≡ plaintexts ks ++ k.plaintext
plaintexts-snoc [] k = append-nil k.plaintext
plaintexts-snoc (j ∷ ks) k =
    ap (λ xs. j.plaintext ++ xs) (plaintexts-snoc ks k)
    ∙ sym (append_assoc j.plaintext (plaintexts ks) k.plaintext)

module _ (C : Crypto) where
  pub with_leaves-snoc :
      (ls : List (List ℕ)) (ks : List Chunk) (k : Chunk)
      → with_leaves C ls (ks ++ (k ∷ [])) ≡ with_leaves C ls ks ++ (generate_leaf C k ∷ [])
  with_leaves-snoc ls [] k = refl
  with_leaves-snoc ls (j ∷ ks) k = with_leaves-snoc (ls ++ (generate_leaf C j ∷ [])) ks k

  EachGenuine-snoc :
      (file_id : List ℕ) (n : ℕ) (ks : List Chunk) (k : Chunk)
      → EachGenuine C file_id n ks
      → IsGenuine C file_id (n + length ks) k k.plaintext
      → IsWireChunk k
      → EachGenuine C file_id n (ks ++ (k ∷ []))
  EachGenuine-snoc file_id n [] k each g wire = (
    (
      subst (λ m. IsGenuine C file_id m k k.plaintext) (let e : n + 0 ≡ n = omega arith in e) g,
      wire,
    ),
    tt,
  )
  EachGenuine-snoc file_id n (j ∷ ks) k (one, each) g wire = (
    one,
    EachGenuine-snoc file_id (suc n) ks k each
        (subst (λ m. IsGenuine C file_id m k k.plaintext)
          (let e : n + suc (length ks) ≡ suc n + length ks = omega arith in e) g)
        wire,
  )

  -- What the session has of one chunk more.
  Kept-snoc :
      {h : MetaData} {n : ℕ} {ks : List Chunk} {file_id : List ℕ} {total : ℕ}
      {leaves : List (List ℕ)} {open_file : Option File}
      (x : Kept C h n ks file_id total leaves open_file) (k : Chunk) (g : File)
      (written : Option File)
      → IsGenuine C h.file_id n k k.plaintext
      → IsWireChunk k
      → written ≡ some g
      → g.content ≡ x.file.content ++ k.plaintext
      → Kept C h (suc n) (ks ++ (k ∷ [])) file_id total (leaves ++ (generate_leaf C k ∷ [])) written
  Kept-snoc {h} {n} {ks} x k g written genuine wire is_g grown = record {
    wire = x.wire;
    same_id = x.same_id;
    same_total = x.same_total;
    count = omega (arith, x.count, length-append {0} ks (k ∷ []));
    each =
        EachGenuine-snoc h.file_id 0 ks k x.each
          (subst (λ m. IsGenuine C h.file_id m k k.plaintext)
            (let e : n ≡ 0 + length ks = omega (arith, x.count) in e) genuine)
          wire;
    same_leaves =
        ap (λ ls. ls ++ (generate_leaf C k ∷ [])) x.same_leaves ∙ sym (with_leaves-snoc [] ks k);
    file = g;
    is_file = is_g;
    content = grown ∙ ap (λ xs. xs ++ k.plaintext) x.content ∙ sym (plaintexts-snoc ks k);
  }

  module _ (conn0 : Stream) where
    -- The chunk is done, and so are all its messages.
    Hearing-snoc :
        {c : Stream} (h : MetaData) (ks : List Chunk) (k : Chunk)
        → Hearing conn0 c
            (encode_header h ++ sender_says ks (sender_says (k ∷ []) []))
            (receiver_says ks (receiver_says (k ∷ []) []))
        → Hearing conn0 c
            (encode_header h ++ sender_says (ks ++ (k ∷ [])) [])
            (receiver_says (ks ++ (k ∷ [])) [])
    Hearing-snoc {c} h ks k =
        subst₂ (Hearing conn0 c) (ap (λ xs. encode_header h ++ xs) (sym (sender_says-snoc ks k [])))
          (sym (receiver_says-snoc ks k []))

    finish_chunk-Then :
        (n : ℕ) (t : Session)
        → n < t.total_chunks
        → IsU32 t.total_chunks
        → t.current_chunk ≡ n
        → Heard C conn0 (suc n) t [] []
        → Then (Transcript C conn0) (finish_chunk TransferState.send_chunk_request t)
    unfolding finish_chunk
    finish_chunk-Then n t less fits same (h, ks, holds, x) = elim (Bool-cases (is_last_chunk t)) [
      | inl last ↦
          unfold is_last_chunk in
          rw last (h, ks, subst (λ m. Holds C h m ks t) (ground arith) holds, x)
      | inr more ↦
          unfold is_last_chunk in
          rw more (h, ks, subst (λ m. Holds C h m ks t) (ground arith) holds, x)
    ]

    store_chunk-Then :
        (s : Session) (k : Chunk)
        → s.current_chunk < s.total_chunks
        → IsU32 s.total_chunks
        → IsGenuine C s.file_id s.current_chunk k k.plaintext
        → IsWireChunk k
        → Heard C conn0 s.current_chunk s (sender_says (k ∷ []) []) (receiver_says (k ∷ []) [])
        → Then
            (Transcript C conn0)
            (store_chunk C k.plaintext (record s { pending_chunk = some k }))
    store_chunk-Then s k less fits genuine wire (h, ks, holds, x) =
        file_rule (Then (Transcript C conn0))
          (record s {
            pending_chunk = some (record k { leaf = generate_leaf C k });
            leaves = s.leaves ++ (generate_leaf C k ∷ []);
          })
          _ (on_some_file (write_file k.plaintext) s.file) _
          (on_some_file-IsPlain (write_file k.plaintext) s.file (write_file-IsPlain k.plaintext))
          (λ _ o e.
            let (g, is_g, grown) = write_file_ok k.plaintext holds.file o (
              subst (λ o'. on_some_file (write_file k.plaintext) o' ≡ (ok tt, o)) holds.is_file
                e) in
            finish_chunk-Then s.current_chunk _ less fits refl (
              h,
              ks ++ (k ∷ []),
              Kept-snoc holds k g o
                  (subst (λ i. IsGenuine C i s.current_chunk k k.plaintext) holds.same_id genuine)
                  wire is_g grown,
              Hearing-snoc h ks k x,
            ))
          (λ e o p. tt)

    pub verify_chunk-Then :
        (s : Session)
        → InChunk C s × HasPending s × HasKey s
        → Transcript C conn0 TransferState.verify_chunk s
        → Then (Transcript C conn0) (step_receiver_verify_chunk C s)
    unfolding step_receiver_verify_chunk encode_chunk_response
    verify_chunk-Then s
          ((less, fits, size, _), (k, pending, nonce, same, in_order), (k', pending', key'))
          (k'', pending'', wire, heard) =
        let key =
          subst (λ c. length c.key ≡ key_size) (let p : k' ≡ k = cc (pending, pending') in p)
            key' in
        let wire = subst IsWireChunk (let p : k'' ≡ k = cc (pending, pending'') in p) wire in
        let heard =
          subst
            (λ c.
              Heard C conn0 s.current_chunk s (sender_says (c ∷ []) []) (receiver_says (c ∷ []) []))
            (let p : k'' ≡ k = cc (pending, pending'') in p) heard in
        subst
          (λ o.
            Then (Transcript C conn0)
              (and_then (on_some_pending (decrypt_and_check C) o s) (store_chunk C)))
          (sym pending)
          (pending_rule (Then (Transcript C conn0)) s (decrypt_and_check C k) _
            (decrypt_and_check-IsPlain C k nonce)
            (λ plaintext k1 e.
              let a = decrypt_and_check_sound C k k1 plaintext e in
              let genuine = IsGenuine-of C s k k1 plaintext same in_order size key nonce a in
              subst
                (λ c.
                  Then (Transcript C conn0)
                    (store_chunk C plaintext (record s { pending_chunk = some c })))
                (sym a.filled)
                (store_chunk-Then s (record k { plaintext = plaintext }) less fits
                  (subst (λ c. IsGenuine C s.file_id s.current_chunk c plaintext) a.filled genuine)
                  (IsWireChunk-same k (record k { plaintext = plaintext }) refl refl refl refl wire)
                  heard))
            (λ e k1 p. tt))
