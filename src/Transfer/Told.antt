-- ===== src/Transfer/Told.antt =====
-- What a sender has read and written in each state of `SendFile`, as the messages of the protocol on
-- the chunks of its file, sealed with keys and nonces from its randomness.
pub mod Steps
pub mod Responses
pub mod Chunks
pub mod Rounds
pub mod Whole
pub mod Moments
use file_transfer_using_libp.Base.{
  ℕ, suc, ◌+◌, ◌≡◌, refl, sym, ap, ◌∙◌, ◌⊎◌, Option, some, List, [], ◌∷◌, ◌++◌, append_assoc, All,
  Result, ok, arith,
}
use file_transfer_using_libp.Base
use file_transfer_using_libp.Protocol.State.{TransferState}
use file_transfer_using_libp.Protocol.Types.{Chunk, MetaData, chunk_size}
use file_transfer_using_libp.Protocol.Stream.{Stream, write}
use file_transfer_using_libp.Protocol.File.{File}
use file_transfer_using_libp.Protocol.Session.{Session}
use file_transfer_using_libp.Wire.{
  encode_header, encode_chunk_request, encode_lottery_ticket, encode_chunk_response, encode_root,
  encode_final_ack,
}
use file_transfer_using_libp.Wire.Reads.{Took}
use file_transfer_using_libp.Crypto.{Crypto}
use file_transfer_using_libp.Crypto.Chunks.{sealed_chunk}
use file_transfer_using_libp.Merkle.{build_tree, root_of_tree}
use file_transfer_using_libp.Controllers.Sender.{session_header}
use file_transfer_using_libp.Transfer.{
  Secrets, IsSecret, drawn, slice, chunks_from, with_leaves, sender_says, receiver_says,
}
use file_transfer_using_libp.Transfer.Transcript.{
  Hearing, Hearing-same, hears, tells, sender_says-append, receiver_says-append,
}

-- Secrets drawn one after the other.
pub drawn-snoc :
    (ss : Secrets) (key nonce rest : List ℕ)
    → drawn (ss ++ ((key, nonce) ∷ [])) rest ≡ drawn ss (key ++ (nonce ++ rest))
drawn-snoc [] key nonce rest = refl
drawn-snoc ((k, n) ∷ ss) key nonce rest = ap (λ r. k ++ (n ++ r)) (drawn-snoc ss key nonce rest)

pub chunks_from-snoc :
    (C : Crypto) (file_id content : List ℕ) (i : ℕ) (ss : Secrets) (key nonce : List ℕ)
    → chunks_from C file_id content i (ss ++ ((key, nonce) ∷ []))
      ≡ chunks_from C file_id content i ss
        ++ (sealed_chunk C key nonce file_id
              (i + Base.length ss)
              (slice content (i + Base.length ss))
            ∷ [])
chunks_from-snoc C file_id content i [] key nonce =
    ap (λ j. sealed_chunk C key nonce file_id j (slice content j) ∷ [])
      (let e : i ≡ i + 0 = omega arith in e)
chunks_from-snoc C file_id content i ((k, n) ∷ ss) key nonce =
    ap (λ ks. sealed_chunk C k n file_id i (slice content i) ∷ ks)
      (chunks_from-snoc C file_id content (i + 1) ss key nonce
        ∙ ap
            (λ j.
              chunks_from C file_id content (i + 1) ss
              ++ (sealed_chunk C key nonce file_id j (slice content j) ∷ []))
            (let e : i + 1 + Base.length ss ≡ i + suc (Base.length ss) = omega arith in e))

module _ (C : Crypto) (h : MetaData) (f : File) (entropy0 : List ℕ) where
  -- The chunks that were sealed with those secrets.
  abbrev pub sealed : Secrets → List Chunk
  sealed = chunks_from C h.file_id f.content 0

  -- What a session has of the `n` chunks that were sealed with those secrets.
  pub record Sealed (ss : Secrets) (n : ℕ) (left file_id : List ℕ) (total size : ℕ)
      (leaves : List (List ℕ)) (open_file : Option File) : Type 0 where
    pub same_id : file_id ≡ h.file_id
    pub same_total : total ≡ h.reps
    pub same_size : size ≡ chunk_size
    pub same_file : open_file ≡ some f
    pub count : Base.length ss ≡ n
    pub secrets : All IsSecret ss
    pub same_leaves : leaves ≡ with_leaves C [] (sealed ss)
    pub drew : entropy0 ≡ drawn ss left

  abbrev pub Seals : Secrets → ℕ → List ℕ → Session → Type 0
  Seals ss n left s = Sealed ss n left s.file_id s.total_chunks s.chunk_size s.leaves s.file

  module _ (conn0 : Stream) where
    -- The messages on all chunks that are done, and then those others.
    abbrev pub Told : ℕ → Session → List ℕ → List ℕ → Type 0
    Told n s heard told =
        (ss : Secrets) × Seals ss n s.entropy s
        × Hearing conn0 s.conn (receiver_says (sealed ss) heard)
            (encode_header h ++ sender_says (sealed ss) told)

    -- The same with a chunk in flight.
    abbrev pub ToldOf : Session → List ℕ → (Chunk → List ℕ) → Type 0
    ToldOf s heard told =
        (ss : Secrets) × (key : List ℕ) × (nonce : List ℕ) × IsSecret (key, nonce)
        × let k =
            sealed_chunk C key nonce h.file_id s.current_chunk (slice f.content s.current_chunk) in
          (s.pending_chunk ≡ some k)
          × Seals ss s.current_chunk (key ++ (nonce ++ s.entropy)) s
          × Hearing conn0 s.conn (receiver_says (sealed ss) heard)
              (encode_header h ++ sender_says (sealed ss) (told k))

    -- The end for an empty file, and for any other.
    abbrev pub ToldAll : Session → Type 0
    ToldAll s =
        (ss : Secrets) × (Base.length ss ≡ h.reps)
        × All IsSecret ss
        × (entropy0 ≡ drawn ss s.entropy)
        × (((h.reps ≡ 0) × Hearing conn0 s.conn [] (encode_header h))
            ⊎ ((root : List ℕ) × (root_of_tree (build_tree C (with_leaves C [] (sealed ss)))
                  ≡ ok root)
                × Hearing conn0 s.conn (receiver_says (sealed ss) encode_final_ack)
                    (encode_header h ++ sender_says (sealed ss) (encode_root root))))

    abbrev pub ToldAt : TransferState → Session → Type 0
    ToldAt TransferState.idle s =
        (session_header s ≡ h) × Seals [] 0 s.entropy s × Hearing conn0 s.conn [] []
    ToldAt TransferState.send_header s =
        (session_header s ≡ h) × Seals [] 0 s.entropy s × Hearing conn0 s.conn [] []
    ToldAt TransferState.waiting_chunk_request s = Told s.current_chunk s [] []
    ToldAt TransferState.send_chunk_response s =
        Told s.current_chunk s (encode_chunk_request s.current_chunk) []
    ToldAt TransferState.waiting_lottery_ticket s =
        ToldOf s (encode_chunk_request s.current_chunk) encode_chunk_response
    ToldAt TransferState.send_key_reveal s =
        ToldOf s (encode_chunk_request s.current_chunk ++ encode_lottery_ticket s.current_chunk)
          encode_chunk_response
    ToldAt TransferState.verify_merkle s = Told s.total_chunks s [] []
    ToldAt TransferState.finished s = ToldAll s
    ToldAt _ s = ⊥

-- A message more that was read, or written.
pub answers_more :
    {conn0 c d : Stream} (ks : List Chunk) (heard : List ℕ) {told bytes : List ℕ}
    → Hearing conn0 c (receiver_says ks heard) told
    → Took bytes c d
    → Hearing conn0 d (receiver_says ks (heard ++ bytes)) told
answers_more ks heard {bytes = bytes} x t =
    Hearing-same (hears x t) (receiver_says-append ks heard bytes) refl

pub says_more :
    {conn0 c d : Stream} (h : MetaData) (ks : List Chunk) {heard : List ℕ} (told bytes : List ℕ)
    → Hearing conn0 c heard (encode_header h ++ sender_says ks told)
    → write bytes c ≡ (ok tt, d)
    → Hearing conn0 d heard (encode_header h ++ sender_says ks (told ++ bytes))
says_more h ks told bytes x e = Hearing-same (tells bytes x e) refl (
    append_assoc (encode_header h) (sender_says ks told) bytes
    ∙ ap (λ xs. encode_header h ++ xs) (sender_says-append ks told bytes))
