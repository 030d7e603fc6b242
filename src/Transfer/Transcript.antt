-- ===== src/Transfer/Transcript.antt =====
-- What a receiver has read and written in each state of `RecieveFile`, as the messages of the
-- protocol, and what its session holds of them.
pub mod Start
pub mod Steps
pub mod Chunks
pub mod Whole
pub mod Moments
use file_transfer_using_libp.Base.{
  ℕ, suc, ◌≡◌, refl, sym, ap, ◌∙◌, subst, subst₂, ◌⊎◌, Option, some, List, [], ◌∷◌, ◌++◌,
  append_assoc, length, arith, All, All-append_split, IsByte, Result, ok, err, panic, fatal,
}
use file_transfer_using_libp.Protocol.State.{TransferState}
use file_transfer_using_libp.Protocol.Types.{Chunk, MetaData, hash_size}
use file_transfer_using_libp.Protocol.Stream.{Stream, write}
use file_transfer_using_libp.Protocol.File.{File}
use file_transfer_using_libp.Protocol.Session.{Session}
use file_transfer_using_libp.Wire.{
  encode_header, encode_chunk_request, encode_lottery_ticket, encode_chunk_response,
  encode_key_reveal, encode_root, encode_final_ack,
}
use file_transfer_using_libp.Wire.Reads.{Took}
use file_transfer_using_libp.Wire.Header.{IsWireHeader}
use file_transfer_using_libp.Wire.Response.{IsWireChunk}
use file_transfer_using_libp.Crypto.{Crypto}
use file_transfer_using_libp.Merkle.{generate_leaf, build_tree, root_of_tree}
use file_transfer_using_libp.Controllers.Receiver.Verified.{IsGenuine}
use file_transfer_using_libp.Controllers.Receiver.Binding.{plaintexts}
use file_transfer_using_libp.Transfer.{sender_says, receiver_says, with_leaves}

-- Since it was `conn0`, the connection has delivered the one text, and has been given the other.
pub record Hearing (conn0 c : Stream) (heard told : List ℕ) : Type 0 where
  pub has_heard : conn0.incoming ≡ heard ++ c.incoming
  pub has_told : c.outgoing ≡ conn0.outgoing ++ told

pub hears :
    {conn0 c d : Stream} {heard told bytes : List ℕ}
    → Hearing conn0 c heard told
    → Took bytes c d
    → Hearing conn0 d (heard ++ bytes) told
hears {d = d} {heard = heard} {bytes = bytes} x t = record {
  has_heard =
      x.has_heard ∙ ap (λ zs. heard ++ zs) t.before ∙ sym (append_assoc heard bytes d.incoming);
  has_told = ap (λ (e : Stream). e.outgoing) t.after ∙ x.has_told;
}

pub tells :
    {conn0 c d : Stream} {heard told : List ℕ} (bytes : List ℕ)
    → Hearing conn0 c heard told
    → write bytes c ≡ (ok tt, d)
    → Hearing conn0 d heard (told ++ bytes)
unfolding write
tells {conn0} {told = told} bytes x e = record {
  has_heard = ground (arith, x.has_heard);
  has_told = ground (arith, x.has_told, append_assoc conn0.outgoing told bytes);
}

-- The same texts, put together in another way.
pub Hearing-same :
    {conn0 c : Stream} {heard told heard' told' : List ℕ}
    → Hearing conn0 c heard told
    → heard ≡ heard'
    → told ≡ told'
    → Hearing conn0 c heard' told'
Hearing-same {conn0} {c} x e e' = subst₂ (Hearing conn0 c) e e' x

-- A connection that was there from the first with all bytes that have come since.
abbrev pub with_arrived : Stream → List ℕ → Stream
with_arrived c bytes = record c { incoming = c.incoming ++ bytes }

-- More bytes have come.
pub Hearing-arrived :
    {c : Stream} (conn0 : Stream) (arrived : List ℕ) {heard told : List ℕ} (bytes : List ℕ)
    → Hearing (with_arrived conn0 arrived) c heard told
    → Hearing (with_arrived conn0 (arrived ++ bytes)) (with_arrived c bytes) heard told
Hearing-arrived {c} conn0 arrived {heard} bytes x = record {
  has_heard =
      sym (append_assoc conn0.incoming arrived bytes)
      ∙ ap (λ zs. zs ++ bytes) x.has_heard
      ∙ append_assoc heard c.incoming bytes;
  has_told = x.has_told;
}

-- What a connection of bytes has still to deliver are bytes.
pub Hearing-IsByte :
    {conn0 c : Stream} {heard told : List ℕ}
    → All IsByte conn0.incoming
    → Hearing conn0 c heard told
    → All IsByte c.incoming
Hearing-IsByte {c = c} {heard = heard} h x =
    (All-append_split IsByte heard c.incoming (subst (All IsByte) x.has_heard h)).1

-- Messages of the sender and of the receiver, with more behind them.
pub sender_says-append :
    (ks : List Chunk) (xs ys : List ℕ) → sender_says ks xs ++ ys ≡ sender_says ks (xs ++ ys)
sender_says-append [] xs ys = refl
sender_says-append (k ∷ ks) xs ys =
    append_assoc (encode_chunk_response k) _ ys
    ∙ ap (λ zs. encode_chunk_response k ++ zs)
        (append_assoc (encode_key_reveal k.index k.key) _ ys
          ∙ ap (λ zs. encode_key_reveal k.index k.key ++ zs) (sender_says-append ks xs ys))

pub receiver_says-append :
    (ks : List Chunk) (xs ys : List ℕ) → receiver_says ks xs ++ ys ≡ receiver_says ks (xs ++ ys)
receiver_says-append [] xs ys = refl
receiver_says-append (k ∷ ks) xs ys =
    append_assoc (encode_chunk_request k.index) _ ys
    ∙ ap (λ zs. encode_chunk_request k.index ++ zs)
        (append_assoc (encode_lottery_ticket k.index) _ ys
          ∙ ap (λ zs. encode_lottery_ticket k.index ++ zs) (receiver_says-append ks xs ys))

-- One chunk more.
pub sender_says-snoc :
    (ks : List Chunk) (k : Chunk) (xs : List ℕ)
    → sender_says (ks ++ (k ∷ [])) xs ≡ sender_says ks (sender_says (k ∷ []) xs)
sender_says-snoc [] k xs = refl
sender_says-snoc (j ∷ ks) k xs =
    ap (λ zs. encode_chunk_response j ++ (encode_key_reveal j.index j.key ++ zs))
      (sender_says-snoc ks k xs)

pub receiver_says-snoc :
    (ks : List Chunk) (k : Chunk) (xs : List ℕ)
    → receiver_says (ks ++ (k ∷ [])) xs ≡ receiver_says ks (receiver_says (k ∷ []) xs)
receiver_says-snoc [] k xs = refl
receiver_says-snoc (j ∷ ks) k xs =
    ap (λ zs. encode_chunk_request j.index ++ (encode_lottery_ticket j.index ++ zs))
      (receiver_says-snoc ks k xs)

module _ (C : Crypto) where
  -- The chunks from index `n` on are genuine, each with its own plaintext, and of the sizes of the wire.
  abbrev pub EachGenuine : List ℕ → ℕ → List Chunk → Type 0
  EachGenuine file_id n [] = Unit
  EachGenuine file_id n (k ∷ ks) =
      (IsGenuine C file_id n k k.plaintext × IsWireChunk k) × EachGenuine file_id (suc n) ks

  -- What a session has of that header and those `n` verified chunks.
  pub record Kept (h : MetaData) (n : ℕ) (ks : List Chunk) (file_id : List ℕ) (total : ℕ)
      (leaves : List (List ℕ)) (open_file : Option File) : Type 0 where
    pub wire : IsWireHeader h
    pub same_id : file_id ≡ h.file_id
    pub same_total : total ≡ h.reps
    pub count : length ks ≡ n
    pub each : EachGenuine h.file_id 0 ks
    pub same_leaves : leaves ≡ with_leaves C [] ks
    pub file : File
    pub is_file : open_file ≡ some file
    pub content : file.content ≡ plaintexts ks

  abbrev pub Holds : MetaData → ℕ → List Chunk → Session → Type 0
  Holds h n ks s = Kept h n ks s.file_id s.total_chunks s.leaves s.file

  -- With the connection as it was at first, what a receiver has read and written in each state. Each
  -- chunk in flight is written `k`.
  module _ (conn0 : Stream) where
    -- The messages on all verified chunks, and then those others.
    abbrev pub Heard : ℕ → Session → List ℕ → List ℕ → Type 0
    Heard n s heard told =
        (h : MetaData) × (ks : List Chunk) × Holds h n ks s
        × Hearing conn0 s.conn (encode_header h ++ sender_says ks heard) (receiver_says ks told)

    -- The same with a chunk in flight.
    abbrev pub HeardOf : Session → (Chunk → List ℕ) → (Chunk → List ℕ) → Type 0
    HeardOf s heard told =
        (k : Chunk) × (s.pending_chunk ≡ some k)
        × IsWireChunk k
        × Heard s.current_chunk s (heard k) (told k)

    -- The end of an empty file, and of any other.
    abbrev pub HeardAll : Session → Type 0
    HeardAll s =
        (h : MetaData) × (ks : List Chunk) × Holds h h.reps ks s
        × (((h.reps ≡ 0) × Hearing conn0 s.conn (encode_header h) [])
            ⊎ ((root : List ℕ) × (root_of_tree (build_tree C (with_leaves C [] ks)) ≡ ok root)
                × (length root ≡ hash_size)
                × Hearing conn0 s.conn (encode_header h ++ sender_says ks (encode_root root))
                    (receiver_says ks encode_final_ack)))

    abbrev pub Transcript : TransferState → Session → Type 0
    Transcript TransferState.idle s = Hearing conn0 s.conn [] []
    Transcript TransferState.receive_header s = Hearing conn0 s.conn [] []
    Transcript TransferState.send_chunk_request s = Heard s.current_chunk s [] []
    Transcript TransferState.waiting_chunk_response s =
        Heard s.current_chunk s [] (encode_chunk_request s.current_chunk)
    Transcript TransferState.send_lottery_ticket s =
        HeardOf s encode_chunk_response (λ k. encode_chunk_request k.index)
    Transcript TransferState.waiting_key_reveal s =
        HeardOf s encode_chunk_response (λ k. receiver_says (k ∷ []) [])
    Transcript TransferState.verify_chunk s =
        HeardOf s (λ k. sender_says (k ∷ []) []) (λ k. receiver_says (k ∷ []) [])
    Transcript TransferState.verify_merkle s = Heard s.total_chunks s [] []
    Transcript TransferState.finished s = HeardAll s
    Transcript _ s = ⊥

-- What holds after a step that did not fail.
abbrev pub Then : (TransferState → Session → Type 0) → Result TransferState × Session → Type 0
Then At (ok next, t) = At next t
Then At (err e, t) = Unit
Then At (panic, t) = Unit
Then At (fatal e, t) = Unit
