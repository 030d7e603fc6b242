-- ===== src/Transfer/Tampering.antt =====
-- A receiver that is fed by anyone, against the file that the sender has: `RecieveFile`, with the
-- root of the tree over the leaves of `SendFile`.
use file_transfer_using_libp.Base.{
  ℕ, suc, ◌+◌, ◌*◌, ◌^◌, ◌≤◌, ◌<◌, ◌≡◌, refl, sym, ap, ◌∙◌, subst, subst₂, ◌⊎◌, inl, inr, Option,
  some, List, [], ◌∷◌, ◌++◌, take-all, append-nil, take, append_assoc, append_split_last, arith,
  All, IsByte, Result, ok,
}
use file_transfer_using_libp.Base
use file_transfer_using_libp.Protocol.Types.{Chunk, MetaData, chunk_size, hash_size}
use file_transfer_using_libp.Protocol.State.{TransferState}
use file_transfer_using_libp.Protocol.Stream.{Stream}
use file_transfer_using_libp.Protocol.File.{File, Disk}
use file_transfer_using_libp.Protocol.Session.{Session}
use file_transfer_using_libp.Wire.{encode_root, encode_header}
use file_transfer_using_libp.Crypto.{Crypto, IsLawful}
use file_transfer_using_libp.Crypto.Chunks.{sealed_chunk}
use file_transfer_using_libp.Merkle.{generate_leaf, build_tree, root_of_tree}
use file_transfer_using_libp.Merkle.Binding.{Clash, IsHash}
use file_transfer_using_libp.Controllers.Receiver.{receive_file}
use file_transfer_using_libp.Controllers.Receiver.Verified.{IsGenuine}
use file_transfer_using_libp.Controllers.Receiver.Binding.{
  content_binding, AllGenuine, leaves_of, TransferText, plaintexts,
}
use file_transfer_using_libp.Transfer.Transcript.{Holds, EachGenuine, sender_says-append}
use file_transfer_using_libp.Transfer.Transcript.Whole.{HeardAt, receive_file_heard}
use file_transfer_using_libp.Transfer.{
  sender_says, Secrets, IsSecret, slice, chunks_from, with_leaves,
}
use file_transfer_using_libp.Transfer.Content.{
  take-append-take, length-root, with_leaves-some, with_leaves-IsHash,
}

with_leaves-leaves_of :
    (C : Crypto) (ls : List (List ℕ)) (ks : List Chunk) → with_leaves C ls ks ≡ ls ++ leaves_of C ks
with_leaves-leaves_of C ls [] = sym (append-nil ls)
with_leaves-leaves_of C ls (k ∷ ks) =
    with_leaves-leaves_of C (ls ++ (generate_leaf C k ∷ [])) ks
    ∙ append_assoc ls (generate_leaf C k ∷ []) (leaves_of C ks)

root-leaves_of :
    (C : Crypto) (ks : List Chunk)
    → root_of_tree (build_tree C (with_leaves C [] ks))
      ≡ root_of_tree (build_tree C (leaves_of C ks))
root-leaves_of C ks = ap (λ ls. root_of_tree (build_tree C ls)) (with_leaves-leaves_of C [] ks)

EachGenuine-AllGenuine :
    (C : Crypto) (file_id : List ℕ) (n : ℕ) (ks : List Chunk)
    → EachGenuine C file_id n ks
    → AllGenuine C file_id n ks
EachGenuine-AllGenuine C file_id n [] g = tt
EachGenuine-AllGenuine C file_id n (k ∷ ks) ((g, _), gs) =
    (g, EachGenuine-AllGenuine C file_id (suc n) ks gs)

-- The chunks that a receiver has taken from what it has read up to a rest, the root after them, and
-- two different texts with one hash, the one hashed for these chunks and the other for those of a
-- sender.
abbrev pub Forged : Crypto → List ℕ → List ℕ → List ℕ → List Chunk → Type 0
Forged C incoming rest root sent =
    (h : MetaData) × (ks : List Chunk) × EachGenuine C h.file_id 0 ks
    × (incoming ≡ (encode_header h ++ sender_says ks (encode_root root)) ++ rest)
    × Clash C (TransferText C ks) (TransferText C sent)

module _ (C : Crypto) (law : IsLawful C) (file_id content : List ℕ)
    (size : Base.length file_id ≡ hash_size) where
  -- What the sender seals is genuine.
  sealed_chunk-IsGenuine :
      (key nonce : List ℕ) (i : ℕ)
      → IsSecret (key, nonce)
      → IsGenuine C file_id i
          (sealed_chunk C key nonce file_id i (slice content i))
          (slice content i)
  unfolding sealed_chunk
  sealed_chunk-IsGenuine key nonce i (hk, hn) = record {
    of_file = refl;
    file_id_length = size;
    key_length = hk;
    nonce_length = hn;
    in_order = refl;
    authentic = law.gcm_open-gcm_seal key nonce (slice content i) hk hn;
    committed = refl;
  }

  chunks_from-AllGenuine :
      (ss : Secrets) (i : ℕ)
      → All IsSecret ss
      → AllGenuine C file_id i (chunks_from C file_id content i ss)
  unfolding sealed_chunk
  chunks_from-AllGenuine [] i hs = tt
  chunks_from-AllGenuine ((key, nonce) ∷ ss) i (h, hs) = (
    sealed_chunk-IsGenuine key nonce i h,
    subst (λ n. AllGenuine C file_id n (chunks_from C file_id content (i + 1) ss))
        (let e : i + 1 ≡ suc i = omega arith in e) (chunks_from-AllGenuine ss (i + 1) hs),
  )

  -- The plaintexts of the sender's chunks from index `i` on, behind the content before.
  plaintexts-chunks_from :
      (ss : Secrets) (i : ℕ)
      → take (chunk_size * i) content ++ plaintexts (chunks_from C file_id content i ss)
        ≡ take (chunk_size * (i + Base.length ss)) content
  unfolding sealed_chunk
  plaintexts-chunks_from [] i =
      append-nil (take (chunk_size * i) content)
      ∙ ap (λ n. take n content) (let e : chunk_size * i ≡ chunk_size * (i + 0) = omega arith in e)
  plaintexts-chunks_from ((key, nonce) ∷ ss) i =
      sym (
        append_assoc (take (chunk_size * i) content) (slice content i)
          (plaintexts (chunks_from C file_id content (i + 1) ss)))
      ∙ ap (λ xs. xs ++ plaintexts (chunks_from C file_id content (i + 1) ss))
          (take-append-take (chunk_size * i) chunk_size content
            ∙ ap (λ n. take n content)
                (let e : chunk_size * i + chunk_size ≡ chunk_size * (i + 1) = omega arith in e))
      ∙ plaintexts-chunks_from ss (i + 1)
      ∙ ap (λ n. take (chunk_size * n) content)
          (let e : i + 1 + Base.length ss ≡ i + suc (Base.length ss) = omega arith in e)

  length-chunks_from :
      (i : ℕ) (ss : Secrets) → Base.length (chunks_from C file_id content i ss) ≡ Base.length ss
  length-chunks_from i [] = refl
  length-chunks_from i (_ ∷ ss) = omega (arith, length-chunks_from (i + 1) ss)

  -- The plaintexts of all of the sender's chunks are its content.
  sent_content :
      (ss : Secrets)
      → Base.length content ≤ chunk_size * Base.length ss
      → plaintexts (chunks_from C file_id content 0 ss) ≡ content
  sent_content ss covered =
      plaintexts-chunks_from ss 0
      ∙ take-all (chunk_size * (0 + Base.length ss)) content (omega (arith, covered))

  module _ (fuel : ℕ) (conn : Stream) (entropy : List ℕ) (disk : Disk) (ss : Secrets)
      (root before : List ℕ) (t : Session) (bytes : All IsByte conn.incoming) (hs : All IsSecret ss)
      (covered : Base.length content ≤ chunk_size * Base.length ss)
      (some_chunks : 1 ≤ Base.length ss)
      (is_root : root_of_tree (build_tree C (with_leaves C [] (chunks_from C file_id content 0 ss)))
        ≡ ok root)
      (run_r : receive_file C fuel conn entropy disk ≡ some (ok tt, t))
      (same_total : t.total_chunks ≡ Base.length ss)
      (last : conn.incoming ≡ (before ++ encode_root root) ++ t.conn.incoming) where
    IsHash-root :
        (ks : List Chunk) (r : List ℕ)
        → 1 ≤ Base.length ks
        → root_of_tree (build_tree C (with_leaves C [] ks)) ≡ ok r
        → IsHash r
    IsHash-root ks r not_empty e =
        length-root C law (with_leaves C [] ks) r (with_leaves-some C law [] ks (omega arith))
          (with_leaves-IsHash C law [] ks tt) e

    -- The last message that the receiver read is the root over its own leaves.
    roots_agree :
        (h : MetaData) (ks : List Chunk) (root' : List ℕ)
        → Holds C h h.reps ks t
        → root_of_tree (build_tree C (with_leaves C [] ks)) ≡ ok root'
        → conn.incoming ≡ (encode_header h ++ sender_says ks (encode_root root')) ++ t.conn.incoming
        → root ≡ root'
    unfolding encode_root
    roots_agree h ks root' holds e heard =
        let enough : 1 ≤ Base.length ks = omega (arith, holds.count, holds.same_total) in
        let split =
          ap (λ xs. (encode_header h ++ xs) ++ t.conn.incoming)
            (sym (sender_says-append ks [] (encode_root root')))
          ∙ ap (λ xs. xs ++ t.conn.incoming)
              (sym (append_assoc (encode_header h) (sender_says ks []) (encode_root root'))) in
        let (whole, _) =
          append_split_last (before ++ encode_root root)
            ((encode_header h ++ sender_says ks []) ++ encode_root root') t.conn.incoming
            t.conn.incoming refl (sym last ∙ heard ∙ split) in
        let l =
          IsHash-root (chunks_from C file_id content 0 ss) root
            (omega (arith, length-chunks_from 0 ss)) is_root in
        let l' = IsHash-root ks root' enough e in
        let (_, same) =
          append_split_last before (encode_header h ++ sender_says ks []) (encode_root root)
            (encode_root root') (omega (arith, l, l')) whole in
        cc same

    bound :
        HeardAt C conn TransferState.finished t
        → ((f : File) × (t.file ≡ some f) × (f.content ≡ content))
          ⊎ Forged C conn.incoming t.conn.incoming root (chunks_from C file_id content 0 ss)
    bound (_, (h, ks, holds, inl (zero, _))) = absurd (omega (arith, zero, holds.same_total))
    bound (_, (h, ks, holds, inr (root', e, _, x))) =
        let same = roots_agree h ks root' holds e x.has_heard in
        let sent = chunks_from C file_id content 0 ss in
        let many = length-chunks_from 0 ss in
        elim (content_binding C law h.file_id file_id ks sent
          (EachGenuine-AllGenuine C h.file_id 0 ks holds.each) (chunks_from-AllGenuine ss 0 hs)
          (omega (arith, holds.count, holds.same_total, many))
          (omega (arith, holds.count, holds.same_total))
          (sym (root-leaves_of C ks)
            ∙ e
            ∙ ap ok (sym same)
            ∙ sym is_root
            ∙ root-leaves_of C sent)) [
              | inl r ↦ inl (holds.file, holds.is_file, holds.content ∙ r ∙ sent_content ss covered)
              | inr c ↦ inr (
                h,
                ks,
                holds.each,
                subst
                    (λ r.
                      conn.incoming
                      ≡ (encode_header h ++ sender_says ks (encode_root r)) ++ t.conn.incoming)
                    (sym same) x.has_heard,
                c,
              )
            ]

    received :
        ((f : File) × (t.file ≡ some f) × (f.content ≡ content))
        ⊎ Forged C conn.incoming t.conn.incoming root (chunks_from C file_id content 0 ss)
    received = bound (receive_file_heard C fuel conn entropy disk t bytes run_r)

-- Take the tree that a sender builds over the chunks of a content that fits into them, at least one,
-- under a 32-byte file id and with keys and nonces of the right sizes, and its root.
-- Where `RecieveFile`, on any bytes whatever, ends without an error after a header with that number of
-- chunks, and the last message that it read has that root, then its file has that very content; or two
-- different texts with one hash are given, of which one was hashed for the genuine chunks whose messages
-- the receiver has read, and the other for the sender's: each the text of a leaf, of a commitment, or of
-- a node of the tree. The cryptography keeps its documented laws.
pub receive_file_authentic :
    (C : Crypto) (fuel : ℕ) (conn : Stream) (entropy : List ℕ) (disk : Disk)
    (file_id content root before : List ℕ) (ss : Secrets) (t : Session)
    → IsLawful C
    → All IsByte conn.incoming
    → Base.length file_id ≡ hash_size
    → All IsSecret ss
    → 1 ≤ Base.length ss
    → Base.length content ≤ chunk_size * Base.length ss
    → root_of_tree (build_tree C (with_leaves C [] (chunks_from C file_id content 0 ss))) ≡ ok root
    → receive_file C fuel conn entropy disk ≡ some (ok tt, t)
    → t.total_chunks ≡ Base.length ss
    → conn.incoming ≡ (before ++ encode_root root) ++ t.conn.incoming
    → ((f : File) × (t.file ≡ some f) × (f.content ≡ content))
      ⊎ Forged C conn.incoming t.conn.incoming root (chunks_from C file_id content 0 ss)
receive_file_authentic C fuel conn entropy disk file_id content root before ss t law bytes size hs
      not_empty covered is_root run_r same_total last =
    received C law file_id content size fuel conn entropy disk ss root before t bytes hs covered
      not_empty is_root run_r same_total last
