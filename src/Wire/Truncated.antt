-- ===== src/Wire/Truncated.antt =====
-- Messages that a peer breaks off: the readers of Chunk/chunk.go return an error.
use file_transfer_using_libp.Base.{
  ℕ, ◌≤◌, ◌≡◌, refl, sym, ap, ◌∙◌, List, [], ◌++◌, append-nil, append_assoc, length, length-append,
  arith, IsByte, IsU32, All, Error, Result, ok, err, panic, fatal, Act, IsPlain,
}
use file_transfer_using_libp.Protocol.Types.{Chunk, MetaData, key_size}
use file_transfer_using_libp.Protocol.Stream.{Stream}
use file_transfer_using_libp.Wire.{
  encode_header, read_header, encode_chunk_response, read_chunk_response, encode_key_reveal,
  read_key_reveal,
}
use file_transfer_using_libp.Wire.Reads.{feed, Took}
use file_transfer_using_libp.Wire.Plain.{
  read_header-IsPlain, read_chunk_response-IsPlain, read_key_reveal-IsPlain,
}
use file_transfer_using_libp.Wire.Header.{IsWireHeader, read_header-encode, read_header-Took}
use file_transfer_using_libp.Wire.Messages.{read_key_reveal-encode, read_key_reveal-Took}
use file_transfer_using_libp.Wire.Response.{
  IsWireChunk, received_chunk, read_chunk_response-encode, read_chunk_response-Took,
}

-- A call that returned an error.
abbrev pub Failed : {A : Type 0} → Result A × Stream → Type 0
Failed r = (e : Error) × (d : Stream) × (r ≡ (err e, d))

plain_not_ok :
    {A : Type 0} (r : Result A × Stream)
    → IsPlain r
    → ((a : A) (d : Stream) → r ≡ (ok a, d) → ⊥)
    → Failed r
plain_not_ok (ok a, d) p h = absurd (h a d refl)
plain_not_ok (err e, d) p h = (e, d, refl)
plain_not_ok (panic, d) p h = absurd p
plain_not_ok (fatal e, d) p h = absurd p

-- No encoding is another one's beginning with something missing.
no_proper_prefix :
    {A : Type 0} (read : Act Stream A) (whole short bs more : List ℕ) (a b : A) (c c' : Stream)
    → ((rest : List ℕ) → read (feed c (whole ++ rest)) ≡ (ok a, feed c rest))
    → ((rest : List ℕ) → read (feed c (short ++ rest)) ≡ (ok b, feed c rest))
    → bs ++ more ≡ whole
    → 1 ≤ length more
    → Took short (feed c bs) c'
    → ⊥
no_proper_prefix {A} read whole short bs more a b c c' reads_whole reads_short split some t =
    let same : whole ++ [] ≡ short ++ (c'.incoming ++ more) =
      append-nil whole
      ∙ sym split
      ∙ ap (λ xs. xs ++ more) t.before
      ∙ append_assoc short c'.incoming more in
    let both =
      sym (reads_whole []) ∙ ap (λ xs. read (feed c xs)) same ∙ reads_short (c'.incoming ++ more) in
    let nothing_left : [] ≡ c'.incoming ++ more =
      ap (λ (r : Result A × Stream). r.1.incoming) both in
    omega (arith, ap length nothing_left, length-append c'.incoming more)

-- A header within the limits of the wire, of which only the bytes before its end are there, is an error
-- of `ReadHeader`.
pub read_header_truncated :
    (h : MetaData) (bs more : List ℕ) (c : Stream)
    → IsWireHeader h
    → All IsByte bs
    → bs ++ more ≡ encode_header h
    → 1 ≤ length more
    → Failed (read_header (feed c bs))
read_header_truncated h bs more c wire bytes split some =
    plain_not_ok (read_header (feed c bs)) (read_header-IsPlain (feed c bs)) λ h' c' e.
      let (t, wire') = read_header-Took (feed c bs) c' h' bytes e in
      no_proper_prefix read_header (encode_header h) (encode_header h') bs more h h' c c'
        (λ rest. read_header-encode h rest c wire) (λ rest. read_header-encode h' rest c wire')
        split some t

-- A chunk response within the limits of the wire, of which only the bytes before its end are there, is
-- an error of `ReadChunkResponse`.
pub read_chunk_response_truncated :
    (file_id : List ℕ) (k : Chunk) (bs more : List ℕ) (c : Stream)
    → IsWireChunk k
    → All IsByte bs
    → bs ++ more ≡ encode_chunk_response k
    → 1 ≤ length more
    → Failed (read_chunk_response file_id (feed c bs))
read_chunk_response_truncated file_id k bs more c wire bytes split some =
    plain_not_ok (read_chunk_response file_id (feed c bs))
      (read_chunk_response-IsPlain file_id (feed c bs))
      λ k' c' e.
        let (t, wire', _) = read_chunk_response-Took file_id (feed c bs) c' k' bytes e in
        no_proper_prefix (read_chunk_response file_id) (encode_chunk_response k)
          (encode_chunk_response k') bs more (received_chunk file_id k) (received_chunk file_id k')
          c c' (λ rest. read_chunk_response-encode file_id k rest c wire)
          (λ rest. read_chunk_response-encode file_id k' rest c wire') split some t

-- A key reveal that breaks off before its end is an error.
pub read_key_reveal_truncated :
    (index : ℕ) (key bs more : List ℕ) (c : Stream)
    → IsU32 index
    → length key ≡ key_size
    → All IsByte bs
    → bs ++ more ≡ encode_key_reveal index key
    → 1 ≤ length more
    → Failed (read_key_reveal (feed c bs))
read_key_reveal_truncated index key bs more c fits hk bytes split some =
    plain_not_ok (read_key_reveal (feed c bs)) (read_key_reveal-IsPlain (feed c bs))
      λ (index', key') c' e.
        let (t, fits', hk') = read_key_reveal-Took (feed c bs) c' index' key' bytes e in
        no_proper_prefix read_key_reveal (encode_key_reveal index key)
          (encode_key_reveal index' key') bs more (index, key) (index', key') c c'
          (λ rest. read_key_reveal-encode index key rest c fits hk)
          (λ rest. read_key_reveal-encode index' key' rest c fits' hk') split some t
