-- ===== src/Wire/Header.antt =====
-- The header of a transfer on the wire: `SendHeader` against `ReadHeader`.
use file_transfer_using_libp.Base.{
  ℕ, ◌≡◌, sym, ap, ◌∙◌, subst, List, [], ◌∷◌, ◌++◌, append_assoc, length, arith, IsByte, IsU32, u32,
  put_uint32, uint32, length-put_uint32, uint32-put_uint32, put_uint32-uint32, uint32-IsU32, ok,
  wrap, All,
}
use file_transfer_using_libp.Protocol.Types.{MetaData, hash_size}
use file_transfer_using_libp.Protocol.Stream.{Stream}
use file_transfer_using_libp.Wire.{encode_header, read_header, msg_header}
use file_transfer_using_libp.Wire.Reads.{
  feed, read_then, read_sentinel_then, Took, Took-trans, Took-IsByte, sentinel_then-Took,
  wrapped_then_took, ok_pair,
}

-- What the fields of a header have to be for the wire: 32-bit numbers, a 32-byte id, and a name
-- with a 32-bit length.
pub record IsWireHeader (h : MetaData) : Type 0 where
  pub reps_fits : IsU32 h.reps
  pub size_fits : IsU32 h.file_size
  pub id_size : length h.file_id ≡ hash_size
  pub name_fits : IsU32 (length h.name)

-- The fields after the sentinel, bracketed to the right.
header_fields :
    (h : MetaData) (rest : List ℕ)
    → encode_header h ++ rest
      ≡ msg_header
        ∷ (put_uint32 h.reps
            ++ (h.file_id
                ++ (put_uint32 (u32 (length h.name))
                    ++ (h.name ++ (put_uint32 h.file_size ++ rest)))))
unfolding encode_header
header_fields h rest = simp append_assoc

wire_length : (n : ℕ) → IsU32 n → n ≡ uint32 (put_uint32 (u32 n))
wire_length n h = sym (uint32-put_uint32 (u32 n) (omega arith) ∙ omega arith)

-- `ReadHeader` gives back the header that `SendHeader` wrote, and leaves what follows it.
pub read_header-encode :
    (h : MetaData) (rest : List ℕ) (c : Stream)
    → IsWireHeader h
    → read_header (feed c (encode_header h ++ rest)) ≡ (ok h, feed c rest)
unfolding read_header
read_header-encode h rest c v =
    ap (λ bs. read_header (feed c bs)) (header_fields h rest)
    ∙ read_sentinel_then msg_header "header" _ c _
    ∙ read_then (wrap "reading reps") 4 (put_uint32 h.reps) _ c _ (length-put_uint32 h.reps)
    ∙ read_then (wrap "reading fileID") 32 h.file_id _ c _ v.id_size
    ∙ read_then (wrap "reading name length") 4 (put_uint32 (u32 (length h.name))) _ c _
        (length-put_uint32 (u32 (length h.name)))
    ∙ read_then (wrap "reading name") (uint32 (put_uint32 (u32 (length h.name)))) h.name _ c _
        (wire_length (length h.name) v.name_fits)
    ∙ read_then (wrap "reading filesize") 4 (put_uint32 h.file_size) rest c _
        (length-put_uint32 h.file_size)
    ∙ rw (uint32-put_uint32 h.file_size v.size_fits, uint32-put_uint32 h.reps v.reps_fits)

-- The bytes of six fields, and the header that they make.
abbrev header_of : List ℕ → List ℕ → List ℕ → List ℕ → MetaData
header_of reps file_id name file_size = record {
  name = name;
  file_size = uint32 file_size;
  reps = uint32 reps;
  file_id = file_id;
}

encode_header-header_of :
    (reps file_id name_length name file_size : List ℕ)
    → length reps ≡ 4
    → length name_length ≡ 4
    → length name ≡ uint32 name_length
    → length file_size ≡ 4
    → All IsByte reps
    → All IsByte name_length
    → All IsByte file_size
    → encode_header (header_of reps file_id name file_size)
      ≡ (msg_header ∷ []) ++ (reps ++ (file_id ++ (name_length ++ (name ++ file_size))))
unfolding encode_header
encode_header-header_of reps file_id name_length name file_size lr ln e ls br bn bs =
    let small : u32 (length name) ≡ uint32 name_length =
      omega (arith, uint32-IsU32 name_length bn) in
    rw (
      small,
      put_uint32-uint32 reps lr br,
      put_uint32-uint32 name_length ln bn,
      put_uint32-uint32 file_size ls bs,
    )

-- The six fields that were taken, one after the other, put together.
header_taken :
    (reps file_id name_length name file_size : List ℕ) (c c1 c2 c3 c4 c5 c6 : Stream)
    → All IsByte c.incoming
    → Took (msg_header ∷ []) c c1
    → Took reps c1 c2
    → length reps ≡ 4
    → Took file_id c2 c3
    → length file_id ≡ 32
    → Took name_length c3 c4
    → length name_length ≡ 4
    → Took name c4 c5
    → length name ≡ uint32 name_length
    → Took file_size c5 c6
    → length file_size ≡ 4
    → Took (encode_header (header_of reps file_id name file_size)) c c6
      × IsWireHeader (header_of reps file_id name file_size)
header_taken reps file_id name_length name file_size c c1 c2 c3 c4 c5 c6 bytes t1 t2 l2 t3 l3 t4 l4
      t5 l5 t6 l6 =
    let b2 = Took-IsByte t2 (Took-IsByte t1 bytes).1 in
    let b4 = Took-IsByte t4 (Took-IsByte t3 b2.1).1 in
    let b6 = Took-IsByte t6 (Took-IsByte t5 b4.1).1 in
    let took = Took-trans t1 (Took-trans t2 (Took-trans t3 (Took-trans t4 (Took-trans t5 t6)))) in
    let whole =
      encode_header-header_of reps file_id name_length name file_size l2 l4 l5 l6 b2.0 b4.0 b6.0 in
    (
      subst (λ bs. Took bs c c6) (sym whole) took,
      record {
        reps_fits = uint32-IsU32 reps b2.0;
        size_fits = uint32-IsU32 file_size b6.0;
        id_size = l3;
        name_fits = omega (arith, uint32-IsU32 name_length b4.0);
      },
    )

-- Whatever `ReadHeader` accepts is the encoding of the header that it returns, and that header
-- keeps to the limits of the wire.
pub read_header-Took :
    (c c' : Stream) (h : MetaData)
    → All IsByte c.incoming
    → read_header c ≡ (ok h, c')
    → Took (encode_header h) c c' × IsWireHeader h
unfolding read_header
read_header-Took c c' h bytes e =
    let (c1, t1, e1) = sentinel_then-Took msg_header "header" c _ h c' e in
    let (reps, c2, t2, l2, e2) = wrapped_then_took _ 4 c1 _ h c' e1 in
    let (file_id, c3, t3, l3, e3) = wrapped_then_took _ 32 c2 _ h c' e2 in
    let (name_length, c4, t4, l4, e4) = wrapped_then_took _ 4 c3 _ h c' e3 in
    let (name, c5, t5, l5, e5) = wrapped_then_took _ (uint32 name_length) c4 _ h c' e4 in
    let (file_size, c6, t6, l6, e6) = wrapped_then_took _ 4 c5 _ h c' e5 in
    let taken =
      header_taken reps file_id name_length name file_size c c1 c2 c3 c4 c5 c6 bytes t1 t2 l2 t3 l3
        t4 l4 t5 l5 t6 l6 in
    ok_pair (λ h' d. Took (encode_header h') c d × IsWireHeader h') e6 taken
