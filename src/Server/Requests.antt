-- ===== src/Server/Requests.antt =====
-- The request that precedes a transfer: `RequestFile` of Client/client.go against the first half of
-- `HandleStream`.
use file_transfer_using_libp.Base.{
  ℕ, ◌≡◌, sym, ap, ◌∙◌, List, ◌++◌, append_assoc, length, arith, IsByte, IsU32, u32, put_uint32,
  uint32, length-put_uint32, uint32-put_uint32, put_uint32-uint32, uint32-IsU32, ok, All, codes,
}
use file_transfer_using_libp.Protocol.Stream.{Stream}
use file_transfer_using_libp.Client.{encode_request, method_bytes}
use file_transfer_using_libp.Server.{read_request}
use file_transfer_using_libp.Wire.Reads.{
  feed, read_then, Took, Took-trans, Took-IsByte, wrapped_then_took, ok_pair,
}

-- The methods that a request can have, with the type by which the server knows them.
pub data Method : Type 0 where
  get post : Method

abbrev pub method_name : Method → List ℕ
method_name get = codes "GET"
method_name post = codes "POST"

abbrev pub method_type : Method → ℕ
method_type get = 0
method_type post = 1

-- The type, the length of the path and the path.
pub request_fields :
    (m : Method) (path rest : List ℕ)
    → encode_request path (method_name m) ++ rest
      ≡ put_uint32 (method_type m) ++ (put_uint32 (u32 (length path)) ++ (path ++ rest))
unfolding encode_request method_bytes
request_fields get path rest = simp append_assoc
request_fields post path rest = simp append_assoc

-- The server reads the type and the path, of a length that is a uint32, that the client wrote for GET
-- or POST, and leaves what follows.
pub read_request-encode :
    (m : Method) (path rest : List ℕ) (c : Stream)
    → IsU32 (length path)
    → read_request (feed c (encode_request path (method_name m) ++ rest))
      ≡ (ok (method_type m, path), feed c rest)
unfolding read_request
read_request-encode m path rest c h =
    let n = u32 (length path) in
    ap (λ bs. read_request (feed c bs)) (request_fields m path rest)
    ∙ read_then _ 4 (put_uint32 (method_type m)) _ c _ (length-put_uint32 (method_type m))
    ∙ read_then _ 4 (put_uint32 n) _ c _ (length-put_uint32 n)
    ∙ read_then _ (uint32 (put_uint32 n)) path rest c _
        (sym (uint32-put_uint32 n (omega arith) ∙ omega arith))
    ∙ rw (uint32-put_uint32 (method_type m) (small m))
  where
    small : (m : Method) → IsU32 (method_type m)
    small get = omega arith
    small post = omega arith

-- Whatever the server accepts is a type and a path with its length.
pub read_request-Took :
    (c c' : Stream) (typ : ℕ) (path : List ℕ)
    → All IsByte c.incoming
    → read_request c ≡ (ok (typ, path), c')
    → Took (put_uint32 typ ++ (put_uint32 (length path) ++ path)) c c'
      × IsU32 typ
      × IsU32 (length path)
unfolding read_request
read_request-Took c c' typ path bytes e =
    let (t, c1, t1, l1, e1) = wrapped_then_took _ 4 c _ (typ, path) c' e in
    let (n, c2, t2, l2, e2) = wrapped_then_took _ 4 c1 _ (typ, path) c' e1 in
    let (p, c3, t3, l3, e3) = wrapped_then_took _ (uint32 n) c2 _ (typ, path) c' e2 in
    let b1 = Took-IsByte t1 bytes in
    let b2 = Took-IsByte t2 b1.1 in
    let taken : Took (put_uint32 (uint32 t) ++ (put_uint32 (length p) ++ p)) c c3 =
      rw (put_uint32-uint32 t l1 b1.0, l3, put_uint32-uint32 n l2 b2.0)
        (Took-trans t1 (Took-trans t2 t3)) in
    ok_pair
      (λ r d.
        Took (put_uint32 r.0 ++ (put_uint32 (length r.1) ++ r.1)) c d
        × IsU32 r.0
        × IsU32 (length r.1))
      e3 (taken, uint32-IsU32 t b1.0, omega (arith, uint32-IsU32 n b2.0))
