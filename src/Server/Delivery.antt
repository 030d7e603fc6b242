-- ===== src/Server/Delivery.antt =====
-- A request and its answer: the client's `main` on one end of a stream, `HandleStream` on the other.
use file_transfer_using_libp.Base.{
  ℕ, suc, ◌+◌, ◌-◌, ◌*◌, ◌/◌, ◌≤◌, ◌≡◌, refl, sym, ap, ◌∙◌, true, false, none, some, List, [], ◌∷◌,
  ◌++◌, append-nil, All, IsU32, arith, Error, failed, wrap, Result, ok, fatal, list_eq,
  list_eq_refl, if◌then◌else◌, codes, ◌==◌,
}
use file_transfer_using_libp.Base
use file_transfer_using_libp.Protocol.Types.{chunk_size}
use file_transfer_using_libp.Protocol.Stream.{Stream}
use file_transfer_using_libp.Protocol.File.{File, Disk}
use file_transfer_using_libp.Protocol.Session.{Session}
use file_transfer_using_libp.Wire.Reads.{write_accepted}
use file_transfer_using_libp.Crypto.{Crypto, IsLawful}
use file_transfer_using_libp.Controllers.Sender.{send_file, open_session, open_found, run_prepared}
use file_transfer_using_libp.Controllers.Sender.Success.{link}
use file_transfer_using_libp.Controllers.Receiver.{receive_file, received_dir}
use file_transfer_using_libp.Transfer.{Secrets, IsSecret, drawn}
use file_transfer_using_libp.Transfer.Sending.{sender_rounds}
use file_transfer_using_libp.Transfer.Receiving.{receiver_rounds}
use file_transfer_using_libp.Transfer.EndToEnd.{both_end}
use file_transfer_using_libp.Client
use file_transfer_using_libp.Client.{encode_request, request_file, transfer}
use file_transfer_using_libp.Server
use file_transfer_using_libp.Server.{answer, handle_stream, after_request, read_request}
use file_transfer_using_libp.Server.Requests.{
  Method, get, post, method_name, method_type, read_request-encode,
}

-- The request that comes before the transfer is written in one piece.
request_written :
    (m : Method) (path inc : List ℕ) (c : Stream)
    → ((o : List ℕ) → c.accepts o ≡ true)
    → request_file path (method_name m) (link c inc [])
      ≡ (ok tt, link c inc (encode_request path (method_name m)))
unfolding request_file
request_written m path inc c accepts =
    ap (Client.or_fatal (failed "Couldnt write the whattodoheaderBuffer"))
      (write_accepted (encode_request path (method_name m)) (link c inc []) (accepts []))

module _ (C : Crypto) (fuel now : ℕ) (entropy : List ℕ) (disk : Disk) where
  -- What the server does with a request, once it has read it.
  answered :
      (m : Method) (path rest out : List ℕ) (c : Stream)
      → IsU32 (Base.length path)
      → handle_stream C fuel now entropy disk
          (link c (encode_request path (method_name m) ++ rest) out)
        ≡ answer C fuel now entropy disk (method_type m) path (link c rest out)
  unfolding handle_stream
  answered m path rest out c h =
      ap (after_request C fuel now entropy disk)
        (read_request-encode m path rest (link c rest out) h)

  -- A GET request, as the client writes it, for a path with a length that is a uint32 and at which no
  -- file can be opened ends the process of the server, whatever follows it.
  pub get_missing_file :
      (path rest : List ℕ) (c : Stream)
      → IsU32 (Base.length path)
      → disk.open_file path ≡ none
      → (e : Error) × (handle_stream C fuel now entropy disk
            (link c (encode_request path (codes "GET") ++ rest) [])
          ≡ fatal e)
  unfolding answer send_file open_session
  get_missing_file path rest c h missing = (
    wrap "Error reading the file" (failed "open"),
    answered get path rest [] c h
        ∙ ap
            (λ found.
              Server.reported
                (run_prepared C fuel (open_found C now (link c rest []) entropy disk found)))
            missing,
  )

module _ (C : Crypto) (now now' : ℕ) (f g : File) (path key nonce e e' : List ℕ) (rest : Secrets)
    (c d : Stream) (disk disk' : Disk) (law : IsLawful C)
    (sends : (o : List ℕ) → c.accepts o ≡ true) (answers : (o : List ℕ) → d.accepts o ≡ true)
    (found : disk.open_file path ≡ some f) (stats : f.stats ≡ true) (open' : f.closed ≡ false)
    (readable : f.readable ≡ true) (size : IsU32 (Base.length f.content))
    (name : IsU32 (Base.length f.name))
    (count : (Base.length f.content + chunk_size - 1) / chunk_size ≡ suc (Base.length rest))
    (is_secret : IsSecret (key, nonce)) (are_secrets : All IsSecret rest)
    (made : disk'.create (received_dir ++ f.name) ≡ some g) (room : Base.length f.content ≤ g.room)
    (path_fits : IsU32 (Base.length path)) where
  -- A GET request. The client's end of the stream is `d`, the server's `c`; the server opens the file
  -- `f` at that path. The file opens, is not closed, has a `Stat`, can be read, has less than
  -- 4 GiB, a name with a 32-bit length, and `1 + length rest` chunks; the output can be created and has
  -- room; both ends accept every write; the randomness starts with a key and a nonce for each chunk; the
  -- cryptography keeps its documented laws; the length of the path is a uint32. The server, reading
  -- what the client writes, sends the file; the client, reading what the server writes, receives it;
  -- both return no error and have read all that the other wrote, and the client's file in `./received/`
  -- has the content of the server's.
  pub get_delivers :
      (t : Session) × (t' : Session) × (handle_stream C
          (suc (suc (sender_rounds rest)))
          now
          (drawn ((key, nonce) ∷ rest) e)
          disk
          (link c t'.conn.outgoing [])
        ≡ ok (Server.sent (some (ok tt, t))))
      × (transfer C
            (suc (suc (receiver_rounds rest)))
            now'
            e'
            disk'
            (codes "GET")
            path
            (link d t.conn.outgoing [])
          ≡ ok (Client.received (some (ok tt, t'))))
      × (t.conn.incoming ≡ [])
      × (t'.conn.incoming ≡ [])
      × (h : File) × (t'.file ≡ some h)
      × (h.path ≡ received_dir ++ f.name)
      × (h.content ≡ f.content)
  unfolding answer transfer
  get_delivers =
      let (heard, told, t, t', run_s, run_r, out_s, out_r, in_s, in_r, file, kept, there, same) =
        both_end C now f g path key nonce e e' rest c d disk disk' law sends answers found stats
          open' readable size name count is_secret are_secrets made room []
          (encode_request path (codes "GET")) in
      let fuel = suc (suc (sender_rounds rest)) in
      let entropy = drawn ((key, nonce) ∷ rest) e in
      let fuel' = suc (suc (receiver_rounds rest)) in
      (
        t,
        t',
        ap (λ z. handle_stream C fuel now entropy disk (link c z [])) out_r
            ∙ answered C fuel now entropy disk get path heard [] c path_fits
            ∙ ap Server.reported run_s,
        ap (λ z. transfer C fuel' now' e' disk' (codes "GET") path (link d z [])) out_s
            ∙ ap
                (Client.after_request C fuel' now' e' disk'
                  (λ s. ok (Client.received (receive_file C fuel' s e' disk'))))
                (request_written get path told d answers)
            ∙ ap (λ r. ok (Client.received r)) run_r,
        in_s,
        in_r,
        file,
        kept,
        there,
        same,
      )

  -- A POST request. The client's end of the stream is `c`, and the client opens the file `f` at that
  -- path; the server's end is `d`. The file opens, is not closed, has a `Stat`, can be read, has less than
  -- 4 GiB, a name with a 32-bit length, and `1 + length rest` chunks; the output can be created and has
  -- room; both ends accept every write; the randomness starts with a key and a nonce for each chunk; the
  -- cryptography keeps its documented laws; the length of the path is a uint32. The client, reading
  -- what the server writes, sends the file; the server, reading what the client writes, receives it;
  -- both return no error and have read all that the other wrote, and the server's file in `./received/`
  -- has the content of the client's.
  pub post_delivers :
      (t : Session) × (t' : Session) × (transfer C
          (suc (suc (sender_rounds rest)))
          now
          (drawn ((key, nonce) ∷ rest) e)
          disk
          (codes "POST")
          path
          (link c t'.conn.outgoing [])
        ≡ ok (Client.sent (some (ok tt, t))))
      × (handle_stream C
            (suc (suc (receiver_rounds rest)))
            now'
            e'
            disk'
            (link d t.conn.outgoing [])
          ≡ ok (Server.received (some (ok tt, t'))))
      × (t.conn.incoming ≡ [])
      × (t'.conn.incoming ≡ [])
      × (h : File) × (t'.file ≡ some h)
      × (h.path ≡ received_dir ++ f.name)
      × (h.content ≡ f.content)
  unfolding answer transfer
  post_delivers =
      let (heard, told, t, t', run_s, run_r, out_s, out_r, in_s, in_r, file, kept, there, same) =
        both_end C now f g path key nonce e e' rest c d disk disk' law sends answers found stats
          open' readable size name count is_secret are_secrets made room
          (encode_request path (codes "POST")) [] in
      let fuel = suc (suc (sender_rounds rest)) in
      let entropy = drawn ((key, nonce) ∷ rest) e in
      let fuel' = suc (suc (receiver_rounds rest)) in
      (
        t,
        t',
        ap (λ z. transfer C fuel now entropy disk (codes "POST") path (link c z [])) out_r
            ∙ ap
                (Client.after_request C fuel now entropy disk
                  (λ s. Client.reported (send_file C fuel now path s entropy disk)))
                (request_written post path heard c sends)
            ∙ ap Client.reported run_s,
        ap (λ z. handle_stream C fuel' now' e' disk' (link d z [])) out_s
            ∙ answered C fuel' now' e' disk' post path told [] d path_fits
            ∙ ap (λ o. ok (Server.received o)) run_r,
        in_s,
        in_r,
        file,
        kept,
        there,
        same,
      )
