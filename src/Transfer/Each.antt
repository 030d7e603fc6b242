-- ===== src/Transfer/Each.antt =====
-- `SendFile` and `RecieveFile`, each on a connection that delivers what an honest peer writes.
use file_transfer_using_libp.Base.{
  ℕ, suc, ◌+◌, ◌-◌, ◌*◌, ◌/◌, ◌^◌, ◌≤◌, ◌<◌, ◌≡◌, refl, sym, ap, ap₂, ◌∙◌, subst, true, false,
  Option, none, some, List, [], ◌∷◌, ◌++◌, append-nil, append_assoc, All, IsU32, u32, put_uint64,
  arith, Result, ok, ◌==◌, if◌then◌else◌, wrap,
}
use file_transfer_using_libp.Base
use file_transfer_using_libp.Protocol.Types.{Chunk, MetaData, chunk_size}
use file_transfer_using_libp.Protocol.Stream.{Stream}
use file_transfer_using_libp.Protocol.File.{File, Disk, created, close_file}
use file_transfer_using_libp.Protocol.Session.{Session, new_session}
use file_transfer_using_libp.Wire.{encode_header, encode_root, encode_final_ack}
use file_transfer_using_libp.Wire.Header.{IsWireHeader}
use file_transfer_using_libp.Crypto.{Crypto, IsLawful, keccak}
use file_transfer_using_libp.Merkle.{build_tree, root_of_tree}
use file_transfer_using_libp.Controllers.Sender.{
  session_header, sender_session, generate_file_id, prepare_metadata, open_session, open_found,
  send_file, run_prepared, close_sent,
}
use file_transfer_using_libp.Controllers.Sender.Success.{link}
use file_transfer_using_libp.Controllers.Receiver.{receive_file, received_dir}
use file_transfer_using_libp.Transfer.{
  Secrets, IsSecret, drawn, chunks_from, sender_says, receiver_says, with_leaves,
}
use file_transfer_using_libp.Transfer.Sending.{sender_rounds, sends_every_chunk}
use file_transfer_using_libp.Transfer.Receiving.{filled, receiver_rounds, receives_every_chunk}
use file_transfer_using_libp.Transfer.Content.{
  close_file-filled, close_file-filled_path, with_leaves-IsHash, with_leaves-some, length-root,
}
use file_transfer_using_libp.Transfer.Opening.{informed, sends_header, receives_header}

module _ (C : Crypto) (now : ℕ) (f : File) where
  -- The id that the sender generates at the time `now`, and its header with so many chunks.
  abbrev pub id_of : List ℕ
  id_of = keccak C (f.name ∷ put_uint64 (Base.length f.content) ∷ put_uint64 now ∷ [])

  abbrev pub header_of : ℕ → MetaData
  header_of n = record {
    name = f.name;
    file_size = u32 (Base.length f.content);
    reps = n;
    file_id = id_of;
  }

  pub opened :
      (path e : List ℕ) (c : Stream) (disk : Disk) (n : ℕ)
      → disk.open_file path ≡ some f
      → f.stats ≡ true
      → u32 ((Base.length f.content + chunk_size - 1) / chunk_size) ≡ n
      → open_session C now path c e disk ≡ ok (sender_session C f id_of (header_of n) c e disk)
  unfolding open_session generate_file_id prepare_metadata keccak
  opened path e c disk n found stats count =
      ap (open_found C now c e disk) found ∙ rw (stats, count) refl

  -- The chunks of the file, and what the sender writes in the course of the transfer.
  abbrev pub pieces : Secrets → List Chunk
  pieces ss = chunks_from C id_of f.content 0 ss

  abbrev pub whole_transfer : Secrets → List ℕ → List ℕ
  whole_transfer ss root =
      encode_header (header_of (Base.length ss)) ++ sender_says (pieces ss) (encode_root root)

  -- `SendFile`, when it reads the requests and tickets of every chunk and the final ack, on a
  -- connection to which `said` was written before.
  pub sends_file :
      (path key nonce e root said : List ℕ) (rest : Secrets) (c : Stream) (disk : Disk)
      → ((o : List ℕ) → c.accepts o ≡ true)
      → disk.open_file path ≡ some f
      → f.stats ≡ true
      → f.closed ≡ false
      → f.readable ≡ true
      → IsU32 (suc (Base.length rest))
      → u32 ((Base.length f.content + chunk_size - 1) / chunk_size) ≡ suc (Base.length rest)
      → IsSecret (key, nonce)
      → All IsSecret rest
      → let ss = (key, nonce) ∷ rest in
        root_of_tree (build_tree C (with_leaves C [] (pieces ss))) ≡ ok root
        → (t : Session) × (send_file C
              (suc (suc (sender_rounds rest)))
              now
              path
              (link c (receiver_says (pieces ss) encode_final_ack) said)
              (drawn ss e)
              disk
            ≡ ok (some (ok tt, t)))
          × (t.conn.incoming ≡ [])
          × (t.conn.outgoing ≡ said ++ whole_transfer ss root)
  unfolding send_file sender_session session_header new_session
  sends_file path key nonce e root said rest c disk accepts found stats open' readable fits count hk
        hs h =
      let ss = (key, nonce) ∷ rest in
      let n = suc (Base.length rest) in
      let c0 = link c (receiver_says (pieces ss) encode_final_ack) said in
      let s = sender_session C f id_of (header_of n) c0 (drawn ss e) disk in
      (
        _,
        ap (run_prepared C (suc (suc (sender_rounds rest))))
              (opened path (drawn ss e) c0 disk n found stats count)
            ∙ ap (λ r. ok (close_sent C r))
                (sends_header C s f c accepts (sender_rounds rest)
                    (receiver_says (pieces ss) (encode_final_ack ++ [])) said (drawn ss e)
                    (Base.length rest) refl
                  ∙ sends_every_chunk C s f c accepts open' readable rest []
                      (said ++ encode_header (session_header s)) key nonce e root 0 none []
                      (omega arith) fits hk hs h),
        refl,
        append_assoc said (encode_header (session_header s))
              (sender_says (pieces ss) (encode_root root))
            ∙ ap
                (λ z.
                  said
                  ++ (encode_header (record (header_of n) { file_size = z })
                      ++ sender_says (pieces ss) (encode_root root)))
                (let e : u32 (u32 (Base.length f.content)) ≡ u32 (Base.length f.content) =
                    omega arith in
                  e),
      )

  -- `RecieveFile`, when it reads all that the sender writes, on a connection to which `said` was
  -- written before.
  pub receives_file :
      (key nonce e root said : List ℕ) (rest : Secrets) (d : Stream) (disk : Disk) (g : File)
      → IsLawful C
      → ((o : List ℕ) → d.accepts o ≡ true)
      → disk.create (received_dir ++ f.name) ≡ some g
      → Base.length f.content ≤ g.room
      → Base.length f.content ≤ chunk_size * suc (Base.length rest)
      → IsU32 (Base.length f.name)
      → IsU32 (suc (Base.length rest))
      → IsSecret (key, nonce)
      → All IsSecret rest
      → let ss = (key, nonce) ∷ rest in
        root_of_tree (build_tree C (with_leaves C [] (pieces ss))) ≡ ok root
        → (t : Session) × (receive_file C
              (suc (suc (receiver_rounds rest)))
              (link d (whole_transfer ss root) said)
              e
              disk
            ≡ some (ok tt, t))
          × (t.conn.incoming ≡ [])
          × (t.conn.outgoing ≡ said ++ receiver_says (pieces ss) encode_final_ack)
          × (h : File) × (t.file ≡ some h)
          × (h.path ≡ received_dir ++ f.name)
          × (h.content ≡ f.content)
  unfolding receive_file created keccak
  receives_file key nonce e root said rest d disk g law accepts made room covered name fits hk hs
        h =
      let ss = (key, nonce) ∷ rest in
      let head = header_of (suc (Base.length rest)) in
      let out = created (received_dir ++ f.name) g in
      let wire : IsWireHeader head = record {
        reps_fits = fits;
        size_fits = omega arith;
        id_size = law.length-keccak256 _;
        name_fits = name;
      } in
      let size =
        length-root C law (with_leaves C [] (pieces ss)) root
          (with_leaves-some C law [] (pieces ss) (omega arith))
          (with_leaves-IsHash C law [] (pieces ss) tt) h in
      let inc = sender_says (pieces ss) (encode_root root ++ []) in
      (
        _,
        ap
              (λ z.
                receive_file C (suc (suc (receiver_rounds rest)))
                  (link d (encode_header head ++ sender_says (pieces ss) z) said) e disk)
              (sym (append-nil (encode_root root)))
            ∙ receives_header C d accepts e disk (receiver_rounds rest) head inc said g
                (Base.length rest) wire refl made
            ∙ receives_every_chunk C law (informed C d accepts e disk head) f.content d accepts rest
                out [] said key nonce root 0 none [] (omega arith) fits hk hs refl (omega arith)
                size h,
        refl,
        refl,
        (close_file (filled out (pieces ss))).1,
        refl,
        close_file-filled_path out (pieces ss),
        close_file-filled C id_of f.content ss out refl covered,
      )
