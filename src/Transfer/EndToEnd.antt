-- ===== src/Transfer/EndToEnd.antt =====
-- `SendFile` on one end of a connection and `RecieveFile` on the other, each reading what the other
-- writes.
use file_transfer_using_libp.Base.{
  ℕ, suc, ◌+◌, ◌-◌, ◌*◌, ◌/◌, ◌^◌, ◌≤◌, ◌<◌, ◌≡◌, refl, sym, ap, ap₂, ◌∙◌, subst, true, false,
  Option, none, some, List, [], ◌∷◌, ◌++◌, append-nil, append_assoc, All, IsU32, u32, put_uint64,
  arith, Result, ok, ◌==◌, if◌then◌else◌, wrap,
}
use file_transfer_using_libp.Base
use file_transfer_using_libp.Protocol.Types.{chunk_size}
use file_transfer_using_libp.Protocol.Stream.{Stream}
use file_transfer_using_libp.Protocol.File.{File, Disk}
use file_transfer_using_libp.Protocol.Session.{Session}
use file_transfer_using_libp.Wire.{encode_final_ack}
use file_transfer_using_libp.Crypto.{Crypto, IsLawful}
use file_transfer_using_libp.Merkle.Shape.{root_of_tree-build_tree}
use file_transfer_using_libp.Controllers.Sender.{send_file}
use file_transfer_using_libp.Controllers.Sender.Success.{link}
use file_transfer_using_libp.Controllers.Receiver.{receive_file, received_dir}
use file_transfer_using_libp.Transfer.{Secrets, IsSecret, drawn, receiver_says, with_leaves}
use file_transfer_using_libp.Transfer.Sending.{sender_rounds}
use file_transfer_using_libp.Transfer.Receiving.{receiver_rounds}
use file_transfer_using_libp.Transfer.Content.{with_leaves-some}
use file_transfer_using_libp.Transfer.Each.{pieces, whole_transfer, sends_file, receives_file}

module _ (C : Crypto) (now : ℕ) (f g : File) (path key nonce e e' : List ℕ) (rest : Secrets)
    (c d : Stream) (disk disk' : Disk) (law : IsLawful C)
    (sends : (o : List ℕ) → c.accepts o ≡ true) (answers : (o : List ℕ) → d.accepts o ≡ true)
    (found : disk.open_file path ≡ some f) (stats : f.stats ≡ true) (open' : f.closed ≡ false)
    (readable : f.readable ≡ true) (size : IsU32 (Base.length f.content))
    (name : IsU32 (Base.length f.name))
    (count : (Base.length f.content + chunk_size - 1) / chunk_size ≡ suc (Base.length rest))
    (is_secret : IsSecret (key, nonce)) (are_secrets : All IsSecret rest)
    (made : disk'.create (received_dir ++ f.name) ≡ some g)
    (room : Base.length f.content ≤ g.room) where
  -- A sender to whose connection `said` was written before, and a receiver to whose connection
  -- `said'` was: the one is given `heard` and writes `told`, the other is given `told` and writes
  -- `heard`, and both have read it all when they end.
  pub both_end :
      (said said' : List ℕ)
      → (heard : List ℕ) × (told : List ℕ) × (t : Session) × (t' : Session) × (send_file C
            (suc (suc (sender_rounds rest)))
            now
            path
            (link c heard said)
            (drawn ((key, nonce) ∷ rest) e)
            disk
          ≡ ok (some (ok tt, t)))
        × (receive_file C (suc (suc (receiver_rounds rest))) (link d told said') e' disk'
            ≡ some (ok tt, t'))
        × (t.conn.outgoing ≡ said ++ told)
        × (t'.conn.outgoing ≡ said' ++ heard)
        × (t.conn.incoming ≡ [])
        × (t'.conn.incoming ≡ [])
        × (h : File) × (t'.file ≡ some h)
        × (h.path ≡ received_dir ++ f.name)
        × (h.content ≡ f.content)
  both_end said said' =
      let ss = (key, nonce) ∷ rest in
      let (root, h) =
        root_of_tree-build_tree C (with_leaves C [] (pieces C now f ss))
          (with_leaves-some C law [] (pieces C now f ss) (omega arith)) in
      let fits : IsU32 (suc (Base.length rest)) = omega arith in
      let (t, run_s, in_s, out_s) =
        sends_file C now f path key nonce e root said rest c disk sends found stats open' readable
          fits (omega arith) is_secret are_secrets h in
      let (t', run_r, in_r, out_r, file, kept, there, same) =
        receives_file C now f key nonce e' root said' rest d disk' g law answers made room
          (omega arith) name fits is_secret are_secrets h in
      (
        receiver_says (pieces C now f ss) encode_final_ack,
        whole_transfer C now f ss root,
        t,
        t',
        run_s,
        run_r,
        out_s,
        out_r,
        in_s,
        in_r,
        file,
        kept,
        there,
        same,
      )

-- A whole transfer. The file opens, is not closed, has a `Stat`, can be read, has less than 4 GiB, a
-- name with a 32-bit length, and `1 + length rest` chunks; the receiver can create the output, which
-- has room; both connections accept every write; the sender's randomness starts with a key and a
-- nonce for each chunk; the cryptography keeps its documented laws. Then `SendFile`, reading what the
-- receiver writes, and `RecieveFile`, reading what the sender writes, both return no error, each has
-- read all that the other wrote, and the receiver's file in `./received/` has the content of the
-- sender's.
pub transfer_delivers :
    (C : Crypto) (now : ℕ) (f g : File) (path key nonce e e' : List ℕ) (rest : Secrets)
    (c d : Stream) (disk disk' : Disk)
    → IsLawful C
    → ((o : List ℕ) → c.accepts o ≡ true)
    → ((o : List ℕ) → d.accepts o ≡ true)
    → disk.open_file path ≡ some f
    → f.stats ≡ true
    → f.closed ≡ false
    → f.readable ≡ true
    → IsU32 (Base.length f.content)
    → IsU32 (Base.length f.name)
    → (Base.length f.content + chunk_size - 1) / chunk_size ≡ suc (Base.length rest)
    → IsSecret (key, nonce)
    → All IsSecret rest
    → disk'.create (received_dir ++ f.name) ≡ some g
    → Base.length f.content ≤ g.room
    → (t : Session) × (t' : Session) × (send_file C
          (suc (suc (sender_rounds rest)))
          now
          path
          (link c t'.conn.outgoing [])
          (drawn ((key, nonce) ∷ rest) e)
          disk
        ≡ ok (some (ok tt, t)))
      × (receive_file C (suc (suc (receiver_rounds rest))) (link d t.conn.outgoing []) e' disk'
          ≡ some (ok tt, t'))
      × (t.conn.incoming ≡ [])
      × (t'.conn.incoming ≡ [])
      × (h : File) × (t'.file ≡ some h)
      × (h.path ≡ received_dir ++ f.name)
      × (h.content ≡ f.content)
transfer_delivers C now f g path key nonce e e' rest c d disk disk' law sends answers found stats
      open' readable size name count hk hs made room =
    let (heard, told, t, t', run_s, run_r, out_s, out_r, in_s, in_r, file, kept, there, same) =
      both_end C now f g path key nonce e e' rest c d disk disk' law sends answers found stats open'
        readable size name count hk hs made room [] [] in
    let send = λ (z : List ℕ).
      send_file C (suc (suc (sender_rounds rest))) now path (link c z [])
        (drawn ((key, nonce) ∷ rest) e) disk in
    let receive =
      λ (z : List ℕ). receive_file C (suc (suc (receiver_rounds rest))) (link d z []) e' disk' in
    (t, t', ap send out_r ∙ run_s, ap receive out_s ∙ run_r, in_s, in_r, file, kept, there, same)
