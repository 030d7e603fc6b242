-- ===== src/Transfer/Cut.antt =====
-- `RecieveFile` on the bytes of a transfer that it would accept, where the last of them are missing.
use file_transfer_using_libp.Base.{
  ℕ, suc, ◌+◌, ◌*◌, ◌^◌, ◌≤◌, ◌<◌, ◌≡◌, refl, sym, ap, ◌∙◌, subst, ◌⊎◌, inl, inr, Option, none,
  some, List, [], ◌∷◌, ◌++◌, append_assoc, length, length-append, arith, All, All-append_split,
  IsByte, Error, Act, Result, ok, err, panic, fatal,
}
use file_transfer_using_libp.Protocol.State.{TransferState, error}
use file_transfer_using_libp.Protocol.Types.{Chunk, MetaData, hash_size}
use file_transfer_using_libp.Protocol.Stream.{Stream}
use file_transfer_using_libp.Protocol.File.{Disk}
use file_transfer_using_libp.Protocol.Session.{Session}
use file_transfer_using_libp.Protocol.Progress.{Ended}
use file_transfer_using_libp.Wire.{
  encode_header, encode_root, encode_final_ack, encode_chunk_response, encode_key_reveal,
  read_header, read_root, read_chunk_response, read_key_reveal,
}
use file_transfer_using_libp.Wire.Reads.{feed}
use file_transfer_using_libp.Wire.Header.{read_header-encode}
use file_transfer_using_libp.Wire.Response.{received_chunk, read_chunk_response-encode}
use file_transfer_using_libp.Wire.Messages.{read_key_reveal-encode, read_root-encode}
use file_transfer_using_libp.Crypto.{Crypto}
use file_transfer_using_libp.Merkle.{root_of_tree, build_tree}
use file_transfer_using_libp.Controllers.Receiver.{receive_file}
use file_transfer_using_libp.Transfer.{sender_says, receiver_says, with_leaves}
use file_transfer_using_libp.Transfer.Transcript.{
  EachGenuine, Hearing, HeardAll, sender_says-append,
}
use file_transfer_using_libp.Transfer.Transcript.Whole.{
  HeardAt, receive_file_heard, receive_file-HeardAt,
}

-- One text that begins with two messages begins with the same message.
one_message :
    {A : Type 0} (read : Act Stream A) (c : Stream) (x y xs ys : List ℕ) (a b : A)
    → ((rest : List ℕ) → read (feed c (x ++ rest)) ≡ (ok a, feed c rest))
    → ((rest : List ℕ) → read (feed c (y ++ rest)) ≡ (ok b, feed c rest))
    → x ++ xs ≡ y ++ ys
    → (a ≡ b) × (xs ≡ ys)
one_message {A} read c x y xs ys a b reads_x reads_y e =
    let both = sym (reads_x xs) ∙ ap (λ bs. read (feed c bs)) e ∙ reads_y ys in
    (
      cc (ap (λ (r : Result A × Stream). r.0) both),
      ap (λ (r : Result A × Stream). r.1.incoming) both,
    )

module _ (C : Crypto) (c : Stream) where
  -- One text that begins with the messages on two lists of equally many chunks has the same rest.
  same_chunks :
      (n : ℕ) (file_id file_id' : List ℕ) (ks js : List Chunk) (xs ys : List ℕ)
      → length ks ≡ length js
      → EachGenuine C file_id n ks
      → EachGenuine C file_id' n js
      → sender_says ks xs ≡ sender_says js ys
      → xs ≡ ys
  same_chunks n i i' [] [] xs ys l g g' e = e
  same_chunks n i i' [] (j ∷ js) xs ys l g g' e = absurd (omega arith)
  same_chunks n i i' (k ∷ ks) [] xs ys l g g' e = absurd (omega arith)
  same_chunks n i i' (k ∷ ks) (j ∷ js) xs ys l ((g, w), gs) ((g', w'), gs') e =
      let (_, keys) =
        one_message (read_chunk_response []) c (encode_chunk_response k) (encode_chunk_response j) _
          _ (received_chunk [] k) (received_chunk [] j)
          (λ rest. read_chunk_response-encode [] k rest c w)
          (λ rest. read_chunk_response-encode [] j rest c w') e in
      let (_, rests) =
        one_message read_key_reveal c (encode_key_reveal k.index k.key)
          (encode_key_reveal j.index j.key) _ _ (k.index, k.key) (j.index, j.key)
          (λ rest. read_key_reveal-encode k.index k.key rest c w.index_fits g.key_length)
          (λ rest. read_key_reveal-encode j.index j.key rest c w'.index_fits g'.key_length) keys in
      same_chunks (suc n) i i' ks js xs ys (omega arith) gs gs' rests

  no_root :
      (ks : List Chunk) (root : List ℕ)
      → length ks ≡ 0
      → root_of_tree (build_tree C (with_leaves C [] ks)) ≡ ok root
      → length root ≡ hash_size
      → ⊥
  unfolding root_of_tree build_tree
  no_root [] root none_there e size = omega (arith, ap length (let p : [] ≡ root = cc e in p))
  no_root (k ∷ ks) root none_there e size = absurd (omega arith)

-- The header, the messages on the chunks, and what comes after them.
said_in_order :
    {incoming : List ℕ} (h : MetaData) (ks : List Chunk) (root rest : List ℕ)
    → incoming ≡ (encode_header h ++ sender_says ks (encode_root root)) ++ rest
    → incoming ≡ encode_header h ++ sender_says ks (encode_root root ++ rest)
said_in_order h ks root rest e =
    e
    ∙ append_assoc (encode_header h) (sender_says ks (encode_root root)) rest
    ∙ ap (λ xs. encode_header h ++ xs) (sender_says-append ks (encode_root root) rest)

module _ (C : Crypto) (conn conn' : Stream) (more : List ℕ) (t t' : Session)
    (split : conn'.incoming ++ more ≡ conn.incoming) where
  whole :
      (said : List ℕ)
      → conn'.incoming ≡ said ++ t'.conn.incoming
      → conn.incoming ≡ said ++ (t'.conn.incoming ++ more)
  whole said e = sym split ∙ ap (λ xs. xs ++ more) e ∙ append_assoc said t'.conn.incoming more

  -- Two receivers that are finished, the one with a beginning of what the other had, have read the
  -- same.
  same_rest : HeardAll C conn t → HeardAll C conn' t' → t.conn.incoming ≡ t'.conn.incoming ++ more
  same_rest (h, ks, holds, x) (h', ks', holds', x') = rest_of x x'
    where
      header :
          (xs ys : List ℕ)
          → conn.incoming ≡ encode_header h ++ xs
          → conn.incoming ≡ encode_header h' ++ ys
          → (h ≡ h') × (xs ≡ ys)
      header xs ys e e' =
          one_message read_header conn (encode_header h) (encode_header h') xs ys h h'
            (λ rest. read_header-encode h rest conn holds.wire)
            (λ rest. read_header-encode h' rest conn holds'.wire) (sym e ∙ e')

      rest_of :
          ((h.reps ≡ 0) × Hearing conn t.conn (encode_header h) [])
            ⊎ ((root : List ℕ) × (root_of_tree (build_tree C (with_leaves C [] ks)) ≡ ok root)
                × (length root ≡ hash_size)
                × Hearing conn t.conn
                    (encode_header h ++ sender_says ks (encode_root root))
                    (receiver_says ks encode_final_ack))
          → ((h'.reps ≡ 0) × Hearing conn' t'.conn (encode_header h') [])
            ⊎ ((root : List ℕ) × (root_of_tree (build_tree C (with_leaves C [] ks')) ≡ ok root)
                × (length root ≡ hash_size)
                × Hearing conn' t'.conn
                    (encode_header h' ++ sender_says ks' (encode_root root))
                    (receiver_says ks' encode_final_ack))
          → t.conn.incoming ≡ t'.conn.incoming ++ more
      rest_of (inl (zero, heard)) (inl (zero', heard')) =
          (header _ _ heard.has_heard (whole (encode_header h') heard'.has_heard)).1
      rest_of (inl (zero, heard)) (inr (root', e', size', heard')) =
          let (same, _) =
            header _ _ heard.has_heard (said_in_order h' ks' root' _ (whole _ heard'.has_heard)) in
          let reps = ap (λ (m : MetaData). m.reps) same in
          absurd (no_root C conn ks' root' (holds'.count ∙ sym reps ∙ zero) e' size')
      rest_of (inr (root, e, size, heard)) (inl (zero', heard')) =
          let (same, _) =
            header _ _ (said_in_order h ks root _ heard.has_heard)
              (whole (encode_header h') heard'.has_heard) in
          let reps = ap (λ (m : MetaData). m.reps) same in
          absurd (no_root C conn ks root (holds.count ∙ reps ∙ zero') e size)
      rest_of (inr (root, e, size, heard)) (inr (root', e', size', heard')) =
          let (same, says) =
            header _ _ (said_in_order h ks root _ heard.has_heard)
              (said_in_order h' ks' root' _ (whole _ heard'.has_heard)) in
          let reps = ap (λ (m : MetaData). m.reps) same in
          let roots =
            same_chunks C conn 0 h.file_id h'.file_id ks ks' _ _
              (holds.count ∙ reps ∙ sym holds'.count) holds.each holds'.each says in
          (one_message read_root conn (encode_root root) (encode_root root') _ _ root root'
            (λ rest. read_root-encode root rest conn size)
            (λ rest. read_root-encode root' rest conn size') roots).1

-- Where it cannot be finished, a call of `Run` that ends has failed.
only_fails :
    (At : TransferState → Session → Type 0) (r : Option (Result (Unit {0}) × Session))
    → Ended At r
    → ((t : Session) → At TransferState.finished t → ⊥)
    → (e : Error) × (t : Session) × (r ≡ some (err e, t)) × (t.state ≡ error)
only_fails At none ended never = absurd ended
only_fails At (some (ok _, t)) ended never = absurd (never t ended.1)
only_fails At (some (err e, t)) ended never = (e, t, refl, ended.0)
only_fails At (some (panic, t)) ended never = absurd ended
only_fails At (some (fatal e, t)) ended never = absurd ended

-- Where `RecieveFile` returns without an error, and has read all bytes of its connection, then on any
-- connection with only a beginning of those bytes it ends with an error, given more than
-- `5 * 2 ^ 32 + 3` rounds, and the state is `error`.
pub receive_file_cut :
    (C : Crypto) (fuel fuel' : ℕ) (conn conn' : Stream) (entropy entropy' : List ℕ)
    (disk disk' : Disk) (t : Session) (more : List ℕ)
    → All IsByte conn.incoming
    → receive_file C fuel conn entropy disk ≡ some (ok tt, t)
    → t.conn.incoming ≡ []
    → conn'.incoming ++ more ≡ conn.incoming
    → 1 ≤ length more
    → 5 * 2 ^ 32 + 3 < fuel'
    → (e : Error) × (t' : Session) × (receive_file C fuel' conn' entropy' disk' ≡ some (err e, t'))
      × (t'.state ≡ error)
receive_file_cut C fuel fuel' conn conn' entropy entropy' disk disk' t more bytes run_r all_read
      split some_more enough =
    let heard = receive_file_heard C fuel conn entropy disk t bytes run_r in
    let bytes' =
      (All-append_split IsByte conn'.incoming more (subst (All IsByte) (sym split) bytes)).0 in
    only_fails (HeardAt C conn') (receive_file C fuel' conn' entropy' disk')
      (receive_file-HeardAt C fuel' conn' entropy' disk' bytes' enough)
      λ t' heard'.
        let rest = sym all_read ∙ same_rest C conn conn' more t t' split heard.1 heard'.1 in
        omega (arith, some_more, ap length rest, length-append t'.conn.incoming more)
