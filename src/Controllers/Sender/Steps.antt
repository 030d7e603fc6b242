-- ===== src/Controllers/Sender/Steps.antt =====
-- The steps of the sender: what holds in each state, and that each step keeps it and comes nearer to
-- the end.
use file_transfer_using_libp.Base.{
  ℕ, suc, ◌+◌, ◌-◌, ◌*◌, ◌<◌, ◌≡◌, refl, sym, subst, some, List, [], ◌∷◌, ◌++◌, length,
  length-append, IsU32, arith, wrap, Result, ok,
}
use file_transfer_using_libp.Protocol.State.{TransferState, is_allowed}
use file_transfer_using_libp.Protocol.Types.{Chunk}
use file_transfer_using_libp.Protocol.Session.{Session}
use file_transfer_using_libp.Protocol.Progress.{Leads}
use file_transfer_using_libp.Wire.{
  send_header, read_chunk_request, read_lottery_ticket, send_chunk_response, send_key_reveal,
  send_root, read_final_ack, encode_header, encode_chunk_response, encode_key_reveal, encode_root,
}
use file_transfer_using_libp.Wire.Plain.{
  write-IsPlain, read_chunk_request-IsPlain, read_lottery_ticket-IsPlain, read_final_ack-IsPlain,
}
use file_transfer_using_libp.Crypto.{Crypto, build_and_encrypt_chunk}
use file_transfer_using_libp.Merkle.{root_of_tree, build_tree, generate_leaf}
use file_transfer_using_libp.Merkle.Shape.{root_of_tree-build_tree}
use file_transfer_using_libp.Controllers.Actions.{finish_chunk, read_chunk_plaintext}
use file_transfer_using_libp.Controllers.Rules.{conn_rule, entropy_rule, file_rule}
use file_transfer_using_libp.Controllers.Plain.{
  on_some_file-IsPlain, read_chunk_plaintext-IsPlain, build_and_encrypt_chunk-IsPlain,
}
use file_transfer_using_libp.Controllers.Sender.{
  session_header, step_sender_idle, step_sender_send_header, step_sender_wait_chunk_request,
  step_sender_send_chunk_response, step_sender_wait_lottery_ticket, step_sender_send_key_reveal,
  step_sender_verify_merkle, reveal, verify_root,
}

-- A chunk is in work, and each chunk before it has its leaf.
pub record InChunk (s : Session) : Type 0 where
  pub in_range : s.current_chunk < s.total_chunks
  pub fits : IsU32 s.total_chunks
  pub leaves_done : length s.leaves ≡ s.current_chunk

-- Nothing is sent yet.
pub record IsFresh (s : Session) : Type 0 where
  pub first_chunk : s.current_chunk ≡ 0
  pub fits : IsU32 s.total_chunks
  pub no_leaves : s.leaves ≡ []

-- Every chunk has its leaf.
pub record IsComplete (s : Session) : Type 0 where
  pub leaves_done : length s.leaves ≡ s.total_chunks

-- What holds of a sender's session in each state; a state that is not the sender's is not reached.
abbrev pub SenderAt : TransferState → Session → Type 0
SenderAt TransferState.idle s = IsFresh s
SenderAt TransferState.send_header s = IsFresh s
SenderAt TransferState.waiting_chunk_request s = InChunk s
SenderAt TransferState.send_chunk_response s = InChunk s
SenderAt TransferState.waiting_lottery_ticket s =
    InChunk s × ((c : Chunk) × (s.pending_chunk ≡ some c))
SenderAt TransferState.send_key_reveal s = InChunk s × ((c : Chunk) × (s.pending_chunk ≡ some c))
SenderAt TransferState.verify_merkle s = IsComplete s × (0 < s.total_chunks)
SenderAt TransferState.finished s = IsComplete s
SenderAt _ s = ⊥

-- A bound on the rounds that are left, by the state and the chunks that are left.
abbrev rank : TransferState → ℕ → ℕ
rank TransferState.idle n = 4 * n + 3
rank TransferState.send_header n = 4 * n + 2
rank TransferState.waiting_chunk_request n = 4 * n + 1
rank TransferState.send_chunk_response n = 4 * n
rank TransferState.waiting_lottery_ticket n = 4 * n - 1
rank TransferState.send_key_reveal n = 4 * n - 2
rank TransferState.verify_merkle n = 1
rank _ n = 0

abbrev pub sender_rank : TransferState → Session → ℕ
sender_rank st s = rank st (s.total_chunks - s.current_chunk)

-- The field `state` is not part of what holds.
pub sender_keeps :
    (next : TransferState) (t : Session)
    → SenderAt next t
    → SenderAt next (record t { state = next })
sender_keeps TransferState.idle t v = ground arith
sender_keeps TransferState.send_header t v = ground arith
sender_keeps TransferState.waiting_chunk_request t v = ground arith
sender_keeps TransferState.send_chunk_response t v = ground arith
sender_keeps TransferState.waiting_lottery_ticket t (v, p) = (ground arith, p)
sender_keeps TransferState.send_key_reveal t (v, p) = (ground arith, p)
sender_keeps TransferState.verify_merkle t v = ground arith
sender_keeps TransferState.finished t v = ground arith
sender_keeps _ t v = absurd v

-- A step of the sender from `st`.
abbrev pub SenderLeads : TransferState → Session → Result TransferState × Session → Type 0
SenderLeads = Leads SenderAt sender_rank

-- The end of a chunk: the next one begins, or the tree is verified.
finish_chunk_leads :
    (s t : Session)
    → s.state ≡ TransferState.send_key_reveal
    → InChunk s
    → t ≡ record s { leaves = t.leaves; conn = t.conn; pending_chunk = t.pending_chunk }
    → length t.leaves ≡ suc (length s.leaves)
    → SenderLeads TransferState.send_key_reveal s
        (finish_chunk TransferState.waiting_chunk_request t)
unfolding finish_chunk is_allowed
finish_chunk_leads s t h v e l = ground arith

module _ (C : Crypto) where
  pub idle_leads :
      (s : Session)
      → s.state ≡ TransferState.idle
      → IsFresh s
      → SenderLeads TransferState.idle s (step_sender_idle s)
  unfolding step_sender_idle is_allowed
  idle_leads s h v = ground arith

  pub send_header_leads :
      (s : Session)
      → s.state ≡ TransferState.send_header
      → IsFresh s
      → SenderLeads TransferState.send_header s (step_sender_send_header s)
  unfolding step_sender_send_header is_allowed
  send_header_leads s h v =
      conn_rule (SenderLeads TransferState.send_header s) s (wrap "sending header")
        (send_header (session_header s) s.conn) _
        (unfold send_header in write-IsPlain (encode_header (session_header s)) s.conn)
        (λ _ c e. ground arith) (λ e c p. tt)

  pub wait_chunk_request_leads :
      (s : Session)
      → s.state ≡ TransferState.waiting_chunk_request
      → InChunk s
      → SenderLeads TransferState.waiting_chunk_request s (step_sender_wait_chunk_request s)
  unfolding step_sender_wait_chunk_request is_allowed
  wait_chunk_request_leads s h v =
      conn_rule (SenderLeads TransferState.waiting_chunk_request s) s _ (read_chunk_request s.conn)
        _ (read_chunk_request-IsPlain s.conn) (λ idx c e. ground arith) (λ e c p. tt)

  pub send_chunk_response_leads :
      (s : Session)
      → s.state ≡ TransferState.send_chunk_response
      → InChunk s
      → SenderLeads TransferState.send_chunk_response s (step_sender_send_chunk_response C s)
  unfolding step_sender_send_chunk_response is_allowed
  send_chunk_response_leads s h v =
      let P = SenderLeads TransferState.send_chunk_response s in
      file_rule P s _ _ _
        (on_some_file-IsPlain (read_chunk_plaintext s.current_chunk s.chunk_size) s.file
          (read_chunk_plaintext-IsPlain s.current_chunk s.chunk_size))
        (λ plaintext f e.
          entropy_rule P (record s { file = f })
            (build_and_encrypt_chunk C s.file_id s.current_chunk plaintext s.entropy) _
            (build_and_encrypt_chunk-IsPlain C s.file_id s.current_chunk plaintext s.entropy)
            (λ k rest e'.
              conn_rule P (record s { file = f; entropy = rest }) _ (send_chunk_response k s.conn) _
                (unfold send_chunk_response in write-IsPlain (encode_chunk_response k) s.conn)
                (λ _ c e''. ground arith) (λ e c p. tt))
            (λ e rest p. tt))
        (λ e f p. tt)

  pub wait_lottery_ticket_leads :
      (s : Session)
      → s.state ≡ TransferState.waiting_lottery_ticket
      → SenderAt TransferState.waiting_lottery_ticket s
      → SenderLeads TransferState.waiting_lottery_ticket s (step_sender_wait_lottery_ticket s)
  unfolding step_sender_wait_lottery_ticket is_allowed
  wait_lottery_ticket_leads s h v =
      conn_rule (SenderLeads TransferState.waiting_lottery_ticket s) s _
        (read_lottery_ticket s.conn) _ (read_lottery_ticket-IsPlain s.conn)
        (λ idx c e. ground arith) (λ e c p. tt)

  reveal_leads :
      (s : Session) (k : Chunk)
      → s.state ≡ TransferState.send_key_reveal
      → InChunk s
      → SenderLeads TransferState.send_key_reveal s (reveal C (some k) s)
  reveal_leads s k h v =
      conn_rule (SenderLeads TransferState.send_key_reveal s) s _
        (send_key_reveal s.current_chunk k.key s.conn) _
        (unfold send_key_reveal in write-IsPlain (encode_key_reveal s.current_chunk k.key) s.conn)
        (λ _ c e.
          finish_chunk_leads s
            (record s {
              conn = c;
              pending_chunk = some (record k { leaf = generate_leaf C k });
              leaves = s.leaves ++ (generate_leaf C k ∷ []);
            })
            h v refl (omega (arith, length-append {0} s.leaves (generate_leaf C k ∷ []))))
        (λ e c p. tt)

  pub send_key_reveal_leads :
      (s : Session)
      → s.state ≡ TransferState.send_key_reveal
      → SenderAt TransferState.send_key_reveal s
      → SenderLeads TransferState.send_key_reveal s (step_sender_send_key_reveal C s)
  unfolding step_sender_send_key_reveal
  send_key_reveal_leads s h (v, (k, e)) =
      subst (λ o. SenderLeads TransferState.send_key_reveal s (reveal C o s)) (sym e)
        (reveal_leads s k h v)

  root_leads :
      (s : Session) (r : Result (List ℕ)) (root : List ℕ)
      → s.state ≡ TransferState.verify_merkle
      → SenderAt TransferState.verify_merkle s
      → r ≡ ok root
      → SenderLeads TransferState.verify_merkle s (verify_root r s)
  unfolding is_allowed
  root_leads s r root h v e =
      let P = SenderLeads TransferState.verify_merkle s in
      subst (λ r'. P (verify_root r' s)) (sym e)
        (conn_rule P s _ (send_root root s.conn) _
          (unfold send_root in write-IsPlain (encode_root root) s.conn)
          (λ _ c e'.
            conn_rule P (record s { conn = c }) _ (read_final_ack c) _ (read_final_ack-IsPlain c)
              (λ _ d e''. ground arith) (λ e c p. tt))
          (λ e c p. tt))

  pub verify_merkle_leads :
      (s : Session)
      → s.state ≡ TransferState.verify_merkle
      → SenderAt TransferState.verify_merkle s
      → SenderLeads TransferState.verify_merkle s (step_sender_verify_merkle C s)
  unfolding step_sender_verify_merkle
  verify_merkle_leads s h v =
      let (root, e) = root_of_tree-build_tree C s.leaves (omega arith) in
      root_leads s (root_of_tree (build_tree C s.leaves)) root h v e
