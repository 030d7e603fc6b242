-- ===== src/Controllers/Receiver/Rounds.antt =====
-- The steps of the receiver: what holds in each state, and that each step keeps it and comes nearer
-- to the end.
use file_transfer_using_libp.Base.{
  ℕ, suc, ◌+◌, ◌-◌, ◌*◌, ◌^◌, ◌≤◌, ◌<◌, ◌≡◌, refl, sym, ap, ◌∙◌, subst, Bool, Option, none, some,
  List, [], ◌∷◌, ◌++◌, IsU32, IsByte, All, arith, Error, wrap, wrap_at, true, false, Result, ok,
  err, panic, fatal, IsPlain, ◌==◌, if◌then◌else◌, Bool-cases, ==_iff, inl, inr, and_then, pure,
}
use file_transfer_using_libp.Base
use file_transfer_using_libp.Protocol.State.{TransferState, is_allowed}
use file_transfer_using_libp.Protocol.Types.{Chunk, nonce_size, key_size, hash_size}
use file_transfer_using_libp.Protocol.File.{File}
use file_transfer_using_libp.Protocol.Session.{Session}
use file_transfer_using_libp.Protocol.Progress.{Leads}
use file_transfer_using_libp.Wire.{
  send_chunk_request, read_chunk_response, send_lottery_ticket, read_key_reveal,
  encode_chunk_request, encode_lottery_ticket,
}
use file_transfer_using_libp.Wire.Plain.{
  write-IsPlain, read_chunk_response-IsPlain, read_key_reveal-IsPlain,
}
use file_transfer_using_libp.Wire.Messages.{read_key_reveal_key}
use file_transfer_using_libp.Wire.Response.{read_chunk_response_nonce}
use file_transfer_using_libp.Crypto.{Crypto}
use file_transfer_using_libp.Controllers.Actions.{on_some_pending}
use file_transfer_using_libp.Controllers.Rules.{conn_rule}
use file_transfer_using_libp.Controllers.Receiver.{
  step_receiver_idle, step_receiver_send_chunk_request, step_receiver_wait_chunk_response,
  step_receiver_send_lottery_ticket, step_receiver_wait_key_reveal, keep_response, keep_key,
  set_key,
}
use file_transfer_using_libp.Controllers.Receiver.Verified.{Verified}

-- Nothing was received yet.
abbrev pub IsFresh : Session → Type 0
IsFresh s = (s.current_chunk ≡ 0) × (s.leaves ≡ []) × All IsByte s.conn.incoming

-- The chunk in flight, with a nonce of the right size.
abbrev pub HasPending : Session → Type 0
HasPending s =
    (c : Chunk) × (s.pending_chunk ≡ some c)
    × (Base.length c.nonce ≡ nonce_size)
    × (c.file_id ≡ s.file_id)
    × (c.index ≡ s.current_chunk)

-- The key of the chunk in flight has the right size.
abbrev pub HasKey : Session → Type 0
HasKey s = (c : Chunk) × (s.pending_chunk ≡ some c) × (Base.length c.key ≡ key_size)

module _ (C : Crypto) where
  -- The output file holds the plaintexts of `n` verified chunks, and no more.
  abbrev pub HasVerified : ℕ → Session → Type 0
  HasVerified n s = (f : File) × (s.file ≡ some f) × Verified C s.file_id n s.leaves f.content

  -- A chunk is in work, and those before it are verified.
  abbrev pub InChunk : Session → Type 0
  InChunk s =
      (s.current_chunk < s.total_chunks)
      × IsU32 s.total_chunks
      × (Base.length s.file_id ≡ hash_size)
      × HasVerified s.current_chunk s

  -- The whole file is verified and closed.
  abbrev pub IsReceived : Session → Type 0
  IsReceived s =
      (f : File) × (s.file ≡ some f)
      × (f.closed ≡ true)
      × Verified C s.file_id s.total_chunks s.leaves f.content

  -- What holds of a receiver's session in each state; the sender's states are not reached.
  abbrev pub ReceiverAt : TransferState → Session → Type 0
  ReceiverAt TransferState.idle s = IsFresh s
  ReceiverAt TransferState.receive_header s = IsFresh s
  ReceiverAt TransferState.send_chunk_request s = InChunk s
  ReceiverAt TransferState.waiting_chunk_response s = InChunk s
  ReceiverAt TransferState.send_lottery_ticket s = InChunk s × HasPending s
  ReceiverAt TransferState.waiting_key_reveal s = InChunk s × HasPending s
  ReceiverAt TransferState.verify_chunk s = InChunk s × HasPending s × HasKey s
  ReceiverAt TransferState.verify_merkle s = HasVerified s.total_chunks s × (0 < s.total_chunks)
  ReceiverAt TransferState.finished s = IsReceived s
  ReceiverAt _ s = ⊥

-- A bound on the rounds that are left. Before the header is there, the number of chunks is only
-- known to be a uint32.
abbrev rank : TransferState → ℕ → ℕ
rank TransferState.idle n = 5 * 2 ^ 32 + 3
rank TransferState.receive_header n = 5 * 2 ^ 32 + 2
rank TransferState.send_chunk_request n = 5 * n + 1
rank TransferState.waiting_chunk_response n = 5 * n
rank TransferState.send_lottery_ticket n = 5 * n - 1
rank TransferState.waiting_key_reveal n = 5 * n - 2
rank TransferState.verify_chunk n = 5 * n - 3
rank TransferState.verify_merkle n = 1
rank _ n = 0

abbrev pub receiver_rank : TransferState → Session → ℕ
receiver_rank st s = rank st (s.total_chunks - s.current_chunk)

module _ (C : Crypto) where
  -- A step of the receiver from `st`.
  abbrev pub ReceiverLeads : TransferState → Session → Result TransferState × Session → Type 0
  ReceiverLeads = Leads (ReceiverAt C) receiver_rank

  pub idle_leads :
      (s : Session)
      → s.state ≡ TransferState.idle
      → IsFresh s
      → ReceiverLeads TransferState.idle s (step_receiver_idle s)
  unfolding step_receiver_idle is_allowed
  idle_leads s h v = (h, refl, v, omega arith)

  pub send_chunk_request_leads :
      (s : Session)
      → s.state ≡ TransferState.send_chunk_request
      → InChunk C s
      → ReceiverLeads TransferState.send_chunk_request s (step_receiver_send_chunk_request s)
  unfolding step_receiver_send_chunk_request is_allowed
  send_chunk_request_leads s h v =
      conn_rule (ReceiverLeads TransferState.send_chunk_request s) s _
        (send_chunk_request s.current_chunk s.conn) _
        (unfold send_chunk_request in write-IsPlain (encode_chunk_request s.current_chunk) s.conn)
        (λ _ c e. (h, refl, v, omega arith)) (λ e c p. tt)

  kept_response :
      (s : Session) (k : Chunk)
      → s.state ≡ TransferState.waiting_chunk_response
      → InChunk C s
      → (Base.length k.nonce ≡ nonce_size) × (k.file_id ≡ s.file_id)
      → ReceiverLeads TransferState.waiting_chunk_response s (keep_response k s)
  unfolding is_allowed
  kept_response s k h v n = elim (Bool-cases (k.index == s.current_chunk)) [
    | inl e ↦
        rw e (h, refl, (v, (k, refl, n.0, n.1, (==_iff k.index s.current_chunk).0 e)), omega arith)
    | inr e ↦ rw e tt
  ]

  pub wait_chunk_response_leads :
      (s : Session)
      → s.state ≡ TransferState.waiting_chunk_response
      → InChunk C s
      → ReceiverLeads TransferState.waiting_chunk_response s (step_receiver_wait_chunk_response s)
  unfolding step_receiver_wait_chunk_response
  wait_chunk_response_leads s h v =
      conn_rule (ReceiverLeads TransferState.waiting_chunk_response s) s _
        (read_chunk_response s.file_id s.conn) _ (read_chunk_response-IsPlain s.file_id s.conn)
        (λ k c e.
          kept_response (record s { conn = c }) k h v
            (read_chunk_response_nonce s.file_id s.conn c k e))
        (λ e c p. tt)

  pub send_lottery_ticket_leads :
      (s : Session)
      → s.state ≡ TransferState.send_lottery_ticket
      → InChunk C s × HasPending s
      → ReceiverLeads TransferState.send_lottery_ticket s (step_receiver_send_lottery_ticket s)
  unfolding step_receiver_send_lottery_ticket is_allowed
  send_lottery_ticket_leads s h v =
      conn_rule (ReceiverLeads TransferState.send_lottery_ticket s) s _
        (send_lottery_ticket s.current_chunk s.conn) _
        (unfold send_lottery_ticket in write-IsPlain (encode_lottery_ticket s.current_chunk) s.conn)
        (λ _ c e. (h, refl, v, omega arith)) (λ e c p. tt)

  -- A key for another chunk is refused; else it is stored with the chunk in flight.
  kept_key :
      (s : Session) (revealed : ℕ × List ℕ)
      → Base.length revealed.1 ≡ key_size
      → s.state ≡ TransferState.waiting_key_reveal
      → InChunk C s × HasPending s
      → ReceiverLeads TransferState.waiting_key_reveal s (keep_key revealed s)
  unfolding is_allowed
  kept_key s (idx, key) size h (v, (k, e, n, i, x)) = elim (Bool-cases (idx == s.current_chunk)) [
    | inl same ↦ rw same (
        subst
          (λ o.
            ReceiverLeads TransferState.waiting_key_reveal s
              (and_then (on_some_pending (set_key key) o s) (λ _. pure TransferState.verify_chunk)))
          (sym e)
          (
            h,
            refl,
            (v, (record k { key = key }, refl, n, i, x), (record k { key = key }, refl, size)),
            omega arith,
          ))
    | inr differ ↦ rw differ tt
  ]

  pub wait_key_reveal_leads :
      (s : Session)
      → s.state ≡ TransferState.waiting_key_reveal
      → InChunk C s × HasPending s
      → ReceiverLeads TransferState.waiting_key_reveal s (step_receiver_wait_key_reveal s)
  unfolding step_receiver_wait_key_reveal
  wait_key_reveal_leads s h v =
      conn_rule (ReceiverLeads TransferState.waiting_key_reveal s) s _ (read_key_reveal s.conn) _
        (read_key_reveal-IsPlain s.conn)
        (λ revealed c e.
          kept_key (record s { conn = c }) revealed (read_key_reveal_key s.conn c revealed e) h v)
        (λ e c p. tt)
