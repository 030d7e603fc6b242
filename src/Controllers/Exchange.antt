-- ===== src/Controllers/Exchange.antt =====
-- What a party has been given when it takes the steps that commit it: the sender reveals a key only
-- after a ticket for that chunk, the receiver acknowledges only a root that is its own.
use file_transfer_using_libp.Base.{
  ℕ, ◌≡◌, refl, sym, ap, ◌∙◌, subst, inl, inr, Bool-cases, List, ◌++◌, ◌==◌, ◌≤◌, length, list_eq,
  list_eq_sound, arith, IsByte, All, Result, ok, err, panic, fatal,
}
use file_transfer_using_libp.Protocol.State.{TransferState, send_key_reveal, finished}
use file_transfer_using_libp.Protocol.Stream.{Stream, read_full, write}
use file_transfer_using_libp.Protocol.Session.{Session}
use file_transfer_using_libp.Wire.{
  read_sentinel, encode_lottery_ticket, read_lottery_ticket, encode_root, read_root,
  encode_final_ack, send_final_ack,
}
use file_transfer_using_libp.Wire.Reads.{Took}
use file_transfer_using_libp.Wire.Plain.{read_lottery_ticket-IsPlain, read_root-IsPlain}
use file_transfer_using_libp.Wire.Messages.{read_lottery_ticket-Took, read_root-Took}
use file_transfer_using_libp.Crypto.{Crypto}
use file_transfer_using_libp.Merkle.{build_tree, root_of_tree}
use file_transfer_using_libp.Merkle.Shape.{root_of_tree-build_tree}
use file_transfer_using_libp.Controllers.Actions.{and_close}
use file_transfer_using_libp.Controllers.Receiver.{step_receiver_verify_merkle, check_root}
use file_transfer_using_libp.Controllers.Rules.{conn_rule}
use file_transfer_using_libp.Controllers.Sender.{step_sender_wait_lottery_ticket}

-- What a step says that went on: the next state is `send_key_reveal`, and the peer has sent a
-- ticket for the chunk in work.
abbrev pub Ticketed : Session → Result TransferState × Session → Type 0
Ticketed s (ok next, t) =
    (next ≡ send_key_reveal) × Took (encode_lottery_ticket s.current_chunk) s.conn t.conn
Ticketed s (err e, t) = Unit
Ticketed s (panic, t) = ⊥
Ticketed s (fatal e, t) = ⊥

-- On a stream of bytes, the sender goes on to the reveal of the key only where it has taken a
-- ticket for the chunk in work from the connection; else the step is an error, never a panic.
pub step_sender_wait_lottery_ticket-Ticketed :
    (s : Session) → All IsByte s.conn.incoming → Ticketed s (step_sender_wait_lottery_ticket s)
unfolding step_sender_wait_lottery_ticket
step_sender_wait_lottery_ticket-Ticketed s bytes =
    conn_rule (Ticketed s) s _ (read_lottery_ticket s.conn) _ (read_lottery_ticket-IsPlain s.conn)
      (λ idx c e. elim (Bool-cases (idx == s.current_chunk)) [
        | inl same ↦ rw same (
          refl,
          subst (λ i. Took (encode_lottery_ticket i) s.conn c)
              (let p : idx ≡ s.current_chunk = ground arith in p)
              (read_lottery_ticket-Took s.conn c idx bytes e).0,
        )
        | inr differ ↦ rw differ tt
      ])
      (λ e c p. tt)

read_root-outgoing : (c : Stream) → (read_root c).1.outgoing ≡ c.outgoing
unfolding read_root read_sentinel read_full
read_root-outgoing c = ground arith

module _ (C : Crypto) where
  -- What the last step of a receiver says: it went on to `finished` after a root from the peer that
  -- is the root over its own leaves, and then it wrote the acknowledgement; or it failed, and it
  -- wrote nothing.
  abbrev pub Acknowledged : Session → Result TransferState × Session → Type 0
  Acknowledged s (ok next, t) =
      (next ≡ finished)
      × (root : List ℕ) × (root_of_tree (build_tree C s.leaves) ≡ ok root)
      × (s.conn.incoming ≡ encode_root root ++ t.conn.incoming)
      × (t.conn.outgoing ≡ s.conn.outgoing ++ encode_final_ack)
  Acknowledged s (err e, t) = t.conn.outgoing ≡ s.conn.outgoing
  Acknowledged s (panic, t) = ⊥
  Acknowledged s (fatal e, t) = ⊥

  closed-Acknowledged :
      (s : Session) (r : Result TransferState × Session)
      → Acknowledged s r
      → Acknowledged s (and_close r)
  closed-Acknowledged s (ok next, t) h = h
  closed-Acknowledged s (err e, t) h = h
  closed-Acknowledged s (panic, t) h = h
  closed-Acknowledged s (fatal e, t) h = h

  compared-Acknowledged :
      (s : Session) (c : Stream) (local_root remote_root : List ℕ)
      → root_of_tree (build_tree C s.leaves) ≡ ok local_root
      → Took (encode_root remote_root) s.conn c
      → Acknowledged s (check_root (ok local_root) remote_root (record s { conn = c }))
  unfolding send_final_ack write
  compared-Acknowledged s c local_root remote_root h t =
      let same : c.outgoing ≡ s.conn.outgoing = ap (λ (d : Stream). d.outgoing) t.after in
      elim (Bool-cases (list_eq local_root remote_root)) [
        | inl equal ↦ elim (Bool-cases (c.accepts c.outgoing)) [
          | inl written ↦
              rw (equal, written)
                (
                  refl,
                  local_root,
                  h,
                  subst (λ root. s.conn.incoming ≡ encode_root root ++ c.incoming)
                      (sym (list_eq_sound local_root remote_root equal)) t.before,
                  ap (λ xs. xs ++ encode_final_ack) same,
                )
          | inr refused ↦ rw (equal, refused) same
        ]
        | inr differ ↦ rw differ same
      ]

  -- With at least one leaf, the last step of the receiver acknowledges only after the peer has sent
  -- the root over the receiver's own leaves; else it returns an error and writes nothing.
  pub step_receiver_verify_merkle-Acknowledged :
      (s : Session) → 1 ≤ length s.leaves → Acknowledged s (step_receiver_verify_merkle C s)
  unfolding step_receiver_verify_merkle
  step_receiver_verify_merkle-Acknowledged s some_leaves =
      let (root, h) = root_of_tree-build_tree C s.leaves some_leaves in
      closed-Acknowledged s _ (
        conn_rule (Acknowledged s) s _ (read_root s.conn) _ (read_root-IsPlain s.conn)
          (λ remote_root c e.
            subst (λ r. Acknowledged s (check_root r remote_root (record s { conn = c }))) (sym h)
              (compared-Acknowledged s c root remote_root h
                (read_root-Took s.conn c remote_root e).0))
          (λ e c p.
            sym (ap (λ (r : Result (List ℕ) × Stream). r.1.outgoing) p)
            ∙ read_root-outgoing s.conn))
