-- ===== src/Transfer/Turns.antt =====
-- A sender and a receiver that take turns in any order, each over its own session, with what is on
-- its way between them. A round can be made with the bytes that are there; one that needs more waits,
-- and what it wrote before is on its way already.
use file_transfer_using_libp.Base.{ℕ, ◌≡◌, List, [], ◌++◌, Error, eof, wrap, wrap_at, err}
use file_transfer_using_libp.Protocol.Session.{Session}
use file_transfer_using_libp.Protocol.Fsm.{StepTable, returned, again, round}
use file_transfer_using_libp.Wire.Reads.{feed}
use file_transfer_using_libp.Crypto.{Crypto}
use file_transfer_using_libp.Controllers.Sender.{sender_steps}
use file_transfer_using_libp.Controllers.Receiver.{receiver_steps}

-- The error at the bottom of a chain of `%w`.
abbrev pub root_cause : Error → Error
root_cause (wrap what e) = root_cause e
root_cause (wrap_at what i e) = root_cause e
root_cause e = e

-- A session between two rounds, and what the round that it is in has written already.
pub record Party : Type 0 where
  pub session : Session
  pub ahead : List ℕ

abbrev pub party : Session → List ℕ → Party
party s ahead = record { session = s; ahead = ahead }

pub record System : Type 0 where
  pub sender : Party
  pub receiver : Party

-- A turn of one party, in which it says some bytes: a round that is completed, or one that waits
-- because the connection has no more bytes.
pub data Turn (steps : StepTable) : Party → Party → List ℕ → Type 0 where
  completes :
      (s t : Session) (ahead said : List ℕ)
      → round steps s ≡ again t
      → t.conn.outgoing ≡ s.conn.outgoing ++ (ahead ++ said)
      → Turn steps (record { session = s; ahead = ahead }) (record { session = t; ahead = [] }) said
  waits :
      (s t : Session) (e : Error) (ahead said : List ℕ)
      → round steps s ≡ returned (err e) t
      → root_cause e ≡ eof
      → t.conn.outgoing ≡ s.conn.outgoing ++ (ahead ++ said)
      → Turn steps
          (record { session = s; ahead = ahead })
          (record { session = s; ahead = ahead ++ said })
          said

-- A party to which those bytes have come.
abbrev pub with_incoming : List ℕ → Session → Session
with_incoming bytes s = record s { conn = feed s.conn bytes }

abbrev pub given : List ℕ → Party → Party
given bytes p = record p { session = with_incoming bytes p.session }

-- One of the two takes a turn, and the other gets what it said behind what it has still to read.
pub data Move (C : Crypto) : System → System → Type 0 where
  sender_turn :
      (p q r : Party) (said incoming : List ℕ)
      → Turn (sender_steps C) p q said
      → incoming ≡ r.session.conn.incoming ++ said
      → Move C
          (record { sender = p; receiver = r })
          (record { sender = q; receiver = given incoming r })
  receiver_turn :
      (p q r : Party) (said incoming : List ℕ)
      → Turn (receiver_steps C) p q said
      → incoming ≡ r.session.conn.incoming ++ said
      → Move C
          (record { sender = r; receiver = p })
          (record { sender = given incoming r; receiver = q })
