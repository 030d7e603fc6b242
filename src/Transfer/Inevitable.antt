-- ===== src/Transfer/Inevitable.antt =====
-- What two parties that take turns come to in any order of their turns.
use file_transfer_using_libp.Base.{
  ℕ, ◌≡◌, ◌≢◌, sym, ap, ap₂, ◌∙◌, subst, ◌⊎◌, inl, inr, true, some, List, [], ◌++◌, append-nil, ok,
}
use file_transfer_using_libp.Protocol.State.{TransferState, is_allowed}
use file_transfer_using_libp.Protocol.Session.{Session}
use file_transfer_using_libp.Protocol.Fsm.{Step}
use file_transfer_using_libp.Protocol.Progress.{IsWorking}
use file_transfer_using_libp.Crypto.{Crypto}
use file_transfer_using_libp.Controllers.Sender.{sender_steps}
use file_transfer_using_libp.Controllers.Receiver.{receiver_steps}
use file_transfer_using_libp.Transfer.Turns.{
  Party, System, Turn, Move, sender_turn, receiver_turn, given, party,
}
use file_transfer_using_libp.Transfer.Parties.{OneTurn, Quiet, one_round}

-- Every order of turns comes to `P`: a turn that changes something leads to where `P` is inevitable
-- still and nearer, and there is a turn that does.
pub data Inevitable (C : Crypto) (P : System → Type 0) : System → Type 0 where
  reached : (a : System) → P a → Inevitable C P a
  onward :
      (a b : System)
      → Move C a b
      → Inevitable C P b
      → ((c : System) → Move C a c → c ≢ a → Inevitable C P c)
      → Inevitable C P a

abbrev pub together : Party → Party → System
together p r = record { sender = p; receiver = r }

-- Two sessions between two rounds.
abbrev pub pair_up : Session → Session → System
pair_up s r = together (party s []) (party r [])

module _ (C : Crypto) where
  -- Where each party can go, every move goes one of the two ways.
  moves :
      (a c : System) (q u : Party) (said said' incoming incoming' : List ℕ)
      → ((q' : Party) (x : List ℕ) → Turn (sender_steps C) a.sender q' x → (q' ≡ q) × (x ≡ said))
      → ((u' : Party) (x : List ℕ)
          → Turn (receiver_steps C) a.receiver u' x
          → (u' ≡ u) × (x ≡ said'))
      → incoming ≡ a.receiver.session.conn.incoming ++ said
      → incoming' ≡ a.sender.session.conn.incoming ++ said'
      → Move C a c
      → (c ≡ together q (given incoming a.receiver)) ⊎ (c ≡ together (given incoming' a.sender) u)
  moves _ _ q u said said' incoming incoming' only only' heard heard'
        (sender_turn p q' r x i turn hear) =
      let (same, x_same) = only q' x turn in
      inl (
        ap₂ (λ y z. together y (given z r)) same
          (hear ∙ ap (λ z. r.session.conn.incoming ++ z) x_same ∙ sym heard))
  moves _ _ q u said said' incoming incoming' only only' heard heard'
        (receiver_turn p u' r x i turn hear) =
      let (same, x_same) = only' u' x turn in
      inr (
        ap₂ (λ y z. together (given z r) y) same
          (hear ∙ ap (λ z. r.session.conn.incoming ++ z) x_same ∙ sym heard'))

  module _ (P : System → Type 0) (p q r : Party) (said incoming : List ℕ) where
    -- Only the sender can go on.
    pub sender_goes :
        OneTurn (sender_steps C) p q said
        → Quiet (receiver_steps C) r
        → incoming ≡ r.session.conn.incoming ++ said
        → Inevitable C P (together q (given incoming r))
        → Inevitable C P (together p r)
    sender_goes one quiet heard rest =
        onward (together p r) (together q (given incoming r))
          (sender_turn p q r said incoming one.turn heard) rest
          λ c m changes.
            elim (moves (together p r) c q r said [] incoming p.session.conn.incoming one.only quiet
              heard (sym (append-nil p.session.conn.incoming)) m) [
                | inl e ↦ subst (Inevitable C P) (sym e) rest
                | inr e ↦ absurd (changes e)
              ]

  module _ (P : System → Type 0) (p r u : Party) (said incoming : List ℕ) where
    -- Only the receiver can go on.
    pub receiver_goes :
        Quiet (sender_steps C) p
        → OneTurn (receiver_steps C) r u said
        → incoming ≡ p.session.conn.incoming ++ said
        → Inevitable C P (together (given incoming p) u)
        → Inevitable C P (together p r)
    receiver_goes quiet one heard rest =
        onward (together p r) (together (given incoming p) u)
          (receiver_turn r u p said incoming one.turn heard) rest
          λ c m changes.
            elim (moves (together p r) c p u [] said r.session.conn.incoming incoming quiet one.only
              (sym (append-nil r.session.conn.incoming)) heard m) [
                | inl e ↦ absurd (changes e)
                | inr e ↦ subst (Inevitable C P) (sym e) rest
              ]

  module _ (P : System → Type 0) (p q r u : Party) (said said' incoming incoming' : List ℕ) where
    -- Both can go on.
    pub either_goes :
        OneTurn (sender_steps C) p q said
        → OneTurn (receiver_steps C) r u said'
        → incoming ≡ r.session.conn.incoming ++ said
        → incoming' ≡ p.session.conn.incoming ++ said'
        → Inevitable C P (together q (given incoming r))
        → Inevitable C P (together (given incoming' p) u)
        → Inevitable C P (together p r)
    either_goes one one' heard heard' rest rest' =
        onward (together p r) (together q (given incoming r))
          (sender_turn p q r said incoming one.turn heard) rest
          λ c m changes.
            elim (moves (together p r) c q u said said' incoming incoming' one.only one'.only heard
              heard' m) [
                | inl e ↦ subst (Inevitable C P) (sym e) rest
                | inr e ↦ subst (Inevitable C P) (sym e) rest'
              ]

module _ (C : Crypto) (P : System → Type 0) (other : Party) (said incoming : List ℕ)
    (heard : incoming ≡ other.session.conn.incoming ++ said) (s t : Session)
    (st next : TransferState) (step : Step) (h : s.state ≡ st) (w : IsWorking st) where
  -- A step of the sender that succeeds, while the receiver waits.
  pub sender_steps_on :
      Quiet (receiver_steps C) other
      → sender_steps C st ≡ some step
      → step s ≡ (ok next, t)
      → t.state ≡ st
      → is_allowed st next ≡ true
      → t.conn.outgoing ≡ s.conn.outgoing ++ said
      → Inevitable C P (together (party (record t { state = next }) []) (given incoming other))
      → Inevitable C P (together (party s []) other)
  sender_steps_on quiet e e' h' allowed written rest =
      sender_goes C P _ _ other said incoming
        (one_round (sender_steps C) s [] st step h w e t next said e' h' allowed written) quiet
        heard rest

  -- A step of the receiver that succeeds, while the sender waits.
  pub receiver_steps_on :
      Quiet (sender_steps C) other
      → receiver_steps C st ≡ some step
      → step s ≡ (ok next, t)
      → t.state ≡ st
      → is_allowed st next ≡ true
      → t.conn.outgoing ≡ s.conn.outgoing ++ said
      → Inevitable C P (together (given incoming other) (party (record t { state = next }) []))
      → Inevitable C P (together other (party s []))
  receiver_steps_on quiet e e' h' allowed written rest =
      receiver_goes C P other _ _ said incoming quiet
        (one_round (receiver_steps C) s [] st step h w e t next said e' h' allowed written) heard
        rest
