-- ===== src/Protocol/State.antt =====
-- Protocol/state.go: the states of a transfer, and the transitions that a session accepts.
use file_transfer_using_libp.Base.{ℕ, String, Bool, false, List, [], ◌∷◌, ◌==◌, ◌||◌}

pub data TransferState : Type 0 where
  idle : TransferState
  send_header receive_header : TransferState
  waiting_chunk_request send_chunk_response : TransferState
  waiting_lottery_ticket send_key_reveal : TransferState
  send_chunk_request waiting_chunk_response : TransferState
  send_lottery_ticket waiting_key_reveal : TransferState
  verify_chunk verify_merkle : TransferState
  finished error : TransferState

-- The number that `iota` gives a state.
abbrev pub code : TransferState → ℕ
code idle = 0
code send_header = 1
code receive_header = 2
code waiting_chunk_request = 3
code send_chunk_response = 4
code waiting_lottery_ticket = 5
code send_key_reveal = 6
code send_chunk_request = 7
code waiting_chunk_response = 8
code send_lottery_ticket = 9
code waiting_key_reveal = 10
code verify_chunk = 11
code verify_merkle = 12
code finished = 13
code error = 14

-- `validTransitions`.
unfoldable pub valid_transitions : TransferState → List TransferState
valid_transitions idle = send_header ∷ receive_header ∷ []
valid_transitions send_header = waiting_chunk_request ∷ finished ∷ []
valid_transitions waiting_chunk_request = send_chunk_response ∷ []
valid_transitions send_chunk_response = waiting_lottery_ticket ∷ []
valid_transitions waiting_lottery_ticket = send_key_reveal ∷ []
valid_transitions send_key_reveal = waiting_chunk_request ∷ verify_merkle ∷ []
valid_transitions receive_header = send_chunk_request ∷ finished ∷ []
valid_transitions send_chunk_request = waiting_chunk_response ∷ []
valid_transitions waiting_chunk_response = send_lottery_ticket ∷ []
valid_transitions send_lottery_ticket = waiting_key_reveal ∷ []
valid_transitions waiting_key_reveal = verify_chunk ∷ []
valid_transitions verify_chunk = send_chunk_request ∷ verify_merkle ∷ []
valid_transitions verify_merkle = finished ∷ []
valid_transitions finished = []
valid_transitions error = []

-- `String`. The name "Unknown" is for numbers that are no state.
unfoldable pub to_string : TransferState → String
to_string idle = "Idle"
to_string send_header = "SendHeader"
to_string receive_header = "ReceiveHeader"
to_string waiting_chunk_request = "WaitingChunkRequest"
to_string send_chunk_response = "SendChunkResponse"
to_string waiting_lottery_ticket = "WaitingLotteryTicket"
to_string send_key_reveal = "SendKeyReveal"
to_string send_chunk_request = "SendChunkRequest"
to_string waiting_chunk_response = "WaitingChunkResponse"
to_string send_lottery_ticket = "SendLotteryTicket"
to_string waiting_key_reveal = "WaitingKeyReveal"
to_string verify_chunk = "VerifyChunk"
to_string verify_merkle = "VerifyMerkle"
to_string finished = "Finished"
to_string error = "Error"

-- The loop of `isAllowed` over the transitions of a state.
abbrev pub contains_state : List TransferState → TransferState → Bool
contains_state [] next = false
contains_state (st ∷ rest) next = code st == code next || contains_state rest next

-- `isAllowed`.
unfoldable pub is_allowed : TransferState → TransferState → Bool
unfolding valid_transitions
is_allowed current next = contains_state (valid_transitions current) next
