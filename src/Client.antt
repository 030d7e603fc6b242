-- ===== src/Client.antt =====
-- Client/client.go: the request that precedes a transfer, and the main function.
pub mod Parts
pub mod Calm
pub mod Outcomes
use file_transfer_using_libp.Base.{
  ℕ, Bool, Option, none, some, List, [], ◌∷◌, ◌++◌, map, length, list_eq, if◌then◌else◌, codes,
  split, String, fatal_unless, trim_space, to_upper, utf8, put_uint32, u32, failed, wrap, Error,
  Result, ok, err, panic, fatal, Act,
}
use file_transfer_using_libp.Protocol.Stream.{Stream, write}
use file_transfer_using_libp.Protocol.File.{Disk}
use file_transfer_using_libp.Protocol.Session.{Session}
use file_transfer_using_libp.Crypto.{Crypto}
use file_transfer_using_libp.Controllers.Sender.{send_file}
use file_transfer_using_libp.Controllers.Receiver.{receive_file}
use file_transfer_using_libp.P2P.{
  Multiaddrs, AddrInfo, Libp2p, Host, static_relay_addrs, new_host, client_listen_addrs,
  generate_ephemeral_identity, protocol_id,
}

abbrev pub keep_part : List ℕ → List (List ℕ) → List (List ℕ)
keep_part [] out = out
keep_part (c ∷ part) out = (c ∷ part) ∷ out

-- The loop of `splitNonEmpty`.
unfoldable pub non_empty_parts : List (List ℕ) → List (List ℕ)
unfolding trim_space
non_empty_parts [] = []
non_empty_parts (part ∷ parts) = keep_part (trim_space part) (non_empty_parts parts)

-- `splitNonEmpty`.
unfoldable pub split_non_empty : List ℕ → List (List ℕ)
unfolding non_empty_parts split
split_non_empty [] = []
split_non_empty (c ∷ csv) = non_empty_parts (split (c ∷ csv) b',')

-- The four bytes that stand for a method; none for another text.
unfoldable pub method_bytes : List ℕ → List ℕ
method_bytes method =
    (if list_eq method (codes "GET") then put_uint32 0 else [])
    ++ (if list_eq method (codes "POST") then put_uint32 1 else [])

unfoldable pub encode_request : List ℕ → List ℕ → List ℕ
unfolding method_bytes put_uint32
encode_request path method = method_bytes method ++ (put_uint32 (u32 (length path)) ++ path)

abbrev pub or_fatal : {S A : Type 0} → Error → Result A × S → Result A × S
or_fatal e (err _, s) = (fatal e, s)
or_fatal e r = r

-- `RequestFile`. A write that fails ends the process.
unfoldable pub request_file : List ℕ → List ℕ → Act Stream (Unit {0})
unfolding encode_request write
request_file path method s =
    or_fatal (failed "Couldnt write the whattodoheaderBuffer")
      (write (encode_request path method) s)

-- How `main` ends, where the process does not.
pub data ClientEnd : Type 0 where
  usage unknown_command : ClientEnd
  sent received : Option (Result (Unit {0}) × Session) → ClientEnd
  not_sent : Error → ClientEnd

abbrev pub as_result : {A : Type 0} → Option A → Result A
as_result none = err (failed "libp2p")
as_result (some a) = ok a

abbrev pub reported : Result (Option (Result (Unit {0}) × Session)) → Result ClientEnd
reported (ok o) = ok (sent o)
reported (err e) = ok (not_sent e)
reported panic = panic
reported (fatal e) = fatal e

module _ (C : Crypto) (fuel now : ℕ) (entropy : List ℕ) (disk : Disk) where
  -- The two cases of the `switch` once the request is written.
  abbrev pub after_request :
      (Stream → Result ClientEnd) → Result (Unit {0}) × Stream → Result ClientEnd
  after_request k (ok _, s) = k s
  after_request k (err e, s) = err e
  after_request k (panic, s) = panic
  after_request k (fatal e, s) = fatal e

  -- The `switch` at the end of `main`, on the stream to the server.
  unfoldable pub transfer : List ℕ → List ℕ → Stream → Result ClientEnd
  unfolding request_file
  transfer method path s =
      if list_eq method (codes "POST")
      then after_request (λ c. reported (send_file C fuel now path c entropy disk))
          (request_file path method s)
      else (if list_eq method (codes "GET")
          then after_request (λ c. ok (received (receive_file C fuel c entropy disk)))
              (request_file path method s)
          else ok unknown_command)

module _ (C : Crypto) (M : Multiaddrs) (L : Libp2p) (fuel now : ℕ) (entropy : List ℕ)
    (disk : Disk) where
  -- `main` with its three arguments: the identity, the relays, the host, the server's address, the
  -- connection and the stream. Each error is `log.Fatal`. The path goes on as its bytes.
  unfoldable pub run_client : List ℕ → List ℕ → List ℕ → List ℕ → Result ClientEnd
  unfolding split_non_empty static_relay_addrs new_host transfer utf8
  run_client relay_addrs method path target =
      fatal_unless "couldn't generate client identity" (generate_ephemeral_identity L) λ priv.
        fatal_unless "bad RELAY_ADDRS" (static_relay_addrs M (split_non_empty relay_addrs))
          λ relays.
            fatal_unless "libp2p host creation failed" (new_host L priv client_listen_addrs relays)
              λ h.
                fatal_unless "invalid server multiaddr" (as_result (M.new_multiaddr target))
                  λ maddr.
                    fatal_unless "couldn't extract peer info from multiaddr"
                      (as_result (M.addr_info maddr))
                      λ info.
                        if L.connect info
                        then fatal_unless "couldn't open stream"
                            (as_result (L.new_stream info.id protocol_id))
                            (transfer C fuel now entropy disk (map to_upper method) (utf8 path))
                        else fatal (failed "libp2p connection wasnt established")

  -- `main`, from `os.Args` and the variable RELAY_ADDRS.
  unfoldable pub client_main : List (List ℕ) → List ℕ → Result ClientEnd
  unfolding run_client
  client_main (name ∷ method ∷ path ∷ target ∷ _) relay_addrs =
      run_client relay_addrs method path target
  client_main _ relay_addrs = ok usage
