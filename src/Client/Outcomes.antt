-- ===== src/Client/Outcomes.antt =====
-- How the client's `main` ends, on any arguments and whatever libp2p and the peer answer.
use file_transfer_using_libp.Base.{
  ℕ, ◌+◌, ◌*◌, ◌^◌, ◌<◌, ◌≡◌, refl, inl, inr, false, Bool-cases, Option, some, List, [], ◌∷◌, map,
  list_eq, list_eq_sound, codes, to_upper, utf8, true, ◌⊎◌, Error, arith, IsByte, All, Result, ok,
  err, panic, fatal,
}
use file_transfer_using_libp.Protocol.Stream.{Stream, write}
use file_transfer_using_libp.Protocol.File.{Disk}
use file_transfer_using_libp.Protocol.Session.{Session}
use file_transfer_using_libp.Protocol.Progress.{Ended}
use file_transfer_using_libp.Crypto.{Crypto}
use file_transfer_using_libp.Controllers.Sender.{send_file}
use file_transfer_using_libp.Transfer.Told.Whole.{SaidWell, send_file-SaidWell}
use file_transfer_using_libp.Transfer.Transcript.Whole.{HeardAt, receive_file-HeardAt}
use file_transfer_using_libp.P2P.{
  Multiaddrs, AddrInfo, Libp2p, Host, static_relay_addrs, new_host, client_listen_addrs,
  generate_ephemeral_identity, protocol_id,
}
use file_transfer_using_libp.Client.{
  ClientEnd, usage, unknown_command, sent, received, not_sent, reported, after_request,
  request_file, transfer, run_client, client_main, split_non_empty, as_result,
}
use file_transfer_using_libp.Client.Calm.{
  IsCalm, fatal_unless_rule, if_rule, static_relay_addrs-IsCalm, as_result-IsCalm, as_result_ok,
  generated-IsCalm,
}

-- The streams that libp2p opens deliver bytes.
abbrev pub GivesBytes : Libp2p → Type 0
GivesBytes L =
    (id protocol : List ℕ) (s : Stream) → L.new_stream id protocol ≡ some s → All IsByte s.incoming

-- What `main` has when it comes to its `switch`: each call before it has succeeded, and the stream `s`
-- leads to the peer that the server's address names.
pub record Opened (M : Multiaddrs) (L : Libp2p) (relay_addrs target : List ℕ) (s : Stream)
    : Type 0 where
  pub priv : List ℕ
  pub is_generated : generate_ephemeral_identity L ≡ ok priv
  pub relays : List AddrInfo
  pub is_relays : static_relay_addrs M (split_non_empty relay_addrs) ≡ ok relays
  pub host : Host
  pub is_host : new_host L priv client_listen_addrs relays ≡ ok host
  pub maddr : List ℕ
  pub is_maddr : as_result (M.new_multiaddr target) ≡ ok maddr
  pub info : AddrInfo
  pub is_info : as_result (M.addr_info maddr) ≡ ok info
  pub connected : L.connect info ≡ true
  pub is_stream : as_result (L.new_stream info.id protocol_id) ≡ ok s

new_host-IsCalm :
    (L : Libp2p) (priv : List ℕ) (listen : List (List ℕ)) (relays : List AddrInfo)
    → IsCalm (new_host L priv listen relays)
unfolding new_host
new_host-IsCalm L priv listen relays = if_rule IsCalm (L.new _) _ _ (λ _. tt) (λ _. tt)

ok_apart : {A : Type 0} {r : Result A} {a : A} {e : Error} → r ≡ ok a → r ≡ err e → ⊥
ok_apart p q = cc (p, q)

module _ (C : Crypto) (now : ℕ) (entropy : List ℕ) (disk : Disk) where
  -- How the `switch` may end on a stream, with a method in capitals and the bytes of a path: with
  -- nothing done, for another method; for POST, after the request for that path has been written, with
  -- what `SendFile` may end with for the file at it, and for GET with what `RecieveFile` may. The
  -- process ends only where the stream does not accept the request, or by `SendFile`.
  abbrev pub Switched : List ℕ → List ℕ → Stream → Result ClientEnd → Type 0
  Switched method path s (ok usage) = ⊥
  Switched method path s (ok unknown_command) =
      (list_eq method (codes "POST") ≡ false) × (list_eq method (codes "GET") ≡ false)
  Switched method path s (ok (sent o)) =
      (method ≡ codes "POST")
      × (c : Stream) × (request_file path method s ≡ (ok tt, c))
      × SaidWell C now (disk.open_file path) entropy c (ok o)
  Switched method path s (ok (received o)) =
      (method ≡ codes "GET")
      × (c : Stream) × (request_file path method s ≡ (ok tt, c))
      × Ended (HeardAt C c) o
  Switched method path s (ok (not_sent e)) = ⊥
  Switched method path s (err e) = ⊥
  Switched method path s panic = ⊥
  Switched method path s (fatal e) =
      (((method ≡ codes "POST") ⊎ (method ≡ codes "GET")) × (s.accepts s.outgoing ≡ false))
      ⊎ ((method ≡ codes "POST")
          × (c : Stream) × (request_file path method s ≡ (ok tt, c))
          × SaidWell C now (disk.open_file path) entropy c (fatal e))

  reported-Switched :
      (method path : List ℕ) (s c : Stream) (r : Result (Option (Result (Unit {0}) × Session)))
      → method ≡ codes "POST"
      → request_file path method s ≡ (ok tt, c)
      → SaidWell C now (disk.open_file path) entropy c r
      → Switched method path s (reported r)
  reported-Switched method path s c (ok o) m a h = (m, c, a, h)
  reported-Switched method path s c (err e) m a h = absurd h
  reported-Switched method path s c panic m a h = absurd h
  reported-Switched method path s c (fatal e) m a h = inr (m, c, a, h)

  module _ (fuel : ℕ) (enough : 5 * 2 ^ 32 + 3 < fuel) where
    requested :
        (k : Stream → Result ClientEnd) (method path : List ℕ) (s : Stream)
        → (method ≡ codes "POST") ⊎ (method ≡ codes "GET")
        → All IsByte s.incoming
        → ((c : Stream)
            → request_file path method s ≡ (ok tt, c)
            → All IsByte c.incoming
            → Switched method path s (k c))
        → Switched method path s
            (after_request C fuel now entropy disk k (request_file path method s))
    unfolding request_file write
    requested k method path s known bytes h = elim (Bool-cases (s.accepts s.outgoing)) [
      | inl accepted ↦ rw accepted (h _ (rw accepted refl) bytes)
      | inr refused ↦ rw refused (inl (known, refused))
    ]

    transfer-Switched :
        (method path : List ℕ) (s : Stream)
        → All IsByte s.incoming
        → Switched method path s (transfer C fuel now entropy disk method path s)
    unfolding transfer
    transfer-Switched method path s bytes =
        let P = Switched method path s in
        if_rule P (list_eq method (codes "POST")) _ _
          (λ is_post.
            let m = list_eq_sound method (codes "POST") is_post in
            requested _ method path s (inl m) bytes λ c a b.
              reported-Switched method path s c (send_file C fuel now path c entropy disk) m a
                (send_file-SaidWell C fuel now path c entropy disk b (omega arith)))
          λ other.
            if_rule P (list_eq method (codes "GET")) _ _
              (λ is_get.
                let m = list_eq_sound method (codes "GET") is_get in
                requested _ method path s (inr m) bytes
                  λ c a b. (m, c, a, receive_file-HeardAt C fuel c entropy disk b enough))
              λ unknown. (other, unknown)

  module _ (M : Multiaddrs) (L : Libp2p) (relay_addrs : List ℕ) where
    -- How `main` may end: the `switch` was reached on a stream, and ended as it may; or the process
    -- ended before, and no stream is to be had.
    abbrev pub Ran : List ℕ → List ℕ → List ℕ → Result ClientEnd → Type 0
    Ran method path target r =
        ((s : Stream) × Opened M L relay_addrs target s × Switched method path s r)
        ⊎ ((e : Error) × (r ≡ fatal e) × ((s : Stream) → Opened M L relay_addrs target s → ⊥))

    -- With three arguments or more, the first is the method, the second the path, and the third the
    -- address of the server; with fewer, only the usage is shown.
    abbrev pub EndedWell : List (List ℕ) → Result ClientEnd → Type 0
    EndedWell (name ∷ method ∷ path ∷ target ∷ _) r = Ran (map to_upper method) (utf8 path) target r
    EndedWell _ r = r ≡ ok usage

    run_client-Ran :
        (fuel : ℕ) (method path target : List ℕ)
        → 5 * 2 ^ 32 + 3 < fuel
        → GivesBytes L
        → Ran
            (map to_upper method)
            (utf8 path)
            target
            (run_client C M L fuel now entropy disk relay_addrs method path target)
    unfolding run_client
    run_client-Ran fuel method path target enough bytes =
        let P = Ran (map to_upper method) (utf8 path) target in
        fatal_unless_rule P _ (generate_ephemeral_identity L) _ (generated-IsCalm L L.generate_key)
          (λ e f. inr (_, refl, λ s o. ok_apart o.is_generated f))
          λ priv h1.
            fatal_unless_rule P _ (static_relay_addrs M (split_non_empty relay_addrs)) _
              (static_relay_addrs-IsCalm M (split_non_empty relay_addrs))
              (λ e f. inr (_, refl, λ s o. ok_apart o.is_relays f))
              λ relays h2.
                fatal_unless_rule P _ (new_host L priv client_listen_addrs relays) _
                  (new_host-IsCalm L priv client_listen_addrs relays)
                  (λ e f.
                    inr (_, refl, λ s o. cc (h1, h2, f, o.is_generated, o.is_relays, o.is_host)))
                  λ h h3.
                    fatal_unless_rule P _ (as_result (M.new_multiaddr target)) _
                      (as_result-IsCalm (M.new_multiaddr target))
                      (λ e f. inr (_, refl, λ s o. ok_apart o.is_maddr f))
                      λ maddr h4.
                        fatal_unless_rule P _ (as_result (M.addr_info maddr)) _
                          (as_result-IsCalm (M.addr_info maddr))
                          (λ e f. inr (_, refl, λ s o. cc (h4, f, o.is_maddr, o.is_info)))
                          λ info h5.
                            if_rule P (L.connect info) _ _
                              (λ h6.
                                fatal_unless_rule P _ (as_result (L.new_stream info.id protocol_id))
                                  _ (as_result-IsCalm (L.new_stream info.id protocol_id))
                                  (λ e f. inr (
                                    _,
                                    refl,
                                    λ s o. cc (h4, h5, f, o.is_maddr, o.is_info, o.is_stream),
                                  ))
                                  λ s h7. inl (
                                    s,
                                    record {
                                      priv = priv;
                                      is_generated = h1;
                                      relays = relays;
                                      is_relays = h2;
                                      host = h;
                                      is_host = h3;
                                      maddr = maddr;
                                      is_maddr = h4;
                                      info = info;
                                      is_info = h5;
                                      connected = h6;
                                      is_stream = h7;
                                    },
                                    transfer-Switched fuel enough (map to_upper method) (utf8 path)
                                        s
                                        (bytes info.id protocol_id s
                                          (as_result_ok (L.new_stream info.id protocol_id) s h7)),
                                  ))
                              λ h6. inr (
                                _,
                                refl,
                                λ s o. cc (h4, h5, h6, o.is_maddr, o.is_info, o.connected),
                              )

-- Whatever libp2p answers and whatever bytes its streams deliver, the client ends, given more than
-- `5 * 2 ^ 32 + 3` rounds. With fewer than three arguments it shows the usage. With more, either every
-- call before the `switch` succeeds, for the relays of RELAY_ADDRS and the peer that the third argument
-- names, and on the stream to that peer: for another method than GET and POST, in any case of their
-- letters, nothing is done; for POST, once the request for the path of the second argument, in UTF-8, is
-- written, `SendFile` ends as it may for the file at that path; for GET, after the same request,
-- `RecieveFile` ends as it may; the process ends only where the stream does not accept the request of
-- one of these two, or where `SendFile` ends it. Or the process ends by `log.Fatal`, and then one of the
-- calls before the `switch` fails. There is no panic.
pub client_main-EndedWell :
    (C : Crypto) (M : Multiaddrs) (L : Libp2p) (fuel now : ℕ) (entropy : List ℕ) (disk : Disk)
    (args : List (List ℕ)) (relay_addrs : List ℕ)
    → GivesBytes L
    → 5 * 2 ^ 32 + 3 < fuel
    → EndedWell C now entropy disk M L relay_addrs args
        (client_main C M L fuel now entropy disk args relay_addrs)
unfolding client_main
client_main-EndedWell C M L fuel now entropy disk [] relay_addrs b enough = refl
client_main-EndedWell C M L fuel now entropy disk (_ ∷ []) relay_addrs b enough = refl
client_main-EndedWell C M L fuel now entropy disk (_ ∷ _ ∷ []) relay_addrs b enough = refl
client_main-EndedWell C M L fuel now entropy disk (_ ∷ _ ∷ _ ∷ []) relay_addrs b enough = refl
client_main-EndedWell C M L fuel now entropy disk (name ∷ method ∷ path ∷ target ∷ rest) relay_addrs
      b enough =
    run_client-Ran C now entropy disk M L relay_addrs fuel method path target enough b
