-- ===== src/Tests/Network.antt =====
-- The network side of the programs, with a small libp2p, small encodings and one relay.
use file_transfer_using_libp.Base.{
  utf8, ℕ, ◌+◌, ◌*◌, ◌^◌, ◌≤◌, ◌<◌, ◌≡◌, refl, subst, All, IsByte, true, Option, some, none, List,
  [], ◌∷◌, ◌++◌, ok, arith, codes, map, trim_space, list_eq, if◌then◌else◌,
}
use file_transfer_using_libp.P2P.{
  AddrInfo, Multiaddrs, Libp2p, Host, relayed, direct, no_conn, host_options, p2p_addr,
}
use file_transfer_using_libp.P2P.Watch.{
  Event, tick, watch_for_direct_upgrade, told, story, watch_for_direct_upgrade-told,
}
use file_transfer_using_libp.P2P.Reservations.{
  Attempt, Clock, second, keep_reservation_alive, keep_reservation_alive_slow,
  keep_reservation_alive_retry,
}
use file_transfer_using_libp.P2P.Identity.{Keys, IsLawful, KeyFile, load_or_create_identity}
use file_transfer_using_libp.P2P.Relays.{Holds}
use file_transfer_using_libp.Client.{client_main}
use file_transfer_using_libp.Client.Outcomes.{EndedWell, client_main-EndedWell}
use file_transfer_using_libp.Client.Parts.{joined}
use file_transfer_using_libp.Server.Start.{
  IsRelay, texts, infos, server_listen_addrs, server_main, server_main_circuits,
}
use file_transfer_using_libp.Relay.{Base64, IsInverse, load_identity, load_identity_portable}
use file_transfer_using_libp.Tests.{toy, open_conn, small_disk}

abbrev watched : List Event
watched = tick no_conn ∷ tick relayed ∷ tick relayed ∷ tick direct ∷ []

watch_for_direct_upgrade-told_example : watch_for_direct_upgrade watched ≡ told (story watched)
watch_for_direct_upgrade-told_example = watch_for_direct_upgrade-told watched

-- An attempt that takes 2 seconds and gets a reservation until the second 3600, or none.
abbrev granted_attempt : Attempt
granted_attempt = record {
  overslept = 0;
  took = 2 * second;
  granted = some (3600 * second);
  overslept_again = 0;
}

abbrev failed_attempt : Attempt
failed_attempt = record granted_attempt { granted = none }

abbrev one_minute : Clock
one_minute = record { now = 0; expiration = 60 * second }

keep_reservation_alive_slow_example :
    0 + 5 * second * 2
    ≤ (keep_reservation_alive (failed_attempt ∷ granted_attempt ∷ []) one_minute).now
keep_reservation_alive_slow_example =
    keep_reservation_alive_slow (failed_attempt ∷ granted_attempt ∷ []) one_minute

keep_reservation_alive_retry_example :
    ((keep_reservation_alive (failed_attempt ∷ granted_attempt ∷ []) one_minute).now < 60 * second)
    × ((keep_reservation_alive (failed_attempt ∷ granted_attempt ∷ []) one_minute).expiration
        ≡ 3600 * second)
keep_reservation_alive_retry_example =
    keep_reservation_alive_retry one_minute failed_attempt granted_attempt (3600 * second)
      (omega arith) refl refl (omega arith)

-- Keys that are marshalled with a byte in front.
abbrev after_first : List ℕ → Option (List ℕ)
after_first [] = none
after_first (_ ∷ k) = some k

abbrev small_keys : Keys
small_keys = record {
  generate = some (7 ∷ []);
  marshal = λ k. some (8 ∷ k);
  unmarshal = after_first;
}

small_keys-IsLawful : IsLawful small_keys
small_keys-IsLawful = record { unmarshal-marshal = λ k bs e. cc e }

abbrev no_file : KeyFile
no_file = record { content = none; readable = true; writable = true }

abbrev small_base64 : Base64
small_base64 = record { encode_to_string = λ bs. 65 ∷ bs; decode_string = after_first }

small_base64-IsInverse : IsInverse small_base64
small_base64-IsInverse = record { decode-encode = λ bs. refl }

load_identity_portable_example :
    load_identity small_keys small_base64 (65 ∷ 8 ∷ 7 ∷ []) no_file ≡ (ok (7 ∷ [], none), no_file)
unfolding load_identity load_or_create_identity
load_identity_portable_example =
    load_identity_portable small_keys small_base64 no_file
      (record no_file { content = some (8 ∷ 7 ∷ []) }) no_file (7 ∷ []) (8 ∷ 7 ∷ []) 65
      small_keys-IsLawful small_base64-IsInverse refl

-- One relay, and a multiaddr package that knows its text.
abbrev relay : List ℕ × List ℕ
relay = (codes "/dns4/relay/tcp/443/wss", codes "R")

abbrev relay_info : AddrInfo
relay_info = record { id = codes "R"; addrs = codes "/dns4/relay/tcp/443/wss" ∷ [] }

abbrev small_multiaddrs : Multiaddrs
small_multiaddrs = record {
  new_multiaddr = λ a. some a;
  addr_info =
      λ a. if list_eq a (codes "/dns4/relay/tcp/443/wss/p2p/R") then some relay_info else none;
}

abbrev small_libp2p : Libp2p
small_libp2p = record {
  generate_key = some (7 ∷ []);
  new = λ opts. true;
  connect = λ info. true;
  reserve = λ info. some 100;
  new_stream = λ id protocol. some open_conn;
  id = λ opts. codes "S";
  addrs = λ opts. codes "/ip4/10.0.0.2/tcp/9001" ∷ [];
}

relay-IsRelay : IsRelay small_keys small_multiaddrs small_libp2p relay
unfolding p2p_addr trim_space
relay-IsRelay = record {
  clean = record {
    head = b'/';
    tail = codes "dns4/relay/tcp/443/wss/p2p/R";
    not_empty = refl;
    no_comma = ground arith;
    trimmed = refl;
  };
  is_multiaddr = refl;
  is_peer = refl;
}

server_main_circuits_example :
    (h : Host) × (server_main small_keys small_multiaddrs small_libp2p
        (joined (texts small_keys small_multiaddrs small_libp2p (relay ∷ [])))
        no_file
      ≡ (
        ok (
          h,
          map (λ addr. p2p_addr addr (codes "S")) (codes "/ip4/10.0.0.2/tcp/9001" ∷ [])
              ++ map
                  (λ t. t ++ (codes "/p2p-circuit/p2p/" ++ codes "S"))
                  (texts small_keys small_multiaddrs small_libp2p (relay ∷ [])),
        ),
        record no_file { content = some (8 ∷ 7 ∷ []) },
      ))
    × (h.options ≡ host_options (7 ∷ []) server_listen_addrs)
    × Holds small_libp2p
        (infos small_keys small_multiaddrs small_libp2p (relay ∷ []))
        h.reservations
unfolding load_or_create_identity
server_main_circuits_example =
    server_main_circuits small_keys small_multiaddrs small_libp2p (relay ∷ []) no_file
      (record no_file { content = some (8 ∷ 7 ∷ []) }) (7 ∷ []) (relay-IsRelay, tt) refl refl

-- `client get a.txt /dns4/relay/tcp/443/wss/p2p/R`.
abbrev arguments : List (List ℕ)
arguments =
    codes "client" ∷ codes "get" ∷ codes "a.txt" ∷ codes "/dns4/relay/tcp/443/wss/p2p/R" ∷ []

client_main-EndedWell_example :
    EndedWell toy 1700 [] small_disk small_multiaddrs small_libp2p [] arguments (
      client_main toy small_multiaddrs small_libp2p
        (5 * 2 ^ 32 + 4)
        1700
        []
        small_disk
        arguments
        [])
client_main-EndedWell_example =
    client_main-EndedWell toy small_multiaddrs small_libp2p (5 * 2 ^ 32 + 4) 1700 [] small_disk
      arguments []
      (λ id protocol s e. subst (λ c. All IsByte c.incoming) (let q : open_conn ≡ s = cc e in q) tt)
      (omega arith)

-- Texts in UTF-8, of one to four bytes for a code point.
one_to_four_bytes :
    utf8 (0x41 ∷ 0xe9 ∷ 0x20ac ∷ 0x1f600 ∷ [])
    ≡ 0x41 ∷ 0xc3 ∷ 0xa9 ∷ 0xe2 ∷ 0x82 ∷ 0xac ∷ 0xf0 ∷ 0x9f ∷ 0x98 ∷ 0x80 ∷ []
unfolding utf8
one_to_four_bytes = refl
