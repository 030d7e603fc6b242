-- ===== src/P2P.antt =====
-- P2P/host.go. The packages of libp2p are outside the repository: what the code asks of them is a
-- parameter, a record of their answers.
pub mod Connections
pub mod Relays
pub mod Watch
pub mod Reservations
pub mod Identity
use file_transfer_using_libp.Base.{
  ℕ, Bool, true, false, not, Option, none, some, List, [], ◌∷◌, ◌++◌, if◌then◌else◌, codes,
  contains, failed, wrap, Result, ok, err, panic, fatal,
}
use file_transfer_using_libp.Protocol.Stream.{Stream}

-- `peer.AddrInfo`: the text of a peer's id, and those of its addresses.
pub record AddrInfo : Type 0 where
  pub id : List ℕ
  pub addrs : List (List ℕ)

-- `multiaddr.NewMultiaddr`, by the text of what it parsed, and `peer.AddrInfoFromP2pAddr`.
pub record Multiaddrs : Type 0 where
  pub new_multiaddr : List ℕ → Option (List ℕ)
  pub addr_info : List ℕ → Option AddrInfo

-- `ProtocolID`.
abbrev pub protocol_id : List ℕ
protocol_id = codes "/file-transfer/1.0.0"

module _ (M : Multiaddrs) where
  abbrev pub with_info : Option AddrInfo → Result AddrInfo
  with_info none = err (wrap "relay multiaddr is missing /p2p/<PeerID>" (failed "no /p2p"))
  with_info (some info) = ok info

  abbrev pub from_multiaddr : Option (List ℕ) → Result AddrInfo
  from_multiaddr none = err (wrap "invalid relay multiaddr" (failed "multiaddr"))
  from_multiaddr (some maddr) = with_info (M.addr_info maddr)

  -- One round of the loop of `StaticRelayAddrs`.
  unfoldable pub relay_addr : List ℕ → Result AddrInfo
  relay_addr a = from_multiaddr (M.new_multiaddr a)

  abbrev pub append_info : Result AddrInfo → Result (List AddrInfo) → Result (List AddrInfo)
  append_info (ok info) (ok infos) = ok (info ∷ infos)
  append_info (ok info) rest = rest
  append_info (err e) rest = err e
  append_info panic rest = panic
  append_info (fatal e) rest = fatal e

  -- `StaticRelayAddrs`.
  unfoldable pub static_relay_addrs : List (List ℕ) → Result (List AddrInfo)
  unfolding relay_addr
  static_relay_addrs [] = ok []
  static_relay_addrs (a ∷ addrs) = append_info (relay_addr a) (static_relay_addrs addrs)

-- `isRelayedAddr`.
unfoldable pub is_relayed_addr : List ℕ → Bool
is_relayed_addr addr = contains addr (codes "/p2p-circuit")

-- `ConnKind`.
pub data ConnKind : Type 0 where
  no_conn relayed direct : ConnKind

-- The loop of `connKindToPeer`.
unfoldable pub best_kind : List (List ℕ) → ConnKind
unfolding is_relayed_addr
best_kind [] = relayed
best_kind (c ∷ conns) = if not (is_relayed_addr c) then direct else best_kind conns

-- `connKindToPeer`, from the remote addresses of `ConnsToPeer`.
unfoldable pub conn_kind_to_peer : List (List ℕ) → ConnKind
unfolding best_kind
conn_kind_to_peer [] = no_conn
conn_kind_to_peer (c ∷ conns) = best_kind (c ∷ conns)

-- `ClientListenAddrs`.
abbrev pub client_listen_addrs : List (List ℕ)
client_listen_addrs = codes "/ip4/0.0.0.0/tcp/0" ∷ codes "/ip4/0.0.0.0/udp/0/quic-v1" ∷ []

-- An address as the main functions print it, `%s/p2p/%s`.
unfoldable pub p2p_addr : List ℕ → List ℕ → List ℕ
p2p_addr addr id = addr ++ (codes "/p2p/" ++ id)

abbrev pub circuit_through : List (List ℕ) → List ℕ → List ℕ → List ℕ
circuit_through [] relay self = []
circuit_through (addr ∷ _) relay self =
    addr ++ (codes "/p2p/" ++ (relay ++ (codes "/p2p-circuit/p2p/" ++ self)))

-- `CircuitAddr`.
unfoldable pub circuit_addr : AddrInfo → List ℕ → List ℕ
circuit_addr relay self = circuit_through relay.addrs relay.id self

-- The options that `NewHost` and the relay give to `libp2p.New`.
pub data Transport : Type 0 where
  tcp quic ws : Transport

pub data HostOption : Type 0 where
  identity : List ℕ → HostOption
  nat_port_map enable_relay : HostOption
  transport : Transport → HostOption
  enable_hole_punching no_listen_addrs : HostOption
  listen_addr_strings : List (List ℕ) → HostOption
  -- With `relayv2.WithInfiniteLimits`.
  enable_relay_service force_reachability_public disable_relay : HostOption

-- What libp2p answers: a new key pair, whether `libp2p.New` and `Connect` succeed, until when
-- `circuit.Reserve` reserves, the stream to a peer, and of a host with those options the text of its
-- id and of the addresses at which it listens.
pub record Libp2p : Type 0 where
  pub generate_key : Option (List ℕ)
  pub new : List HostOption → Bool
  pub connect : AddrInfo → Bool
  pub reserve : AddrInfo → Option ℕ
  pub new_stream : List ℕ → List ℕ → Option Stream
  pub id : List HostOption → List ℕ
  pub addrs : List HostOption → List (List ℕ)

-- A host, with the reservations that it keeps alive and until when they hold.
pub record Host : Type 0 where
  pub options : List HostOption
  pub reservations : List (AddrInfo × ℕ)

abbrev pub listen_option : List (List ℕ) → HostOption
listen_option [] = no_listen_addrs
listen_option (a ∷ addrs) = listen_addr_strings (a ∷ addrs)

unfoldable pub host_options : List ℕ → List (List ℕ) → List HostOption
host_options priv listen_addrs =
    identity priv
    ∷ nat_port_map
    ∷ enable_relay
    ∷ transport tcp
    ∷ transport quic
    ∷ transport ws
    ∷ enable_hole_punching
    ∷ listen_option listen_addrs
    ∷ []

module _ (L : Libp2p) where
  abbrev pub reserved : AddrInfo → Option ℕ → List (AddrInfo × ℕ) → List (AddrInfo × ℕ)
  reserved relay none rest = rest
  reserved relay (some expiration) rest = (relay, expiration) ∷ rest

  -- The loop of `NewHost` over the relays. A relay that does not answer is passed over.
  unfoldable pub reserve_all : List AddrInfo → List (AddrInfo × ℕ)
  reserve_all [] = []
  reserve_all (relay ∷ relays) =
      let rest = reserve_all relays in
      if L.connect relay then reserved relay (L.reserve relay) rest else rest

  -- `NewHost`.
  unfoldable pub new_host : List ℕ → List (List ℕ) → List AddrInfo → Result Host
  unfolding host_options reserve_all
  new_host priv listen_addrs static_relays =
      let opts = host_options priv listen_addrs in
      if L.new opts
      then ok (record { options = opts; reservations = reserve_all static_relays })
      else err (failed "libp2p.New")

  abbrev pub generated : Option (List ℕ) → Result (List ℕ)
  generated none = err (failed "GenerateKeyPair")
  generated (some priv) = ok priv

  -- `GenerateEphemeralIdentity`.
  abbrev pub generate_ephemeral_identity : Result (List ℕ)
  generate_ephemeral_identity = generated L.generate_key
