-- ===== src/Server/Start.antt =====
-- `main` of Server/server.go up to where it waits for streams: the identity, the relays, the host and
-- the addresses that it prints.
use file_transfer_using_libp.Base.{
  ℕ, ◌≡◌, refl, sym, ap, ap₂, ◌∙◌, true, List, [], ◌∷◌, ◌++◌, append_assoc, some, map, codes,
  fatal_unless, Result, ok, Act, All,
}
use file_transfer_using_libp.P2P.{
  host_options, reserve_all, AddrInfo, Multiaddrs, Libp2p, Host, static_relay_addrs, relay_addr,
  new_host, circuit_addr, p2p_addr,
}
use file_transfer_using_libp.P2P.Identity.{Keys, KeyFile, load_or_create_identity}
use file_transfer_using_libp.P2P.Relays.{Parses, Holds, reserve_all-Holds, static_relay_addrs_exact}
use file_transfer_using_libp.Client.{split_non_empty}
use file_transfer_using_libp.Client.Parts.{IsClean, joined, split_non_empty-joined}

-- `PORT` of Protocol/protocol.go.
abbrev port : List ℕ
port = codes "9001"

-- The addresses at which the server listens.
abbrev pub server_listen_addrs : List (List ℕ)
server_listen_addrs =
    (codes "/ip4/0.0.0.0/tcp/" ++ port)
    ∷ (codes "/ip4/0.0.0.0/udp/" ++ (port ++ codes "/quic-v1"))
    ∷ []

abbrev pub printed : List ℕ → List (List ℕ) → List (List ℕ)
printed [] rest = rest
printed (c ∷ addr) rest = (c ∷ addr) ∷ rest

-- The loop over the relays.
unfoldable pub circuit_lines : List AddrInfo → List ℕ → List (List ℕ)
unfolding circuit_addr
circuit_lines [] self = []
circuit_lines (relay ∷ relays) self = printed (circuit_addr relay self) (circuit_lines relays self)

-- What the server prints before it waits.
unfoldable pub server_lines : List (List ℕ) → List AddrInfo → List ℕ → List (List ℕ)
unfolding circuit_lines p2p_addr
server_lines addrs relays self = map (λ addr. p2p_addr addr self) addrs ++ circuit_lines relays self

module _ (K : Keys) (M : Multiaddrs) (L : Libp2p) where
  -- The host, and what is printed.
  abbrev pub Started : Type 0
  Started = Host × List (List ℕ)

  abbrev pub serving : List AddrInfo → Host → Result Started
  serving relays h = ok (h, server_lines (L.addrs h.options) relays (L.id h.options))

  abbrev pub with_identity : List ℕ → Result (List ℕ) → Result Started
  with_identity relay_addrs r = fatal_unless "couldn't load/create identity" r λ priv.
      fatal_unless "bad RELAY_ADDRS" (static_relay_addrs M (split_non_empty relay_addrs)) λ relays.
        fatal_unless "libp2p host creation failed" (new_host L priv server_listen_addrs relays)
          (serving relays)

  abbrev pub from_identity : List ℕ → Result (List ℕ) × KeyFile → Result Started × KeyFile
  from_identity relay_addrs (r, f) = (with_identity relay_addrs r, f)

  -- `main`, from the variable RELAY_ADDRS.
  unfoldable pub server_main : List ℕ → Act KeyFile Started
  unfolding load_or_create_identity split_non_empty static_relay_addrs new_host server_lines
  server_main relay_addrs f = from_identity relay_addrs (load_or_create_identity K f)

  -- A relay's address and its id. The text that the relay prints of them has no comma and no white
  -- space, and parses to them.
  pub record IsRelay (r : List ℕ × List ℕ) : Type 0 where
    pub clean : IsClean (p2p_addr r.0 r.1)
    pub is_multiaddr : M.new_multiaddr (p2p_addr r.0 r.1) ≡ some (p2p_addr r.0 r.1)
    pub is_peer : M.addr_info (p2p_addr r.0 r.1) ≡ some (record { id = r.1; addrs = r.0 ∷ [] })

  abbrev pub texts : List (List ℕ × List ℕ) → List (List ℕ)
  texts rs = map (λ r. p2p_addr r.0 r.1) rs

  abbrev pub infos : List (List ℕ × List ℕ) → List AddrInfo
  infos rs = map (λ r. record { id = r.1; addrs = r.0 ∷ [] }) rs

  -- The circuit address of a relay is what the relay printed, and on.
  circuit_lines-infos :
      (rs : List (List ℕ × List ℕ)) (self : List ℕ)
      → All IsRelay rs
      → circuit_lines (infos rs) self
        ≡ map (λ t. t ++ (codes "/p2p-circuit/p2p/" ++ self)) (texts rs)
  unfolding circuit_lines circuit_addr p2p_addr
  circuit_lines-infos [] self h = refl
  circuit_lines-infos ((addr, id) ∷ rs) self (h, hs) =
      let on = codes "/p2p-circuit/p2p/" ++ self in
      let same : circuit_addr (record { id = id; addrs = addr ∷ [] }) self
          ≡ p2p_addr addr id ++ on =
        sym (append_assoc addr (codes "/p2p/" ++ id) on) in
      let starts = ap (λ x. x ++ on) h.clean.not_empty in
      ap (λ x. printed x (circuit_lines (infos rs) self)) (same ∙ starts)
      ∙ ap₂ (λ x xs. x ∷ xs) (sym starts) (circuit_lines-infos rs self hs)

  parsed_relays : (rs : List (List ℕ × List ℕ)) → All IsRelay rs → Parses M (texts rs) (infos rs)
  unfolding relay_addr
  parsed_relays [] h = tt
  parsed_relays ((addr, id) ∷ rs) (h, hs) =
      (rw (h.is_multiaddr, h.is_peer) refl, parsed_relays rs hs)

  texts-IsClean : (rs : List (List ℕ × List ℕ)) → All IsRelay rs → All IsClean (texts rs)
  texts-IsClean [] h = tt
  texts-IsClean (r ∷ rs) (h, hs) = (h.clean, texts-IsClean rs hs)

  -- A server is given relays by the texts that they print, joined by commas in RELAY_ADDRS; each text
  -- parses to the relay's address and id, and has no comma and no white space at its ends. Its key is
  -- loaded or created, and `libp2p.New` succeeds. Then `main` comes to wait for streams; it holds a
  -- reservation with each of the relays that answers; and it prints each address at which it listens,
  -- with its own id, and then for each relay the relay's text, followed by `/p2p-circuit/p2p/` and its
  -- own id.
  pub server_main_circuits :
      (rs : List (List ℕ × List ℕ)) (f f' : KeyFile) (priv : List ℕ)
      → All IsRelay rs
      → load_or_create_identity K f ≡ (ok priv, f')
      → L.new (host_options priv server_listen_addrs) ≡ true
      → let self = L.id (host_options priv server_listen_addrs) in
        let addrs = L.addrs (host_options priv server_listen_addrs) in
        (h : Host) × (server_main (joined (texts rs)) f ≡ (
          ok (
            h,
            map (λ addr. p2p_addr addr self) addrs
                ++ map (λ t. t ++ (codes "/p2p-circuit/p2p/" ++ self)) (texts rs),
          ),
          f',
        ))
        × (h.options ≡ host_options priv server_listen_addrs)
        × Holds L (infos rs) h.reservations
  unfolding server_main server_lines new_host
  server_main_circuits rs f f' priv h loaded answers =
      let opts = host_options priv server_listen_addrs in
      let made : Host = record { options = opts; reservations = reserve_all L (infos rs) } in
      let split' = split_non_empty-joined (texts rs) (texts-IsClean rs h) in
      let parse =
        ap (static_relay_addrs M) split'
        ∙ (static_relay_addrs_exact M (texts rs) (infos rs)).1 (parsed_relays rs h) in
      (
        made,
        ap (from_identity (joined (texts rs))) loaded
            ∙ rw parse (
                rw answers (
                  ap
                    (λ x.
                      (ok (made, map (λ addr. p2p_addr addr (L.id opts)) (L.addrs opts) ++ x), f'))
                    (circuit_lines-infos rs (L.id opts) h))),
        refl,
        reserve_all-Holds L (infos rs),
      )
