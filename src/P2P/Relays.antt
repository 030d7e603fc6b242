-- ===== src/P2P/Relays.antt =====
-- `StaticRelayAddrs` and `NewHost`: which relays a host is given, and with which it holds a
-- reservation.
use file_transfer_using_libp.Base.{
  ℕ, ◌≡◌, refl, ◌↔◌, ◌⊎◌, inl, inr, true, false, Bool-cases, Option-cases, none, some, List, [],
  ◌∷◌, arith, Result, ok, err, panic, fatal,
}
use file_transfer_using_libp.P2P.{
  Multiaddrs, AddrInfo, relay_addr, append_info, static_relay_addrs, Libp2p, Host, reserve_all,
  host_options, new_host,
}

module _ (M : Multiaddrs) where
  -- Each text is parsed to the peer at the same place.
  abbrev pub Parses : List (List ℕ) → List AddrInfo → Type 0
  Parses [] [] = Unit
  Parses [] (i ∷ infos) = ⊥
  Parses (a ∷ addrs) [] = ⊥
  Parses (a ∷ addrs) (i ∷ infos) = (relay_addr M a ≡ ok i) × Parses addrs infos

  append_info_ok :
      (r : Result AddrInfo) (rs : Result (List AddrInfo)) (infos : List AddrInfo)
      → append_info M r rs ≡ ok infos
      → (i : AddrInfo) × (is : List AddrInfo) × (r ≡ ok i) × (rs ≡ ok is) × (infos ≡ i ∷ is)
  append_info_ok (ok i) (ok is) infos e = (i, is, refl, refl, cc e)
  append_info_ok (ok i) (err e') infos e = cc
  append_info_ok (ok i) panic infos e = cc
  append_info_ok (ok i) (fatal e') infos e = cc
  append_info_ok (err e') rs infos e = cc
  append_info_ok panic rs infos e = cc
  append_info_ok (fatal e') rs infos e = cc

  parses :
      (addrs : List (List ℕ)) (infos : List AddrInfo)
      → static_relay_addrs M addrs ≡ ok infos
      → Parses addrs infos
  unfolding static_relay_addrs
  parses [] [] e = tt
  parses [] (i ∷ infos) e = cc
  parses (a ∷ addrs) infos e =
      let (i, is, p, q, same) =
        append_info_ok (relay_addr M a) (static_relay_addrs M addrs) infos e in
      rw same (p, parses addrs is q)

  parsed :
      (addrs : List (List ℕ)) (infos : List AddrInfo)
      → Parses addrs infos
      → static_relay_addrs M addrs ≡ ok infos
  unfolding static_relay_addrs
  parsed [] [] h = refl
  parsed [] (i ∷ infos) h = absurd h
  parsed (a ∷ addrs) [] h = absurd h
  parsed (a ∷ addrs) (i ∷ infos) (p, h) = rw (p, parsed addrs infos h)

  -- `StaticRelayAddrs` returns peers exactly when it can parse every text, and then one for each, in
  -- their order.
  pub static_relay_addrs_exact :
      (addrs : List (List ℕ)) (infos : List AddrInfo)
      → (static_relay_addrs M addrs ≡ ok infos) ↔ Parses addrs infos
  static_relay_addrs_exact addrs infos = (parses addrs infos, parsed addrs infos)

module _ (L : Libp2p) where
  -- The relays that can be connected to and reserve a slot, each with the end of its reservation.
  abbrev pub Holds : List AddrInfo → List (AddrInfo × ℕ) → Type 0
  Holds [] [] = Unit
  Holds [] (r ∷ rest) = ⊥
  Holds (relay ∷ relays) [] =
      ((L.connect relay ≡ false) ⊎ (L.reserve relay ≡ none)) × Holds relays []
  Holds (relay ∷ relays) ((held, until) ∷ rest) =
      ((L.connect relay ≡ true)
        × (L.reserve relay ≡ some until)
        × (held ≡ relay)
        × Holds relays rest)
      ⊎ (((L.connect relay ≡ false) ⊎ (L.reserve relay ≡ none))
          × Holds relays ((held, until) ∷ rest))

  passed_over :
      (relay : AddrInfo) (relays : List AddrInfo) (held : List (AddrInfo × ℕ))
      → (L.connect relay ≡ false) ⊎ (L.reserve relay ≡ none)
      → Holds relays held
      → Holds (relay ∷ relays) held
  passed_over relay relays [] h hs = (h, hs)
  passed_over relay relays (r ∷ held) h hs = inr (h, hs)

  pub reserve_all-Holds : (relays : List AddrInfo) → Holds relays (reserve_all L relays)
  unfolding reserve_all
  reserve_all-Holds [] = tt
  reserve_all-Holds (relay ∷ relays) = elim (Bool-cases (L.connect relay)) [
    | inl reached ↦ elim (Option-cases (L.reserve relay)) [
      | inl refused ↦
          rw (reached, refused)
            (passed_over relay relays (reserve_all L relays) (inr refused)
              (reserve_all-Holds relays))
      | inr (until, granted) ↦
          rw (reached, granted) (inl (reached, granted, refl, reserve_all-Holds relays))
    ]
    | inr failed' ↦
        rw failed'
          (passed_over relay relays (reserve_all L relays) (inl failed') (reserve_all-Holds relays))
  ]

  -- A host that `NewHost` returns keeps alive the reservations with those relays, in their order,
  -- that it could connect to and that gave it one, and passes over the others; it has the key and the
  -- addresses that were given.
  pub new_host-Holds :
      (priv : List ℕ) (listen : List (List ℕ)) (relays : List AddrInfo) (h : Host)
      → new_host L priv listen relays ≡ ok h
      → Holds relays h.reservations × (h.options ≡ host_options priv listen)
  unfolding new_host
  new_host-Holds priv listen relays h e = ground (arith, reserve_all-Holds relays)
