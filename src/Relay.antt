-- ===== src/Relay.antt =====
-- relay/main.go. The encodings of keys and of base64 are code outside the repository.
use file_transfer_using_libp.Base.{
  ℕ, ◌≡◌, refl, ap, ◌∙◌, Option, none, some, List, [], ◌∷◌, ◌++◌, map, if◌then◌else◌, codes, failed,
  wrap, Result, ok, err, panic, fatal, Act,
}
use file_transfer_using_libp.P2P.{
  HostOption, identity, listen_addr_strings, enable_relay_service, force_reachability_public,
  disable_relay, Libp2p, p2p_addr,
}
use file_transfer_using_libp.P2P.Identity.{Keys, IsLawful, KeyFile, load_or_create_identity}

-- `base64.StdEncoding`.
pub record Base64 : Type 0 where
  pub encode_to_string : List ℕ → List ℕ
  pub decode_string : List ℕ → Option (List ℕ)

-- What the package documents: decoding undoes encoding.
pub record IsInverse (B : Base64) : Type 0 where
  pub decode-encode : (bs : List ℕ) → B.decode_string (B.encode_to_string bs) ≡ some bs

module _ (K : Keys) (B : Base64) where
  -- The key, and the text that is printed to be kept in RELAY_PRIVKEY_B64, if one is.
  abbrev pub Loaded : Type 0
  Loaded = List ℕ × Option (List ℕ)

  abbrev from_key : Option (List ℕ) → Result Loaded
  from_key none = err (failed "UnmarshalPrivateKey")
  from_key (some priv) = ok (priv, none)

  abbrev from_base64 : Option (List ℕ) → Result Loaded
  from_base64 none = err (wrap "bad RELAY_PRIVKEY_B64" (failed "base64"))
  from_base64 (some bs) = from_key (K.unmarshal bs)

  abbrev with_base64 : List ℕ → Option (List ℕ) → Result Loaded
  with_base64 priv none = err (failed "MarshalPrivateKey")
  with_base64 priv (some bs) = ok (priv, some (B.encode_to_string bs))

  abbrev printing : Result (List ℕ) × KeyFile → Result Loaded × KeyFile
  printing (ok priv, f) = (with_base64 priv (K.marshal priv), f)
  printing (err e, f) = (err e, f)
  printing (panic, f) = (panic, f)
  printing (fatal e, f) = (fatal e, f)

  -- `loadIdentity`, with the value of RELAY_PRIVKEY_B64, which is empty where it is not set.
  unfoldable pub load_identity : List ℕ → Act KeyFile Loaded
  unfolding load_or_create_identity
  load_identity [] f = printing (load_or_create_identity K f)
  load_identity (c ∷ b64) f = (from_base64 (B.decode_string (c ∷ b64)), f)

  with_base64_ok :
      (priv k text : List ℕ) (o : Option (List ℕ))
      → with_base64 priv o ≡ ok (k, some text)
      → (bs : List ℕ) × (o ≡ some bs) × (k ≡ priv) × (text ≡ B.encode_to_string bs)
  with_base64_ok priv k text none e = cc
  with_base64_ok priv k text (some bs) e = (bs, refl, cc e, cc e)

  printing_ok :
      (r : Result (List ℕ) × KeyFile) (k text : List ℕ) (f' : KeyFile)
      → printing r ≡ (ok (k, some text), f')
      → (bs : List ℕ) × (K.marshal k ≡ some bs) × (text ≡ B.encode_to_string bs)
  printing_ok (ok priv, f) k text f' e =
      let (bs, m, same, p) = with_base64_ok priv k text (K.marshal priv) (ap (λ x. x.0) e) in
      (bs, ap K.marshal same ∙ m, p)
  printing_ok (err e', f) k text f' e = cc
  printing_ok (panic, f) k text f' e = cc
  printing_ok (fatal e', f) k text f' e = cc

  -- Where what was marshalled unmarshals to the same key, and what was written in base64 decodes to the
  -- same bytes: the text that a relay without RELAY_PRIVKEY_B64 prints, where it is not empty, gives a
  -- relay that has it there the same key, whatever its key file is, and leaves that file alone.
  pub load_identity_portable :
      (f f' g : KeyFile) (k text : List ℕ) (c : ℕ)
      → IsLawful K
      → IsInverse B
      → load_identity [] f ≡ (ok (k, some (c ∷ text)), f')
      → load_identity (c ∷ text) g ≡ (ok (k, none), g)
  unfolding load_identity
  load_identity_portable f f' g k text c law inverse e =
      let (bs, m, p) = printing_ok (load_or_create_identity K f) k (c ∷ text) f' e in
      ap (λ x. (from_base64 x, g)) (ap B.decode_string p ∙ inverse.decode-encode bs)
      ∙ ap (λ x. (from_key x, g)) (law.unmarshal-marshal k bs m)

-- The port, from the variable PORT.
abbrev pub relay_port : List ℕ → List ℕ
relay_port [] = codes "4001"
relay_port port = port

-- The options of the relay's host.
unfoldable pub relay_options : List ℕ → List ℕ → List HostOption
relay_options priv port =
    identity priv
    ∷ listen_addr_strings ((codes "/ip4/0.0.0.0/tcp/" ++ (port ++ codes "/ws")) ∷ [])
    ∷ enable_relay_service
    ∷ force_reachability_public
    ∷ disable_relay
    ∷ []

module _ (K : Keys) (B : Base64) (L : Libp2p) where
  abbrev announced : List HostOption → Result (List (List ℕ))
  announced opts =
      if L.new opts
      then ok (map (λ addr. p2p_addr addr (L.id opts)) (L.addrs opts))
      else fatal (wrap "relay host creation failed" (failed "libp2p.New"))

  abbrev started : List ℕ → Result (Loaded K B) × KeyFile → Result (List (List ℕ)) × KeyFile
  started port (ok (priv, _), f) = (announced (relay_options priv (relay_port port)), f)
  started port (err e, f) = (fatal (wrap "couldn't load/create relay identity" e), f)
  started port (panic, f) = (panic, f)
  started port (fatal e, f) = (fatal e, f)

  -- `main`, from the variables RELAY_PRIVKEY_B64 and PORT: the addresses that it prints.
  unfoldable pub relay_main : List ℕ → List ℕ → Act KeyFile (List (List ℕ))
  unfolding load_identity relay_options p2p_addr
  relay_main b64 port f = started port (load_identity K B b64 f)
