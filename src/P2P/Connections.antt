-- ===== src/P2P/Connections.antt =====
-- `connKindToPeer` and `CircuitAddr`: what counts as a direct connection, and what as a relayed one.
use file_transfer_using_libp.Base.{
  ℕ, ◌≤◌, ◌≡◌, refl, ap, subst, inl, inr, true, false, Bool-cases, List, [], ◌∷◌, ◌++◌,
  append_assoc, length, All, arith, codes, contains, has_prefix, ==_refl,
}
use file_transfer_using_libp.P2P.{
  AddrInfo, ConnKind, no_conn, relayed, direct, is_relayed_addr, best_kind, conn_kind_to_peer,
  circuit_through, circuit_addr,
}

-- What each answer says of the connections.
abbrev pub KindOf : List (List ℕ) → ConnKind → Type 0
KindOf conns no_conn = conns ≡ []
KindOf conns relayed = (1 ≤ length conns) × All (λ c. is_relayed_addr c ≡ true) conns
KindOf conns direct =
    (before : List (List ℕ)) × (c : List ℕ) × (after : List (List ℕ)) × (conns
      ≡ before ++ (c ∷ after))
    × (is_relayed_addr c ≡ false)

abbrev BestOf : List (List ℕ) → ConnKind → Type 0
BestOf conns no_conn = ⊥
BestOf conns relayed = All (λ c. is_relayed_addr c ≡ true) conns
BestOf conns direct = KindOf conns direct

BestOf-cons :
    (c : List ℕ) (conns : List (List ℕ)) (k : ConnKind)
    → is_relayed_addr c ≡ true
    → BestOf conns k
    → BestOf (c ∷ conns) k
BestOf-cons c conns no_conn h b = absurd b
BestOf-cons c conns relayed h b = (h, b)
BestOf-cons c conns direct h (before, d, after, e, n) =
    (c ∷ before, d, after, ap (λ xs. c ∷ xs) e, n)

best_kind-BestOf : (conns : List (List ℕ)) → BestOf conns (best_kind conns)
unfolding best_kind
best_kind-BestOf [] = tt
best_kind-BestOf (c ∷ conns) = elim (Bool-cases (is_relayed_addr c)) [
  | inl h ↦ rw h (BestOf-cons c conns (best_kind conns) h (best_kind-BestOf conns))
  | inr h ↦ rw h ([], c, conns, refl, h)
]

some_conn :
    (conns : List (List ℕ)) (k : ConnKind) → 1 ≤ length conns → BestOf conns k → KindOf conns k
some_conn conns no_conn h b = absurd b
some_conn conns relayed h b = (h, b)
some_conn conns direct h b = b

-- `connKindToPeer` answers `NoConn` only where there is no connection, `Relayed` only where there is
-- one and all go through a relay, and `Direct` only where one does not.
pub conn_kind_to_peer-KindOf : (conns : List (List ℕ)) → KindOf conns (conn_kind_to_peer conns)
unfolding conn_kind_to_peer
conn_kind_to_peer-KindOf [] = refl
conn_kind_to_peer-KindOf (c ∷ conns) =
    some_conn (c ∷ conns) (best_kind (c ∷ conns)) (omega arith) (best_kind-BestOf (c ∷ conns))

has_prefix-append : (p rest : List ℕ) → has_prefix (p ++ rest) p ≡ true
unfolding has_prefix
has_prefix-append [] [] = refl
has_prefix-append [] (a ∷ rest) = refl
has_prefix-append (b ∷ p) rest = rw (==_refl b) (has_prefix-append p rest)

-- A text contains what stands in its middle.
contains-append : (before p after : List ℕ) → contains (before ++ (p ++ after)) p ≡ true
unfolding contains
contains-append [] [] [] = unfold has_prefix in refl
contains-append [] [] (a ∷ after) = unfold has_prefix in refl
contains-append [] (b ∷ p) after = rw (has_prefix-append (b ∷ p) after)
contains-append (a ∷ before) p after = ground (arith, contains-append before p after)

circuit_through-relayed :
    (addrs : List (List ℕ)) (relay self : List ℕ)
    → 1 ≤ length addrs
    → is_relayed_addr (circuit_through addrs relay self) ≡ true
unfolding is_relayed_addr
circuit_through-relayed [] relay self h = absurd (omega arith)
circuit_through-relayed (addr ∷ addrs) relay self h =
    subst (λ t. contains t (codes "/p2p-circuit") ≡ true)
      (append_assoc addr (codes "/p2p/" ++ relay) (codes "/p2p-circuit/p2p/" ++ self))
      (contains-append (addr ++ (codes "/p2p/" ++ relay)) (codes "/p2p-circuit")
        (codes "/p2p/" ++ self))

-- A connection to the circuit address through a relay that has an address counts as relayed.
pub circuit_addr-relayed :
    (relay : AddrInfo) (self : List ℕ)
    → 1 ≤ length relay.addrs
    → conn_kind_to_peer (circuit_addr relay self ∷ []) ≡ relayed
unfolding conn_kind_to_peer circuit_addr
circuit_addr-relayed relay self h = rw (circuit_through-relayed relay.addrs relay.id self h)
