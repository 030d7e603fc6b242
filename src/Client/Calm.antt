-- ===== src/Client/Calm.antt =====
-- What `main` of Client/client.go calls before it opens a stream: values and errors.
use file_transfer_using_libp.Base.{
  ℕ, Bool, ◌≡◌, refl, true, false, Option, none, some, List, [], ◌∷◌, String, if◌then◌else◌,
  fatal_unless, Error, wrap, Result, ok, err, panic, fatal,
}
use file_transfer_using_libp.P2P.{
  Multiaddrs, AddrInfo, Libp2p, static_relay_addrs, with_info, from_multiaddr, relay_addr,
  append_info, generated,
}
use file_transfer_using_libp.Client.{as_result}

-- A result that is a value or an error.
abbrev pub IsCalm : {A : Type 0} → Result A → Type 0
IsCalm (ok a) = Unit
IsCalm (err e) = Unit
IsCalm panic = ⊥
IsCalm (fatal e) = ⊥

pub if_rule :
    {A : Type 0} (P : A → Type 0) (b : Bool) (x y : A)
    → (b ≡ true → P x)
    → (b ≡ false → P y)
    → P (if b then x else y)
if_rule P true x y h h' = h refl
if_rule P false x y h h' = h' refl

pub fatal_unless_rule :
    {A B : Type 0} (P : Result B → Type 0) (what : String) (r : Result A) (k : A → Result B)
    → IsCalm r
    → ((e : Error) → r ≡ err e → P (fatal (wrap what e)))
    → ((a : A) → r ≡ ok a → P (k a))
    → P (fatal_unless what r k)
fatal_unless_rule P what (ok a) k c f h = h a refl
fatal_unless_rule P what (err e) k c f h = f e refl
fatal_unless_rule P what panic k c f h = absurd c
fatal_unless_rule P what (fatal e) k c f h = absurd c

with_info-IsCalm : (M : Multiaddrs) (o : Option AddrInfo) → IsCalm (with_info M o)
with_info-IsCalm M none = tt
with_info-IsCalm M (some i) = tt

from_multiaddr-IsCalm : (M : Multiaddrs) (o : Option (List ℕ)) → IsCalm (from_multiaddr M o)
from_multiaddr-IsCalm M none = tt
from_multiaddr-IsCalm M (some a) = with_info-IsCalm M (M.addr_info a)

pub as_result-IsCalm : {A : Type 0} → (o : Option A) → IsCalm (as_result o)
as_result-IsCalm none = tt
as_result-IsCalm (some a) = tt

append_info-IsCalm :
    (M : Multiaddrs) (r : Result AddrInfo) (rs : Result (List AddrInfo))
    → IsCalm r
    → IsCalm rs
    → IsCalm (append_info M r rs)
append_info-IsCalm M (ok i) (ok is) h hs = tt
append_info-IsCalm M (ok i) (err e) h hs = tt
append_info-IsCalm M (ok i) panic h hs = absurd hs
append_info-IsCalm M (ok i) (fatal e) h hs = absurd hs
append_info-IsCalm M (err e) rs h hs = tt
append_info-IsCalm M panic rs h hs = absurd h
append_info-IsCalm M (fatal e) rs h hs = absurd h

pub static_relay_addrs-IsCalm :
    (M : Multiaddrs) (addrs : List (List ℕ)) → IsCalm (static_relay_addrs M addrs)
unfolding static_relay_addrs relay_addr
static_relay_addrs-IsCalm M [] = tt
static_relay_addrs-IsCalm M (a ∷ addrs) =
    append_info-IsCalm M (relay_addr M a) (static_relay_addrs M addrs)
      (from_multiaddr-IsCalm M (M.new_multiaddr a)) (static_relay_addrs-IsCalm M addrs)

pub as_result_ok : {A : Type 0} → (o : Option A) (a : A) → as_result o ≡ ok a → o ≡ some a
as_result_ok none a e = cc
as_result_ok (some b) a e = cc

pub generated-IsCalm : (L : Libp2p) (o : Option (List ℕ)) → IsCalm (generated L o)
generated-IsCalm L none = tt
generated-IsCalm L (some priv) = tt
