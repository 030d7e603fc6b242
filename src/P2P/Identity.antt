-- ===== src/P2P/Identity.antt =====
-- `LoadOrCreateIdentity` of P2P/host.go. Keys and their encoding are code outside the repository: a
-- key is the list of its bytes, and `Keys` has what is asked of the package `crypto`.
use file_transfer_using_libp.Base.{
  ℕ, Bool, ◌≡◌, Option, none, some, List, if◌then◌else◌, failed, Result, ok, err, Act,
}

pub record Keys : Type 0 where
  pub generate : Option (List ℕ)
  pub marshal : List ℕ → Option (List ℕ)
  pub unmarshal : List ℕ → Option (List ℕ)

-- What the package documents: unmarshalling undoes marshalling.
pub record IsLawful (K : Keys) : Type 0 where
  pub unmarshal-marshal : (k bs : List ℕ) → K.marshal k ≡ some bs → K.unmarshal bs ≡ some k

-- The file at `keyPath`: what it holds, if it is there, whether it can be read and written. A write
-- that fails leaves it as it was.
pub record KeyFile : Type 0 where
  pub content : Option (List ℕ)
  pub readable : Bool
  pub writable : Bool

-- `os.ReadFile`; `none` is an error of any kind.
abbrev pub read_key_file : KeyFile → Option (List ℕ)
read_key_file f = if f.readable then f.content else none

module _ (K : Keys) where
  abbrev pub unmarshalled : Option (List ℕ) → Result (List ℕ)
  unmarshalled none = err (failed "UnmarshalPrivateKey")
  unmarshalled (some k) = ok k

  abbrev pub stored : List ℕ → Option (List ℕ) → Act KeyFile (List ℕ)
  stored priv none f = (err (failed "MarshalPrivateKey"), f)
  stored priv (some bs) f =
      if f.writable
      then (ok priv, record f { content = some bs })
      else (err (failed "WriteFile"), f)

  abbrev pub created : Option (List ℕ) → Act KeyFile (List ℕ)
  created none f = (err (failed "GenerateKeyPair"), f)
  created (some priv) f = stored priv (K.marshal priv) f

  abbrev pub loaded : Option (List ℕ) → Act KeyFile (List ℕ)
  loaded none f = created K.generate f
  loaded (some bs) f = (unmarshalled (K.unmarshal bs), f)

  -- `LoadOrCreateIdentity`.
  unfoldable pub load_or_create_identity : Act KeyFile (List ℕ)
  load_or_create_identity f = loaded (read_key_file f) f

  abbrev Stable : List ℕ → KeyFile → Type 0
  Stable k f = load_or_create_identity f ≡ (ok k, f)
