-- ===== src/Tests.antt =====
-- Examples: a small cryptography that keeps the documented laws, connections and files, and the
-- theorems applied to them.
mod Messages
mod Chunks
mod Sessions
mod Requests
mod Network
mod Schedules
mod Transcripts
use file_transfer_using_libp.Base.{
  ℕ, zero, suc, ◌+◌, ◌-◌, ◌%◌, ◌<◌, ◌≡◌, refl, sym, ap, ◌∙◌, true, Option, none, some, List, [],
  ◌∷◌, ◌++◌, take, length-append, take-append_exact, replicate, All, IsByte, arith, eof,
}
use file_transfer_using_libp.Base
use file_transfer_using_libp.Protocol.Types.{Chunk, hash_size, key_size, nonce_size}
use file_transfer_using_libp.Protocol.Stream.{Stream}
use file_transfer_using_libp.Protocol.File.{File, Disk}
use file_transfer_using_libp.Crypto.{Crypto, IsLawful}

abbrev sum : List ℕ → ℕ
sum [] = 0
sum (x ∷ xs) = x + sum xs

-- A hash of 32 times the sum of the bytes; a sealed text is the text with a tag of 16 zeros.
abbrev pub toy : Crypto
toy = record {
  keccak256 = λ xs. replicate 32 (sum xs % 256);
  gcm_seal = λ key nonce plaintext. plaintext ++ replicate 16 0;
  gcm_open = λ key nonce ciphertext. some (take (Base.length ciphertext - 16) ciphertext);
}

replicate-IsByte : (n a : ℕ) → a < 256 → All IsByte (replicate n a)
replicate-IsByte zero a h = tt
replicate-IsByte (suc n) a h = (h, replicate-IsByte n a h)

pub toy-IsLawful : IsLawful toy
toy-IsLawful = record {
  length-keccak256 = λ xs. refl;
  keccak256-IsByte = λ xs. replicate-IsByte 32 (sum xs % 256) (omega arith);
  length-gcm_seal = λ key nonce plaintext hk hn. length-append plaintext (replicate 16 0);
  gcm_open-gcm_seal = λ key nonce plaintext hk hn. ap some (
      take-append_exact (Base.length (plaintext ++ replicate 16 0) - 16) plaintext (replicate 16 0)
        (omega (arith, length-append plaintext (replicate 16 0))));
}

abbrev pub key_sevens : List ℕ
key_sevens = replicate 32 7

abbrev pub nonce_nines : List ℕ
nonce_nines = replicate 12 9

-- A connection that accepts every write.
abbrev pub open_conn : Stream
open_conn = record { incoming = []; ending = eof; outgoing = []; accepts = λ o. true }

-- A file with those bytes, and one that `os.Create` gives.
abbrev pub small_file : File
small_file = record {
  name = 97 ∷ [];
  path = 47 ∷ 97 ∷ [];
  content = 1 ∷ 2 ∷ 3 ∷ [];
  closed = Base.false;
  stats = true;
  readable = true;
  room = 100;
  flushes = true;
}

abbrev pub empty_file : File
empty_file = record small_file { content = [] }

abbrev pub small_disk : Disk
small_disk = record { create = λ path. some empty_file; open_file = λ path. some small_file }
