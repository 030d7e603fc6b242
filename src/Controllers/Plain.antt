-- ===== src/Controllers/Plain.antt =====
-- The calls of a step on files, randomness and chunks do not panic.
use file_transfer_using_libp.Base.{
  ℕ, ◌≡◌, Option, none, some, List, length, arith, ok, err, panic, fatal, Act, wrap_at, on_error,
  IsPlain, and_then-IsPlain, on_error-IsPlain, Result,
}
use file_transfer_using_libp.Protocol.Types.{Chunk, new_chunk, nonce_size}
use file_transfer_using_libp.Protocol.File.{File, on_some_file, keep_file, write_file, close_file}
use file_transfer_using_libp.Crypto.{
  Crypto, rand_read, encrypt_chunk, build_and_encrypt_chunk, decrypt_and_check,
}
use file_transfer_using_libp.Controllers.Actions.{read_chunk_plaintext}

keep_file-IsPlain : {A : Type 0} (r : Result A × File) → IsPlain r → IsPlain (keep_file r)
keep_file-IsPlain (ok a, f) p = tt
keep_file-IsPlain (err e, f) p = tt
keep_file-IsPlain (panic, f) p = absurd p
keep_file-IsPlain (fatal e, f) p = absurd p

pub on_some_file-IsPlain :
    {A : Type 0} (m : Act File A) (f : Option File)
    → ((g : File) → IsPlain (m g))
    → IsPlain (on_some_file m f)
on_some_file-IsPlain m none h = tt
on_some_file-IsPlain m (some f) h = keep_file-IsPlain (m f) (h f)

pub read_chunk_plaintext-IsPlain :
    (index chunk_size : ℕ) (f : File) → IsPlain (read_chunk_plaintext index chunk_size f)
unfolding read_chunk_plaintext
read_chunk_plaintext-IsPlain index chunk_size f = ground arith

pub write_file-IsPlain : (buf : List ℕ) (f : File) → IsPlain (write_file buf f)
unfolding write_file
write_file-IsPlain buf f = ground arith

pub close_file-IsPlain : (f : File) → IsPlain (close_file f)
unfolding close_file
close_file-IsPlain f = ground arith

pub rand_read-IsPlain : (n : ℕ) (entropy : List ℕ) → IsPlain (rand_read n entropy)
unfolding rand_read
rand_read-IsPlain n entropy = ground arith

module _ (C : Crypto) where
  encrypt_chunk-IsPlain : (c : Chunk) (entropy : List ℕ) → IsPlain (encrypt_chunk C c entropy)
  unfolding encrypt_chunk
  encrypt_chunk-IsPlain c entropy = ground (arith, rand_read-IsPlain nonce_size entropy)

  pub build_and_encrypt_chunk-IsPlain :
      (file_id : List ℕ) (index : ℕ) (plaintext entropy : List ℕ)
      → IsPlain (build_and_encrypt_chunk C file_id index plaintext entropy)
  unfolding build_and_encrypt_chunk
  build_and_encrypt_chunk-IsPlain file_id index plaintext entropy =
      and_then-IsPlain _ _
        (on_error-IsPlain _ (rand_read 32 entropy) (rand_read-IsPlain 32 entropy))
        λ key rest.
          let c = record (new_chunk file_id index plaintext) { key = key } in
          and_then-IsPlain (on_error (wrap_at "encrypting chunk" index) (encrypt_chunk C c rest)) _
            (on_error-IsPlain _ (encrypt_chunk C c rest) (encrypt_chunk-IsPlain c rest)) λ _ _. tt

  pub decrypt_and_check-IsPlain :
      (c : Chunk) → length c.nonce ≡ nonce_size → IsPlain (decrypt_and_check C c)
  unfolding decrypt_and_check
  decrypt_and_check-IsPlain c h = ground arith
