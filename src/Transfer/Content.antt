-- ===== src/Transfer/Content.antt =====
-- What a whole transfer leaves in the output file, and the size of the root over its leaves.
use file_transfer_using_libp.Base.{
  ℕ, zero, suc, ◌+◌, ◌-◌, ◌*◌, ◌≤◌, ◌<◌, ◌≡◌, refl, sym, ap, ap₂, ◌∙◌, subst, true, false, List, [],
  ◌∷◌, ◌++◌, append_assoc, take, drop, take-all, All, All-append, Bool-cases, arith, Result, ok,
}
use file_transfer_using_libp.Base
use file_transfer_using_libp.Protocol.Types.{Chunk, chunk_size, hash_size}
use file_transfer_using_libp.Protocol.File.{File, close_file}
use file_transfer_using_libp.Crypto.{Crypto, IsLawful, keccak}
use file_transfer_using_libp.Crypto.Chunks.{sealed_chunk}
use file_transfer_using_libp.Merkle.{generate_leaf, build_tree, root_of_tree, next_level}
use file_transfer_using_libp.Merkle.Shape.{length-next_level, root_single, root_next_level}
use file_transfer_using_libp.Merkle.Binding.{IsHash, next_level-IsHash}
use file_transfer_using_libp.Controllers.Receiver.Success.{written}
use file_transfer_using_libp.Transfer.{Secrets, slice, chunks_from, with_leaves}
use file_transfer_using_libp.Transfer.Receiving.{filled}

pub take-append-take : (m n : ℕ) (xs : List ℕ) → take m xs ++ take n (drop m xs) ≡ take (m + n) xs
take-append-take zero n xs = ap (λ k. take k xs) (let e : n ≡ 0 + n = omega arith in e)
take-append-take (suc m) zero [] = sym (take-all (suc m + 0) [] (omega arith))
take-append-take (suc m) (suc n) [] = sym (take-all (suc m + suc n) [] (omega arith))
take-append-take (suc m) n (x ∷ xs) =
    ap (λ ys. x ∷ ys) (take-append-take m n xs)
    ∙ ap (λ k. take k (x ∷ xs)) (let e : suc (m + n) ≡ suc m + n = omega arith in e)

close_file-content : (f : File) → (close_file f).1.content ≡ f.content
unfolding close_file
close_file-content f = ground arith

close_file-path : (f : File) → (close_file f).1.path ≡ f.path
unfolding close_file
close_file-path f = ground arith

filled-path : (f : File) (ks : List Chunk) → (filled f ks).path ≡ f.path
filled-path f [] = refl
filled-path f (k ∷ ks) = filled-path (written f k.plaintext) ks

-- Neither a write nor `Close` changes where a file is.
pub close_file-filled_path :
    (f : File) (ks : List Chunk) → (close_file (filled f ks)).1.path ≡ f.path
close_file-filled_path f ks = close_file-path (filled f ks) ∙ filled-path f ks

-- A file that holds the chunks before `i` holds those before `i + n` once `n` are written.
filled-content :
    (C : Crypto) (file_id content : List ℕ) (ss : Secrets) (i : ℕ) (f : File)
    → f.content ≡ take (chunk_size * i) content
    → (filled f (chunks_from C file_id content i ss)).content
      ≡ take (chunk_size * (i + Base.length ss)) content
unfolding sealed_chunk
filled-content C file_id content [] i f h =
    h ∙ ap (λ k. take k content) (let e : chunk_size * i ≡ chunk_size * (i + 0) = omega arith in e)
filled-content C file_id content ((key, nonce) ∷ ss) i f h =
    filled-content C file_id content ss (i + 1) (written f (slice content i)) (
      ap (λ xs. xs ++ slice content i) h
      ∙ take-append-take (chunk_size * i) chunk_size content
      ∙ ap (λ k. take k content)
          (let e : chunk_size * i + chunk_size ≡ chunk_size * (i + 1) = omega arith in e))
    ∙ ap (λ k. take (chunk_size * k) content)
        (let e : i + 1 + Base.length ss ≡ i + suc (Base.length ss) = omega arith in e)

-- All chunks, written to an empty file that is then closed, are the content.
pub close_file-filled :
    (C : Crypto) (file_id content : List ℕ) (ss : Secrets) (f : File)
    → f.content ≡ []
    → Base.length content ≤ chunk_size * Base.length ss
    → (close_file (filled f (chunks_from C file_id content 0 ss))).1.content ≡ content
close_file-filled C file_id content ss f h covered =
    close_file-content (filled f (chunks_from C file_id content 0 ss))
    ∙ filled-content C file_id content ss 0 f
        (h ∙ ap (λ k. take k content) (let e : 0 ≡ chunk_size * 0 = omega arith in e))
    ∙ take-all (chunk_size * (0 + Base.length ss)) content (omega arith)

module _ (C : Crypto) (law : IsLawful C) where
  pub with_leaves-IsHash :
      (ls : List (List ℕ)) (ks : List Chunk) → All IsHash ls → All IsHash (with_leaves C ls ks)
  unfolding generate_leaf keccak
  with_leaves-IsHash ls [] h = h
  with_leaves-IsHash ls (k ∷ ks) h =
      with_leaves-IsHash (ls ++ (generate_leaf C k ∷ [])) ks
        (All-append IsHash ls (generate_leaf C k ∷ []) h (law.length-keccak256 _, tt))

  root_size :
      (fuel : ℕ) (xs : List (List ℕ)) (root : List ℕ)
      → Base.length xs ≤ fuel
      → 1 ≤ Base.length xs
      → All IsHash xs
      → root_of_tree (build_tree C xs) ≡ ok root
      → Base.length root ≡ hash_size
  root_size fuel [] root b n h e = absurd (omega arith)
  root_size fuel (x ∷ []) root b n (hx, _) e =
      let same : x ≡ root = cc (root_single C x, e) in
      subst (λ y. Base.length y ≡ hash_size) same hx
  root_size zero (x ∷ y ∷ xs) root b n h e = absurd (omega arith)
  root_size (suc fuel) (x ∷ y ∷ xs) root b n h e =
      let l = length-next_level C (x ∷ y ∷ xs) in
      root_size fuel (next_level C (x ∷ y ∷ xs)) root (omega arith) (omega arith)
        (next_level-IsHash C law (x ∷ y ∷ xs))
        (sym (root_next_level C (x ∷ y ∷ xs) (omega arith)) ∙ e)

  -- The root over hashes is as long as a hash.
  pub length-root :
      (xs : List (List ℕ)) (root : List ℕ)
      → 1 ≤ Base.length xs
      → All IsHash xs
      → root_of_tree (build_tree C xs) ≡ ok root
      → Base.length root ≡ hash_size
  length-root xs root = root_size (Base.length xs) xs root (omega arith)

  pub with_leaves-some :
      (ls : List (List ℕ)) (ks : List Chunk)
      → 1 ≤ Base.length ls + Base.length ks
      → 1 ≤ Base.length (with_leaves C ls ks)
  with_leaves-some ls [] h = omega arith
  with_leaves-some ls (k ∷ ks) h =
      with_leaves-some (ls ++ (generate_leaf C k ∷ [])) ks
        (omega (arith, Base.length-append ls (generate_leaf C k ∷ [])))
