-- ===== src/Client/Parts.antt =====
-- `splitNonEmpty` of Client/client.go and Server/server.go, on lists of texts joined by commas.
use file_transfer_using_libp.Base.{
  ℕ, ◌≡◌, refl, sym, ap, ap₂, ◌∙◌, false, List, [], ◌∷◌, ◌++◌, ◌==◌, All, split, trim_space,
}
use file_transfer_using_libp.Client.{keep_part, non_empty_parts, split_non_empty}

-- The code point of a comma.
abbrev comma : ℕ
comma = b','

-- A text that is not empty, has no comma, and no white space at either end.
pub record IsClean (part : List ℕ) : Type 0 where
  pub head : ℕ
  pub tail : List ℕ
  pub not_empty : part ≡ head ∷ tail
  pub no_comma : All (λ c. (c == comma) ≡ false) part
  pub trimmed : trim_space part ≡ part

-- Texts with a comma between any two.
abbrev pub joined : List (List ℕ) → List ℕ
joined [] = []
joined (p ∷ []) = p
joined (p ∷ q ∷ ps) = p ++ (comma ∷ joined (q ∷ ps))

split-last : (p : List ℕ) → All (λ c. (c == comma) ≡ false) p → split p comma ≡ p ∷ []
unfolding split
split-last [] h = refl
split-last (c ∷ p) (differs, h) = rw (differs, split-last p h)

split-append :
    (p s : List ℕ)
    → All (λ c. (c == comma) ≡ false) p
    → split (p ++ (comma ∷ s)) comma ≡ p ∷ split s comma
unfolding split
split-append [] s h = refl
split-append (c ∷ p) s (differs, h) = rw (differs, split-append p s h)

split-joined :
    (p : List ℕ) (ps : List (List ℕ))
    → All IsClean (p ∷ ps)
    → split (joined (p ∷ ps)) comma ≡ p ∷ ps
split-joined p [] (h, hs) = split-last p h.no_comma
split-joined p (q ∷ ps) (h, hs) =
    split-append p (joined (q ∷ ps)) h.no_comma ∙ ap (λ xs. p ∷ xs) (split-joined q ps hs)

non_empty_parts-IsClean : (ps : List (List ℕ)) → All IsClean ps → non_empty_parts ps ≡ ps
unfolding non_empty_parts
non_empty_parts-IsClean [] h = refl
non_empty_parts-IsClean (p ∷ ps) (h, hs) =
    ap₂ keep_part (h.trimmed ∙ h.not_empty) (non_empty_parts-IsClean ps hs)
    ∙ ap (λ x. x ∷ ps) (sym h.not_empty)

starts :
    (p : List ℕ) (ps : List (List ℕ))
    → IsClean p
    → (c : ℕ) × (s : List ℕ) × (joined (p ∷ ps) ≡ c ∷ s)
starts p [] h = (h.head, h.tail, h.not_empty)
starts p (q ∷ ps) h = (
  h.head,
  h.tail ++ (comma ∷ joined (q ∷ ps)),
  ap (λ x. x ++ (comma ∷ joined (q ∷ ps))) h.not_empty,
)

-- Clean texts that are joined by commas come apart again, none lost and none added.
pub split_non_empty-joined :
    (ps : List (List ℕ)) → All IsClean ps → split_non_empty (joined ps) ≡ ps
unfolding split_non_empty
split_non_empty-joined [] h = refl
split_non_empty-joined (p ∷ ps) h =
    let (c, s, e) = starts p ps h.0 in
    ap split_non_empty e
    ∙ ap (λ x. non_empty_parts (split x comma)) (sym e)
    ∙ ap non_empty_parts (split-joined p ps h)
    ∙ non_empty_parts-IsClean (p ∷ ps) h
