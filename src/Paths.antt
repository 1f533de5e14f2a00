-- ===== src/Paths.antt =====
-- What the code uses of `std::path::Path`, on texts.
use zeromux.Prelude.{
  ℕ, not, ◌&&◌, Option, none, some, List, [], ◌∷◌, retain, is_empty, Text, codes, text_eq, ◌==◌,
  if◌then◌else◌,
}

unfoldable pub push_char : ℕ → List Text → List Text
push_char c [] = (c ∷ []) ∷ []
push_char c (t ∷ ts) = (c ∷ t) ∷ ts

unfoldable pub split_slash : Text → List Text
unfolding push_char
split_slash [] = [] ∷ []
split_slash (c ∷ cs) =
    let rest = split_slash cs in if c == b'/' then [] ∷ rest else push_char c rest

-- `Path::components`, but for the root and a leading dot: neither is looked at.
unfoldable pub components : Text → List Text
unfolding split_slash
components p = retain (λ n. not (is_empty n) && not (text_eq n (codes "."))) (split_slash p)

unfoldable pub last : List Text → Option Text
last [] = none
last (n ∷ []) = some n
last (n ∷ k ∷ ns) = last (k ∷ ns)
