-- ===== src/AutoUpdate/Written.antt =====
-- The marker that the swap script writes reads back.
use zeromux.AutoUpdate.Marker.{word, next_word, digits_from, parse_u64, parse_failed_marker}
use zeromux.Prelude.{
  ℕ, ◌+◌, ◌-◌, ◌*◌, ◌^◌, ◌≤◌, ◌<◌, ◌≡◌, refl, Bool, true, false, ◌&&◌, some, [], ◌∷◌, ◌++◌, Text,
  arith, leb, All, ◌==◌, ◌∙◌,
}
use zeromux.Prompts.{is_whitespace}

abbrev is_digit : ℕ → Bool
is_digit c = leb 0x30 c && leb c 0x39

abbrev Plain : Text → Type 0
Plain = All (λ c. is_whitespace c ≡ false)

abbrev Digits : Text → Type 0
Digits = All (λ c. is_digit c ≡ true)

abbrev pub decimal : ℕ → Text → ℕ
decimal acc [] = acc
decimal acc (c ∷ cs) = decimal (acc * 10 + (c - 0x30)) cs

-- What the script echoes: the hash, a blank, the seconds that `date +%s` prints, and a line feed.
abbrev pub marker_line : Text → Text → Text
marker_line sha stamp = sha ++ 0x20 ∷ (stamp ++ 0x0a ∷ [])

digit-plain : (c : ℕ) → is_digit c ≡ true → is_whitespace c ≡ false
unfolding is_whitespace
digit-plain c h = ground arith

Digits-Plain : (ds : Text) → Digits ds → Plain ds
Digits-Plain [] h = h
Digits-Plain (c ∷ cs) (h, hs) = (digit-plain c h, Digits-Plain cs hs)

word-append :
    (w : Text) (c : ℕ) (rest : Text)
    → Plain w
    → is_whitespace c ≡ true
    → word (w ++ c ∷ rest) ≡ (w, c ∷ rest)
word-append [] c rest h s = rw s refl
word-append (x ∷ w) c rest (h, hs) s = rw (h, word-append w c rest hs s) refl

next_word-append :
    (x : ℕ) (w : Text) (c : ℕ) (rest : Text)
    → Plain (x ∷ w)
    → is_whitespace c ≡ true
    → next_word (x ∷ (w ++ c ∷ rest)) ≡ some (x ∷ w, c ∷ rest)
unfolding next_word
next_word-append x w c rest (h, hs) s = rw (h, word-append w c rest hs s, h) refl

decimal-ge : (acc : ℕ) (ds : Text) → acc ≤ decimal acc ds
decimal-ge acc [] = omega arith
decimal-ge acc (c ∷ cs) = omega (arith, decimal-ge (acc * 10 + (c - 0x30)) cs)

digits_from-decimal :
    (acc : ℕ) (ds : Text)
    → Digits ds
    → decimal acc ds < 2 ^ 64
    → digits_from acc ds ≡ some (decimal acc ds)
digits_from-decimal acc [] h b = refl
digits_from-decimal acc (c ∷ cs) (h, hs) b =
    let n = acc * 10 + (c - 0x30) in ground (arith, decimal-ge n cs, digits_from-decimal n cs hs b)

next_word-blank : (w : Text) → next_word (0x20 ∷ w) ≡ next_word w
unfolding next_word is_whitespace
next_word-blank w = refl

parse_u64-decimal :
    (d : ℕ) (ds : Text)
    → Digits (d ∷ ds)
    → decimal 0 (d ∷ ds) < 2 ^ 64
    → parse_u64 (d ∷ ds) ≡ some (decimal 0 (d ∷ ds))
unfolding parse_u64
parse_u64-decimal d ds h b =
    let plus : (d == 0x2b) ≡ false = ground (arith, h.0) in
    rw plus (digits_from-decimal 0 (d ∷ ds) h b)

parse_failed_marker-words :
    (t sha rest stamp last : Text) (ts : ℕ)
    → next_word t ≡ some (sha, rest)
    → next_word rest ≡ some (stamp, last)
    → parse_u64 stamp ≡ some ts
    → parse_failed_marker t ≡ some (sha, ts)
unfolding parse_failed_marker
parse_failed_marker-words t sha rest stamp last ts p q e = rw (p, q, e) refl

-- The marker that the script writes for a build reads back as that build and those seconds, if the
-- hash is a text without white space, the stamp is decimal digits of a number below 2 ^ 64, and neither
-- is empty.
pub parse_failed_marker-marker_line :
    (h : ℕ) (sha : Text) (d : ℕ) (ds : Text)
    → Plain (h ∷ sha)
    → Digits (d ∷ ds)
    → decimal 0 (d ∷ ds) < 2 ^ 64
    → parse_failed_marker (marker_line (h ∷ sha) (d ∷ ds)) ≡ some (h ∷ sha, decimal 0 (d ∷ ds))
unfolding is_whitespace
parse_failed_marker-marker_line h sha d ds p q b =
    let stamp : Text = d ∷ (ds ++ 0x0a ∷ []) in
    parse_failed_marker-words (marker_line (h ∷ sha) (d ∷ ds)) (h ∷ sha) (0x20 ∷ stamp) (d ∷ ds)
      (0x0a ∷ []) (decimal 0 (d ∷ ds)) (next_word-append h sha 0x20 stamp p refl)
      (next_word-blank stamp ∙ next_word-append d ds 0x0a [] (Digits-Plain (d ∷ ds) q) refl)
      (parse_u64-decimal d ds q b)
