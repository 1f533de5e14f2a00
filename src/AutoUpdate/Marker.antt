-- ===== src/AutoUpdate/Marker.antt =====
-- The marker file of a build that failed its health check, in src/auto_update.rs.
use zeromux.Prelude.{
  ℕ, ◌+◌, ◌-◌, ◌*◌, ◌^◌, Bool, false, ◌&&◌, Option, none, some, [], ◌∷◌, Text, text_eq, ltb, leb,
  ◌==◌, is_empty, if◌then◌else◌,
}
use zeromux.Prompts.{is_whitespace}

-- The text up to the next white space, and what is after it.
abbrev pub word : Text → Text × Text
word [] = ([], [])
word (c ∷ cs) = let (w, rest) = word cs in if is_whitespace c then ([], c ∷ cs) else (c ∷ w, rest)

abbrev skip_spaces : Text → Text
skip_spaces [] = []
skip_spaces (c ∷ cs) = let rest = skip_spaces cs in if is_whitespace c then rest else c ∷ cs

-- `split_whitespace().next()`: a word is never empty.
unfoldable pub next_word : Text → Option (Text × Text)
next_word t = let (w, rest) = word (skip_spaces t) in if is_empty w then none else some (w, rest)

-- `str::parse::<u64>`: decimal digits, one `+` allowed before them, within 64 bits.
abbrev pub digits_from : ℕ → Text → Option ℕ
digits_from acc [] = some acc
digits_from acc (c ∷ cs) =
    let n = acc * 10 + (c - 0x30) in
    let rest = digits_from n cs in if leb 0x30 c && leb c 0x39 && ltb n (2 ^ 64) then rest else none

abbrev drop_plus : Text → Text
drop_plus [] = []
drop_plus (c ∷ cs) = if c == 0x2b then cs else c ∷ cs

unfoldable pub parse_u64 : Text → Option ℕ
parse_u64 t = let ds = drop_plus t in if is_empty ds then none else digits_from 0 ds

abbrev pub stamped : Text → Option ℕ → Option (Text × ℕ)
stamped sha none = none
stamped sha (some ts) = some (sha, ts)

abbrev then_stamp : Text → Option (Text × Text) → Option (Text × ℕ)
then_stamp sha none = none
then_stamp sha (some (stamp, _)) = stamped sha (parse_u64 stamp)

abbrev then_words : Option (Text × Text) → Option (Text × ℕ)
then_words none = none
then_words (some (sha, rest)) = then_stamp sha (next_word rest)

unfoldable pub parse_failed_marker : Text → Option (Text × ℕ)
parse_failed_marker contents = then_words (next_word contents)

-- The marker holds for its own build and for `ttl` seconds.
unfoldable pub health_failed_recently : Option Text → Text → ℕ → ℕ → Bool
unfolding parse_failed_marker
health_failed_recently none sha now ttl = false
health_failed_recently (some contents) sha now ttl = elim (parse_failed_marker contents) [
  | none ↦ false
  | some (failed, ts) ↦ text_eq failed sha && ltb (now - ts) ttl
]
