-- ===== src/DiffFilter/Kept.antt =====
-- What `filter_diff_excluded` leaves of a diff that git writes: whole sections.
use mathlib.Core.List.{append_assoc}
use zeromux.DiffFilter.{
  not_header, diff_header_path, add_char, split_inclusive, skips, filter_lines,
  filter_diff_excluded, b_side,
}
use zeromux.DiffFilter.Headers.{skips_header, strip_prefix-none}
use zeromux.DiffFilter.Sections.{
  newline, Header, two_way, merged, merged_long, Section, header_line, body_text, diff_text,
  is_shown, is_plain, IsPath, IsHeader, IsBodyLine, IsSection,
}
use zeromux.Prelude.{
  ◌≡◌, refl, sym, Bool, true, false, not, none, List, [], ◌∷◌, ◌++◌, retain, Text, codes,
  starts_with, strip_prefix, ◌==◌, if◌then◌else◌, All, Bool-cases, inl, inr, arith, any,
}

-- The text is one line, with its end.
abbrev IsLine : Text → Type 0
IsLine t = (rest : Text) → split_inclusive (t ++ rest) ≡ t ∷ split_inclusive rest

newline-IsLine : IsLine newline
unfolding split_inclusive
newline-IsLine rest = refl

append-IsLine : (l t : Text) → any (λ c. c == 10) l ≡ false → IsLine t → IsLine (l ++ t)
unfolding split_inclusive add_char
append-IsLine [] t inner line rest = line rest
append-IsLine (c ∷ l) t inner line rest =
    rw (append-IsLine l t (ground arith) line rest) (ground (arith, inner))

plain-inner : (p : Text) → All (λ c. is_plain c ≡ true) p → any (λ c. c == 10) p ≡ false
plain-inner [] h = refl
plain-inner (c ∷ p) h = ground (arith, h.0, plain-inner p h.1)

path-IsLine : (p : Text) → IsPath p → IsLine (p ++ newline)
path-IsLine p h = append-IsLine p newline (plain-inner p h.1) newline-IsLine

header_line-IsLine : (h : Header) → IsHeader h → IsLine (header_line h)
header_line-IsLine (merged p) k =
    append-IsLine (codes "diff --cc ") (p ++ newline) refl (path-IsLine p k)
header_line-IsLine (merged_long p) k =
    append-IsLine (codes "diff --combined ") (p ++ newline) refl (path-IsLine p k)
header_line-IsLine (two_way old new) (k, l) =
    append-IsLine (codes "diff --git a/") (old ++ (b_side ++ (new ++ newline))) refl (
      append-IsLine old (b_side ++ (new ++ newline)) (plain-inner old k.1)
        (append-IsLine b_side (new ++ newline) refl (path-IsLine new l)))

starts_with-longer :
    (p q l : Text)
    → any (λ c. c == 10) p ≡ false
    → starts_with p l ≡ false
    → starts_with (p ++ q) (l ++ newline) ≡ false
starts_with-longer [] q l one h = cc
starts_with-longer (c ∷ p) q [] one h = ground (arith, one)
starts_with-longer (c ∷ p) q (d ∷ l) one h = ground (arith, one, h, starts_with-longer p q l)

diff_header_path-body :
    (l : Text)
    → starts_with (codes "diff ") l ≡ false
    → diff_header_path (l ++ newline) ≡ not_header
unfolding diff_header_path
diff_header_path-body l h =
    let longer : (q : Text) → strip_prefix (codes "diff " ++ q) (l ++ newline) ≡ none = λ q.
      strip_prefix-none (codes "diff " ++ q) (l ++ newline)
        (starts_with-longer (codes "diff ") q l refl h) in
    rw
      (
        diff_header_path,
        longer (codes "--git "),
        longer (codes "--cc "),
        longer (codes "--combined "),
      )
      refl

filter_line :
    (was : Bool) (t rest : Text)
    → IsLine t
    → filter_lines was (split_inclusive (t ++ rest))
      ≡ (if skips (diff_header_path t) was then [] else t)
        ++ filter_lines (skips (diff_header_path t) was) (split_inclusive rest)
unfolding filter_lines
filter_line was t rest line = rw (line rest) refl

left_out :
    (was : Bool) (x y z : Text)
    → (if was then [] else x) ++ ((if was then [] else y) ++ z)
      ≡ (if was then [] else (x ++ y)) ++ z
left_out true x y z = refl
left_out false x y z = sym (append_assoc x y z)

filter_body :
    (ls : List Text) (was : Bool) (rest : Text)
    → All IsBodyLine ls
    → filter_lines was (split_inclusive (body_text ls ++ rest))
      ≡ (if was then [] else body_text ls) ++ filter_lines was (split_inclusive rest)
unfolding skips
filter_body [] was rest h = ground arith
filter_body (l ∷ ls) was rest h =
    rw
      (
        append_assoc (l ++ newline) (body_text ls) rest,
        filter_line was (l ++ newline) (body_text ls ++ rest)
            (append-IsLine l newline h.0.0 newline-IsLine),
        diff_header_path-body l h.0.1,
        filter_body ls was rest h.1,
      )
      (left_out was (l ++ newline) (body_text ls) (filter_lines was (split_inclusive rest)))

filter_sections :
    (ss : List Section) (was : Bool)
    → All IsSection ss
    → filter_lines was (split_inclusive (diff_text ss))
      ≡ diff_text (retain (λ s. is_shown s.header) ss)
unfolding split_inclusive filter_lines
filter_sections [] was h = refl
filter_sections (s ∷ ss) was h =
    rw
      (
        filter_line was (header_line s.header) (body_text s.body ++ diff_text ss)
            (header_line-IsLine s.header h.0.0),
        skips_header s.header was h.0.0,
        filter_body s.body (not (is_shown s.header)) (diff_text ss) h.0.1,
        filter_sections ss (not (is_shown s.header)) h.1,
      )
      (elim (Bool-cases (is_shown s.header)) [
        | inl shown ↦ rw shown refl
        | inr hidden ↦ rw hidden refl
      ])

-- The filter leaves of a diff, whatever sections it has, just the sections that are to be shown, each whole and in the same order: a section is left out, its body with it, when a path of its header is an excluded one, and when one of its two paths holds the text that parts them.
-- A diff is a list of sections, each a header with unquoted paths that are not empty and hold no end of a line, and lines below it that do not start with `diff `.
pub filter_diff_excluded-shown :
    (ss : List Section)
    → All IsSection ss
    → filter_diff_excluded (diff_text ss) ≡ diff_text (retain (λ s. is_shown s.header) ss)
unfolding filter_diff_excluded
filter_diff_excluded-shown ss h = filter_sections ss false h
