-- ===== src/Prompts/Cap.antt =====
-- The cap on a prompt in the scrollback.
use zeromux.Prelude.{
  ℕ, ◌+◌, ◌-◌, ◌≤◌, ◌<◌, ◌≡◌, refl, sym, ap, ◌∙◌, false, [], ◌∷◌, ◌++◌, Text, len_utf8, byte_len,
  ltb, leb, arith, if_cases, ltb→lt,
}
use zeromux.Prompts.{
  user_prompt_scrollback_cap, take_below_cap, truncated_note, truncate_prompt_for_scrollback,
}

-- What is kept of a text that starts at the offset `i`: a prefix that reaches the cap, and passes it
-- by less than one character.
record Kept (limit i : ℕ) (text kept : Text) : Type 0 where
  rest : Text
  whole : kept ++ rest ≡ text
  reaches : limit ≤ i + byte_len text → limit ≤ i + byte_len kept
  bounded : 1 ≤ byte_len kept → i + byte_len kept < limit + 4

len_utf8_le : (c : ℕ) → len_utf8 c ≤ 4
len_utf8_le c = ground arith

one_more :
    (limit i c : ℕ) (kept : Text)
    → i < limit
    → (1 ≤ byte_len kept → i + len_utf8 c + byte_len kept < limit + 4)
    → i + (len_utf8 c + byte_len kept) < limit + 4
one_more limit i c kept h k = ground (arith, len_utf8_le c)

take_below_cap-Kept : (limit i : ℕ) (text : Text) → Kept limit i text (take_below_cap limit i text)
unfolding take_below_cap
take_below_cap-Kept limit i [] = record {
  rest = [];
  whole = refl;
  reaches = λ h. h;
  bounded = λ h. absurd (omega arith);
}
take_below_cap-Kept limit i (c ∷ cs) =
    let v = take_below_cap-Kept limit (i + len_utf8 c) cs in
    if_cases (Kept limit i (c ∷ cs)) (ltb i limit) _ _
      (λ below. record {
        rest = v.rest;
        whole = ap (λ l. c ∷ l) v.whole;
        reaches = λ h. omega (arith, v.reaches (omega arith));
        bounded = λ h. one_more limit i c _ (ltb→lt i limit below) v.bounded;
      })
      (λ past. record {
        rest = c ∷ cs;
        whole = refl;
        reaches = λ h. ground arith;
        bounded = λ h. absurd (omega arith);
      })

byte_len-append : (xs ys : Text) → byte_len (xs ++ ys) ≡ byte_len xs + byte_len ys
byte_len-append [] ys = omega arith
byte_len-append (x ∷ xs) ys = omega (arith, byte_len-append xs ys)

-- A prompt over the cap is cut to a prefix of it, of at least the cap and at most three bytes more,
-- and the note that follows it counts the bytes of what was cut.
pub truncate_prompt_prefix :
    (text : Text)
    → user_prompt_scrollback_cap < byte_len text
    → (kept : Text) × (cut : Text) × (kept ++ cut ≡ text)
      × (user_prompt_scrollback_cap ≤ byte_len kept)
      × (byte_len kept ≤ user_prompt_scrollback_cap + 3)
      × (truncate_prompt_for_scrollback text ≡ kept ++ truncated_note (byte_len cut))
unfolding truncate_prompt_for_scrollback
truncate_prompt_prefix text over =
    let kept = take_below_cap user_prompt_scrollback_cap 0 text in
    let v = take_below_cap-Kept user_prompt_scrollback_cap 0 text in
    let sizes : byte_len kept + byte_len v.rest ≡ byte_len text =
      sym (byte_len-append kept v.rest) ∙ ap byte_len v.whole in
    let reached = v.reaches (omega arith) in
    let cuts : leb (byte_len text) user_prompt_scrollback_cap ≡ false = ground arith in
    let removed : byte_len text - byte_len kept ≡ byte_len v.rest = omega (arith, sizes) in
    (
      kept,
      v.rest,
      v.whole,
      omega (arith, reached),
      omega (arith, v.bounded (omega (arith, reached))),
      rw (cuts, removed) refl,
    )
