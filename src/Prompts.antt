-- ===== src/Prompts.antt =====
-- The texts of src/session_manager.rs: the cap on what enters the scrollback, the merge of queued
-- prompts, and which prompt is worth a title.
pub mod Cap
use zeromux.Acp.{AcpEvent, peer_message}
use zeromux.Prelude.{
  ℕ, zero, suc, ◌+◌, ◌-◌, ◌*◌, ◌/◌, ◌%◌, Bool, true, false, ◌||◌, ◌&&◌, Option, none, some, List,
  [], ◌∷◌, ◌++◌, Text, codes, len_utf8, byte_len, ltb, leb, ◌==◌, if◌then◌else◌, length, any,
  is_empty,
}

-- `format!("{}", n)`. A number has no more digits than its value, so n + 1 rounds are enough.
decimal_rounds : ℕ → ℕ → Text → Text
decimal_rounds zero n acc = acc
decimal_rounds (suc f) n acc =
    let more = decimal_rounds f (n / 10) ((b'0' + n % 10) ∷ acc) in
    if ltb n 10 then (b'0' + n) ∷ acc else more

unfoldable pub decimal : ℕ → Text
unfolding decimal_rounds
decimal n = decimal_rounds (suc n) n []

abbrev pub user_prompt_scrollback_cap : ℕ
user_prompt_scrollback_cap = 64 * 1024

-- The characters that start below the cap; the first argument is the offset of the next one.
unfoldable pub take_below_cap : ℕ → ℕ → Text → Text
take_below_cap cap i [] = []
take_below_cap cap i (c ∷ cs) =
    let rest = take_below_cap cap (i + len_utf8 c) cs in if ltb i cap then c ∷ rest else []

unfoldable pub truncated_note : ℕ → Text
truncated_note dropped = 0x0a ∷ codes "[已截断 " ++ decimal dropped ++ codes " 字节]"

unfoldable pub truncate_prompt_for_scrollback : Text → Text
unfolding truncated_note
truncate_prompt_for_scrollback text =
    let kept = take_below_cap user_prompt_scrollback_cap 0 text in
    if leb (byte_len text) user_prompt_scrollback_cap
    then text
    else kept ++ truncated_note (byte_len text - byte_len kept)

unfoldable pub cap_peer_message : AcpEvent → AcpEvent
cap_peer_message (peer_message from text tid) =
    peer_message from (truncate_prompt_for_scrollback text) tid
cap_peer_message evt = evt

-- `char::is_whitespace`, the Unicode property White_Space.
unfoldable pub is_whitespace : ℕ → Bool
is_whitespace c =
    leb 0x09 c && leb c 0x0d
    || c == 0x20
    || c == 0x85
    || c == 0xa0
    || c == 0x1680
    || leb 0x2000 c && leb c 0x200a
    || c == 0x2028
    || c == 0x2029
    || c == 0x202f
    || c == 0x205f
    || c == 0x3000

trim_start : Text → Text
trim_start [] = []
trim_start (c ∷ cs) = let rest = trim_start cs in if is_whitespace c then rest else c ∷ cs

trim_end : Text → Text
trim_end [] = []
trim_end (c ∷ cs) =
    let rest = trim_end cs in if is_empty rest && is_whitespace c then [] else c ∷ rest

unfoldable pub trim : Text → Text
unfolding trim_start trim_end is_whitespace
trim s = trim_end (trim_start s)

pub is_substantive_prompt : Text → Bool
is_substantive_prompt text =
    let t = trim text in
    if is_empty t then false else if any is_whitespace t then true else leb 6 (length t)

-- A prompt that waits, with the time it was queued at.
pub record PendingPrompt : Type 0 where
  pub text : Text
  pub ts_ms : ℕ

shown_time : Option Text → Text
shown_time none = codes "--:--"
shown_time (some t) = t

-- `hhmm` is what chrono prints for an instant in Asia/Shanghai, if there is one.
pub merge_items : (ℕ → Option Text) → List PendingPrompt → Text
unfolding shown_time
merge_items hhmm [] = []
merge_items hhmm (p ∷ ps) =
    (b'[' ∷ shown_time (hhmm p.ts_ms) ++ codes "] " ++ p.text ++ 0x0a ∷ []) ++ merge_items hhmm ps

pub merge_pending : (ℕ → Option Text) → List PendingPrompt → Text
merge_pending hhmm items = codes "[以下是你处理上一条消息期间用户追加发送的内容,请一并处理]" ++ 0x0a ∷ merge_items hhmm items
