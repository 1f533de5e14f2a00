-- ===== src/Examples/Written.antt =====
-- The theorems on texts: the queue of prompts and the last verdict.
use zeromux.Prelude.{ℕ, ◌+◌, ◌≡◌, refl, ◌||◌, none, List, [], ◌∷◌, ◌++◌, Text, codes, leb}
use zeromux.PromptQueue.{PromptQueue, arm, flush_due, debounce_ms, max_ms}
use zeromux.PromptQueue.Window.{follow, last_time, texts, typed, arm_window}
use zeromux.Verdict.{extract_verdict}
use zeromux.Verdict.Last.{IsRead, last_verdict, extract_verdict_last}

abbrev waiting : PromptQueue
waiting = record {
  pending = record { text = codes "one"; ts_ms = 900 } ∷ [];
  debounce = none;
  hard_cap = none;
}

abbrev two_more : List (ℕ × Text)
two_more = (1300, codes "two") ∷ (1700, codes "three") ∷ []

arm_window_example :
    (flush_due 2200 (follow two_more (arm 1000 waiting))
      ≡ (leb (last_time 1000 two_more + debounce_ms) 2200 || leb (1000 + max_ms) 2200))
    × (texts (follow two_more (arm 1000 waiting)).pending ≡ texts waiting.pending ++ typed two_more)
arm_window_example = arm_window 1000 2200 waiting two_more refl refl

abbrev final_text : Text
final_text = codes "<<<VERDICT>>>no<<<END>>> then <<<VERDICT>>> ok <<<END>>>"

extract_verdict_last_example :
    (bodies : List Text) × IsRead final_text bodies
    × (extract_verdict final_text ≡ last_verdict bodies)
extract_verdict_last_example = extract_verdict_last final_text
