-- ===== src/PromptQueue/Window.antt =====
-- The collect window: when a queue that was armed at the end of a turn is flushed.
use zeromux.Prelude.{
  ℕ, ◌+◌, ◌≡◌, refl, ◌∙◌, sym, ap, false, none, some, List, [], ◌∷◌, ◌++◌, Text, leb, ◌||◌,
  is_empty, arith,
}
use mathlib.Core.List.{append_assoc, append-nil}
use zeromux.Prompts.{PendingPrompt}
use zeromux.PromptQueue.{PromptQueue, debounce_ms, max_ms, enqueue, bump_debounce, arm, flush_due}

-- The prompts that come while the window is open, each with its time.
unfoldable pub follow : List (ℕ × Text) → PromptQueue → PromptQueue
follow [] q = q
follow ((now, text) ∷ xs) q = follow xs (bump_debounce now (enqueue now text q))

abbrev pub last_time : ℕ → List (ℕ × Text) → ℕ
last_time t [] = t
last_time t ((now, text) ∷ xs) = last_time now xs

abbrev pub texts : List PendingPrompt → List Text
texts [] = []
texts (p ∷ ps) = p.text ∷ texts ps

abbrev pub typed : List (ℕ × Text) → List Text
typed [] = []
typed ((now, text) ∷ xs) = text ∷ typed xs

texts-snoc :
    (ps : List PendingPrompt) (p : PendingPrompt) → texts (ps ++ p ∷ []) ≡ texts ps ++ p.text ∷ []
texts-snoc [] p = refl
texts-snoc (q ∷ ps) p = ap (λ l. q.text ∷ l) (texts-snoc ps p)

-- With both timers set, only the first one moves.
follow_window :
    (xs : List (ℕ × Text)) (q : PromptQueue) (t cap_at now : ℕ)
    → q.debounce ≡ some (t + debounce_ms)
    → q.hard_cap ≡ some cap_at
    → (flush_due now (follow xs q) ≡ (leb (last_time t xs + debounce_ms) now || leb cap_at now))
      × (texts (follow xs q).pending ≡ texts q.pending ++ typed xs)
unfolding follow flush_due bump_debounce enqueue
follow_window [] q t cap_at now d h = (ground arith, sym (append-nil (texts q.pending)))
follow_window ((at, text) ∷ xs) q t cap_at now d h =
    let p : PendingPrompt = record { text = text; ts_ms = at } in
    let (due, all) = follow_window xs (bump_debounce at (enqueue at text q)) at cap_at now refl h in
    (
      due,
      all
          ∙ ap (λ l. l ++ typed xs) (texts-snoc q.pending p)
          ∙ append_assoc (texts q.pending) (text ∷ []) (typed xs),
    )

-- A queue with prompts and no window, armed at `t`: whatever prompts follow, the window fires 500 ms
-- after the last of them or 3 s after it opened, whichever is earlier, and not before; and it holds
-- all the prompts in the order in which they came.
pub arm_window :
    (t now : ℕ) (q : PromptQueue) (xs : List (ℕ × Text))
    → is_empty q.pending ≡ false
    → q.debounce ≡ none
    → (flush_due now (follow xs (arm t q))
        ≡ (leb (last_time t xs + debounce_ms) now || leb (t + max_ms) now))
      × (texts (follow xs (arm t q)).pending ≡ texts q.pending ++ typed xs)
unfolding arm
arm_window t now q xs e d =
    let armed : PromptQueue = record q {
      debounce = some (t + debounce_ms);
      hard_cap = some (t + max_ms);
    } in
    let opened : arm t q ≡ armed = ground (arith, e, d) in
    rw opened (follow_window xs armed t (t + max_ms) now refl refl)
