-- ===== src/RunMetrics/Retention.antt =====
-- Retention of a session's runs (run_metrics.rs `gc_retain`).
use zeromux.Prelude.{
  ℕ, suc, ◌+◌, ◌-◌, ◌≤◌, ◌≡◌, refl, sym, Bool, zero, List, [], ◌∷◌, arith, inl, inr, leb, ltb,
  if◌then◌else◌, Bool-cases, ltb→lt, length, drop, retain, length-drop, All,
}
use zeromux.RunMetrics.{RunMetric, gc_retain, pop_front_to}

drop-surplus :
    {A : Type 0} (keep n : ℕ) (x : A) (xs : List A)
    → drop (suc n - keep) (x ∷ xs) ≡ (if ltb keep (suc n) then drop (n - keep) xs else x ∷ xs)
drop-surplus keep n x xs = elim (Bool-cases (ltb keep (suc n))) [
  | inl over ↦
      let e : suc n - keep ≡ suc (n - keep) = omega (arith, ltb→lt keep (suc n) over) in
      rw (e, over)
  | inr fits ↦ let e : suc n - keep ≡ 0 = ground arith in rw (e, fits)
]

drop-nil : (A : Type 0) (n : ℕ) → drop {A = A} n [] ≡ []
drop-nil A zero = refl
drop-nil A (suc n) = refl

-- Popping from the front down to `keep` is dropping the surplus.
pub pop_front_to-drop :
    {A : Type 0} (keep : ℕ) (xs : List A) → pop_front_to keep xs ≡ drop (length xs - keep) xs
unfolding pop_front_to
pop_front_to-drop {A} keep [] = sym (drop-nil A (0 - keep))
pop_front_to-drop keep (x ∷ xs) = rw (drop-surplus keep (length xs) x xs, pop_front_to-drop keep xs)

All-drop : {A : Type 0} (P : A → Type 0) (n : ℕ) (xs : List A) → All P xs → All P (drop n xs)
All-drop P zero xs a = a
All-drop P (suc n) [] a = a
All-drop P (suc n) (x ∷ xs) a = All-drop P n xs a.1

abbrev in_window : ℕ → ℕ → RunMetric → Bool
in_window now_ms window r = leb now_ms (r.ended_ms + window)

All-retain-recent :
    (now_ms window : ℕ) (runs : List RunMetric)
    → All (λ r. now_ms ≤ r.ended_ms + window) (retain (in_window now_ms window) runs)
All-retain-recent now_ms window [] = tt
All-retain-recent now_ms window (r ∷ rs) = ground (arith, All-retain-recent now_ms window rs)

-- Retention keeps the newest runs of the window: what stays is the window's runs without the
-- surplus at the front, at most `keep_count` of them, each ended within the window.
pub gc_retain_newest :
    (runs : List RunMetric) (now_ms keep_count window : ℕ)
    → let kept = gc_retain runs now_ms keep_count window in
      let recent = retain (in_window now_ms window) runs in
      (kept ≡ drop (length recent - keep_count) recent)
      × (length kept ≤ keep_count)
      × All (λ r. now_ms ≤ r.ended_ms + window) kept
unfolding gc_retain
gc_retain_newest runs now_ms keep_count window =
    let recent = retain (in_window now_ms window) runs in
    let surplus = length recent - keep_count in
    rw (pop_front_to-drop keep_count recent) (
      refl,
      omega (arith, length-drop surplus recent),
      All-drop (λ r. now_ms ≤ r.ended_ms + window) surplus recent
          (All-retain-recent now_ms window runs),
    )
