-- ===== src/Session/Turn/Ring.antt =====
-- The last runs of a session and its lifetime totals, over any sequence of metrics.
use mathlib.Core.List.{append_assoc, append-nil}
use zeromux.Prelude.{
  ℕ, zero, suc, ◌+◌, ◌-◌, ◌≤◌, ◌≡◌, refl, sym, ap, ◌∙◌, List, [], ◌∷◌, ◌++◌, arith, length, drop,
  length-append, length-drop, unwrap_or, subst,
}
use zeromux.RunMetrics.{RunMetric}
use zeromux.RunMetrics.Retention.{pop_front_to-drop}
use zeromux.Session.{Session}
use zeromux.Session.Turn.{metrics_cap, record_run_metric}

unfoldable pub record_metrics : List RunMetric → Session → Session
record_metrics [] s = s
record_metrics (m ∷ ms) s = record_metrics ms (record_run_metric m s)

module _ {A : Type 0} where
  drop-append : (k : ℕ) (xs ys : List A) → k ≤ length xs → drop k xs ++ ys ≡ drop k (xs ++ ys)
  drop-append zero xs ys h = refl
  drop-append (suc k) [] ys h = absurd (omega arith)
  drop-append (suc k) (x ∷ xs) ys h = drop-append k xs ys (omega arith)

  drop-nil : (a : ℕ) → drop {A = A} a [] ≡ []
  drop-nil zero = refl
  drop-nil (suc a) = refl

  drop-drop : (a k : ℕ) (xs : List A) → drop a (drop k xs) ≡ drop (k + a) xs
  drop-drop a zero xs = let e : a ≡ 0 + a = omega arith in ap (λ (n : ℕ). drop n xs) e
  drop-drop a (suc k) [] = drop-nil a ∙ sym (drop-nil (suc k + a))
  drop-drop a (suc k) (x ∷ xs) =
      let e : suc (k + a) ≡ suc k + a = omega arith in
      drop-drop a k xs ∙ ap (λ (n : ℕ). drop n (x ∷ xs)) e

  -- The last `keep` elements.
  abbrev pub newest : ℕ → List A → List A
  newest keep xs = drop (length xs - keep) xs

  newest-append :
      (keep : ℕ) (ys zs : List A) → newest keep (newest keep ys ++ zs) ≡ newest keep (ys ++ zs)
  newest-append keep ys zs =
      let k = length ys - keep in
      let all = ys ++ zs in
      let shorter : length (drop k ys ++ zs) - keep ≡ length all - k - keep =
        omega (arith, length-append (drop k ys) zs, length-drop k ys, length-append ys zs) in
      let total : k + (length all - k - keep) ≡ length all - keep =
        omega (arith, length-append ys zs) in
      ap (λ (n : ℕ). drop n (drop k ys ++ zs)) shorter
      ∙ ap (λ l. drop (length all - k - keep) l) (drop-append k ys zs (omega arith))
      ∙ drop-drop (length all - k - keep) k all
      ∙ ap (λ (n : ℕ). drop n all) total

newest_all : {A : Type 0} (keep : ℕ) (xs : List A) → length xs ≤ keep → newest keep xs ≡ xs
newest_all keep xs h = let e : length xs - keep ≡ 0 = omega arith in ap (λ (n : ℕ). drop n xs) e

length-newest : {A : Type 0} (keep : ℕ) (xs : List A) → length (newest keep xs) ≤ keep
length-newest keep xs = omega (arith, length-drop (length xs - keep) xs)

abbrev pub total_of : (RunMetric → ℕ) → List RunMetric → ℕ
total_of f [] = 0
total_of f (m ∷ ms) = f m + total_of f ms

abbrev pub cost_of : RunMetric → ℕ
cost_of m = unwrap_or m.cost_usd 0

abbrev pub duration_of : RunMetric → ℕ
duration_of m = m.duration_ms

-- A session's ring of at most fifty runs is after any metrics the newest fifty of those it had and
-- those it got, in order, and its lifetime totals grow by the counts and the sums of all that it got,
-- whatever the ring dropped.
pub record_metrics-newest :
    (ms : List RunMetric) (s : Session)
    → length s.run_metrics ≤ metrics_cap
    → let t = record_metrics ms s in
      (t.run_metrics ≡ newest metrics_cap (s.run_metrics ++ ms))
      × (t.lifetime_turns ≡ s.lifetime_turns + length ms)
      × (t.lifetime_duration_ms ≡ s.lifetime_duration_ms + total_of duration_of ms)
      × (t.lifetime_cost_usd ≡ s.lifetime_cost_usd + total_of cost_of ms)
unfolding record_metrics record_run_metric
record_metrics-newest [] s h = (
  sym (ap (newest metrics_cap) (append-nil s.run_metrics) ∙ newest_all metrics_cap s.run_metrics h),
  omega arith,
  omega arith,
  omega arith,
)
record_metrics-newest (m ∷ ms) s h =
    let t = record_run_metric m s in
    let ys = s.run_metrics ++ m ∷ [] in
    let pushed : t.run_metrics ≡ newest metrics_cap ys = pop_front_to-drop metrics_cap ys in
    let fits : length t.run_metrics ≤ metrics_cap =
      subst (λ (l : List RunMetric). length l ≤ metrics_cap) (sym pushed)
        (length-newest metrics_cap ys) in
    let (ring, turns, time, cost) = record_metrics-newest ms t fits in
    (
      ring
          ∙ ap (λ l. newest metrics_cap (l ++ ms)) pushed
          ∙ newest-append metrics_cap ys ms
          ∙ ap (newest metrics_cap) (append_assoc s.run_metrics (m ∷ []) ms),
      omega (arith, turns),
      omega (arith, time),
      omega (arith, cost),
    )
