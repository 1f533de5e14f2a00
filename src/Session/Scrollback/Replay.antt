-- ===== src/Session/Scrollback/Replay.antt =====
-- A client that connects: its history and what it receives live, against the frames recorded.
use mathlib.Core.List.{append_assoc, append-nil}
use zeromux.Posture.{PostureDelta}
use zeromux.Prelude.{
  ℕ, ◌≡◌, refl, sym, ap, subst, ◌∙◌, Bool, Option, none, some, List, [], ◌∷◌, ◌++◌, Text, arith,
  length, drop, is_empty, ◌&&◌,
}
use zeromux.Session.{Session, RunningProcess}
use zeromux.Session.Scrollback.{
  scrollback_max_bytes, push_frame, send_frame, apply_delta, record_and_broadcast,
  subscribe_with_history, received,
}
use zeromux.Session.Scrollback.Bounds.{
  total_bytes, IsSuffix, IsBounded, IsTrimmed, IsNeeded-later, is_empty-append, push_frame-Pushed,
}

-- One call of `record_and_broadcast`, and a sequence of them.
pub record Sent : Type 0 where
  pub now : ℕ
  pub frame : Text
  pub bump : Bool
  pub delta : Option PostureDelta

unfoldable pub record_all : List Sent → Session → Session
record_all [] s = s
record_all (x ∷ xs) s = record_all xs (record_and_broadcast x.now x.frame x.bump x.delta s)

abbrev pub frames : List Sent → List Text
frames [] = []
frames (x ∷ xs) = x.frame ∷ frames xs

-- The frames sent on the channel of the session's process.
abbrev pub channel : Session → List Text
channel s = elim s.running [ none ↦ [] | some rp ↦ rp.event_tx ]

abbrev Live : Session → List Text → Type 0
Live s log = (rp : RunningProcess) × (s.running ≡ some rp) × (rp.event_tx ≡ log)

record-Live :
    (x : Sent) (s : Session) (log : List Text)
    → Live s log
    → Live (record_and_broadcast x.now x.frame x.bump x.delta s) (log ++ x.frame ∷ [])
unfolding record_and_broadcast send_frame
record-Live x s log (rp, e, sent) = (
  record rp { event_tx = rp.event_tx ++ x.frame ∷ [] },
  ground arith,
  ap (λ l. l ++ x.frame ∷ []) sent,
)

record_all-Live :
    (xs : List Sent) (s : Session) (log : List Text)
    → Live s log
    → Live (record_all xs s) (log ++ frames xs)
unfolding record_all
record_all-Live [] s log v = subst (Live s) (sym (append-nil log)) v
record_all-Live (x ∷ xs) s log v =
    let t = record_and_broadcast x.now x.frame x.bump x.delta s in
    subst (Live (record_all xs t)) (append_assoc log (x.frame ∷ []) (frames xs))
      (record_all-Live xs t (log ++ x.frame ∷ []) (record-Live x s log v))

-- From `s` to `t` the frames `fs` are recorded, and the buffer is the end of all there were, as long as it
-- may be.
abbrev pub Extends : Session → Session → List Text → Type 0
Extends s t fs =
    IsTrimmed t.scrollback (s.scrollback ++ fs) × IsBounded t.scrollback t.scrollback_bytes

record-Extends :
    (now : ℕ) (frame : Text) (bump : Bool) (delta : Option PostureDelta) (s : Session)
    → s.scrollback_bytes ≡ total_bytes s.scrollback
    → Extends s (record_and_broadcast now frame bump delta s) (frame ∷ [])
unfolding record_and_broadcast apply_delta push_frame
record-Extends now frame bump none s e =
    let v = push_frame-Pushed frame s e in (v.trimmed, v.bounded)
record-Extends now frame bump (some d) s e =
    let v = push_frame-Pushed frame s e in (v.trimmed, v.bounded)

IsTrimmed-trans :
    (xs ys zs fs gs : List Text)
    → IsTrimmed ys (xs ++ fs)
    → IsTrimmed zs (ys ++ gs)
    → IsTrimmed zs (xs ++ (fs ++ gs))
IsTrimmed-trans xs ys zs fs gs (a, p, n, e) (b, q, m, k) = (
  a ++ b,
  append_assoc a b zs
      ∙ ap (λ l. a ++ l) q
      ∙ sym (append_assoc a ys gs)
      ∙ ap (λ l. l ++ gs) p
      ∙ append_assoc xs fs gs,
  IsNeeded-later scrollback_max_bytes a b ys zs gs n q m,
  k
      ∙ is_empty-append ys gs
      ∙ ap (λ x. x && is_empty gs) e
      ∙ sym (is_empty-append (xs ++ fs) gs)
      ∙ ap is_empty (append_assoc xs fs gs),
)

-- From a buffer that is counted and capped, after any frames it is the newest of all there were, with
-- no gap, its bytes are counted right, and they are within the cap unless one frame alone exceeds it.
-- It is as long as it may be: the newest frame is never dropped, and the last one that is gone would have
-- exceeded the cap with those that are kept.
pub record_all-Extends :
    (xs : List Sent) (s : Session)
    → IsBounded s.scrollback s.scrollback_bytes
    → Extends s (record_all xs s) (frames xs)
unfolding record_all
record_all-Extends [] s v =
    (([], sym (append-nil s.scrollback), tt, ap is_empty (sym (append-nil s.scrollback))), v)
record_all-Extends (x ∷ xs) s v =
    let t = record_and_broadcast x.now x.frame x.bump x.delta s in
    let (first, exact) = record-Extends x.now x.frame x.bump x.delta s v.0 in
    let (rest, bounded) = record_all-Extends xs t exact in
    (
      IsTrimmed-trans s.scrollback t.scrollback (record_all xs t).scrollback (x.frame ∷ [])
          (frames xs) first rest,
      bounded,
    )

drop-append : (xs ys : List Text) → drop (length xs) (xs ++ ys) ≡ ys
drop-append [] ys = refl
drop-append (x ∷ xs) ys = drop-append xs ys

channel_of_Live : (s : Session) (log : List Text) → Live s log → channel s ≡ log
channel_of_Live s log v = ground arith

subscribed :
    (t : Session) (rp : RunningProcess) (history : List Text) (from : ℕ)
    → t.running ≡ some rp
    → subscribe_with_history t ≡ some (history, from)
    → (history ≡ t.scrollback) × (from ≡ length rp.event_tx)
unfolding subscribe_with_history
subscribed t rp history from e sub = (ground arith, ground arith)

-- What arrives on the channel after the process's log is what is recorded after it.
received-after :
    (t : Session) (rp : RunningProcess) (after : List Sent)
    → t.running ≡ some rp
    → received (length rp.event_tx) (channel (record_all after t)) ≡ frames after
received-after t rp after e =
    let live = record_all-Live after t rp.event_tx (rp, e, refl) in
    let log = rp.event_tx ++ frames after in
    ap (received (length rp.event_tx)) (channel_of_Live (record_all after t) log live)
    ∙ drop-append rp.event_tx (frames after)

-- A client that connects to a session of a live process whose buffer was empty, after the frames of
-- `before`, and stays for those of `after`: its history and what it receives are together the end of
-- all the frames, so it misses none after the first it has, and gets none twice.
pub reconnect_gapless :
    (s : Session) (rp : RunningProcess) (before after : List Sent) (history : List Text) (from : ℕ)
    → s.running ≡ some rp
    → s.scrollback ≡ []
    → s.scrollback_bytes ≡ 0
    → subscribe_with_history (record_all before s) ≡ some (history, from)
    → IsSuffix
        (history ++ received from (channel (record_all after (record_all before s))))
        (frames before ++ frames after)
unfolding subscribe_with_history
reconnect_gapless s rp before after history from live none_yet no_bytes sub =
    let t = record_all before s in
    let (now_live, e, _) = record_all-Live before s rp.event_tx (rp, live, refl) in
    let (is_buffer, is_place) = subscribed t now_live history from e sub in
    let bounded : IsBounded s.scrollback s.scrollback_bytes = ground (arith, none_yet) in
    let ((gone, whole, _, _), _) = record_all-Extends before s bounded in
    let seen : gone ++ history ≡ frames before =
      ap (λ h. gone ++ h) is_buffer ∙ whole ∙ ap (λ l. l ++ frames before) none_yet in
    let got : received from (channel (record_all after t)) ≡ frames after =
      ap (λ (n : ℕ). received n (channel (record_all after t))) is_place
      ∙ received-after t now_live after e in
    let later = received from (channel (record_all after t)) in
    (
      gone,
      sym (append_assoc gone history later)
          ∙ ap (λ l. l ++ later) seen
          ∙ ap (λ l. frames before ++ l) got,
    )
