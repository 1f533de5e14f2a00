-- ===== src/Session/Scrollback.antt =====
-- The replay buffer of a session and its broadcast channel: `record_and_broadcast`,
-- `push_scrollback`, `broadcast_pty` and `subscribe_with_history`.
pub mod Bounds
pub mod Replay
use zeromux.Posture.{PostureDelta, apply_posture_delta}
use zeromux.Prelude.{
  ℕ, ◌+◌, ◌-◌, ◌*◌, Bool, not, ◌&&◌, Option, none, some, List, [], ◌∷◌, ◌++◌, Text, byte_len, ltb,
  is_empty, length, drop, if◌then◌else◌,
}
use zeromux.Session.{Session, RunningProcess}

abbrev pub scrollback_max_bytes : ℕ
scrollback_max_bytes = 2 * 1024 * 1024

-- `while bytes > MAX && len > 1 { bytes -= pop_front().len() }`: the frames left and their bytes.
unfoldable pub evict : ℕ → List Text → ℕ → List Text × ℕ
evict cap [] bytes = ([], bytes)
evict cap (f ∷ fs) bytes =
    let rest = evict cap fs (bytes - byte_len f) in
    if ltb cap bytes && not (is_empty fs) then rest else (f ∷ fs, bytes)

unfoldable pub push_frame : Text → Session → Session
push_frame frame s =
    let (left, bytes) =
      evict scrollback_max_bytes (s.scrollback ++ frame ∷ [])
        (s.scrollback_bytes + byte_len frame) in
    record s { scrollback = left; scrollback_bytes = bytes }

unfoldable pub push_scrollback : Text → Session → Session
unfolding push_frame evict
push_scrollback frame s = push_frame frame s

-- `event_tx.send`: a process that is gone has no channel.
unfoldable pub send_frame : Text → Option RunningProcess → Option RunningProcess
send_frame frame none = none
send_frame frame (some rp) = some (record rp { event_tx = rp.event_tx ++ frame ∷ [] })

unfoldable pub apply_delta : Option PostureDelta → Session → Session
apply_delta none s = s
apply_delta (some d) s = record s { posture = apply_posture_delta s.posture d }

-- Written to the buffer and sent in one critical section.
unfoldable pub record_and_broadcast : ℕ → Text → Bool → Option PostureDelta → Session → Session
unfolding push_frame evict send_frame apply_delta
record_and_broadcast now frame bump delta s =
    let touched = record s { last_activity_ms = if bump then now else s.last_activity_ms } in
    let pushed = push_frame frame (apply_delta delta touched) in
    record pushed { running = send_frame frame s.running }

unfoldable pub broadcast_pty : ℕ → Text → Session → Session
unfolding send_frame
broadcast_pty now frame s = record s {
  last_activity_ms = now;
  running = send_frame frame s.running;
}

-- The history, and the place in the channel from which the subscriber receives.
unfoldable pub subscribe_with_history : Session → Option (List Text × ℕ)
subscribe_with_history s = elim s.running [
  | none ↦ none
  | some rp ↦ some (s.scrollback, length rp.event_tx)
]

-- What a subscriber has received by the time that the channel holds `log`.
abbrev pub received : ℕ → List Text → List Text
received from log = drop from log
