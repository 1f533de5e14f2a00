-- ===== src/GatewayFanout/Parity/Rounds.antt =====
-- The tasks stay together across inputs, the flush, and so across any rounds that they share.
use zeromux.ClaudeFanout.Input as CInput
use zeromux.ClaudeFanout.Loop as CLoop
use zeromux.ClaudeFanout.Loop.{Message, event, input, timer}
use zeromux.ClaudeFanout.State.{Config, Fanout}
use zeromux.ClaudeFanout.State as CState
use zeromux.Effects.{Moment, ◌>>◌}
use zeromux.GatewayFanout.Input as GInput
use zeromux.GatewayFanout.State.{Backend, crew_gateway, codex_server, Settings, Gateway}
use zeromux.GatewayFanout.State as GState
use zeromux.Inputs.{
  SessionInput, pty_data, pty_resize, prompt, cancel, interrupt_turn, set_queue_mode, timeout_kill,
  approval_reply,
}
use zeromux.Prelude.{
  subst, ℕ, ◌≡◌, refl, Bool, true, false, Option, none, some, List, [], ◌∷◌, Text, String, arith,
  ◌&&◌,
}
use zeromux.PromptQueue.{QueueMode, collect, interrupt, passthrough}
use zeromux.GatewayFanout.Parity.{Together, Same, plain_event, >>-Together}
use zeromux.GatewayFanout.Parity.Events.{on_event-Together}

interrupt_live-Together :
    (f : Fanout) (g : Gateway)
    → Same f g
    → Together (CInput.interrupt_live f) (GInput.interrupt_live g)
unfolding CInput.interrupt_live CInput.stamp_intent GInput.interrupt_live GInput.stamp_intent
interrupt_live-Together f g v = ground arith

collect_prompt-Together :
    (now : ℕ) (text : Text) (f : Fanout) (g : Gateway)
    → Same f g
    → Together (CInput.collect_prompt now text f) (GInput.collect_prompt now text g)
unfolding CInput.collect_prompt CInput.note_substantive CInput.begin_turn GInput.collect_prompt
    GInput.begin_turn
collect_prompt-Together now text f g v = ground arith

plain_prompt-Together :
    (mode : QueueMode) (now : ℕ) (text : Text) (f : Fanout) (g : Gateway)
    → Same f g
    → Together (CInput.plain_prompt mode now text f) (GInput.plain_prompt mode now text g)
unfolding CInput.plain_prompt CInput.interrupting_prompt CInput.interrupt_live CInput.stamp_intent
    CInput.clear_queue CInput.finalize_active_run_if_scheduled CInput.passthrough_prompt
    CInput.begin_turn GInput.plain_prompt GInput.interrupt_live GInput.stamp_intent
    GInput.clear_queue GInput.begin_turn
plain_prompt-Together interrupt now text f g v =
    ground (arith, collect_prompt-Together now text f g v)
plain_prompt-Together passthrough now text f g v = ground arith
plain_prompt-Together collect now text f g v = collect_prompt-Together now text f g v

echo_prompt-Together :
    (text : Text) (client_id : Option String) (f : Fanout) (g : Gateway)
    → Same f g
    → Together (CInput.echo_prompt text client_id f) (GInput.echo_prompt text client_id g)
unfolding CInput.echo_prompt GInput.echo_prompt
echo_prompt-Together text client_id f g v = ground arith

noted-Same :
    (b : Backend) (f : Fanout) (g : Gateway)
    → Same f g
    → Same f (GInput.note_first_prompt b none g).0
unfolding GInput.note_first_prompt
noted-Same crew_gateway f g v = ground arith
noted-Same codex_server f g v = v

echoed-Together :
    (now : ℕ) (text : Text) (client_id : Option String) (f : Fanout) (g : Gateway)
    → Same f g
    → Together
        ((CInput.echo_prompt text client_id >> (λ s. CInput.plain_prompt s.queue_mode now text s))
          f)
        ((GInput.echo_prompt text client_id >> (λ s. GInput.plain_prompt s.queue_mode now text s))
          g)
unfolding CInput.echo_prompt GInput.echo_prompt
echoed-Together now text client_id f g v =
    >>-Together (CInput.echo_prompt text client_id)
      (λ s. CInput.plain_prompt s.queue_mode now text s) (GInput.echo_prompt text client_id)
      (λ s. GInput.plain_prompt s.queue_mode now text s) f g
      (echo_prompt-Together text client_id f g v)
      (subst
        (λ q.
          Together (CInput.plain_prompt f.queue_mode now text f) (GInput.plain_prompt q now text g))
        v.same_mode (plain_prompt-Together f.queue_mode now text f g v))

on_prompt-Together :
    (b : Backend) (now : ℕ) (text : Text) (client_id : Option String) (f : Fanout) (g : Gateway)
    → Same f g
    → Together
        (CInput.on_prompt now text none client_id f)
        (GInput.on_prompt b now text none client_id g)
unfolding CInput.on_prompt GInput.on_prompt GInput.note_first_prompt
on_prompt-Together crew_gateway now text client_id f g v =
    echoed-Together now text client_id f (GInput.note_first_prompt crew_gateway none g).0
      (noted-Same crew_gateway f g v)
on_prompt-Together codex_server now text client_id f g v = echoed-Together now text client_id f g v

-- A scheduled prompt is the one input that the tasks treat in different ways.
abbrev plain_input : SessionInput → Bool
plain_input (prompt text (some rid) client_id) = false
plain_input _ = true

on_input-Together :
    (b : Backend) (now : ℕ) (inp : SessionInput) (f : Fanout) (g : Gateway)
    → Same f g
    → plain_input inp ≡ true
    → Together (CInput.on_input now inp f) (GInput.on_input b now inp g)
unfolding CInput.on_input CInput.interrupt_live CInput.stamp_intent CInput.clear_queue
    GInput.on_input GInput.interrupt_live GInput.stamp_intent GInput.clear_queue
    GInput.approval_calls
on_input-Together b now (prompt text none client_id) f g v p =
    on_prompt-Together b now text client_id f g v
on_input-Together b now (prompt text (some rid) client_id) f g v p = cc
on_input-Together b now (set_queue_mode mode) f g v p = ground arith
on_input-Together b now interrupt_turn f g v p = ground arith
on_input-Together b now cancel f g v p = ground arith
on_input-Together b now (timeout_kill r) f g v p = ground arith
on_input-Together b now (pty_data d) f g v p = (v, refl)
on_input-Together b now (pty_resize c r) f g v p = (v, refl)
on_input-Together crew_gateway now (approval_reply i a) f g v p = (v, refl)
on_input-Together codex_server now (approval_reply i a) f g v p = (v, refl)

on_timer-Together :
    (cfg : Config) (set : Settings) (now : ℕ) (f : Fanout) (g : Gateway)
    → cfg.hhmm ≡ set.hhmm
    → Same f g
    → Together (CLoop.on_timer cfg now f) (GInput.on_timer set now g)
unfolding CLoop.on_timer CLoop.flush CInput.begin_turn GInput.on_timer GInput.flush
    GInput.begin_turn
on_timer-Together cfg set now f g h v = rw h (ground arith)

-- What all three tasks treat alike, in the light of whether a turn runs.
abbrev plain_message : Bool → Message → Bool
plain_message running (event evt) = plain_event running evt
plain_message running (input inp) = plain_input inp
plain_message running timer = true

abbrev plain_run : Settings → List (Moment × Message) → Gateway → Bool
plain_run set [] g = true
plain_run set ((m, msg) ∷ xs) g =
    let rest = plain_run set xs (GInput.round set (m, msg) g).0 in
    plain_message g.local_running msg && rest

round-Together :
    (cfg : Config) (set : Settings) (m : Moment) (msg : Message) (f : Fanout) (g : Gateway)
    → cfg.hhmm ≡ set.hhmm
    → Same f g
    → plain_message g.local_running msg ≡ true
    → Together (CLoop.round cfg (m, msg) f) (GInput.round set (m, msg) g)
unfolding CLoop.round GInput.round
round-Together cfg set m (event evt) f g h v p =
    on_event-Together cfg set m evt f g v (rw v.same_running p)
round-Together cfg set m (input inp) f g h v p = on_input-Together set.backend m.now inp f g v p
round-Together cfg set m timer f g h v p = on_timer-Together cfg set m.now f g h v

rounds-Together :
    (cfg : Config) (set : Settings) (xs : List (Moment × Message)) (f : Fanout) (g : Gateway)
    → cfg.hhmm ≡ set.hhmm
    → Same f g
    → plain_run set xs g ≡ true
    → Together (CLoop.rounds cfg xs f) (GInput.rounds set xs g)
unfolding CLoop.rounds GInput.rounds
rounds-Together cfg set [] f g h v p = (v, refl)
rounds-Together cfg set ((m, msg) ∷ xs) f g h v p =
    let w = round-Together cfg set m msg f g h v (ground arith) in
    >>-Together (CLoop.round cfg (m, msg)) (CLoop.rounds cfg xs) (GInput.round set (m, msg))
      (GInput.rounds set xs) f g w
      (rounds-Together cfg set xs (CLoop.round cfg (m, msg) f).0 (GInput.round set (m, msg) g).0 h
        w.0 (ground arith))

-- Run beside `spawn_acp_fanout` on the same messages, crew and codex stand at the same turns and make
-- the same calls for them, as long as no message carries a run id, no event is one of the Claude
-- process's own (its markers, a peer message), none opens a turn while idle, and both print the same
-- clock face.
pub gateway_parity :
    (cfg : Config) (set : Settings) (xs : List (Moment × Message))
    → cfg.hhmm ≡ set.hhmm
    → plain_run set xs GState.init ≡ true
    → Together (CLoop.rounds cfg xs (CState.init cfg)) (GInput.rounds set xs GState.init)
unfolding CState.init GState.init
gateway_parity cfg set xs h p =
    rounds-Together cfg set xs (CState.init cfg) GState.init h (ground arith) p
