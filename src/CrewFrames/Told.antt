-- ===== src/CrewFrames/Told.antt =====
-- What the results of a Crew session tell, as against the text that was streamed.
use mathlib.Core.List.{append-nil}
use zeromux.Acp.{AcpEvent, ContentBlock, content_block, turn_result, error}
use zeromux.Acp.Json.{Json}
use zeromux.CrewFrames.{
  NormState, new_state, FrameKind, chat_chunk, tool_call, tool_result, chat_status, chat_done,
  chat_error, approval_request, context_frame, chat_message, other, crew_answer, usage, on_chunk,
  on_tool_call, on_tool_result, on_error, on_approval, on_usage, crew_message_events, on_frame,
  frame_for, normalize_frame, tool_block,
}
use zeromux.Prelude.{
  ◌≡◌, refl, sym, subst, String, true, false, none, some, List, [], ◌∷◌, ◌++◌, Text, arith,
}

-- The text that a block of a stream adds to the turn.
abbrev pub streamed : ContentBlock → Text
streamed b = elim b.streaming [
  | some true ↦ elim b.text [ some t ↦ t | none ↦ [] ]
  | some false ↦ []
  | none ↦ []
]

-- What has been streamed since the last end of a turn, after one more event.
abbrev pub streamed_by : Text → AcpEvent → Text
streamed_by told (content_block b) = told ++ streamed b
streamed_by told (turn_result r) = []
streamed_by told (error m) = []
streamed_by told _ = told

abbrev pub IsToldBy : String → Text → AcpEvent → Type 0
IsToldBy my_slot told (turn_result r) = (r.text ≡ told) × (r.session_id ≡ my_slot)
IsToldBy my_slot told _ = Unit

-- Each result of the slot tells what was streamed since the end of the turn before it.
abbrev pub IsTold : String → Text → List AcpEvent → Type 0
IsTold my_slot told [] = Unit
IsTold my_slot told (e ∷ es) = IsToldBy my_slot told e × IsTold my_slot (streamed_by told e) es

abbrev streamed_after : Text → List AcpEvent → Text
streamed_after told [] = told
streamed_after told (e ∷ es) = streamed_after (streamed_by told e) es

abbrev Tells : String → NormState → List AcpEvent × NormState → Type 0
Tells my_slot st (es, st') =
    IsTold my_slot st.turn_text es × (streamed_after st.turn_text es ≡ st'.turn_text)

append-IsTold :
    (my_slot : String) (told : Text) (es fs : List AcpEvent)
    → IsTold my_slot told es
    → IsTold my_slot (streamed_after told es) fs
    → IsTold my_slot told (es ++ fs)
append-IsTold my_slot told [] fs h k = k
append-IsTold my_slot told (e ∷ es) fs (here, later) k =
    (here, append-IsTold my_slot (streamed_by told e) es fs later k)

module _ (json : Json) where
  -- The events of a sequence of frames.
  abbrev pub normalize_all : String → NormState → List json.Value → List AcpEvent
  normalize_all my_slot st [] = []
  normalize_all my_slot st (f ∷ fs) =
      let (es, st') = normalize_frame json f my_slot st in es ++ normalize_all my_slot st' fs

  on_frame-Tells :
      (my_slot : String) (k : FrameKind) (v : json.Value) (st : NormState)
      → Tells my_slot st (on_frame json my_slot k v st)
  unfolding on_frame on_chunk on_tool_call on_tool_result on_error on_approval on_usage
      crew_message_events usage crew_answer tool_block
  on_frame-Tells my_slot chat_chunk v st = ground arith
  on_frame-Tells my_slot tool_call v st = ground (arith, append-nil st.turn_text)
  on_frame-Tells my_slot tool_result v st = ((tt, tt), append-nil st.turn_text)
  on_frame-Tells my_slot chat_status v st = ((tt, tt), refl)
  on_frame-Tells my_slot chat_done v st = (((refl, refl), tt), refl)
  on_frame-Tells my_slot chat_error v st = ((tt, tt), refl)
  on_frame-Tells my_slot approval_request v st = ground arith
  on_frame-Tells my_slot context_frame v st = ground arith
  on_frame-Tells my_slot chat_message v st = ground (arith, append-nil st.turn_text)
  on_frame-Tells my_slot other v st = (tt, refl)

  normalize_frame-Tells :
      (my_slot : String) (f : json.Value) (st : NormState)
      → Tells my_slot st (normalize_frame json f my_slot st)
  unfolding normalize_frame
  normalize_frame-Tells my_slot f st =
      elim (frame_for json my_slot f)
        as (λ o.
          Tells my_slot st
            (elim o [ none ↦ ([], st) | some (k, v) ↦ on_frame json my_slot k v st ])) [
              | none ↦ (tt, refl)
              | some (k, v) ↦ on_frame-Tells my_slot k v st
            ]

  normalize_all-IsTold_from :
      (my_slot : String) (st : NormState) (fs : List json.Value)
      → IsTold my_slot st.turn_text (normalize_all my_slot st fs)
  normalize_all-IsTold_from my_slot st [] = tt
  normalize_all-IsTold_from my_slot st (f ∷ fs) =
      let (es, st') = normalize_frame json f my_slot st in
      let (told, rest) = normalize_frame-Tells my_slot f st in
      append-IsTold my_slot st.turn_text es (normalize_all my_slot st' fs) told (
        subst (λ t. IsTold my_slot t (normalize_all my_slot st' fs)) (sym rest)
          (normalize_all-IsTold_from my_slot st' fs))

  -- Whatever frames the gateway sends, for this slot and for others, of any type and with any fields, each result among the events of the session has the text of the streamed blocks that the session was given since the turn before it ended, by a result or an error, and carries the slot's key.
  pub normalize_all-IsTold :
      (my_slot : String) (fs : List json.Value)
      → IsTold my_slot [] (normalize_all my_slot new_state fs)
  normalize_all-IsTold my_slot fs = normalize_all-IsTold_from my_slot new_state fs
