-- ===== src/CrewFrames/ToolCalls.antt =====
-- Which calls of tools a Crew session is shown.
use zeromux.Acp.Json.{Json, str_field}
use zeromux.CrewFrames.{
  NormState, new_state, FrameKind, chat_chunk, tool_call, tool_result, chat_status, chat_done,
  chat_error, approval_request, context_frame, chat_message, other, contains, on_chunk,
  on_tool_call, on_frame, frame_for, normalize_frame, tool_block,
}
use zeromux.Prelude.{
  ◌≡◌, refl, sym, subst, String, str_eq, Bool, true, false, ◌||◌, Option, none, some, List, [], ◌∷◌,
  arith, if◌then◌else◌, Bool-cases, inl, inr, Option-cases, eq_iff,
}

abbrev pub ends_turn : FrameKind → Bool
ends_turn chat_done = true
ends_turn chat_error = true
ends_turn _ = false

contains_again :
    (id i : String) (ids : List String)
    → contains i ids ≡ true
    → (str_eq id i || contains id ids) ≡ contains id ids
contains_again id i ids h = elim (Bool-cases (str_eq id i)) [
  | inr differs ↦ rw differs refl
  | inl same ↦ rw (same, subst (λ k. contains k ids ≡ true) (sym ((eq_iff id i).0 same)) h) refl
]

module _ (json : Json) where
  -- The frame is a call, with this id, that the slot is told of.
  abbrev pub calls : String → Option (FrameKind × json.Value) → Bool
  calls id (some (tool_call, v)) = elim (str_field json v "tool_call_id") [
    | some i ↦ str_eq id i
    | none ↦ false
  ]
  calls id _ = false

  abbrev pub ends : Option (FrameKind × json.Value) → Bool
  ends none = false
  ends (some (k, v)) = ends_turn k

  -- The state after a history, its newest frame first.
  abbrev pub state_after : String → List json.Value → NormState
  state_after my_slot [] = new_state
  state_after my_slot (f ∷ past) = (normalize_frame json f my_slot (state_after my_slot past)).1

  -- Whether the slot was told of a call with this id since its last turn ended.
  abbrev pub called_this_turn : String → String → List json.Value → Bool
  called_this_turn my_slot id [] = false
  called_this_turn my_slot id (f ∷ past) =
      let before = called_this_turn my_slot id past in
      if ends (frame_for json my_slot f)
      then false
      else calls id (frame_for json my_slot f) || before

  on_frame-seen :
      (my_slot id : String) (k : FrameKind) (v : json.Value) (st : NormState)
      → contains id (on_frame json my_slot k v st).1.seen_tool_calls
        ≡ (if ends_turn k then false else calls id (some (k, v)) || contains id st.seen_tool_calls)
  unfolding on_frame on_chunk on_tool_call
  on_frame-seen my_slot id chat_chunk v st = ground arith
  on_frame-seen my_slot id tool_call v st = elim (Option-cases (str_field json v "tool_call_id")) [
    | inl no_id ↦ rw (on_tool_call, no_id) (ground arith)
    | inr (i, h) ↦
        rw (on_tool_call, h)
          (elim (Bool-cases (contains i st.seen_tool_calls)) [
            | inl known ↦ rw (known, calls, h, contains_again id i st.seen_tool_calls known) refl
            | inr new ↦ rw (new, calls, h) refl
          ])
  ]
  on_frame-seen my_slot id tool_result v st = refl
  on_frame-seen my_slot id chat_status v st = refl
  on_frame-seen my_slot id chat_done v st = refl
  on_frame-seen my_slot id chat_error v st = refl
  on_frame-seen my_slot id approval_request v st = refl
  on_frame-seen my_slot id context_frame v st = refl
  on_frame-seen my_slot id chat_message v st = refl
  on_frame-seen my_slot id other v st = refl

  normalize_frame-seen :
      (my_slot id : String) (f : json.Value) (st : NormState)
      → contains id (normalize_frame json f my_slot st).1.seen_tool_calls ≡ (
          if ends (frame_for json my_slot f)
          then false
          else calls id (frame_for json my_slot f) || contains id st.seen_tool_calls)
  unfolding normalize_frame
  normalize_frame-seen my_slot id f st = elim (Option-cases (frame_for json my_slot f)) [
    | inl stranger ↦ rw (normalize_frame, stranger) refl
    | inr ((k, v), mine) ↦ rw (normalize_frame, mine) (on_frame-seen my_slot id k v st)
  ]

  seen-called :
      (my_slot id : String) (past : List json.Value)
      → contains id (state_after my_slot past).seen_tool_calls ≡ called_this_turn my_slot id past
  seen-called my_slot id [] = refl
  seen-called my_slot id (f ∷ past) =
      rw (normalize_frame-seen my_slot id f (state_after my_slot past), seen-called my_slot id past)
        refl

  -- After any history of frames, for this slot and for others, a frame that tells the slot of a call of a tool, with an id, is shown as one block exactly if the slot was told of no call with that id since its last turn ended, by a done or an error; else nothing is shown.
  pub tool_call_shown_once :
      (my_slot id : String) (past : List json.Value) (f v : json.Value)
      → frame_for json my_slot f ≡ some (tool_call, v)
      → str_field json v "tool_call_id" ≡ some id
      → (normalize_frame json f my_slot (state_after my_slot past)).0
        ≡ (if called_this_turn my_slot id past then [] else (tool_block json v ∷ []))
  unfolding normalize_frame on_frame on_tool_call
  tool_call_shown_once my_slot id past f v mine has_id =
      rw (normalize_frame, mine, on_frame, on_tool_call, has_id, sym (seen-called my_slot id past))
        (ground arith)
