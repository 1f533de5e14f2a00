-- ===== src/CrewFrames.antt =====
-- src/acp/crew_process.rs: how a frame of the Crew gateway becomes events of a session.
pub mod Told
pub mod ToolCalls
use zeromux.Acp.{
  AcpEvent, ContentBlock, TurnResult, system, content_block, turn_result, error, approval,
  context_usage,
}
use zeromux.Acp.Format.{format_tool_use}
use zeromux.Acp.Json.{Json, str_field, bool_field, filled, or_else}
use zeromux.Prelude.{
  ℕ, String, str_eq, Bool, true, false, not, ◌||◌, Option, none, some, List, [], ◌∷◌, ◌++◌, any,
  is_some, unwrap_or, Text, codes, ltb, if◌then◌else◌,
}
use zeromux.Prompts.{is_whitespace}

pub record NormState : Type 0 where
  pub turn_text : Text
  pub seen_tool_calls : List String

abbrev pub new_state : NormState
new_state = record { turn_text = []; seen_tool_calls = [] }

-- The frame types that are matched, and all others.
pub data FrameKind : Type 0 where
  chat_chunk tool_call tool_result chat_status chat_done chat_error : FrameKind
  approval_request context_frame chat_message other : FrameKind

unfoldable pub frame_kind : String → FrameKind
frame_kind kind =
    if str_eq kind "chat_chunk"
    then chat_chunk
    else if str_eq kind "tool_call"
    then tool_call
    else if str_eq kind "tool_result"
    then tool_result
    else if str_eq kind "chat_status"
    then chat_status
    else if str_eq kind "chat_done"
    then chat_done
    else if str_eq kind "chat_error"
    then chat_error
    else if str_eq kind "approval"
    then approval_request
    else if str_eq kind "context_usage"
    then context_frame
    else if str_eq kind "chat_message"
    then chat_message
    else other

-- A block as every arm starts it: with the fields that it leaves empty.
abbrev block_of : String → ContentBlock
block_of block_type = record {
  block_type = block_type;
  turn_id = 0;
  text = none;
  name = none;
  input = none;
  streaming = none;
  summary = none;
}

-- `HashSet::insert`, which says whether the id is new.
abbrev pub contains : String → List String → Bool
contains id ids = any (str_eq id) ids

text_of : Option String → Option Text
text_of none = none
text_of (some s) = some (codes s)

is_blank : String → Bool
is_blank s = not (any (λ c. not (is_whitespace c)) (codes s))

abbrev is_crew_kind : String → Bool
is_crew_kind k = str_eq k "crew_ask" || str_eq k "crew_result" || str_eq k "crew_meta"

crew_answer : Option String → Option String → List AcpEvent
unfolding is_blank
crew_answer (some k) body =
    if str_eq k "crew_ack" then system "crew_ack" none none ∷ [] else elim body [
      | none ↦ []
      | some t ↦
          if is_blank t || not (is_crew_kind k)
          then []
          else content_block
              (record (block_of "text") { text = some (codes t); summary = some (codes k) })
            ∷ []
    ]
crew_answer none body = []

usage : Option ℕ → Option ℕ → List AcpEvent
usage (some used) (some total) = if ltb 0 total then context_usage used total ∷ [] else []
usage used total = []

module _ (json : Json) where
  -- `find_map` over keys.
  first_str : json.Value → List String → Option String
  first_str v [] = none
  first_str v (k ∷ ks) = or_else (str_field json v k) (first_str v ks)

  -- The frame's type and data, if it is one for the slot.
  unfoldable pub frame_for : String → json.Value → Option (FrameKind × json.Value)
  unfolding frame_kind
  frame_for my_slot frame = elim (str_field json frame "type") [
    | none ↦ none
    | some kind ↦ elim (json.get frame "data") [
      | none ↦ none
      | some data' ↦ elim (str_field json data' "slot") [
        | none ↦ none
        | some slot ↦ if str_eq slot my_slot then some (frame_kind kind, data') else none
      ]
    ]
  ]

  unfoldable pub on_chunk : json.Value → NormState → List AcpEvent × NormState
  on_chunk v st = elim (str_field json v "content") [
    | none ↦ ([], st)
    | some content ↦ if str_eq content "" then ([], st) else (
      content_block
            (record (block_of "text") { text = some (codes content); streaming = some true })
          ∷ [],
      record st { turn_text = st.turn_text ++ codes content },
    )
  ]

  parse_input : json.Value → Option json.Value
  parse_input v = elim (str_field json v "input_preview") [
    | none ↦ none
    | some s ↦ some (unwrap_or (json.from_str s) (json.of_string s))
  ]

  printed : Option json.Value → Option Text
  printed none = none
  printed (some v) = some (json.print v)

  abbrev pub tool_name : json.Value → String
  tool_name v = unwrap_or (str_field json v "tool") "tool"

  summary_of : json.Value → Option Text
  unfolding format_tool_use text_of
  summary_of v = elim (filled (str_field json v "purpose")) [
    | none ↦ format_tool_use json (tool_name v) (parse_input v)
    | some purpose ↦ some (codes purpose)
  ]

  unfoldable pub tool_block : json.Value → AcpEvent
  unfolding parse_input printed summary_of
  tool_block v = content_block (record (block_of "tool_use") {
    name = some (codes (tool_name v));
    input = printed (parse_input v);
    summary = summary_of v;
  })

  unfoldable pub on_tool_call : json.Value → NormState → List AcpEvent × NormState
  on_tool_call v st = elim (str_field json v "tool_call_id") [
    | some id ↦
        if contains id st.seen_tool_calls
        then ([], st)
        else (tool_block v ∷ [], record st { seen_tool_calls = id ∷ st.seen_tool_calls })
    | none ↦
        if unwrap_or (bool_field json v "is_update") false
        then ([], st)
        else (tool_block v ∷ [], st)
  ]

  result_text : json.Value → Option Text
  unfolding first_str
  result_text v = elim (first_str v ("output" ∷ "result" ∷ "content" ∷ "text" ∷ [])) [
    | some s ↦ some (codes s)
    | none ↦ elim (json.get v "result") [
      | none ↦ none
      | some r ↦ if json.is_null r then none else some (json.print r)
    ]
  ]

  unfoldable pub on_tool_result : json.Value → AcpEvent
  unfolding result_text
  on_tool_result v =
      content_block (record (block_of "tool_result") {
        text = result_text v;
        name = some (codes (tool_name v));
      })

  unfoldable pub on_error : json.Value → AcpEvent
  unfolding first_str
  on_error v = error (
      codes "Crew error: "
      ++ codes (unwrap_or (first_str v ("error" ∷ "message" ∷ "detail" ∷ [])) "Crew turn failed"))

  unfoldable pub on_approval : String → json.Value → List AcpEvent
  unfolding text_of
  on_approval my_slot v = elim (str_field json v "id") [
    | none ↦ []
    | some id ↦
        approval id (tool_name v) (text_of (filled (str_field json v "tool_input")))
          (text_of (filled (str_field json v "tool_purpose"))) my_slot
        ∷ []
  ]

  u64_of : Option json.Value → Option ℕ
  u64_of none = none
  u64_of (some v) = json.as_u64 v

  unfoldable pub on_usage : json.Value → List AcpEvent
  unfolding u64_of usage
  on_usage v =
      usage (u64_of (json.get v "used"))
        (u64_of (elim (json.get v "total") [ none ↦ json.get v "limit" | some t ↦ some t ]))

  unfoldable pub crew_message_events : json.Value → List AcpEvent
  unfolding crew_answer
  crew_message_events v = elim (str_field json v "role") [
    | none ↦ []
    | some role ↦
        if str_eq role "assistant"
        then crew_answer
            (or_else (str_field json v "kind")
              (elim (json.get v "meta") [ none ↦ none | some m ↦ str_field json m "kind" ]))
            (or_else (str_field json v "content") (str_field json v "text"))
        else []
  ]

  unfoldable pub on_frame : String → FrameKind → json.Value → NormState → List AcpEvent × NormState
  on_frame my_slot chat_chunk v st = on_chunk v st
  on_frame my_slot tool_call v st = on_tool_call v st
  on_frame my_slot tool_result v st = (on_tool_result v ∷ [], st)
  on_frame my_slot chat_status v st = (system "status" none none ∷ [], st)
  on_frame my_slot chat_done v st = (
    turn_result (record {
      text = st.turn_text;
      turn_id = 0;
      session_id = my_slot;
      cost_usd = none;
      tokens_in = none;
      tokens_out = none;
    })
        ∷ [],
    record st { turn_text = []; seen_tool_calls = [] },
  )
  on_frame my_slot chat_error v st =
      (on_error v ∷ [], record st { turn_text = []; seen_tool_calls = [] })
  on_frame my_slot approval_request v st = (on_approval my_slot v, st)
  on_frame my_slot context_frame v st = (on_usage v, st)
  on_frame my_slot chat_message v st = (crew_message_events v, st)
  on_frame my_slot other v st = ([], st)

  unfoldable pub normalize_frame : json.Value → String → NormState → List AcpEvent × NormState
  unfolding frame_for on_frame
  normalize_frame frame my_slot st = elim (frame_for my_slot frame) [
    | none ↦ ([], st)
    | some (kind, v) ↦ on_frame my_slot kind v st
  ]
