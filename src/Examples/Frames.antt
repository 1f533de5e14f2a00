-- ===== src/Examples/Frames.antt =====
-- The theorems on the frames of the Crew gateway, at frames of two slots.
use zeromux.Acp.Json.{Json}
use zeromux.CrewFrames.{new_state, normalize_frame, frame_for, frame_kind}
use zeromux.CrewFrames.Told.{IsTold, normalize_all, normalize_all-IsTold}
use zeromux.CrewFrames.ToolCalls.{state_after, tool_call_shown_once}
use zeromux.Prelude.{
  String, str_eq, false, Option, none, some, List, [], ◌∷◌, ◌≡◌, refl, if◌then◌else◌,
}

-- A text, or an object: empty, or with one more field.
data Tree : Type 0 where
  leaf : String → Tree
  empty : Tree
  with_field : String → Tree → Tree → Tree

get : Tree → String → Option Tree
get (leaf s) key = none
get empty key = none
get (with_field k v t) key = let rest = get t key in if str_eq k key then some v else rest

as_str : Tree → Option String
as_str (leaf s) = some s
as_str _ = none

abbrev trees : Json
trees = record {
  Value = Tree;
  get = get;
  as_str = as_str;
  as_bool = λ v. none;
  as_u64 = λ v. none;
  is_null = λ v. false;
  print = λ v. [];
  from_str = λ s. none;
  of_string = leaf;
}

abbrev frame : String → String → Tree → Tree
frame kind slot fields =
    with_field "type" (leaf kind) (with_field "data" (with_field "slot" (leaf slot) fields) empty)

abbrev chunk : String → String → Tree
chunk slot content = frame "chat_chunk" slot (with_field "content" (leaf content) empty)

abbrev call : Tree
call = with_field "slot" (leaf "mine") (with_field "tool_call_id" (leaf "t1") empty)

abbrev call_frame : Tree
call_frame = with_field "type" (leaf "tool_call") (with_field "data" call empty)

abbrev frames : List Tree
frames =
    chunk "mine" "a"
    ∷ chunk "other" "x"
    ∷ call_frame
    ∷ frame "chat_done" "other" empty
    ∷ chunk "mine" "b"
    ∷ frame "chat_done" "mine" empty
    ∷ []

normalize_all-IsTold_example : IsTold "mine" [] (normalize_all trees "mine" new_state frames)
normalize_all-IsTold_example = normalize_all-IsTold trees "mine" frames

tool_call_shown_once_example :
    (normalize_frame trees call_frame "mine"
      (state_after trees "mine" (chunk "mine" "a" ∷ call_frame ∷ []))).0
    ≡ []
unfolding frame_for frame_kind get as_str
tool_call_shown_once_example =
    tool_call_shown_once trees "mine" "t1" (chunk "mine" "a" ∷ call_frame ∷ []) call_frame call refl
      refl
