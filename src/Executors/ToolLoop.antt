-- ===== src/Executors/ToolLoop.antt =====
-- RunToolLoop of engine/executor/llm_tool_loop.go: a model is asked, the tools that it calls are run, their
-- results join the conversation, and it is asked again. What is outside, the provider, the tools and the
-- cancellation, is a world that each call of it changes. Events and durations are left out.
pub mod Limits
use brockleyai.Prelude.{
  Str, codes, str_eq, ℕ, zero, suc, ◌+◌, ltb, leb, ◌==◌, Bool, true, false, ◌||◌, not, Option, none,
  some, List, [], ◌∷◌, ◌++◌, ℤ, pos, negsuc, length, Result, ok, err, if◌then◌else◌,
}
use brockleyai.Json.{Json, Members, obj, str, member, no_members}
use brockleyai.Configs.{ToolRoute}

-- internal/model/interfaces.go
pub record ToolCall : Type 0 where
  pub id : Str
  pub name : Str
  pub arguments : Str

pub record Message : Type 0 where
  pub role : Str
  pub content : Str
  pub tool_calls : List ToolCall
  pub tool_call_id : Str
  pub tool_result_error : Bool

pub record CompletionResponse : Type 0 where
  pub content : Str
  pub finish_reason : Str
  pub tool_calls : List ToolCall

-- `Error` if `IsError`, and the text of `Content` otherwise: as JSON, or printed if that fails.
pub record ToolResult : Type 0 where
  pub is_error : Bool
  pub error : Str
  pub content : Str

pub record ToolCallHistoryEntry : Type 0 where
  pub name : Str
  pub arguments : Str
  pub result : Str
  pub is_error : Bool

-- What the loop calls, each with the world before and after.
pub record World (W : Type 0) : Type 0 where
  pub is_cancelled : W → Bool
  pub complete : W → List Message → Result Str CompletionResponse × W
  -- The optional interceptor: `none` if it leaves the call to others.
  pub intercept : W → Str → Str → Option Str × W
  pub call_endpoint : W → ToolRoute → Str → Members → Result Str ToolResult × W
  -- The headers of an MCP route and the presence of a client, and then the call.
  pub resolve_client : W → ToolRoute → Option Str × W
  pub call_tool : W → ToolRoute → Str → Members → Result Str ToolResult × W
  -- `json.Unmarshal` of arguments into a map.
  pub unmarshal : Str → Option Members
  -- The text that tells the model that a tool is not available.
  pub not_available : Str → Str

pub record ToolLoopConfig : Type 0 where
  pub routing : Str → Option ToolRoute
  pub max_calls : ℤ
  pub max_iterations : ℤ

pub record LoopState : Type 0 where
  pub messages : List Message
  pub history : List ToolCallHistoryEntry
  pub total_tool_calls : ℕ

pub record ToolLoopResult : Type 0 where
  pub response : Option CompletionResponse
  pub state : LoopState
  pub iterations : ℕ
  pub finish_reason : Str

-- What the loop returns: a result, an error of the provider or of a route, or the end of the fuel.
pub data LoopEnd : Type 0 where
  returned : ToolLoopResult → LoopEnd
  provider_error : Str → LoopEnd
  tool_error : Str → LoopEnd
  unfinished : LoopEnd

-- `iteration >= cfg.MaxIterations` and `n > cfg.MaxCalls`
abbrev pub reaches : ℕ → ℤ → Bool
reaches n (pos m) = leb m n
reaches n (negsuc m) = true

abbrev pub exceeds : ℕ → ℤ → Bool
exceeds n (pos m) = ltb m n
exceeds n (negsuc m) = true

abbrev pub assistant_message : CompletionResponse → Message
assistant_message resp = record {
  role = codes "assistant";
  content = resp.content;
  tool_calls = resp.tool_calls;
  tool_call_id = [];
  tool_result_error = false;
}

-- The answer to a call, appended to the history and to the conversation.
unfoldable pub record_answer : ToolCall → Str → Bool → LoopState → LoopState
record_answer tc content is_error s = record {
  messages =
      s.messages
      ++ record {
        role = codes "tool";
        content = content;
        tool_calls = [];
        tool_call_id = tc.id;
        tool_result_error = is_error;
      }
        ∷ [];
  history =
      s.history
      ++ record { name = tc.name; arguments = tc.arguments; result = content; is_error = is_error }
        ∷ [];
  total_tool_calls = suc s.total_tool_calls;
}

unfoldable pub result_text : Result Str ToolResult → Str × Bool
result_text (err e) = (codes "Error: " ++ e, true)
result_text (ok r) = if r.is_error then (codes "Error: " ++ r.error, true) else (r.content, false)

module _ {W : Type 0} (world : World W) (cfg : ToolLoopConfig) where
  unfoldable pub parse_arguments : Str → Members
  parse_arguments text = elim (world.unmarshal text) [
    | some args ↦ args
    | none ↦ member (codes "raw") (str text) no_members
  ]

  -- The call along a route: its text and whether it is an error. An error of the route ends the loop.
  unfoldable pub call_route : W → ToolRoute → ToolCall → Result Str (Str × Bool) × W
  unfolding parse_arguments result_text
  call_route w route tc =
      let args = parse_arguments tc.arguments in
      if not (length route.api_tool_id == 0)
      then (let (r, w') = world.call_endpoint w route tc.name args in (ok (result_text r), w'))
      else (let (failure, w') = world.resolve_client w route in
          elim failure [
            | some e ↦ (err e, w')
            | none ↦
                (let (r, w'') = world.call_tool w' route tc.name args in (ok (result_text r), w''))
          ])

  -- One tool call: the interceptor first, then the route of the name.
  unfoldable pub answer_call : W → ToolCall → Result Str (Str × Bool) × W
  unfolding call_route
  answer_call w tc =
      let (handled, w') = world.intercept w tc.name tc.arguments in
      elim handled [
        | some result ↦ (ok (result, false), w')
        | none ↦ elim (cfg.routing tc.name) [
          | none ↦ (ok (world.not_available tc.name, true), w')
          | some route ↦ call_route w' route tc
        ]
      ]

  unfoldable pub run_calls : W → List ToolCall → LoopState → Result Str LoopState × W
  unfolding answer_call record_answer
  run_calls w [] s = (ok s, w)
  run_calls w (tc ∷ tcs) s =
      let (answer, w') = answer_call w tc in
      elim answer [
        | err e ↦ (err e, w')
        | ok (content, is_error) ↦ run_calls w' tcs (record_answer tc content is_error s)
      ]

  -- The result of the loop; `iteration` and the state are its variables.
  abbrev pub result_with : Option CompletionResponse → LoopState → ℕ → Str → LoopEnd
  result_with resp s iteration reason =
      returned
        (record { response = resp; state = s; iterations = iteration; finish_reason = reason })

  -- A response without tool calls.
  abbrev pub is_final : CompletionResponse → Bool
  is_final resp =
      not (str_eq resp.finish_reason (codes "tool_calls")) || length resp.tool_calls == 0

  abbrev pub at_limit : ℕ → LoopState → CompletionResponse → Bool
  at_limit iteration s resp =
      reaches iteration cfg.max_iterations
      || exceeds (s.total_tool_calls + length resp.tool_calls) cfg.max_calls

  unfoldable pub tool_loop : ℕ → W → Option CompletionResponse → LoopState → ℕ → LoopEnd
  unfolding run_calls
  tool_loop zero w last s iteration = unfinished
  tool_loop (suc fuel) w last s iteration =
      if world.is_cancelled w
      then result_with last s iteration (codes "cancelled")
      else (let (answer, w') = world.complete w s.messages in
          elim answer [
            | err e ↦ provider_error e
            | ok resp ↦
                if is_final resp
                then result_with (some resp) s iteration resp.finish_reason
                else if at_limit iteration s resp
                then result_with (some resp) s iteration (codes "limit_reached")
                else (let asked = record s {
                  messages = s.messages ++ assistant_message resp ∷ [];
                } in
                    let (ran, w'') = run_calls w' resp.tool_calls asked in
                    elim ran [
                      | err e ↦ tool_error e
                      | ok s' ↦ tool_loop fuel w'' (some resp) s' (suc iteration)
                    ])
          ])

  abbrev pub run_tool_loop : ℕ → W → List Message → LoopEnd
  run_tool_loop fuel w messages =
      tool_loop fuel w none (record { messages = messages; history = []; total_tool_calls = 0 }) 0
