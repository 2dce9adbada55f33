-- ===== src/Executors/ToolLoop/Limits.antt =====
-- The tool loop ends, keeps its limits, and answers every tool call in the conversation.
use brockleyai.Prelude.{
  Str, codes, ℕ, suc, ◌+◌, ◌≤◌, ◌≡◌, List, [], ◌∷◌, ◌++◌, ℤ, pos, negsuc, length, Result, ok, err,
}
use brockleyai.Executors.ToolLoop.{
  ToolCall, Message, CompletionResponse, ToolLoopConfig, LoopState, LoopEnd, returned,
  provider_error, tool_error, unfinished, assistant_message,
}

-- One message of the role `tool` for each call, in order, with its identifier.
abbrev pub Answers : List ToolCall → List Message → Type 0
Answers [] [] = Unit
Answers [] (m ∷ ms) = ⊥
Answers (tc ∷ tcs) [] = ⊥
Answers (tc ∷ tcs) (m ∷ ms) = (m.role ≡ codes "tool") × (m.tool_call_id ≡ tc.id) × Answers tcs ms

-- The conversation after so many rounds, with so many tool calls.
pub data Rounds (start : List Message) : List Message → ℕ → ℕ → Type 0 where
  begun : Rounds start start 0 0
  round :
      {ms : List Message} {i n : ℕ}
      → Rounds start ms i n
      → (resp : CompletionResponse) (answers : List Message) → Answers resp.tool_calls answers
      → Rounds start (ms ++ assistant_message resp ∷ answers) (suc i) (n + length resp.tool_calls)

abbrev pub clip : ℤ → ℕ
clip (pos n) = n
clip (negsuc n) = 0

pub record IsKept (cfg : ToolLoopConfig) (start : List Message) (s : LoopState) (iteration : ℕ)
    : Type 0 where
  pub conversation : Rounds start s.messages iteration s.total_tool_calls
  pub recorded : length s.history ≡ s.total_tool_calls
  pub calls : s.total_tool_calls ≤ clip cfg.max_calls
  pub iterations : iteration ≤ clip cfg.max_iterations

abbrev pub IsGood : ToolLoopConfig → List Message → LoopEnd → Type 0
IsGood cfg start (returned r) = IsKept cfg start r.state r.iterations
IsGood cfg start (provider_error e) = Unit
IsGood cfg start (tool_error e) = Unit
IsGood cfg start unfinished = ⊥

record HasAnswered (tcs : List ToolCall) (s s' : LoopState) : Type 0 where
  answers : List Message
  appended : s'.messages ≡ s.messages ++ answers
  matched : Answers tcs answers
  recorded : length s'.history ≡ length s.history + length tcs
  counted : s'.total_tool_calls ≡ s.total_tool_calls + length tcs

abbrev Ran : List ToolCall → LoopState → Result Str LoopState → Type 0
Ran tcs s (ok s') = HasAnswered tcs s s'
Ran tcs s (err e) = Unit
