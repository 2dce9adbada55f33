-- ===== src/Graph/Validate/Configs/CodeExecution.antt =====
-- validateCodeExecutionConfig of engine/graph/validate.go.
use Prim.Native.String.{String}
use brockleyai.Prelude.{
  ℕ, ℤ, pos, negsuc, is_positive, ltb, ◌*◌, Bool, true, false, not, Option, none, some, [], ◌∷◌,
  Str, if◌then◌else◌,
}
use brockleyai.Configs.{CodeExecutionConfig}
use brockleyai.Graph.Validate.Report.{Report, text, error_if}

-- `n > limit`
abbrev pub exceeds : ℤ → ℕ → Bool
exceeds (pos n) limit = ltb limit n
exceeds (negsuc n) limit = false

-- `n <= 0 || n > limit`: either test reports the same code at the same field.
unfoldable pub is_out_of_range : Option ℤ → ℕ → Bool
is_out_of_range none limit = false
is_out_of_range (some n) limit = if not (is_positive n) then true else exceeds n limit

unfoldable pub check_limit : Str → String → Option ℤ → ℕ → Report → Report
unfolding is_out_of_range
check_limit node_id field value limit r =
    error_if (is_out_of_range value limit) "SUPERAGENT_INVALID_CODE_EXEC" node_id []
      (text field ∷ []) r

unfoldable pub check_limits : Str → CodeExecutionConfig → Report → Report
unfolding check_limit
check_limits id ce r =
    check_limit id "config.code_execution.max_executions_per_run" ce.max_executions_per_run 100 (
      check_limit id "config.code_execution.max_tool_calls_per_execution"
        ce.max_tool_calls_per_execution 500
        (check_limit id "config.code_execution.max_code_bytes" ce.max_code_bytes 1048576 (
          check_limit id "config.code_execution.max_output_bytes" ce.max_output_bytes (10 * 1048576)
            (check_limit id "config.code_execution.max_memory_mb" ce.max_memory_mb 2048 (
              check_limit id "config.code_execution.max_execution_time_sec"
                ce.max_execution_time_sec 300 r)))))

unfoldable pub validate_code_execution_config : Str → Option CodeExecutionConfig → Report → Report
unfolding check_limits
validate_code_execution_config id none r = r
validate_code_execution_config id (some ce) r = if ce.enabled then check_limits id ce r else r
