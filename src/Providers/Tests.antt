-- ===== src/Providers/Tests.antt =====
-- A provider that is overloaded twice.
use brockleyai.Prelude.{ℕ, suc, ◌≡◌, refl, ltb, true, false, some, [], pos, ok, err, if◌then◌else◌}
use brockleyai.Providers.Retry.{Failure, Inner, is_retryable, complete}
use brockleyai.Providers.Retry.Attempts.{Last, complete-Last}

abbrev overloaded : Failure
overloaded = record { message = []; retry = some (true, pos 0) }

abbrev recovering : Inner ℕ ℕ
recovering = record {
  call = λ w. (if ltb w 2 then err overloaded else ok w, suc w);
  is_done = λ w. false;
  wait = λ w attempt seconds. (false, w);
}

complete_recovering : (complete recovering (pos 3) 0).0 ≡ ok 2
unfolding complete is_retryable
complete_recovering = refl

complete_exhausted : (complete recovering (pos 1) 0).0 ≡ err (some overloaded)
unfolding complete is_retryable
complete_exhausted = refl

complete-Last_example : Last recovering 3 0 0 (complete recovering (pos 3) 0).0
complete-Last_example = complete-Last recovering 3 0
