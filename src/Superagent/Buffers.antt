-- ===== src/Superagent/Buffers.antt =====
-- BufferManager of engine/executor/superagent_builtin_tools.go. The map from names to buffers lists its
-- buffers, each name once.
pub mod Frozen
pub mod Finalized
pub mod Contents
pub mod Refinement
use brockleyai.Prelude.{
  index_of, Str, codes, str_eq, ℕ, zero, suc, ◌+◌, ◌==◌, ℤ, pos, negsuc, leb, Bool, true, false,
  not, ◌&&◌, Option, none, some, List, [], ◌∷◌, ◌++◌, if◌then◌else◌, length, take, drop, Result, ok,
  err, ◌>>=◌, update,
}

pub record Buffer : Type 0 where
  pub name : Str
  pub content : Str
  -- The output port; empty if the buffer is not finalized.
  pub finalized_to : Str

pub data BufferError : Type 0 where
  already_exists : BufferError
  not_found : BufferError
  is_finalized : BufferError
  marker_not_found : BufferError
  out_of_bounds : BufferError
  already_finalized : BufferError

abbrev pub BufferManager : Type 0
BufferManager = List Buffer

unfoldable pub find_buffer : Str → BufferManager → Option Buffer
find_buffer name [] = none
find_buffer name (b ∷ bs) = if str_eq b.name name then some b else find_buffer name bs

-- The write through the pointer that the map holds: the buffer of the name is changed.
unfoldable pub put_buffer : Buffer → BufferManager → BufferManager
put_buffer b [] = []
put_buffer b (x ∷ xs) = if str_eq x.name b.name then b ∷ xs else x ∷ put_buffer b xs

unfoldable pub create_buffer : Str → BufferManager → Result BufferError BufferManager
unfolding find_buffer
create_buffer name bm = elim (find_buffer name bm) [
  | some _ ↦ err already_exists
  | none ↦ ok (record { name = name; content = []; finalized_to = [] } ∷ bm)
]

abbrev pub is_open : Buffer → Bool
is_open b = length b.finalized_to == 0

unfoldable pub get_writable : Str → BufferManager → Result BufferError Buffer
unfolding find_buffer
get_writable name bm = elim (find_buffer name bm) [
  | none ↦ err not_found
  | some b ↦ if is_open b then ok b else err is_finalized
]

-- What Append, Prepend, Insert, Replace and Delete have in common: the new content of a writable buffer.
unfoldable pub edit_buffer :
    Str → (Str → Result BufferError Str) → BufferManager → Result BufferError BufferManager
unfolding get_writable put_buffer
edit_buffer name f bm = get_writable name bm >>= λ b.
    f b.content >>= λ content. ok (put_buffer (record b { content = content }) bm)

unfoldable pub append_buffer : Str → Str → BufferManager → Result BufferError BufferManager
unfolding edit_buffer
append_buffer name content = edit_buffer name (λ current. ok (current ++ content))

unfoldable pub prepend_buffer : Str → Str → BufferManager → Result BufferError BufferManager
unfolding edit_buffer
prepend_buffer name content = edit_buffer name (λ current. ok (content ++ current))

unfoldable pub insert_after : Str → Str → Str → Result BufferError Str
unfolding index_of
insert_after after content current = elim (index_of current after) [
  | none ↦ err marker_not_found
  | some i ↦ ok (take (i + length after) current ++ (content ++ drop (i + length after) current))
]

unfoldable pub insert_buffer : Str → Str → Str → BufferManager → Result BufferError BufferManager
unfolding edit_buffer insert_after
insert_buffer name after content = edit_buffer name (insert_after after content)

-- `count == 0` becomes -1, which `strings.Replace` takes for all occurrences.
abbrev pub replace_count : ℤ → ℤ
replace_count (pos zero) = negsuc 0
replace_count n = n

-- `replace` is `strings.Replace`.
unfoldable pub replace_buffer :
    (Str → Str → Str → ℤ → Str)
    → Str
    → Str
    → Str
    → ℤ
    → BufferManager
    → Result BufferError BufferManager
unfolding edit_buffer
replace_buffer replace name before after count =
    edit_buffer name (λ current. ok (replace current before after (replace_count count)))

-- The range [start, end) if it lies within `n` bytes.
unfoldable pub range_within : ℤ → ℤ → ℕ → Option (ℕ × ℕ)
range_within (pos s) (pos e) n = if leb e n && leb s e then some (s, e) else none
range_within _ _ n = none

unfoldable pub delete_range : ℤ → ℤ → Str → Result BufferError Str
unfolding range_within
delete_range start end current = elim (range_within start end (length current)) [
  | none ↦ err out_of_bounds
  | some (s, e) ↦ ok (take s current ++ drop e current)
]

unfoldable pub delete_buffer : Str → ℤ → ℤ → BufferManager → Result BufferError BufferManager
unfolding edit_buffer delete_range
delete_buffer name start end = edit_buffer name (delete_range start end)

abbrev pub or_else : Option ℤ → ℤ → ℤ
or_else none d = d
or_else (some n) d = n

unfoldable pub read_range : Option ℤ → Option ℤ → Str → Result BufferError Str
unfolding range_within
read_range start end content =
    elim (range_within (or_else start (pos 0)) (or_else end (pos (length content)))
      (length content)) [ none ↦ err out_of_bounds | some (s, e) ↦ ok (drop s (take e content)) ]

unfoldable pub get_buffer : Str → BufferManager → Result BufferError Buffer
unfolding find_buffer
get_buffer name bm = elim (find_buffer name bm) [ none ↦ err not_found | some b ↦ ok b ]

unfoldable pub read_buffer : Str → Option ℤ → Option ℤ → BufferManager → Result BufferError Str
unfolding get_buffer read_range
read_buffer name start end bm = get_buffer name bm >>= λ b. read_range start end b.content

unfoldable pub buffer_length : Str → BufferManager → Result BufferError ℕ
unfolding get_buffer
buffer_length name bm = get_buffer name bm >>= λ b. ok (length b.content)

unfoldable pub finalize_buffer : Str → Str → BufferManager → Result BufferError BufferManager
unfolding get_buffer put_buffer
finalize_buffer name output_port bm = get_buffer name bm >>= λ b.
    if is_open b
    then ok (put_buffer (record b { finalized_to = output_port }) bm)
    else err already_finalized

-- GetFinalizedBuffers on the buffers in the order in which the map is visited.
unfoldable pub get_finalized_buffers : BufferManager → (Str → Option Str) → Str → Option Str
get_finalized_buffers [] result = result
get_finalized_buffers (b ∷ bs) result =
    get_finalized_buffers bs
      (if is_open b then result else update result b.finalized_to (some b.content))
