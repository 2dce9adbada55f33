-- ===== src/Superagent/Buffers/Refinement.antt =====
-- The buffers as a map from names: what each operation does to it, said without the code that does it.
use brockleyai.Prelude.{
  Str, str_eq, ◌≡◌, ◌≢◌, ◌⊎◌, Option, none, some, [], Result, ok, err, if◌then◌else◌, ℤ,
}
use brockleyai.Superagent.Buffers.{
  Buffer, BufferError, already_exists, not_found, is_finalized, already_finalized, BufferManager,
  find_buffer, create_buffer, append_buffer, prepend_buffer, insert_buffer, replace_buffer,
  delete_buffer, finalize_buffer,
}
use brockleyai.Superagent.Buffers.Contents.{EditOp, append, prepend, insert, replace, delete, Edits}

abbrev pub View : Type 0
View = Str → Option Buffer

pub data BufferOp : Type 0 where
  create : BufferOp
  edit : EditOp → BufferOp
  finalize : Str → BufferOp

module _ (replace_text : Str → Str → Str → ℤ → Str) where
  abbrev pub run_edit : EditOp → Str → BufferManager → Result BufferError BufferManager
  run_edit (append content) name = append_buffer name content
  run_edit (prepend content) name = prepend_buffer name content
  run_edit (insert marker content) name = insert_buffer name marker content
  run_edit (replace old new count) name = replace_buffer replace_text name old new count
  run_edit (delete start end) name = delete_buffer name start end

  -- The operation on the buffer of a name.
  abbrev pub run_op : BufferOp → Str → BufferManager → Result BufferError BufferManager
  run_op create name = create_buffer name
  run_op (edit op) name = run_edit op name
  run_op (finalize port) name = finalize_buffer name port

  -- What becomes of the buffer of the name, if there is one: a new one is empty, an edit needs that it has no
  -- port, and keeps its name, and finalizing gives it its port.
  abbrev pub Next : BufferOp → Str → Option Buffer → Result BufferError Buffer → Type 0
  Next create name none r = r ≡ ok (record { name = name; content = []; finalized_to = [] })
  Next create name (some b) r = r ≡ err already_exists
  Next (edit op) name none r = r ≡ err not_found
  Next (edit op) name (some b) (ok b') =
      (b.finalized_to ≡ [])
      × (b'.finalized_to ≡ [])
      × (b'.name ≡ name)
      × Edits replace_text op b.content (ok b'.content)
  Next (edit op) name (some b) (err e) =
      ((b.finalized_to ≢ []) × (e ≡ is_finalized))
      ⊎ ((b.finalized_to ≡ []) × Edits replace_text op b.content (err e))
  Next (finalize port) name none r = r ≡ err not_found
  Next (finalize port) name (some b) (ok b') =
      (b.finalized_to ≡ []) × (b'.finalized_to ≡ port) × (b'.name ≡ name) × (b'.content ≡ b.content)
  Next (finalize port) name (some b) (err e) = (b.finalized_to ≢ []) × (e ≡ already_finalized)

  abbrev pub put_at : Str → Buffer → View → View
  put_at name b v k = if str_eq name k then some b else v k

  -- The list that results stands for the map with the next buffer under the name, or the error is right.
  abbrev pub Performs :
      BufferOp → Str → Option Buffer → View → Result BufferError BufferManager → Type 0
  Performs op name found v (ok bm) =
      (b : Buffer) × Next op name found (ok b) × ((k : Str) → find_buffer k bm ≡ put_at name b v k)
  Performs op name found v (err e) = Next op name found (err e)
