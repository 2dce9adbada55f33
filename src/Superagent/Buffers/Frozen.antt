-- ===== src/Superagent/Buffers/Frozen.antt =====
-- A finalized buffer is immutable, and no name is given to two buffers.
use brockleyai.Prelude.{
  Str, ℤ, ◌++◌, str_eq, str_eq_iff, eq_of_str_eq, ◌≡◌, refl, sym, ap, ◌∙◌, true, false, none, some,
  List, [], ◌∷◌, map, Result, ok, err, ◌>>=◌, count, IsDistinct, if◌then◌else◌, arith, Bool-cases,
  Option-cases, inl, inr,
}
use brockleyai.Superagent.Buffers.{
  Buffer, BufferError, BufferManager, find_buffer, put_buffer, create_buffer, get_writable,
  edit_buffer, get_buffer, finalize_buffer, is_open, append_buffer, prepend_buffer, insert_buffer,
  insert_after, replace_buffer, replace_count, delete_buffer, delete_range,
}

abbrev pub names : BufferManager → List Str
names bm = map (λ (b : Buffer). b.name) bm

-- From `bm` to `bm'` no finalized buffer changes or disappears, and names stay distinct.
pub record Preserves (bm bm' : BufferManager) : Type 0 where
  pub frozen :
      (name : Str) (b : Buffer)
      → find_buffer name bm ≡ some b
      → is_open b ≡ false
      → find_buffer name bm' ≡ some b
  pub distinct : IsDistinct (names bm) → IsDistinct (names bm')

abbrev pub OnOk {ℓ κ μ} : {E : Type ℓ} {A : Type κ} → (A → Type μ) → Result E A → Type μ
OnOk P (ok a) = P a
OnOk P (err e) = Unit

pub find_buffer-put_buffer :
    (b : Buffer) (bm : BufferManager) (name : Str)
    → find_buffer name (put_buffer b bm) ≡ (
        if str_eq b.name name
        then elim (find_buffer name bm) [ none ↦ none | some _ ↦ some b ]
        else find_buffer name bm)
unfolding find_buffer put_buffer
find_buffer-put_buffer b [] name = ground arith
find_buffer-put_buffer b (x ∷ bm) name = ground (
  arith,
  find_buffer-put_buffer b bm name,
  str_eq_iff x.name b.name,
  str_eq_iff x.name name,
  str_eq_iff b.name name,
)

names-put_buffer : (b : Buffer) (bm : BufferManager) → names (put_buffer b bm) ≡ names bm
unfolding put_buffer
names-put_buffer b [] = refl
names-put_buffer b (x ∷ bm) = ground (arith, names-put_buffer b bm, str_eq_iff x.name b.name)

pub name-find_buffer :
    (name : Str) (bm : BufferManager) (b : Buffer) → find_buffer name bm ≡ some b → b.name ≡ name
unfolding find_buffer
name-find_buffer name [] b h = cc
name-find_buffer name (x ∷ bm) b h =
    ground (arith, name-find_buffer name bm b, str_eq_iff x.name name)

-- Overwriting a buffer that is not finalized.
put_buffer-Preserves :
    (old new : Buffer) (bm : BufferManager)
    → find_buffer new.name bm ≡ some old
    → is_open old ≡ true
    → Preserves bm (put_buffer new bm)
put_buffer-Preserves old new bm found was_open = record {
  frozen = λ name b h closed. elim (Bool-cases (str_eq new.name name)) [
    | inl same ↦
        let e : new.name ≡ name = eq_of_str_eq new.name name same in
        let both : some b ≡ some old = sym h ∙ (rw e at found) in
        let one : b ≡ old = cc in absurd (cc (closed, was_open, one))
    | inr other ↦ find_buffer-put_buffer new bm name ∙ rw other h
  ];
  distinct = λ d. rw (names-put_buffer new bm) d;
}

count-fresh :
    (name : Str) (bm : BufferManager) → find_buffer name bm ≡ none → count name (names bm) ≡ 0
unfolding find_buffer
count-fresh name [] h = refl
count-fresh name (x ∷ bm) h =
    ground (arith, count-fresh name bm, str_eq_iff x.name name, str_eq_iff name x.name)

pub create_buffer-Preserves :
    (name : Str) (bm : BufferManager) → OnOk (Preserves bm) (create_buffer name bm)
unfolding create_buffer
create_buffer-Preserves name bm = elim (Option-cases (find_buffer name bm)) [
  | inr (b, taken) ↦ rw (taken, create_buffer) tt
  | inl fresh ↦
      rw (fresh, create_buffer)
        (record {
          frozen = λ k b h closed. elim (Bool-cases (str_eq name k)) [
            | inl same ↦
                absurd (cc (h, ap (λ n. find_buffer n bm) (eq_of_str_eq name k same), fresh))
            | inr other ↦ rw other h
          ];
          distinct = λ d a. ground (arith, d a, count-fresh name bm fresh, str_eq_iff a name);
        })
]

-- Any edit of the content of a writable buffer.
pub edit_buffer-Preserves :
    (name : Str) (f : Str → Result BufferError Str) (bm : BufferManager)
    → OnOk (Preserves bm) (edit_buffer name f bm)
unfolding edit_buffer get_writable
edit_buffer-Preserves name f bm = elim (Option-cases (find_buffer name bm)) [
  | inl absent ↦ rw (absent, edit_buffer, get_writable) tt
  | inr (b, found) ↦ elim (Bool-cases (is_open b)) [
    | inr closed ↦ rw (found, closed, edit_buffer, get_writable) tt
    | inl writable ↦
        rw (found, writable, edit_buffer, get_writable) (edited b found writable (f b.content))
  ]
]
  where
    edited :
        (b : Buffer)
        → find_buffer name bm ≡ some b
        → is_open b ≡ true
        → (r : Result BufferError Str)
        → OnOk (Preserves bm) (r >>= λ content. ok (put_buffer (record b { content = content }) bm))
    edited b found writable (err e) = tt
    edited b found writable (ok content) =
        put_buffer-Preserves b (record b { content = content }) bm
          (ap (λ n. find_buffer n bm) (name-find_buffer name bm b found) ∙ found) writable

pub finalize_buffer-Preserves :
    (name output_port : Str) (bm : BufferManager)
    → OnOk (Preserves bm) (finalize_buffer name output_port bm)
unfolding finalize_buffer get_buffer
finalize_buffer-Preserves name output_port bm = elim (Option-cases (find_buffer name bm)) [
  | inl absent ↦ rw (absent, finalize_buffer, get_buffer) tt
  | inr (b, found) ↦ elim (Bool-cases (is_open b)) [
    | inr closed ↦ rw (found, closed, finalize_buffer, get_buffer) tt
    | inl writable ↦
        rw (found, writable, finalize_buffer, get_buffer)
          (put_buffer-Preserves b (record b { finalized_to = output_port }) bm
            (ap (λ n. find_buffer n bm) (name-find_buffer name bm b found) ∙ found) writable)
  ]
]

-- The edits.
module _ (name : Str) (bm : BufferManager) where
  pub append_buffer-Preserves :
      (content : Str) → OnOk (Preserves bm) (append_buffer name content bm)
  unfolding append_buffer
  append_buffer-Preserves content =
      edit_buffer-Preserves name (λ current. ok (current ++ content)) bm

  pub prepend_buffer-Preserves :
      (content : Str) → OnOk (Preserves bm) (prepend_buffer name content bm)
  unfolding prepend_buffer
  prepend_buffer-Preserves content =
      edit_buffer-Preserves name (λ current. ok (content ++ current)) bm

  pub insert_buffer-Preserves :
      (after content : Str) → OnOk (Preserves bm) (insert_buffer name after content bm)
  unfolding insert_buffer
  insert_buffer-Preserves after content = edit_buffer-Preserves name (insert_after after content) bm

  pub replace_buffer-Preserves :
      (replace : Str → Str → Str → ℤ → Str) (before after : Str) (count : ℤ)
      → OnOk (Preserves bm) (replace_buffer replace name before after count bm)
  unfolding replace_buffer
  replace_buffer-Preserves replace before after count =
      edit_buffer-Preserves name
        (λ current. ok (replace current before after (replace_count count))) bm

  pub delete_buffer-Preserves :
      (start end : ℤ) → OnOk (Preserves bm) (delete_buffer name start end bm)
  unfolding delete_buffer
  delete_buffer-Preserves start end = edit_buffer-Preserves name (delete_range start end) bm
