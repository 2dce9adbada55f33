-- ===== src/Superagent/Buffers/Finalized.antt =====
-- GetFinalizedBuffers, whatever the order in which the map of buffers is visited.
use brockleyai.Prelude.{
  Str, str_eq_iff, str_eq_refl, ◌≡◌, refl, false, Option, some, [], ◌∷◌, update, In, here, there,
  if◌then◌else◌, arith,
}
use brockleyai.Superagent.Buffers.{Buffer, BufferManager, is_open, get_finalized_buffers}

-- All buffers finalized to the port have the content.
abbrev Agree : Str → Str → BufferManager → Type 0
Agree port content bm =
    (b : Buffer) → In b bm → is_open b ≡ false → b.finalized_to ≡ port → b.content ≡ content

found_before :
    (bm : BufferManager) (result : Str → Option Str) (port content : Str)
    → Agree port content bm
    → result port ≡ some content
    → get_finalized_buffers bm result port ≡ some content
unfolding get_finalized_buffers
found_before [] result port content same h = h
found_before (b ∷ bm) result port content same h =
    found_before bm (if is_open b then result else update result b.finalized_to (some b.content))
      port content (λ c i. same c (there i))
      (ground
        (arith, h, same b here, str_eq_iff port b.finalized_to, str_eq_iff b.finalized_to port))

-- The content of a finalized buffer is returned at its port, if no buffer of the same port differs.
pub get_finalized_buffers_complete :
    (b : Buffer) (bm : BufferManager) (result : Str → Option Str)
    → In b bm
    → is_open b ≡ false
    → Agree b.finalized_to b.content bm
    → get_finalized_buffers bm result b.finalized_to ≡ some b.content
unfolding get_finalized_buffers
get_finalized_buffers_complete b [] result i closed same = elim i [ ]
get_finalized_buffers_complete b (x ∷ bm) result here closed same =
    found_before bm (if is_open x then result else update result x.finalized_to (some x.content))
      x.finalized_to x.content (λ c i. same c (there i))
      (rw closed (rw (str_eq_refl x.finalized_to) refl))
get_finalized_buffers_complete b (x ∷ bm) result (there i) closed same =
    get_finalized_buffers_complete b bm
      (if is_open x then result else update result x.finalized_to (some x.content)) i closed
      (λ c j. same c (there j))
