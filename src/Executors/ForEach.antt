-- ===== src/Executors/ForEach.antt =====
-- ForEachExecutor of engine/executor/foreach.go: a loop starts a goroutine for each item; a semaphore bounds
-- how many of them run. What one of them does under the lock is a step, and the steps of different items come
-- in any order. The execution of the inner graph is a parameter.
pub mod Results
pub mod Bounded
pub mod Progress
use brockleyai.Prelude.{
  Str, ℕ, zero, suc, ◌+◌, ◌==◌, ◌<◌, ◌≡◌, ◌⊎◌, Bool, true, false, ◌&&◌, Option, none, some, List,
  [], ◌∷◌, ◌++◌, ℤ, pos, negsuc, Result, ok, err, if◌then◌else◌,
}
use brockleyai.Value.{Value, Items, Entries, obj, items_length, no_items, item}
use brockleyai.Expression.Values.{item_at, or_nil}

pub record ItemError (F : Type 0) : Type 0 where
  pub index : ℕ
  pub error : Str
  pub item : Value F

-- Where the goroutine of an item is: not started, before the semaphore, behind it, in the inner graph, or over.
pub data Phase : Type 0 where
  unstarted waiting holding executing over : Phase

pub record Loop (F : Type 0) : Type 0 where
  -- The next item that the loop starts.
  pub next : ℕ
  pub phase : ℕ → Phase
  -- `results` where `succeeded` is true.
  pub results : ℕ → Option (Entries F)
  pub errors : List (ItemError F)
  pub first_abort_err : Option Str

abbrev pub start : {F : Type 0} → Loop F
start = record {
  next = 0;
  phase = λ _. unstarted;
  results = λ _. none;
  errors = [];
  first_abort_err = none;
}

-- What the executor is given. A concurrency of 0 or less is no bound.
pub record ForEach (F : Type 0) : Type 0 where
  pub items : Items F
  pub concurrency : ℤ
  pub abort : Bool
  -- executeInnerGraph for an item and its index.
  pub run : ℕ → Value F → Result Str (Entries F)

abbrev pub set_phase : {F : Type 0} → ℕ → Phase → Loop F → Loop F
set_phase i p s = record s { phase = λ j. if j == i then p else s.phase j }

abbrev pub is_some : {A : Type 0} → Option A → Bool
is_some none = false
is_some (some a) = true

abbrev pub is_in_flight : Phase → Bool
is_in_flight holding = true
is_in_flight executing = true
is_in_flight _ = false

-- How many of the first `k` goroutines hold the semaphore.
unfoldable pub in_flight : (ℕ → Phase) → ℕ → ℕ
in_flight phase zero = 0
in_flight phase (suc k) =
    if is_in_flight (phase k) then suc (in_flight phase k) else in_flight phase k

module _ {F : Type 0} (each : ForEach F) where
  abbrev pub item_of : ℕ → Value F
  item_of i = or_nil (item_at each.items i)

  abbrev pub count_items : ℕ
  count_items = items_length each.items

  abbrev pub is_aborted : Loop F → Bool
  is_aborted s = each.abort && is_some s.first_abort_err

  -- `sem <- struct{}{}` goes through.
  abbrev pub HasRoom : ℤ → ℕ → Type 0
  HasRoom (pos zero) k = Unit
  HasRoom (pos (suc c)) k = k < suc c
  HasRoom (negsuc n) k = Unit

  -- The first error, if the loop aborts on errors.
  abbrev pub note_abort : Str → Option Str → Option Str
  note_abort e none = if each.abort then some e else none
  note_abort e (some d) = some d

  -- The end of the goroutine, by the result of the inner graph.
  unfoldable pub finish : ℕ → Result Str (Entries F) → Loop F → Loop F
  finish i (ok output) s =
      set_phase i over (record s { results = λ j. if j == i then some output else s.results j })
  finish i (err e) s = set_phase i over (record s {
    errors = s.errors ++ record { index = i; error = e; item = item_of i } ∷ [];
    first_abort_err = note_abort e s.first_abort_err;
  })

  pub data Step : Loop F → Loop F → Type 0 where
    -- The loop starts a goroutine, unless an error has stopped it.
    spawn :
        (s : Loop F)
        → s.next < count_items
        → is_aborted s ≡ false
        → Step s (set_phase s.next waiting (record s { next = suc s.next }))
    acquire :
        (s : Loop F) (i : ℕ)
        → i < count_items
        → s.phase i ≡ waiting
        → HasRoom each.concurrency (in_flight s.phase count_items)
        → Step s (set_phase i holding s)
    give_up :
        (s : Loop F) (i : ℕ)
        → i < count_items
        → s.phase i ≡ holding
        → is_aborted s ≡ true
        → Step s (set_phase i over s)
    begin :
        (s : Loop F) (i : ℕ)
        → i < count_items
        → s.phase i ≡ holding
        → is_aborted s ≡ false
        → Step s (set_phase i executing s)
    complete :
        (s : Loop F) (i : ℕ)
        → i < count_items
        → s.phase i ≡ executing
        → Step s (finish i (each.run i (item_of i)) s)

  pub data Reach : Loop F → Type 0 where
    begun : Reach start
    after : {s t : Loop F} → Reach s → Step s t → Reach t

  -- The outputs of the items that succeeded, in the order of the items; `k` items from index `i`.
  unfoldable pub collect : (ℕ → Option (Entries F)) → ℕ → ℕ → Items F
  collect results i zero = no_items
  collect results i (suc k) = elim (results i) [
    | none ↦ collect results (suc i) k
    | some output ↦ item (obj output) (collect results (suc i) k)
  ]

  -- The end of Execute: the first error if the loop aborted, or the outputs and the errors.
  unfoldable pub conclude : Loop F → Result Str (Items F × List (ItemError F))
  unfolding collect
  conclude s =
      let done : Result Str (Items F × List (ItemError F)) =
        ok (collect s.results 0 count_items, s.errors) in
      if each.abort then elim s.first_abort_err [ none ↦ done | some e ↦ err e ] else done
