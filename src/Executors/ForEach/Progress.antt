-- ===== src/Executors/ForEach/Progress.antt =====
-- Every step of foreach brings it closer to its end, and until then some step is possible.
use brockleyai.Prelude.{
  ℕ, zero, suc, ◌+◌, ◌≤◌, ◌<◌, ◌==◌, ◌≡◌, ◌⊎◌, inl, inr, refl, ap, ◌∙◌, Bool, true, false,
  if◌then◌else◌, arith, ltb, Bool-cases, ℤ, pos, negsuc, Result, Str, ok, err,
}
use brockleyai.Prelude.Tests.{==_iff}
use brockleyai.Value.{Entries}
use brockleyai.Executors.ForEach.{
  Phase, unstarted, waiting, holding, executing, over, Loop, ForEach, set_phase, is_in_flight,
  in_flight, is_aborted, HasRoom, Step, spawn, acquire, give_up, begin, complete, finish, Reach,
  count_items, item_of,
}
use brockleyai.Executors.ForEach.Results.{IsSettled, Reach-IsSettled, is_unstarted}

-- How many steps a goroutine has before it.
abbrev pub rank : Phase → ℕ
rank unstarted = 4
rank waiting = 3
rank holding = 2
rank executing = 1
rank over = 0

unfoldable pub remaining : (ℕ → Phase) → ℕ → ℕ
remaining phase zero = 0
remaining phase (suc k) = rank (phase k) + remaining phase k

remaining_fresh :
    (phase : ℕ → Phase) (i k : ℕ) (p : Phase)
    → k ≤ i
    → remaining (λ j. if j == i then p else phase j) k ≡ remaining phase k
unfolding remaining
remaining_fresh phase i zero p h = refl
remaining_fresh phase i (suc k) p h =
    let other : (k == i) ≡ false = ground (arith, h) in
    rw other (omega (arith, remaining_fresh phase i k p (omega (arith, h))))

remaining_set :
    (phase : ℕ → Phase) (i k : ℕ) (p : Phase)
    → i < k
    → remaining (λ j. if j == i then p else phase j) k + rank (phase i) ≡ remaining phase k + rank p
unfolding remaining
remaining_set phase i zero p h = absurd (omega (arith, h))
remaining_set phase i (suc k) p h = elim (Bool-cases (k == i)) [
  | inl last ↦
      let e : k ≡ i = (==_iff k i).0 last in
      rw last (rw e (omega (arith, remaining_fresh phase i i p (omega arith))))
  | inr other ↦
      let below : i < k = ground (arith, h, other) in
      rw other (omega (arith, remaining_set phase i k p below))
]

-- A search among the first `k` goroutines.
find_phase :
    (test : Phase → Bool) (phase : ℕ → Phase) (k : ℕ)
    → ((i : ℕ) × (i < k) × (test (phase i) ≡ true)) ⊎ ((i : ℕ) → i < k → test (phase i) ≡ false)
find_phase test phase zero = inr (λ i h. absurd (omega (arith, h)))
find_phase test phase (suc k) = elim (Bool-cases (test (phase k))) [
  | inl found ↦ inl (k, omega arith, found)
  | inr missed ↦ elim (find_phase test phase k) [
    | inl (i, below, found) ↦ inl (i, omega (arith, below), found)
    | inr none_below ↦ inr (λ i h. elim (Bool-cases (i == k)) [
      | inl same ↦ let e : i ≡ k = (==_iff i k).0 same in ap (λ m. test (phase m)) e ∙ missed
      | inr other ↦ none_below i (ground (arith, h, other))
    ])
  ]
]

abbrev is_executing : Phase → Bool
is_executing executing = true
is_executing _ = false

abbrev is_holding : Phase → Bool
is_holding holding = true
is_holding _ = false

abbrev is_waiting : Phase → Bool
is_waiting waiting = true
is_waiting _ = false

executing_eq : (p : Phase) → is_executing p ≡ true → p ≡ executing
executing_eq executing h = refl
executing_eq unstarted h = absurd (cc h)
executing_eq waiting h = absurd (cc h)
executing_eq holding h = absurd (cc h)
executing_eq over h = absurd (cc h)

holding_eq : (p : Phase) → is_holding p ≡ true → p ≡ holding
holding_eq holding h = refl
holding_eq unstarted h = absurd (cc h)
holding_eq waiting h = absurd (cc h)
holding_eq executing h = absurd (cc h)
holding_eq over h = absurd (cc h)

waiting_eq : (p : Phase) → is_waiting p ≡ true → p ≡ waiting
waiting_eq waiting h = refl
waiting_eq unstarted h = absurd (cc h)
waiting_eq holding h = absurd (cc h)
waiting_eq executing h = absurd (cc h)
waiting_eq over h = absurd (cc h)

over_eq :
    (p : Phase)
    → is_executing p ≡ false
    → is_holding p ≡ false
    → is_waiting p ≡ false
    → is_unstarted p ≡ false
    → p ≡ over
over_eq over a b c d = refl
over_eq unstarted a b c d = absurd (cc d)
over_eq waiting a b c d = absurd (cc c)
over_eq holding a b c d = absurd (cc b)
over_eq executing a b c d = absurd (cc a)

in_flight_none :
    (phase : ℕ → Phase) (k : ℕ)
    → ((i : ℕ) → i < k → is_executing (phase i) ≡ false)
    → ((i : ℕ) → i < k → is_holding (phase i) ≡ false)
    → in_flight phase k ≡ 0
unfolding in_flight
in_flight_none phase zero a b = refl
in_flight_none phase (suc k) a b =
    let light : is_in_flight (phase k) ≡ false =
      idle (phase k) (a k (omega arith)) (b k (omega arith)) in
    rw light
      (in_flight_none phase k (λ i h. a i (omega (arith, h))) (λ i h. b i (omega (arith, h))))
  where
    idle : (p : Phase) → is_executing p ≡ false → is_holding p ≡ false → is_in_flight p ≡ false
    idle executing a b = absurd (cc a)
    idle holding a b = absurd (cc b)
    idle unstarted a b = refl
    idle waiting a b = refl
    idle over a b = refl

module _ {F : Type 0} (each : ForEach F) where
  abbrev pub left : Loop F → ℕ
  left s = remaining s.phase (count_items each)

  -- A goroutine that changes its phase to one of smaller rank.
  nearer :
      (phase : ℕ → Phase) (i : ℕ) (old p : Phase)
      → i < count_items each
      → phase i ≡ old
      → rank p < rank old
      → remaining (λ j. if j == i then p else phase j) (count_items each)
        < remaining phase (count_items each)
  nearer phase i old p h e w =
      let same : rank (phase i) ≡ rank old = ap rank e in
      omega (arith, remaining_set phase i (count_items each) p h, same, w)

  finish-nearer :
      (i : ℕ) (r : Result Str (Entries F)) (s : Loop F)
      → i < count_items each
      → s.phase i ≡ executing
      → left (finish each i r s) < left s
  unfolding finish
  finish-nearer i (ok output) s h w = nearer s.phase i executing over h w (omega arith)
  finish-nearer i (err e) s h w = nearer s.phase i executing over h w (omega arith)

  Step-nearer : {s t : Loop F} → Step each s t → IsSettled each s → left t < left s
  Step-nearer (spawn s h live) k =
      nearer s.phase s.next unstarted waiting h (k.fresh s.next (omega arith)) (omega arith)
  Step-nearer (acquire s i h w room) k = nearer s.phase i waiting holding h w (omega arith)
  Step-nearer (give_up s i h w stop) k = nearer s.phase i holding over h w (omega arith)
  Step-nearer (begin s i h w live) k = nearer s.phase i holding executing h w (omega arith)
  Step-nearer (complete s i h w) k = finish-nearer i (each.run i (item_of each i)) s h w

  HasRoom-none : (c : ℤ) (k : ℕ) → k ≡ 0 → HasRoom each c k
  HasRoom-none (pos zero) k h = tt
  HasRoom-none (pos (suc c)) k h = omega (arith, h)
  HasRoom-none (negsuc n) k h = tt

  abbrev pub AllOver : Loop F → Type 0
  AllOver s = (i : ℕ) → i < count_items each → s.phase i ≡ over

  abbrev pub CanStep : Loop F → Type 0
  CanStep s = (t : Loop F) × Step each s t

  -- With no goroutine behind the semaphore.
  when_idle :
      (s : Loop F)
      → IsSettled each s
      → is_aborted each s ≡ false
      → ((i : ℕ) → i < count_items each → is_executing (s.phase i) ≡ false)
      → ((i : ℕ) → i < count_items each → is_holding (s.phase i) ≡ false)
      → AllOver s ⊎ CanStep s
  when_idle s k live a b = elim (find_phase is_waiting s.phase (count_items each)) [
    | inl (i, h, found) ↦ inr (
      set_phase i holding s,
      acquire s i h (waiting_eq (s.phase i) found) (
          HasRoom-none each.concurrency (in_flight s.phase (count_items each))
            (in_flight_none s.phase (count_items each) a b)),
    )
    | inr c ↦ elim (Bool-cases (ltb s.next (count_items each))) [
      | inl more ↦
          inr
            (set_phase s.next waiting (record s { next = suc s.next }), spawn s (ground arith) live)
      | inr started ↦ inl (λ i h.
          over_eq (s.phase i) (a i h) (b i h) (c i h) (k.started i (ground (arith, h, started))))
    ]
  ]

  progress : (s : Loop F) → IsSettled each s → is_aborted each s ≡ false → AllOver s ⊎ CanStep s
  progress s k live = elim (find_phase is_executing s.phase (count_items each)) [
    | inl (i, h, found) ↦ inr (
      finish each i (each.run i (item_of each i)) s,
      complete s i h (executing_eq (s.phase i) found),
    )
    | inr a ↦ elim (find_phase is_holding s.phase (count_items each)) [
      | inl (i, h, found) ↦
          inr (set_phase i executing s, begin s i h (holding_eq (s.phase i) found) live)
      | inr b ↦ when_idle s k live a b
    ]
  ]

-- If errors do not abort the loop: in every state that steps lead to, each further step leaves fewer steps,
-- and unless all goroutines are over a further step is possible. So foreach ends in every order of steps.
pub Step-ends :
    {F : Type 0} (each : ForEach F) (s : Loop F)
    → each.abort ≡ false
    → Reach each s
    → ((t : Loop F) → Step each s t → left each t < left each s) × (AllOver each s ⊎ CanStep each s)
Step-ends each s continues r =
    let settled = Reach-IsSettled each r in
    let live : is_aborted each s ≡ false = ground (arith, continues) in
    ((λ t step. Step-nearer each step settled), progress each s settled live)
