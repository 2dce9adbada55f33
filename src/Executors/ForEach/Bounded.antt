-- ===== src/Executors/ForEach/Bounded.antt =====
-- No more goroutines are in flight than the concurrency allows.
use brockleyai.Prelude.{
  ℕ, zero, suc, ◌+◌, ◌≤◌, ◌<◌, ◌==◌, ◌≡◌, refl, if◌then◌else◌, arith, Bool-cases, inl, inr, ap, ℤ,
  pos, negsuc, ok, err, Result, Str,
}
use brockleyai.Prelude.Tests.{==_iff}
use brockleyai.Value.{Entries}
use brockleyai.Executors.ForEach.{
  Phase, unstarted, waiting, holding, executing, over, Loop, ForEach, is_in_flight, in_flight, Step,
  spawn, acquire, give_up, begin, complete, finish, Reach, begun, after, count_items, item_of,
  HasRoom,
}

abbrev pub weight : Phase → ℕ
weight p = if is_in_flight p then 1 else 0

in_flight_fresh :
    (phase : ℕ → Phase) (i k : ℕ) (p : Phase)
    → k ≤ i
    → in_flight (λ j. if j == i then p else phase j) k ≡ in_flight phase k
unfolding in_flight
in_flight_fresh phase i zero p h = refl
in_flight_fresh phase i (suc k) p h = ground (arith, in_flight_fresh phase i k p, h)

in_flight_set :
    (phase : ℕ → Phase) (i k : ℕ) (p : Phase)
    → i < k
    → in_flight (λ j. if j == i then p else phase j) k + weight (phase i)
      ≡ in_flight phase k + weight p
unfolding in_flight
in_flight_set phase i zero p h = absurd (omega (arith, h))
in_flight_set phase i (suc k) p h = elim (Bool-cases (k == i)) [
  | inl last ↦
      let e : k ≡ i = (==_iff k i).0 last in
      rw last (rw e (ground (arith, in_flight_fresh phase i i p (omega arith))))
  | inr other ↦
      let below : i < k = ground (arith, h, other) in
      rw other (ground (arith, in_flight_set phase i k p below))
]

in_flight_unstarted : (k : ℕ) → in_flight (λ _. unstarted) k ≡ 0
unfolding in_flight
in_flight_unstarted zero = refl
in_flight_unstarted (suc k) = in_flight_unstarted k

abbrev pub IsWithin : ℤ → ℕ → Type 0
IsWithin (pos zero) k = Unit
IsWithin (pos (suc c)) k = k ≤ suc c
IsWithin (negsuc n) k = Unit

module _ {F : Type 0} (each : ForEach F) where
  IsWithin-mono : (c : ℤ) (k l : ℕ) → l ≤ k → IsWithin c k → IsWithin c l
  IsWithin-mono (pos zero) k l h w = tt
  IsWithin-mono (pos (suc c)) k l h w = omega (arith, h, w)
  IsWithin-mono (negsuc n) k l h w = tt

  IsWithin-room : (c : ℤ) (k l : ℕ) → l ≡ suc k → HasRoom each c k → IsWithin c l
  IsWithin-room (pos zero) k l h w = tt
  IsWithin-room (pos (suc c)) k l h w = omega (arith, h, w)
  IsWithin-room (negsuc n) k l h w = tt

  -- A step that puts a goroutine into a phase of no more weight.
  lighter :
      (phase : ℕ → Phase) (i : ℕ) (old p : Phase)
      → i < count_items each
      → phase i ≡ old
      → weight p ≤ weight old
      → IsWithin each.concurrency (in_flight phase (count_items each))
      → IsWithin each.concurrency
          (in_flight (λ j. if j == i then p else phase j) (count_items each))
  lighter phase i old p h e w k =
      let same : weight (phase i) ≡ weight old = ap weight e in
      IsWithin-mono each.concurrency (in_flight phase (count_items each)) _
        (omega (arith, in_flight_set phase i (count_items each) p h, same, w)) k

  abbrev pub Bounded : Loop F → Type 0
  Bounded s = IsWithin each.concurrency (in_flight s.phase (count_items each))

  finish-Bounded :
      (i : ℕ) (r : Result Str (Entries F)) (s : Loop F)
      → i < count_items each
      → s.phase i ≡ executing
      → Bounded s
      → Bounded (finish each i r s)
  unfolding finish
  finish-Bounded i (ok output) s h w b = lighter s.phase i executing over h w (omega arith) b
  finish-Bounded i (err e) s h w b = lighter s.phase i executing over h w (omega arith) b

  Step-Bounded : {s t : Loop F} → Step each s t → Bounded s → Bounded t
  Step-Bounded (spawn s h live) b =
      lighter s.phase s.next (s.phase s.next) waiting h refl (omega arith) b
  Step-Bounded (acquire s i h w room) b =
      let same : weight (s.phase i) ≡ 0 = ap weight w in
      IsWithin-room each.concurrency (in_flight s.phase (count_items each)) _
        (omega (arith, in_flight_set s.phase i (count_items each) holding h, same)) room
  Step-Bounded (give_up s i h w stop) b = lighter s.phase i holding over h w (omega arith) b
  Step-Bounded (begin s i h w live) b = lighter s.phase i holding executing h w (omega arith) b
  Step-Bounded (complete s i h w) b = finish-Bounded i (each.run i (item_of each i)) s h w b

  Reach-Bounded : {s : Loop F} → Reach each s → Bounded s
  Reach-Bounded begun = none_in_flight each.concurrency (count_items each)
    where
      none_in_flight : (c : ℤ) (k : ℕ) → IsWithin c (in_flight (λ _. unstarted) k)
      none_in_flight (pos zero) k = tt
      none_in_flight (pos (suc c)) k = omega (arith, in_flight_unstarted k)
      none_in_flight (negsuc n) k = tt
  Reach-Bounded (after r step) = Step-Bounded step (Reach-Bounded r)

-- Whatever the order of the steps, at most as many goroutines are behind the semaphore as the concurrency
-- says, if it is above 0.
pub in_flight-le-concurrency :
    {F : Type 0} (each : ForEach F) (c : ℕ) (s : Loop F)
    → each.concurrency ≡ pos (suc c)
    → Reach each s
    → in_flight s.phase (count_items each) ≤ suc c
in_flight-le-concurrency each c s e r =
    let b : IsWithin each.concurrency (in_flight s.phase (count_items each)) =
      Reach-Bounded each r in
    rw e at b
