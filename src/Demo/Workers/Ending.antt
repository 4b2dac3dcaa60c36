-- ===== src/Demo/Workers/Ending.antt =====
-- The destructor of QueuingHandler: after the abort the background threads end.
use content_analysis_sdk.Prelude.{
  ℕ, zero, suc, ◌+◌, ◌*◌, ◌≤◌, Bool, true, false, some, List, [], ◌∷◌, ◌≡◌, refl, ◌⊎◌, inl, inr,
  arith, length, get_elem?, set, if◌then◌else◌,
}
use content_analysis_sdk.Demo.RequestQueue.{RequestQueue, event, no_event, push, pop, abort}
use content_analysis_sdk.Demo.Workers.{
  Worker, popping, finished, analysing, Pool, Step, requested, takes, ends, analyses, destroyed,
}

module _ {ℓ} {A : Type ℓ} where
  -- The steps that a thread can still take after the abort.
  abbrev pub left : Worker A → ℕ
  left popping = 1
  left finished = 0
  left (analysing e) = 2

  abbrev pub remaining : List (Worker A) → ℕ
  remaining [] = 0
  remaining (w ∷ ws) = left w + remaining ws

  abbrev pub all_finished : List (Worker A) → Bool
  all_finished [] = true
  all_finished (finished ∷ ws) = all_finished ws
  all_finished (w ∷ ws) = false

  remaining-set :
      (ws : List (Worker A)) (i : ℕ) (w w' : Worker A)
      → get_elem? ws i ≡ some w
      → remaining (set ws i w') + left w ≡ remaining ws + left w'
  remaining-set [] i w w' h = cc
  remaining-set (v ∷ ws) zero w w' h = ground arith
  remaining-set (v ∷ ws) (suc i) w w' h = omega (arith, remaining-set ws i w w' h)

  remaining-le : (ws : List (Worker A)) → remaining ws ≤ 2 * length ws
  remaining-le [] = omega arith
  remaining-le (popping ∷ ws) = omega (arith, remaining-le ws)
  remaining-le (finished ∷ ws) = omega (arith, remaining-le ws)
  remaining-le (analysing e ∷ ws) = omega (arith, remaining-le ws)

  -- Whether a step is one of a background thread.
  unfoldable pub is_turn : {s t : Pool A} → Step s t → Bool
  is_turn (requested e) = false
  is_turn (takes i e q at taken) = true
  is_turn (ends i q at taken) = true
  is_turn (analyses i e at) = true
  is_turn destroyed = false

  -- From a state on, steps of which `k` are the background threads'.
  pub data Turns (s : Pool A) : ℕ → Pool A → Type ℓ where
    here : Turns s 0 s
    turn :
        {k : ℕ} {t u : Pool A}
        → Turns s k t
        → (st : Step t u) → is_turn st ≡ true
        → Turns s (suc k) u
    other :
        {k : ℕ} {t u : Pool A} → Turns s k t → (st : Step t u) → is_turn st ≡ false → Turns s k u

  still_aborted :
      (q q' : RequestQueue A) → q.aborted ≡ true → pop q ≡ (no_event, q') → q'.aborted ≡ true
  unfolding pop
  still_aborted q q' h e = ground arith

  never_event : (q q' : RequestQueue A) (e : A) → q.aborted ≡ true → pop q ≡ (event e, q') → ⊥
  unfolding pop
  never_event q q' e h taken = ground arith

  Step-remaining :
      {s t : Pool A} (st : Step s t)
      → s.queue.aborted ≡ true
      → (t.queue.aborted ≡ true)
        × (remaining t.workers + (if is_turn st then 1 else 0) ≤ remaining s.workers)
  unfolding push abort is_turn
  Step-remaining (requested e) h = (h, omega arith)
  Step-remaining {s} (takes i e q at taken) h = absurd (never_event s.queue q e h taken)
  Step-remaining {s} (ends i q at taken) h = (
    still_aborted s.queue q h taken,
    omega (arith, remaining-set s.workers i popping finished at),
  )
  Step-remaining {s} (analyses i e at) h =
      (h, omega (arith, remaining-set s.workers i (analysing e) popping at))
  Step-remaining destroyed h = (refl, omega arith)

  Turns-remaining :
      {s t : Pool A} {k : ℕ}
      → s.queue.aborted ≡ true
      → Turns s k t
      → (t.queue.aborted ≡ true) × (remaining t.workers + k ≤ remaining s.workers)
  Turns-remaining h here = (h, omega arith)
  Turns-remaining h (turn r st e) =
      let before = Turns-remaining h r in
      let step = Step-remaining st before.0 in (step.0, ground (arith, before.1, step.1, e))
  Turns-remaining h (other r st e) =
      let before = Turns-remaining h r in
      let step = Step-remaining st before.0 in (step.0, ground (arith, before.1, step.1, e))

  -- A thread that is not finished.
  unfinished :
      (ws : List (Worker A))
      → (all_finished ws ≡ true)
        ⊎ ((i : ℕ) × ((get_elem? ws i ≡ some popping)
              ⊎ ((e : A) × (get_elem? ws i ≡ some (analysing e)))))
  unfinished [] = inl refl
  unfinished (popping ∷ ws) = inr (0, inl refl)
  unfinished (analysing e ∷ ws) = inr (0, inr (e, refl))
  unfinished (finished ∷ ws) = elim (unfinished ws) [
    | inl all ↦ inl all
    | inr (i, found) ↦ inr (suc i, found)
  ]

  aborted_pop : (q : RequestQueue A) → q.aborted ≡ true → pop q ≡ (no_event, q)
  unfolding pop
  aborted_pop q h = ground arith

  next_turn :
      (s : Pool A)
      → s.queue.aborted ≡ true
      → (all_finished s.workers ≡ true) ⊎ ((t : Pool A) × (st : Step s t) × (is_turn st ≡ true))
  unfolding is_turn
  next_turn s h = elim (unfinished s.workers) [
    | inl all ↦ inl all
    | inr (i, inl at) ↦ inr (_, ends i s.queue at (aborted_pop s.queue h), refl)
    | inr (i, inr (e, at)) ↦ inr (_, analyses i e at, refl)
  ]

  -- After the abort the background threads together take at most twice as many steps as there are
  -- threads, whatever the other threads do; and as long as one of them is not finished, one can take a
  -- step, which needs no further event.
  pub Turns-finish :
      {s t : Pool A} {k : ℕ}
      → s.queue.aborted ≡ true
      → Turns s k t
      → (k ≤ 2 * length s.workers)
        × ((all_finished t.workers ≡ true) ⊎ ((u : Pool A) × (st : Step t u) × (is_turn st ≡ true)))
  Turns-finish {s} {t} h r =
      let later = Turns-remaining h r in
      (omega (arith, later.1, remaining-le s.workers), next_turn t later.0)
