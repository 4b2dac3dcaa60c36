-- ===== src/Demo/RequestQueue.antt =====
-- demo/request_queue.h: the queue between the agent's thread and the threads that analyse. The
-- lock makes each operation one step; a `pop` that finds nothing waits, and is tried again.
use content_analysis_sdk.Prelude.{
  Bool, true, false, List, [], ◌∷◌, ◌++◌, ◌≡◌, refl, sym, ap, ◌∙◌, append-nil, append_assoc,
}

pub record RequestQueue {ℓ} (A : Type ℓ) : Type ℓ where
  pub events : List A
  pub aborted : Bool

-- What a `pop` does: wait, return nullptr, or return an event.
pub data Popped {ℓ} (A : Type ℓ) : Type ℓ where
  waits no_event : Popped A
  event : A → Popped A

pub data Op {ℓ} (A : Type ℓ) : Type ℓ where
  pushes : A → Op A
  pops aborts : Op A

module _ {ℓ} {A : Type ℓ} where
  unfoldable pub push : A → RequestQueue A → RequestQueue A
  push e q = record q { events = q.events ++ (e ∷ []) }

  pop_front : Bool → List A → Popped A × RequestQueue A
  pop_front true events = (no_event, record { events = events; aborted = true })
  pop_front false [] = (waits, record { events = []; aborted = false })
  pop_front false (e ∷ events) = (event e, record { events = events; aborted = false })

  unfoldable pub pop : RequestQueue A → Popped A × RequestQueue A
  unfolding pop_front
  pop q = pop_front q.aborted q.events

  unfoldable pub abort : RequestQueue A → RequestQueue A
  abort q = record q { aborted = true }

  -- Operations of any threads in the order in which they hold the lock: the events that were
  -- popped, and the queue.
  popped_now : Popped A → List A → List A
  popped_now (event e) rest = e ∷ rest
  popped_now waits rest = rest
  popped_now no_event rest = rest

  unfoldable pub run : RequestQueue A → List (Op A) → List A × RequestQueue A
  unfolding popped_now push pop abort
  run q [] = ([], q)
  run q (pushes e ∷ ops) = run (push e q) ops
  run q (pops ∷ ops) = let (p, q₁) = pop q in let (out, q₂) = run q₁ ops in (popped_now p out, q₂)
  run q (aborts ∷ ops) = run (abort q) ops

  -- The events that the operations push, in order.
  abbrev pub pushed : List (Op A) → List A
  pushed [] = []
  pushed (pushes e ∷ ops) = e ∷ pushed ops
  pushed (pops ∷ ops) = pushed ops
  pushed (aborts ∷ ops) = pushed ops

  pop_front_keeps :
      (aborted : Bool) (events rest : List A)
      → let (p, q) = pop_front aborted events in popped_now p (q.events ++ rest) ≡ events ++ rest
  unfolding pop_front popped_now
  pop_front_keeps true events rest = refl
  pop_front_keeps false [] rest = refl
  pop_front_keeps false (e ∷ events) rest = refl

  popped_now-append :
      (p : Popped A) (out rest : List A) → popped_now p out ++ rest ≡ popped_now p (out ++ rest)
  unfolding popped_now
  popped_now-append (event e) out rest = refl
  popped_now-append waits out rest = refl
  popped_now-append no_event out rest = refl

  -- Whatever threads push, pop and abort, in any order: the events that were popped, in their order,
  -- followed by those that are still queued, are the events queued at first followed by those that
  -- were pushed, in their order.
  pub run-fifo :
      (ops : List (Op A)) (q : RequestQueue A)
      → let (out, q') = run q ops in out ++ q'.events ≡ q.events ++ pushed ops
  unfolding run push abort pop
  run-fifo [] q = sym (append-nil q.events)
  run-fifo (pushes e ∷ ops) q =
      run-fifo ops (push e q) ∙ append_assoc q.events (e ∷ []) (pushed ops)
  run-fifo (pops ∷ ops) q =
      let (p, q₁) = pop q in
      let (out, q₂) = run q₁ ops in
      popped_now-append p out q₂.events
      ∙ (ap (popped_now p) (run-fifo ops q₁) ∙ pop_front_keeps q.aborted q.events (pushed ops))
  run-fifo (aborts ∷ ops) q = run-fifo ops (abort q)

  -- From an abort on, no operation of any thread gets an event, also where events are still queued,
  -- and a pop does not wait.
  pub run-aborted :
      (ops : List (Op A)) (q : RequestQueue A)
      → ((run (abort q) ops).0 ≡ []) × ((pop (run (abort q) ops).1).0 ≡ no_event)
  unfolding run push abort pop pop_front
  run-aborted [] q = (refl, refl)
  run-aborted (pushes e ∷ ops) q = run-aborted ops (push e q)
  run-aborted (pops ∷ ops) q = run-aborted ops q
  run-aborted (aborts ∷ ops) q = run-aborted ops q
