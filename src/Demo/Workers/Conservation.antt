-- ===== src/Demo/Workers/Conservation.antt =====
-- No event is lost or analysed twice by the background threads.
use mathlib.Core.List.{Perm, perm_middle}
use mathlib.Core.List.Perm
use content_analysis_sdk.Prelude.{
  ℕ, zero, suc, some, List, [], ◌∷◌, ◌++◌, ◌≡◌, refl, sym, ap, ◌∙◌, arith, append_assoc, append-nil,
  get_elem?, set, replicate,
}
use content_analysis_sdk.Demo.RequestQueue.{RequestQueue, event, no_event, push, pop, abort}
use content_analysis_sdk.Demo.Workers.{
  Worker, popping, finished, analysing, Pool, Step, requested, takes, ends, analyses, destroyed,
  Reach, start, later,
}

module _ {ℓ} {A : Type ℓ} where
  -- The events that the threads analyse at the moment.
  abbrev pub in_hand : List (Worker A) → List A
  in_hand [] = []
  in_hand (popping ∷ ws) = in_hand ws
  in_hand (finished ∷ ws) = in_hand ws
  in_hand (analysing e ∷ ws) = e ∷ in_hand ws

  in_hand-idle : (n : ℕ) → in_hand (replicate n popping) ≡ []
  in_hand-idle zero = refl
  in_hand-idle (suc n) = in_hand-idle n

  -- A thread that takes an event, one that is done with its event, and one that ends.
  in_hand-takes :
      (ws : List (Worker A)) (i : ℕ) (e : A)
      → get_elem? ws i ≡ some popping
      → Perm (in_hand (set ws i (analysing e))) (e ∷ in_hand ws)
  in_hand-takes [] i e h = cc
  in_hand-takes (popping ∷ ws) zero e h = Perm.refl (e ∷ in_hand ws)
  in_hand-takes (finished ∷ ws) zero e h = cc
  in_hand-takes (analysing d ∷ ws) zero e h = cc
  in_hand-takes (popping ∷ ws) (suc i) e h = in_hand-takes ws i e h
  in_hand-takes (finished ∷ ws) (suc i) e h = in_hand-takes ws i e h
  in_hand-takes (analysing d ∷ ws) (suc i) e h =
      Perm.trans (Perm.cons d (in_hand-takes ws i e h)) (Perm.swap e d (in_hand ws))

  in_hand-analyses :
      (ws : List (Worker A)) (i : ℕ) (e : A)
      → get_elem? ws i ≡ some (analysing e)
      → Perm (e ∷ in_hand (set ws i popping)) (in_hand ws)
  in_hand-analyses [] i e h = cc
  in_hand-analyses (popping ∷ ws) zero e h = cc
  in_hand-analyses (finished ∷ ws) zero e h = cc
  in_hand-analyses (analysing d ∷ ws) zero e h = Perm.cons' (ground arith) (Perm.refl (in_hand ws))
  in_hand-analyses (popping ∷ ws) (suc i) e h = in_hand-analyses ws i e h
  in_hand-analyses (finished ∷ ws) (suc i) e h = in_hand-analyses ws i e h
  in_hand-analyses (analysing d ∷ ws) (suc i) e h =
      Perm.trans (Perm.swap d e (in_hand (set ws i popping)))
        (Perm.cons d (in_hand-analyses ws i e h))

  in_hand-ends :
      (ws : List (Worker A)) (i : ℕ)
      → get_elem? ws i ≡ some popping
      → in_hand (set ws i finished) ≡ in_hand ws
  in_hand-ends [] i h = refl
  in_hand-ends (popping ∷ ws) zero h = refl
  in_hand-ends (finished ∷ ws) zero h = refl
  in_hand-ends (analysing d ∷ ws) zero h = cc
  in_hand-ends (popping ∷ ws) (suc i) h = in_hand-ends ws i h
  in_hand-ends (finished ∷ ws) (suc i) h = in_hand-ends ws i h
  in_hand-ends (analysing d ∷ ws) (suc i) h = ap (λ l. d ∷ l) (in_hand-ends ws i h)

  -- Where the events are that were queued.
  abbrev pub everywhere : Pool A → List A
  everywhere s = s.analysed ++ (in_hand s.workers ++ s.queue.events)

  popped : (q q' : RequestQueue A) (e : A) → pop q ≡ (event e, q') → q.events ≡ e ∷ q'.events
  unfolding pop
  popped q q' e h = ground arith

  not_popped : (q q' : RequestQueue A) → pop q ≡ (no_event, q') → q' ≡ q
  unfolding pop
  not_popped q q' h = ground arith

  Step-everywhere :
      {s t : Pool A} → Step s t → Perm (everywhere s) s.queued → Perm (everywhere t) t.queued
  unfolding push abort
  Step-everywhere {s} (requested e) p =
      let more =
        ap (λ l. s.analysed ++ l) (sym (append_assoc (in_hand s.workers) s.queue.events (e ∷ [])))
        ∙ sym (append_assoc s.analysed (in_hand s.workers ++ s.queue.events) (e ∷ [])) in
      rw more (Perm.append_right (e ∷ []) p)
  Step-everywhere {s} (takes i e q at taken) p =
      let before : Perm (s.analysed ++ (in_hand s.workers ++ (e ∷ q.events))) s.queued =
        rw (popped s.queue q e taken) at p in
      Perm.trans
        (Perm.append_left s.analysed (
          Perm.trans (Perm.append_right q.events (in_hand-takes s.workers i e at))
            (Perm.symm (perm_middle (in_hand s.workers) q.events))))
        before
  Step-everywhere {s} (ends i q at taken) p =
      rw (not_popped s.queue q taken, in_hand-ends s.workers i at) p
  Step-everywhere {s} (analyses i e at) p =
      rw (append_assoc s.analysed (e ∷ []) (in_hand (set s.workers i popping) ++ s.queue.events)) (
        Perm.trans
          (Perm.append_left s.analysed
            (Perm.append_right s.queue.events (in_hand-analyses s.workers i e at)))
          p)
  Step-everywhere destroyed p = p

  -- In every state that the handler reaches, the events whose analysis has ended, those that a thread
  -- analyses and those that are still queued are together exactly the events that were queued, each
  -- as often: none is lost, and none is analysed by two threads.
  pub Reach-everywhere : {threads : ℕ} {s : Pool A} → Reach threads s → Perm (everywhere s) s.queued
  Reach-everywhere {threads} start =
      rw (append-nil (in_hand (replicate threads popping)), in_hand-idle threads) (Perm.refl [])
  Reach-everywhere (later r st) = Step-everywhere st (Reach-everywhere r)
