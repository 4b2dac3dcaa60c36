-- ===== src/Demo/Workers.antt =====
-- QueuingHandler of demo/handler.h: OnAnalysisRequested queues an event, and the background threads
-- pop and analyse events until the destructor aborts the queue. The threads run in any order; each
-- holds the lock of the queue for one operation. `A` stands for events.
pub mod Conservation
pub mod Ending
use content_analysis_sdk.Prelude.{
  ℕ, zero, suc, ◌+◌, Bool, true, false, Option, none, some, List, [], ◌∷◌, ◌++◌, ◌≡◌, get_elem?,
  set, replicate,
}
use content_analysis_sdk.Demo.RequestQueue.{
  RequestQueue, Popped, event, waits, no_event, push, pop, abort,
}

-- A thread in ProcessRequests: before `pop`, with an event in AnalyzeContent, or behind the loop.
pub data Worker {ℓ} (A : Type ℓ) : Type ℓ where
  popping finished : Worker A
  analysing : A → Worker A

-- The handler: its queue, its threads, and two logs, of the events that were queued and of those
-- whose analysis has ended, each in its order.
pub record Pool {ℓ} (A : Type ℓ) : Type ℓ where
  pub queue : RequestQueue A
  pub workers : List (Worker A)
  pub queued : List A
  pub analysed : List A

module _ {ℓ} {A : Type ℓ} where
  -- StartBackgroundThreads.
  abbrev pub started : ℕ → Pool A
  started threads = record {
    queue = record { events = []; aborted = false };
    workers = replicate threads popping;
    queued = [];
    analysed = [];
  }

  -- A step of the agent's thread or of the thread `i`. A thread whose `pop` waits makes no step.
  pub data Step (s : Pool A) : Pool A → Type ℓ where
    requested :
        (e : A) → Step s (record s { queue = push e s.queue; queued = s.queued ++ (e ∷ []) })
    takes :
        (i : ℕ) (e : A) (q : RequestQueue A)
        → get_elem? s.workers i ≡ some popping
        → pop s.queue ≡ (event e, q)
        → Step s (record s { queue = q; workers = set s.workers i (analysing e) })
    ends :
        (i : ℕ) (q : RequestQueue A)
        → get_elem? s.workers i ≡ some popping
        → pop s.queue ≡ (no_event, q)
        → Step s (record s { queue = q; workers = set s.workers i finished })
    analyses :
        (i : ℕ) (e : A)
        → get_elem? s.workers i ≡ some (analysing e)
        → Step s (record s { workers = set s.workers i popping; analysed = s.analysed ++ (e ∷ []) })
    destroyed : Step s (record s { queue = abort s.queue })

  pub data Reach (threads : ℕ) : Pool A → Type ℓ where
    start : Reach threads (started threads)
    later : {s t : Pool A} → Reach threads s → Step s t → Reach threads t
