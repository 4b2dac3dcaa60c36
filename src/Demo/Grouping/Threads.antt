-- ===== src/Demo/Grouping/Threads.antt =====
-- The client of demo/client.cc with --threaded and --group: main starts a thread for each argument,
-- and HandleRequest of each thread sends its request and then records the answer under
-- `global_mutex`. The threads share one pipe, so what Send gives the
-- thread `i` is a parameter, `given i`.
pub mod Order
use mathlib.Core.List.{Perm, perm_append_singleton}
use mathlib.Core.List.Perm
use content_analysis_sdk.Prelude.{
  subst, ℕ, zero, suc, ◌+◌, true, false, Bool, Option, none, some, List, [], ◌∷◌, ◌++◌, map, ◌≡◌,
  refl, sym, ap, ◌∙◌, arith, get_elem?, set, append-nil, append_assoc,
}
use content_analysis_sdk.Proto.{ContentAnalysisRequest, ContentAnalysisResponse}
use content_analysis_sdk.Demo.Grouping.{Globals, start, handle_response, Exchange, handle_all}

-- A thread in HandleRequest: before Send, behind it with what it gave, or behind the lock; a thread
-- that is finished keeps its exchange.
pub data Thread : Type 0 where
  ready : ContentAnalysisRequest → Thread
  replied : ContentAnalysisRequest → Option ContentAnalysisResponse → Thread
  finished : Exchange → Thread

-- The globals, the threads in the order of the arguments, and the exchanges in the order in which
-- they were recorded.
pub record Session : Type 0 where
  pub globals : Globals
  pub threads : List Thread
  pub recorded : List Exchange

abbrev pub started : List ContentAnalysisRequest → Session
started requests = record { globals = start; threads = map ready requests; recorded = [] }

pub data Step (given : ℕ → Option ContentAnalysisResponse) (s : Session) : Session → Type 0 where
  sends :
      (i : ℕ) (request : ContentAnalysisRequest)
      → get_elem? s.threads i ≡ some (ready request)
      → Step given s (record s { threads = set s.threads i (replied request (given i)) })
  records :
      (i : ℕ) (request : ContentAnalysisRequest) (response : Option ContentAnalysisResponse)
      → get_elem? s.threads i ≡ some (replied request response)
      → Step given s (record s {
        globals = (handle_response true request response s.globals).0;
        threads = set s.threads i (finished (request, response));
        recorded = s.recorded ++ ((request, response) ∷ []);
      })

pub data Reach (given : ℕ → Option ContentAnalysisResponse) (requests : List ContentAnalysisRequest)
    : Session → Type 0 where
  here : Reach given requests (started requests)
  next : {s t : Session} → Reach given requests s → Step given s t → Reach given requests t

abbrev pub all_finished : List Thread → Bool
all_finished [] = true
all_finished (finished e ∷ ts) = all_finished ts
all_finished (ready r ∷ ts) = false
all_finished (replied r p ∷ ts) = false

-- The requests, each with what Send gives its thread; `k` is the number of the first one.
abbrev pub answered_by :
    (ℕ → Option ContentAnalysisResponse) → ℕ → List ContentAnalysisRequest → List Exchange
answered_by given k [] = []
answered_by given k (r ∷ rs) = (r, given k) ∷ answered_by given (suc k) rs

-- The exchanges that the threads have or will have, and those of the threads that are finished, in the
-- threads' order.
abbrev pub planned : (ℕ → Option ContentAnalysisResponse) → ℕ → List Thread → List Exchange
planned given k [] = []
planned given k (ready r ∷ ts) = (r, given k) ∷ planned given (suc k) ts
planned given k (replied r p ∷ ts) = (r, p) ∷ planned given (suc k) ts
planned given k (finished e ∷ ts) = e ∷ planned given (suc k) ts

abbrev pub exchanged : List Thread → List Exchange
exchanged [] = []
exchanged (ready r ∷ ts) = exchanged ts
exchanged (replied r p ∷ ts) = exchanged ts
exchanged (finished e ∷ ts) = e ∷ exchanged ts

planned-started :
    (given : ℕ → Option ContentAnalysisResponse) (k : ℕ) (requests : List ContentAnalysisRequest)
    → planned given k (map ready requests) ≡ answered_by given k requests
planned-started given k [] = refl
planned-started given k (r ∷ rs) = ap (λ l. (r, given k) ∷ l) (planned-started given (suc k) rs)

exchanged-started : (requests : List ContentAnalysisRequest) → exchanged (map ready requests) ≡ []
exchanged-started [] = refl
exchanged-started (r ∷ rs) = exchanged-started rs

planned-later :
    (given : ℕ → Option ContentAnalysisResponse) (k : ℕ) (ts : List Thread) (i : ℕ)
    (r : ContentAnalysisRequest)
    → planned given (suc k) (set ts i (replied r (given (suc k + i)))) ≡ planned given (suc k) ts
    → planned given (suc k) (set ts i (replied r (given (k + suc i)))) ≡ planned given (suc k) ts
planned-later given k ts i r h = let same : k + suc i ≡ suc k + i = omega arith in rw same h

planned-sends :
    (given : ℕ → Option ContentAnalysisResponse) (k : ℕ) (ts : List Thread) (i : ℕ)
    (r : ContentAnalysisRequest)
    → get_elem? ts i ≡ some (ready r)
    → planned given k (set ts i (replied r (given (k + i)))) ≡ planned given k ts
planned-sends given k [] i r h = refl
planned-sends given k (ready q ∷ ts) zero r h = ground (arith, h)
planned-sends given k (replied q o ∷ ts) zero r h = cc
planned-sends given k (finished e ∷ ts) zero r h = cc
planned-sends given k (ready q ∷ ts) (suc i) r h =
    ap (λ l. (q, given k) ∷ l) (planned-later given k ts i r (planned-sends given (suc k) ts i r h))
planned-sends given k (replied q o ∷ ts) (suc i) r h =
    ap (λ l. (q, o) ∷ l) (planned-later given k ts i r (planned-sends given (suc k) ts i r h))
planned-sends given k (finished e ∷ ts) (suc i) r h =
    ap (λ l. e ∷ l) (planned-later given k ts i r (planned-sends given (suc k) ts i r h))

planned-sends_first :
    (given : ℕ → Option ContentAnalysisResponse) (ts : List Thread) (i : ℕ)
    (r : ContentAnalysisRequest)
    → get_elem? ts i ≡ some (ready r)
    → planned given 0 (set ts i (replied r (given i))) ≡ planned given 0 ts
planned-sends_first given ts i r h =
    let same : 0 + i ≡ i = omega arith in
    subst (λ n. planned given 0 (set ts i (replied r (given n))) ≡ planned given 0 ts) same
      (planned-sends given 0 ts i r h)

planned-records :
    (given : ℕ → Option ContentAnalysisResponse) (k : ℕ) (ts : List Thread) (i : ℕ)
    (r : ContentAnalysisRequest) (p : Option ContentAnalysisResponse)
    → get_elem? ts i ≡ some (replied r p)
    → planned given k (set ts i (finished (r, p))) ≡ planned given k ts
planned-records given k [] i r p h = refl
planned-records given k (ready q ∷ ts) zero r p h = cc
planned-records given k (replied q o ∷ ts) zero r p h = ground (arith, h)
planned-records given k (finished e ∷ ts) zero r p h = cc
planned-records given k (ready q ∷ ts) (suc i) r p h =
    ap (λ l. (q, given k) ∷ l) (planned-records given (suc k) ts i r p h)
planned-records given k (replied q o ∷ ts) (suc i) r p h =
    ap (λ l. (q, o) ∷ l) (planned-records given (suc k) ts i r p h)
planned-records given k (finished e ∷ ts) (suc i) r p h =
    ap (λ l. e ∷ l) (planned-records given (suc k) ts i r p h)

exchanged-sends :
    (ts : List Thread) (i : ℕ) (r : ContentAnalysisRequest) (p : Option ContentAnalysisResponse)
    → get_elem? ts i ≡ some (ready r)
    → exchanged (set ts i (replied r p)) ≡ exchanged ts
exchanged-sends [] i r p h = refl
exchanged-sends (ready q ∷ ts) zero r p h = refl
exchanged-sends (replied q o ∷ ts) zero r p h = refl
exchanged-sends (finished e ∷ ts) zero r p h = cc
exchanged-sends (ready q ∷ ts) (suc i) r p h = exchanged-sends ts i r p h
exchanged-sends (replied q o ∷ ts) (suc i) r p h = exchanged-sends ts i r p h
exchanged-sends (finished e ∷ ts) (suc i) r p h = ap (λ l. e ∷ l) (exchanged-sends ts i r p h)

exchanged-records :
    (ts : List Thread) (i : ℕ) (r : ContentAnalysisRequest) (p : Option ContentAnalysisResponse)
    → get_elem? ts i ≡ some (replied r p)
    → Perm (exchanged (set ts i (finished (r, p)))) ((r, p) ∷ exchanged ts)
exchanged-records [] i r p h = cc
exchanged-records (ready q ∷ ts) zero r p h = cc
exchanged-records (replied q o ∷ ts) zero r p h = Perm.refl ((r, p) ∷ exchanged ts)
exchanged-records (finished e ∷ ts) zero r p h = cc
exchanged-records (ready q ∷ ts) (suc i) r p h = exchanged-records ts i r p h
exchanged-records (replied q o ∷ ts) (suc i) r p h = exchanged-records ts i r p h
exchanged-records (finished e ∷ ts) (suc i) r p h =
    Perm.trans (Perm.cons e (exchanged-records ts i r p h)) (Perm.swap (r, p) e (exchanged ts))

handle_all-append :
    (es : List Exchange) (e : Exchange) (g : Globals)
    → handle_all true (es ++ (e ∷ [])) g ≡ (handle_response true e.0 e.1 (handle_all true es g)).0
unfolding handle_all
handle_all-append [] e g = refl
handle_all-append (d ∷ es) e g = handle_all-append es e (handle_response true d.0 d.1 g).0

-- What every reachable state keeps.
pub record IsRecorded (given : ℕ → Option ContentAnalysisResponse)
    (requests : List ContentAnalysisRequest) (s : Session) : Type 0 where
  pub replayed : s.globals ≡ handle_all true s.recorded start
  pub same : Perm s.recorded (exchanged s.threads)
  pub kept : planned given 0 s.threads ≡ answered_by given 0 requests

module _ {given : ℕ → Option ContentAnalysisResponse} {requests : List ContentAnalysisRequest} where
  Step-IsRecorded :
      {s t : Session} → Step given s t → IsRecorded given requests s → IsRecorded given requests t
  Step-IsRecorded {s} (sends i r at) h = record {
    replayed = h.replayed;
    same = rw (exchanged-sends s.threads i r (given i) at) h.same;
    kept = planned-sends_first given s.threads i r at ∙ h.kept;
  }
  Step-IsRecorded {s} (records i r p at) h = record {
    replayed =
        ap (λ g. (handle_response true r p g).0) h.replayed
        ∙ sym (handle_all-append s.recorded (r, p) start);
    same = Perm.trans (Perm.append_right ((r, p) ∷ []) h.same) (
        Perm.trans (perm_append_singleton (r, p) (exchanged s.threads))
          (Perm.symm (exchanged-records s.threads i r p at)));
    kept = planned-records given 0 s.threads i r p at ∙ h.kept;
  }

  pub Reach-IsRecorded : {s : Session} → Reach given requests s → IsRecorded given requests s
  unfolding handle_all
  Reach-IsRecorded here = record {
    replayed = refl;
    same = rw (exchanged-started requests) (Perm.refl []);
    kept = planned-started given 0 requests;
  }
  Reach-IsRecorded (next r st) = Step-IsRecorded st (Reach-IsRecorded r)

pub finished_planned :
    (given : ℕ → Option ContentAnalysisResponse) (k : ℕ) (ts : List Thread)
    → all_finished ts ≡ true
    → exchanged ts ≡ planned given k ts
finished_planned given k [] h = refl
finished_planned given k (ready r ∷ ts) h = cc
finished_planned given k (replied r p ∷ ts) h = cc
finished_planned given k (finished e ∷ ts) h = ap (λ l. e ∷ l) (finished_planned given (suc k) ts h)
