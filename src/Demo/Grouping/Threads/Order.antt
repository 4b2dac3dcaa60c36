-- ===== src/Demo/Grouping/Threads/Order.antt =====
-- The order in which the threads of demo/client.cc record their answers does not matter.
use native.Mathlib.Nat.{ℕ_set}
use Prim.Native.Nat.{max}
use mathlib.Core.List.{Perm, foldr, filter_map}
use mathlib.Core.List.Perm
use content_analysis_sdk.Prelude.{
  ℕ, true, Option, none, some, List, [], ◌∷◌, ◌≡◌, refl, sym, ap, ◌∙◌, arith, Text, is_empty,
  get_or_default, if◌then◌else◌, Bool-cases, inl, inr,
}
use content_analysis_sdk.Proto.{ContentAnalysisRequest, ContentAnalysisResponse, FinalAction}
use content_analysis_sdk.Demo.Severity.{final_action_number, max_of, all_rules}
use content_analysis_sdk.Demo.Grouping.{
  Globals, start, Exchange, handle_all, handle_all_from, answered, severity,
}
use content_analysis_sdk.Demo.Grouping.Threads.{
  Session, Reach, Reach-IsRecorded, all_finished, answered_by, finished_planned,
}

-- What one exchange adds to the severity, and the token that it adds.
weight : Exchange → ℕ
weight (request, none) = 0
weight (request, some response) = max_of (all_rules response.results)

token_kept : Exchange → Option Text
token_kept (request, none) = none
token_kept (request, some response) =
    if is_empty response.results then none else some (get_or_default request.request_token [])

severity-foldr :
    (es : List Exchange) → severity es ≡ foldr (λ (e : Exchange) (n : ℕ). max (weight e) n) 0 es
unfolding weight
severity-foldr [] = refl
severity-foldr ((request, none) ∷ es) = omega (arith, severity-foldr es)
severity-foldr ((request, some response) ∷ es) =
    ap (max (max_of (all_rules response.results))) (severity-foldr es)

answered-filter_map : (es : List Exchange) → answered es ≡ filter_map token_kept es
unfolding token_kept filter_map
answered-filter_map [] = refl
answered-filter_map ((request, none) ∷ es) = answered-filter_map es
answered-filter_map ((request, some response) ∷ es) =
    let token = get_or_default request.request_token [] in
    elim (Bool-cases (is_empty response.results)) [
      | inl e ↦ rw e (answered-filter_map es)
      | inr e ↦ rw e (ap (λ l. token ∷ l) (answered-filter_map es))
    ]

severity-perm : {es fs : List Exchange} → Perm es fs → severity es ≡ severity fs
severity-perm {es} {fs} p =
    severity-foldr es
    ∙ (Perm.foldr-eq ℕ_set (λ (e : Exchange) (n : ℕ). max (weight e) n) (λ a b x. omega arith) p 0
        ∙ sym (severity-foldr fs))

answered-perm : {es fs : List Exchange} → Perm es fs → Perm (answered es) (answered fs)
answered-perm {es} {fs} p =
    rw (answered-filter_map es, answered-filter_map fs) (Perm.filter_map token_kept p)

same_number : (a b : FinalAction) → final_action_number a ≡ final_action_number b → a ≡ b
same_number a b h = ground arith

-- The client of the demo with --group and --threaded, whatever Send gives each thread and whatever the
-- order of the threads: when all threads are finished, the final action of the group is the one that
-- handling the requests one after the other, each with what Send gave its thread, would make, and the
-- tokens that are acknowledged are the same ones, each as often.
pub Reach-order_free :
    {given : ℕ → Option ContentAnalysisResponse} {requests : List ContentAnalysisRequest}
    {s : Session}
    → Reach given requests s
    → all_finished s.threads ≡ true
    → let sequential = handle_all true (answered_by given 0 requests) start in
      (s.globals.final_action ≡ sequential.final_action)
      × Perm s.globals.request_tokens sequential.request_tokens
Reach-order_free {given} {requests} {s} r done =
    let h = Reach-IsRecorded r in
    let es = answered_by given 0 requests in
    let all = finished_planned given 0 s.threads done ∙ h.kept in
    let same : Perm s.recorded es = rw⁻¹ all h.same in
    let mine = handle_all_from s.recorded start (omega arith) in
    let theirs = handle_all_from es start (omega arith) in
    (
      same_number _ _ (
          omega (
            arith,
            mine.1,
            theirs.1,
            severity-perm same,
            ap (λ (g : Globals). final_action_number g.final_action) h.replayed,
          )),
      rw (ap (λ (g : Globals). g.request_tokens) h.replayed, mine.0, theirs.0) (answered-perm same),
    )
