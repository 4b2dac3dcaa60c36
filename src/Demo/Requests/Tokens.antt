-- ===== src/Demo/Requests/Tokens.antt =====
-- The request tokens of demo/client.cc: GenerateRequestToken as the loop of main calls it.
use content_analysis_sdk.Prelude.{
  ℕ, zero, suc, ◌+◌, true, none, some, List, [], ◌∷◌, ◌≡◌, refl, ap, arith, Text, ◌⊎◌, inl, inr,
  decimal_injective, is_empty, get_elem?, drop,
}
use content_analysis_sdk.Proto.{ContentAnalysisRequest}
use content_analysis_sdk.Demo.CommandLine.{ClientOptions}
use content_analysis_sdk.Demo.Requests.{generate_request_token, build_request}

-- The requests that main builds without threads, one for each argument, each with the time at which
-- it is built. An empty argument ends the program.
unfoldable pub build_requests : ClientOptions → ℕ → List (ℕ × Text) → List ContentAnalysisRequest
build_requests o number [] = []
build_requests o number ((now, data') ∷ rest) = elim (build_request o now number data') [
  | none ↦ []
  | some (request, next) ↦ request ∷ build_requests o next rest
]

-- What a request is built with, where it is built.
built_token :
    (o : ClientOptions) (now number : ℕ) (data' : Text)
    → is_empty o.request_token ≡ true
    → (build_request o now number data' ≡ none)
      ⊎ ((request : ContentAnalysisRequest) × (next : ℕ) × (build_request o now number data'
            ≡ some (request, next))
          × (next ≡ number + 1)
          × (request.request_token ≡ some (generate_request_token number).0))
unfolding build_request generate_request_token
built_token o now number [] unset = inl refl
built_token o now number (c ∷ rest) unset = inr (_, _, refl, ground arith, ground arith)

-- The request at index `i` has the token of the number `number + i`.
token_at :
    (o : ClientOptions) (number : ℕ) (args : List (ℕ × Text)) (i : ℕ)
    (request : ContentAnalysisRequest)
    → is_empty o.request_token ≡ true
    → get_elem? (build_requests o number args) i ≡ some request
    → request.request_token ≡ some (generate_request_token (number + i)).0
unfolding build_requests
token_at o number [] i request unset e = ground arith
token_at o number ((now, data') ∷ rest) zero request unset e =
    elim (built_token o now number data' unset) [
      | inl stopped ↦ ground (arith, stopped)
      | inr (first, next, built, step, token) ↦
          let same : number + 0 ≡ number = omega arith in rw same (ground (arith, built, token))
    ]
token_at o number ((now, data') ∷ rest) (suc i) request unset e =
    elim (built_token o now number data' unset) [
      | inl stopped ↦ ground (arith, stopped)
      | inr (first, next, built, step, token) ↦
          let same : number + suc i ≡ next + i = omega arith in
          rw same (token_at o next rest i request unset (ground (arith, built)))
    ]

generate_request_token_injective :
    (m n : ℕ) → (generate_request_token m).0 ≡ (generate_request_token n).0 → m ≡ n
unfolding generate_request_token
generate_request_token_injective m n e = decimal_injective m n (ap (drop 4) e)

-- Without --request-token and without threads, no two requests of one run have the same token,
-- whatever their arguments and the number that the tokens start from.
pub build_requests_unique :
    (o : ClientOptions) (number : ℕ) (args : List (ℕ × Text)) (i j : ℕ)
    (first second : ContentAnalysisRequest)
    → is_empty o.request_token ≡ true
    → get_elem? (build_requests o number args) i ≡ some first
    → get_elem? (build_requests o number args) j ≡ some second
    → first.request_token ≡ second.request_token
    → i ≡ j
build_requests_unique o number args i j first second unset at_i at_j same =
    let token_i = token_at o number args i first unset at_i in
    let token_j = token_at o number args j second unset at_j in
    let numbers =
      generate_request_token_injective (number + i) (number + j)
        (ground (arith, token_i, token_j)) in
    omega (arith, numbers)
