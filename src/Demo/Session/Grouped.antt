-- ===== src/Demo/Session/Grouped.antt =====
-- The program demo/client.cc and the globals that its requests leave (Demo.Grouping).
use content_analysis_sdk.Prelude.{
  subst, ℕ, false, Option, none, some, List, [], ◌∷◌, map, Text, is_empty, ◌≡◌, refl, arith,
  get_or_default, ap, ◌∙◌, codes, if◌then◌else◌,
}
use content_analysis_sdk.Proto.{
  ContentAnalysisRequest, ContentAnalysisResponse, ContentAnalysisAcknowledgement, ContentData,
  Protobuf,
}
use content_analysis_sdk.Windows.{Windows}
use content_analysis_sdk.Client.{Client, returned, send, acknowledge}
use content_analysis_sdk.Demo.Grouping.{
  start, handle_response, handle_all, build_acknowledgement, group_acks, Exchange,
}
use content_analysis_sdk.Demo.CommandLine.{ClientOptions}
use content_analysis_sdk.Demo.Severity.{final_action_of, get_action_from_response}
use content_analysis_sdk.Demo.Output.{endl, dump_response, final_action_name}
use content_analysis_sdk.Demo.Requests.{build_request, build_request_given, file_of, content_of}
use content_analysis_sdk.Demo.Session.{
  Run, continues, printed, acknowledge_reported, finish_request, handle_request, process_request,
  process_all, acknowledge_all, acknowledge_group, run_session,
}

-- The content that a request for an argument carries.
abbrev pub content_for : Text → Option ContentData
content_for data' = some (content_of (file_of data') data')

-- No argument is empty.
abbrev pub AllGiven : List Text → Type 0
AllGiven [] = Unit
AllGiven (data' ∷ datas) = (is_empty data' ≡ false) × AllGiven datas

abbrev pub contents : List Exchange → List (Option ContentData)
contents exchanges = map (λ e. e.0.content_data) exchanges

module _ (os : Windows) (pb : Protobuf) (c : Client) (rounds : ℕ) (o : ClientOptions)
    (time : os.World → ℕ) (ctime : ℕ → Text) where
  acknowledge_reported_globals :
      (label token : Text) (ack : ContentAnalysisAcknowledgement) (s : Run os.World)
      → (acknowledge_reported os pb c rounds o time ctime label token ack s).globals ≡ s.globals
  unfolding acknowledge_reported
  acknowledge_reported_globals label token ack s = ground arith

  acknowledge_reported_world :
      (label token : Text) (ack : ContentAnalysisAcknowledgement) (s : Run os.World)
      → (acknowledge_reported os pb c rounds o time ctime label token ack s).world
        ≡ (acknowledge os pb c ack s.world).1
  unfolding acknowledge_reported
  acknowledge_reported_world label token ack s = ground arith

  finish_request_globals :
      (request : ContentAnalysisRequest) (response : Option ContentAnalysisResponse)
      (s : Run os.World)
      → (finish_request os pb c rounds o time ctime request response s).globals
        ≡ (handle_response o.group request response s.globals).0
  unfolding finish_request handle_response
  finish_request_globals request none s = refl
  finish_request_globals request (some response) s =
      let token = get_or_default request.request_token [] in
      let action = final_action_of (get_action_from_response response) in
      let ack = build_acknowledgement (get_or_default response.request_token []) action in
      let s₁ = printed (dump_response (ctime (time s.world)) response ∷ []) s in
      let label = codes "[Demo] Error sending ack " in
      ground (arith, acknowledge_reported_globals label token ack s₁)

  -- Send returns on every request and in every state.
  abbrev pub SendReturns : Type 0
  SendReturns =
      (request : ContentAnalysisRequest) (w : os.World)
      → (r : Option ContentAnalysisResponse) × (w' : os.World) × (send os pb rounds c request w
          ≡ returned (r, w'))

  -- The acknowledgement that follows a Send at once, if there is one.
  abbrev pub acknowledged_at_once : Exchange → os.World → os.World
  acknowledged_at_once (request, response) w =
      elim (handle_response o.group request response start).1 [
        | none ↦ w
        | some ack ↦ (acknowledge os pb c ack w).1
      ]

  -- The arguments `datas`, of which the first gets the token number `number`, are sent from `w` on: each
  -- request is the one built of its argument in the state before it, each answer is what Send gave
  -- for it in that state, and what follows a Send at once, and nothing else, leads to the next.
  abbrev pub Conducts : List Text → ℕ → os.World → List Exchange → os.World → Type 0
  Conducts [] number w [] w' = w ≡ w'
  Conducts [] number w (e ∷ es) w' = ⊥
  Conducts (data' ∷ datas) number w [] w' = ⊥
  Conducts (data' ∷ datas) number w (e ∷ es) w' =
      (next : ℕ) × (sent : os.World) × (build_request o (time w) number data' ≡ some (e.0, next))
      × (send os pb rounds c e.0 w ≡ returned (e.1, sent))
      × Conducts datas next (acknowledged_at_once e sent) es w'

  finish_request_world :
      (request : ContentAnalysisRequest) (response : Option ContentAnalysisResponse)
      (s : Run os.World)
      → (finish_request os pb c rounds o time ctime request response s).world
        ≡ acknowledged_at_once (request, response) s.world
  unfolding finish_request handle_response
  finish_request_world request none s = refl
  finish_request_world request (some response) s =
      let token = get_or_default request.request_token [] in
      let action = final_action_of (get_action_from_response response) in
      let ack = build_acknowledgement (get_or_default response.request_token []) action in
      let s₁ = printed (dump_response (ctime (time s.world)) response ∷ []) s in
      let label = codes "[Demo] Error sending ack " in
      ground (arith, acknowledge_reported_world label token ack s₁)

  finish_request_number :
      (request : ContentAnalysisRequest) (response : Option ContentAnalysisResponse)
      (s : Run os.World)
      → (finish_request os pb c rounds o time ctime request response s).request_token_number
        ≡ s.request_token_number
  unfolding finish_request handle_response acknowledge_reported
  finish_request_number request none s = refl
  finish_request_number request (some response) s = ground arith

  handled :
      (sends : SendReturns) (request : ContentAnalysisRequest) (s : Run os.World)
      → (response : Option ContentAnalysisResponse) × (sent : os.World) × (t : Run os.World) × (send
            os pb rounds c request s.world
          ≡ returned (response, sent))
        × (handle_request os pb c rounds o time ctime request s ≡ continues t)
        × (t.globals ≡ (handle_response o.group request response s.globals).0)
        × (t.world ≡ acknowledged_at_once (request, response) sent)
        × (t.request_token_number ≡ s.request_token_number)
  unfolding handle_request
  handled sends request s =
      let (r, w, e) = sends request s.world in
      let t = finish_request os pb c rounds o time ctime request r (record s { world = w }) in
      (
        r,
        w,
        t,
        e,
        ground (arith, e),
        finish_request_globals request r (record s { world = w }),
        finish_request_world request r (record s { world = w }),
        finish_request_number request r (record s { world = w }),
      )

  -- The state in which a request is sent.
  abbrev announced : ContentAnalysisRequest → ℕ → Run os.World → Run os.World
  announced request next s =
      printed
        (codes "[Demo] Sending request " ∷ get_or_default request.request_token [] ∷ endl ∷ [])
        (record s { request_token_number = next })

  process_request_built :
      (data' : Text) (s : Run os.World) (request : ContentAnalysisRequest) (next : ℕ)
      → build_request o (time s.world) s.request_token_number data' ≡ some (request, next)
      → process_request os pb c rounds o time ctime data' s
        ≡ handle_request os pb c rounds o time ctime request (announced request next s)
  unfolding process_request
  process_request_built data' s request next made = ground (arith, made)

  all_processed :
      (sends : SendReturns) (datas : List Text) (s : Run os.World)
      → AllGiven datas
      → (exchanges : List Exchange) × (t : Run os.World) × (process_all os pb c rounds o time ctime
            datas s
          ≡ continues t)
        × (contents exchanges ≡ map content_for datas)
        × (t.globals ≡ handle_all o.group exchanges s.globals)
        × Conducts datas s.request_token_number s.world exchanges t.world
  unfolding process_all handle_all
  all_processed sends [] s given = ([], s, refl, refl, refl, refl)
  all_processed sends (data' ∷ datas) s given =
      let (request, number, made, content) =
        build_request_given o (time s.world) s.request_token_number data' given.0 in
      let (r, sent, t, e, h, g, w, n) = handled sends request (announced request number s) in
      let (es, t', h', contents', g', conducts) = all_processed sends datas t given.1 in
      let built = process_request_built data' s request number made ∙ h in
      (
        (request, r) ∷ es,
        t',
        rw built h',
        rw (content, contents') refl,
        g' ∙ ap (handle_all o.group es) g,
        (
          number,
          sent,
          made,
          e,
          subst (λ k. Conducts datas k (acknowledged_at_once (request, r) sent) es t'.world) n
              (subst (λ x. Conducts datas t.request_token_number x es t'.world) w conducts),
        ),
      )

  acknowledge_all_globals :
      (acks : List ContentAnalysisAcknowledgement) (s : Run os.World)
      → (acknowledge_all os pb c rounds o time ctime acks s).globals ≡ s.globals
  unfolding acknowledge_all
  acknowledge_all_globals [] s = refl
  acknowledge_all_globals (ack ∷ acks) s =
      let label = codes "[Demo] Error sending ack for " in
      let token = get_or_default ack.request_token [] in
      let s₁ = printed (codes "[Demo] Sending group Ack" ∷ endl ∷ []) s in
      acknowledge_all_globals acks
        (acknowledge_reported os pb c rounds o time ctime label token ack s₁)
      ∙ acknowledge_reported_globals label token ack s₁

  acknowledge_group_globals :
      (s : Run os.World) → (acknowledge_group os pb c rounds o time ctime s).globals ≡ s.globals
  unfolding acknowledge_group
  acknowledge_group_globals s =
      let final =
        codes "[Demo] Final action for all requests is "
        ∷ final_action_name s.globals.final_action
        ∷ endl
        ∷ endl
        ∷ [] in
      ground (arith, acknowledge_all_globals (group_acks s.globals) (printed (endl ∷ final) s))

  -- The acknowledgements, one after the other.
  abbrev pub acknowledged : List ContentAnalysisAcknowledgement → os.World → os.World
  acknowledged [] w = w
  acknowledged (ack ∷ acks) w = acknowledged acks (acknowledge os pb c ack w).1

  acknowledge_all_world :
      (acks : List ContentAnalysisAcknowledgement) (s : Run os.World)
      → (acknowledge_all os pb c rounds o time ctime acks s).world ≡ acknowledged acks s.world
  unfolding acknowledge_all
  acknowledge_all_world [] s = refl
  acknowledge_all_world (ack ∷ acks) s =
      let label = codes "[Demo] Error sending ack for " in
      let token = get_or_default ack.request_token [] in
      let s₁ = printed (codes "[Demo] Sending group Ack" ∷ endl ∷ []) s in
      acknowledge_all_world acks
        (acknowledge_reported os pb c rounds o time ctime label token ack s₁)
      ∙ ap (acknowledged acks) (acknowledge_reported_world label token ack s₁)

  acknowledge_group_world :
      (s : Run os.World)
      → (acknowledge_group os pb c rounds o time ctime s).world
        ≡ (if o.group then acknowledged (group_acks s.globals) s.world else s.world)
  unfolding acknowledge_group
  acknowledge_group_world s =
      let final =
        codes "[Demo] Final action for all requests is "
        ∷ final_action_name s.globals.final_action
        ∷ endl
        ∷ endl
        ∷ [] in
      ground (arith, acknowledge_all_world (group_acks s.globals) (printed (endl ∷ final) s))

  -- The client of the demo without --threaded, if Send returns and none of its arguments is empty,
  -- runs to its end. It sends one request for each argument, in their order, each built of its argument
  -- in the state that those before left, and without --group each followed at once by its
  -- acknowledgement, if there is one, and by nothing else; the final action and the tokens that it has
  -- at its end are those that HandleRequest makes of these requests and of what Send gave for them, one
  -- after the other; and with --group it then sends one acknowledgement for each token, in their order,
  -- and without --group nothing more.
  pub run_session-handle_all :
      (sends : SendReturns) (started : ℕ) (w : os.World)
      → AllGiven o.datas
      → (exchanges : List Exchange) × (t : Run os.World) × (w' : os.World) × (run_session os pb c
            rounds o time ctime started w
          ≡ continues t)
        × (contents exchanges ≡ map content_for o.datas)
        × (t.globals ≡ handle_all o.group exchanges start)
        × Conducts o.datas started w exchanges w'
        × (t.world ≡ (if o.group then acknowledged (group_acks t.globals) w' else w'))
  unfolding run_session
  run_session-handle_all sends started w given =
      let s : Run os.World = record {
        globals = start;
        request_token_number = started;
        output = [];
        world = w;
      } in
      let (es, u, h, content, g, conducts) = all_processed sends o.datas s given in
      let t = acknowledge_group os pb c rounds o time ctime u in
      let same = acknowledge_group_globals u in
      (
        es,
        t,
        u.world,
        ground (arith, h),
        content,
        same ∙ g,
        conducts,
        ground (arith, acknowledge_group_world u, same),
      )
