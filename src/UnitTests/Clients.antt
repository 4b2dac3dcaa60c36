-- ===== src/UnitTests/Clients.antt =====
-- The client threads of the tests of agent/src/agent_win_unittest.cc. An assertion that does not hold
-- ends the thread, and the client is destroyed at its end.
use content_analysis_sdk.Prelude.{
  ℕ, Bool, true, false, Option, none, some, [], codes, replicate, text_eq, get_or_default,
}
use content_analysis_sdk.Proto.{
  ContentAnalysisRequest, ContentAnalysisResponse, ContentAnalysisAcknowledgement, Protobuf,
}
use content_analysis_sdk.Event.Response.{token_of}
use content_analysis_sdk.Windows.{Windows}
use content_analysis_sdk.Client.{
  Client, Config, Outcome, returned, thrown, running, create, shutdown, send, acknowledge,
  cancel_requests,
}
use content_analysis_sdk.UnitTests.Agents.{build_request}

abbrev test_config : Config
test_config = record { name = codes "test"; user_specific = false }

abbrev bind : {A B : Type 0} → Outcome A → (A → Outcome B) → Outcome B
bind (returned a) f = f a
bind thrown f = thrown
bind running f = running

module _ (os : Windows) (pb : Protobuf) (rounds : ℕ) where
  open os use {World}

  -- CreateClient, and what follows if there is a client.
  with_client : (Client → World → Outcome (Bool × World)) → Config → World → Outcome (Bool × World)
  with_client body config w = bind (create os rounds config w) (go body)
    where
      go :
          (Client → World → Outcome (Bool × World)) → Option Client × World → Outcome (Bool × World)
      go body (none, w₁) = returned (false, w₁)
      go body (some client, w₁) =
          bind (body client w₁) (λ r. returned (r.0, (shutdown os client r.1).1))

  -- The assertions on the answer of a request.
  answered : ContentAnalysisRequest → Option ContentAnalysisResponse × World → Bool × World
  answered request (none, w) = (false, w)
  answered request (some response, w) =
      (text_eq (token_of request) (get_or_default response.request_token []), w)

  exchange : ContentAnalysisRequest → Client → World → Outcome (Bool × World)
  exchange request client w =
      bind (send os pb rounds client request w) (λ r. returned (answered request r))

  -- The thread of Request, Request_DoubleSend and Request_CloseEvent.
  pub request_thread : World → Outcome (Bool × World)
  unfolding with_client exchange answered
  request_thread = with_client (exchange (build_request [])) test_config

  -- The thread of Request_Large: the text is 5000 times the letter a.
  pub request_large_thread : World → Outcome (Bool × World)
  unfolding with_client exchange answered
  request_large_thread = with_client (exchange (build_request (replicate 5000 b'a'))) test_config

  -- The thread of Ack behind the request, whose answer has to be there.
  acknowledges : Client → Option ContentAnalysisResponse × World → Bool × World
  acknowledges client (none, w) = (false, w)
  acknowledges client (some response, w) =
      let ack : ContentAnalysisAcknowledgement = record {
        request_token = some (token_of (build_request []));
        status = none;
        final_action = none;
      } in
      acknowledge os pb client ack w

  pub ack_thread : World → Outcome (Bool × World)
  unfolding with_client acknowledges
  ack_thread =
      with_client
        (λ client w.
          bind (send os pb rounds client (build_request []) w)
            (λ r. returned (acknowledges client r)))
        test_config

  -- The thread of Cancel.
  pub cancel_thread : World → Outcome (Bool × World)
  unfolding with_client
  cancel_thread =
      with_client
        (λ client w.
          returned (
            cancel_requests os pb client (record { user_action_id = some (codes "1234567890") }) w))
        test_config

  -- The thread of Connect_UserSpecific: a client of the system's agent must not connect, one of the
  -- user's must.
  pub connect_user_specific_thread : World → Outcome (Bool × World)
  unfolding with_client
  connect_user_specific_thread w = bind (create os rounds test_config w) first
    where
      first : Option Client × World → Outcome (Bool × World)
      first (some client, w₁) = returned (false, (shutdown os client w₁).1)
      first (none, w₁) =
          with_client (λ client w₂. returned (true, w₂))
            (record test_config { user_specific = true }) w₁
