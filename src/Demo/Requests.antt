-- ===== src/Demo/Requests.antt =====
-- GenerateRequestToken and BuildRequest of demo/client.cc.
pub mod Tokens
use content_analysis_sdk.Prelude.{
  ℕ, ◌+◌, ◌*◌, false, ◌||◌, Option, none, some, [], ◌∷◌, ◌++◌, ◌≡◌, refl, ◌≢◌, arith, Text, codes,
  decimal, is_empty, ◌==◌, if◌then◌else◌,
}
use content_analysis_sdk.ResultCode.{ok}
use content_analysis_sdk.Proto.{
  ContentAnalysisRequest, ContentMetaData, ContentData, text_content, file_path,
}
use content_analysis_sdk.Event.{BrowserInfo, create, init}
use content_analysis_sdk.Event.Response.{token_of, init-create}
use content_analysis_sdk.Demo.CommandLine.{ClientOptions}

-- The token, and the next `request_token_number`.
unfoldable pub generate_request_token : ℕ → Text × ℕ
generate_request_token number = (codes "req-" ++ decimal number, number + 1)

-- The path behind an `@`, or nothing.
unfoldable pub file_of : Text → Text
file_of [] = []
file_of (c ∷ rest) = if c == b'@' then rest else []

-- What stands behind the last slash or backslash, or all of it where there is none.
unfoldable pub after_last : Text → Text → Text
after_last found [] = found
after_last found (c ∷ rest) = after_last (if c == b'/' || c == b'\\' then rest else found) rest

unfoldable pub content_of : Text → Text → ContentData
content_of filepath data' = if is_empty filepath then text_content data' else file_path filepath

-- BuildRequest at the time `now`; none where it ends the program. `data'` is the argument.
unfoldable pub build_request : ClientOptions → ℕ → ℕ → Text → Option (ContentAnalysisRequest × ℕ)
build_request o now number data' =
    let filepath = file_of data' in
    let filename = after_last filepath filepath in
    let (generated, next) = generate_request_token number in
    let meta : ContentMetaData = record {
      url = some o.url;
      filename = if is_empty filename then none else some filename;
      digest = some o.digest;
      email = some o.email;
      tab_title = none;
      print_metadata = none;
    } in
    let request : ContentAnalysisRequest = record {
      request_token = some (if is_empty o.request_token then generated else o.request_token);
      analysis_connector = some o.connector;
      request_data = some meta;
      tags = o.tag ∷ [];
      machine_user = some (some (some o.machine_user));
      content_data = some (content_of filepath data');
      expires_at = some (now + 5 * 60);
      user_action_id = none;
      reason = none;
    } in
    if is_empty data'
    then none
    else some (request, if is_empty o.request_token then next else number)

-- A request for an argument that is not empty carries its content.
pub build_request_given :
    (o : ClientOptions) (now number : ℕ) (data' : Text)
    → is_empty data' ≡ false
    → (request : ContentAnalysisRequest) × (next : ℕ) × (build_request o now number data'
        ≡ some (request, next))
      × (request.content_data ≡ some (content_of (file_of data') data'))
unfolding build_request
build_request_given o now number [] given = cc
build_request_given o now number (c ∷ data') given = (_, _, refl, refl)

token-generated : (number : ℕ) → is_empty (generate_request_token number).0 ≡ false
unfolding generate_request_token
token-generated number = refl

chosen_token :
    (token : Text) (number : ℕ)
    → is_empty (if is_empty token then (generate_request_token number).0 else token) ≡ false
chosen_token [] number = token-generated number
chosen_token (c ∷ token) number = refl

init_accepts :
    (pipe : ℕ) (info : BrowserInfo) (request : ContentAnalysisRequest)
    → is_empty (token_of request) ≡ false
    → (init (create pipe info request)).0 ≡ ok
init_accepts pipe info request named = ground (arith, init-create pipe info request)

-- BuildRequest of an argument that is not empty, whatever the settings, makes a request with a
-- content and with the one tag of the settings, and the agent accepts it: Init of an event for it
-- returns OK.
pub init-build_request :
    (o : ClientOptions) (now number : ℕ) (c : ℕ) (rest : Text) (pipe : ℕ) (info : BrowserInfo)
    → (request : ContentAnalysisRequest) × (next : ℕ) × (build_request o now number (c ∷ rest)
        ≡ some (request, next))
      × ((init (create pipe info request)).0 ≡ ok)
      × (request.content_data ≢ none)
      × (request.tags ≡ o.tag ∷ [])
unfolding build_request
init-build_request o now number c rest pipe info =
    (_, _, refl, init_accepts pipe info _ (chosen_token o.request_token number), ground arith, refl)
