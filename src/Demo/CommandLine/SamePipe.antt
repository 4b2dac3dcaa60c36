-- ===== src/Demo/CommandLine/SamePipe.antt =====
-- An agent and a client that are started with the same options use the same pipe.
use content_analysis_sdk.Prelude.{
  Bool, true, ◌||◌, ◌&&◌, List, [], ◌∷◌, ◌++◌, ◌≡◌, refl, inl, inr, arith, Text, codes, starts_with,
  starts_with_sound, Bool-cases,
}
use content_analysis_sdk.Demo.CommandLine.{
  Parsed, accepted, refused, thrown, AgentOptions, ClientOptions, agent_defaults, client_defaults,
  agent_option, client_option, parse_agent, parse_client,
}

-- What of the settings chooses the pipe.
abbrev pub pipe_of_agent : Parsed AgentOptions → Parsed (Text × Bool)
pipe_of_agent (accepted o) = accepted (o.path, o.user_specific)
pipe_of_agent refused = refused
pipe_of_agent thrown = thrown

abbrev pub pipe_of_client : Parsed ClientOptions → Parsed (Text × Bool)
pipe_of_client (accepted o) = accepted (o.path, o.user_specific)
pipe_of_client refused = refused
pipe_of_client thrown = thrown

-- The options that both programs know.
abbrev pub is_common : Text → Bool
is_common arg =
    starts_with arg (codes "--user")
    || (starts_with arg (codes "--path=") || starts_with arg (codes "--help"))

abbrev pub all_common : List Text → Bool
all_common [] = true
all_common (arg ∷ args) = is_common arg && all_common args

module _ (a : AgentOptions) (c : ClientOptions) where
  user_agrees :
      (rest : Text)
      → a.path ≡ c.path
      → pipe_of_agent (agent_option (codes "--user" ++ rest) a)
        ≡ pipe_of_client (client_option (codes "--user" ++ rest) c)
  unfolding agent_option client_option starts_with
  user_agrees rest path = ground arith

  path_agrees :
      (rest : Text)
      → a.user_specific ≡ c.user_specific
      → pipe_of_agent (agent_option (codes "--path=" ++ rest) a)
        ≡ pipe_of_client (client_option (codes "--path=" ++ rest) c)
  unfolding agent_option client_option starts_with
  path_agrees rest user = ground arith

  help_agrees :
      (rest : Text)
      → pipe_of_agent (agent_option (codes "--help" ++ rest) a)
        ≡ pipe_of_client (client_option (codes "--help" ++ rest) c)
  unfolding agent_option client_option starts_with
  help_agrees rest = refl

  option_agrees :
      (arg : Text)
      → a.path ≡ c.path
      → a.user_specific ≡ c.user_specific
      → is_common arg ≡ true
      → pipe_of_agent (agent_option arg a) ≡ pipe_of_client (client_option arg c)
  option_agrees arg path user common = elim (Bool-cases (starts_with arg (codes "--user"))) [
    | inl h ↦ let s = starts_with_sound arg (codes "--user") h in rw s.1 (user_agrees s.0 path)
    | inr h ↦ elim (Bool-cases (starts_with arg (codes "--path="))) [
      | inl h₁ ↦ let s = starts_with_sound arg (codes "--path=") h₁ in rw s.1 (path_agrees s.0 user)
      | inr h₁ ↦
          let s = starts_with_sound arg (codes "--help") (ground arith) in rw s.1 (help_agrees s.0)
    ]
  ]

-- One option, and the rest of them.
parse_step :
    (arg : Text) (args : List Text) (a : AgentOptions) (c : ClientOptions)
    (pa : Parsed AgentOptions) (pc : Parsed ClientOptions)
    (rest : (o : AgentOptions) (p : ClientOptions)
      → o.path ≡ p.path
      → o.user_specific ≡ p.user_specific
      → pipe_of_agent (parse_agent args o) ≡ pipe_of_client (parse_client args p))
    → agent_option arg a ≡ pa
    → client_option arg c ≡ pc
    → pipe_of_agent pa ≡ pipe_of_client pc
    → pipe_of_agent (parse_agent (arg ∷ args) a) ≡ pipe_of_client (parse_client (arg ∷ args) c)
unfolding parse_agent parse_client
parse_step arg args a c (accepted o) (accepted p) rest ea ec same = ground (arith, ea, ec, rest o p)
parse_step arg args a c (accepted o) refused rest ea ec same = ground (arith, ea, ec)
parse_step arg args a c (accepted o) thrown rest ea ec same = ground (arith, ea, ec)
parse_step arg args a c refused (accepted p) rest ea ec same = ground (arith, ea, ec)
parse_step arg args a c refused refused rest ea ec same = ground (arith, ea, ec)
parse_step arg args a c refused thrown rest ea ec same = ground (arith, ea, ec)
parse_step arg args a c thrown (accepted p) rest ea ec same = ground (arith, ea, ec)
parse_step arg args a c thrown refused rest ea ec same = ground (arith, ea, ec)
parse_step arg args a c thrown thrown rest ea ec same = ground (arith, ea, ec)

parse_from :
    (args : List Text) (a : AgentOptions) (c : ClientOptions)
    → all_common args ≡ true
    → a.path ≡ c.path
    → a.user_specific ≡ c.user_specific
    → pipe_of_agent (parse_agent args a) ≡ pipe_of_client (parse_client args c)
unfolding parse_agent parse_client
parse_from [] a c common path user = ground arith
parse_from (arg ∷ args) a c common path user =
    let rest : all_common args ≡ true = ground arith in
    parse_step arg args a c _ _ (λ o p. parse_from args o p rest) refl refl
      (option_agrees a c arg path user (ground arith))

-- An agent and a client that are started with the same arguments, all of them options that both
-- know (--user, --path=, --help), come to the same outcome; where that is to accept, they have the
-- same path and make the same choice of a user specific pipe.
pub parse_client-parse_agent :
    (args : List Text)
    → all_common args ≡ true
    → pipe_of_agent (parse_agent args agent_defaults)
      ≡ pipe_of_client (parse_client args client_defaults)
parse_client-parse_agent args common =
    parse_from args agent_defaults client_defaults common refl refl
