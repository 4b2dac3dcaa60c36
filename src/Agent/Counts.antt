-- ===== src/Agent/Counts.antt =====
-- The connections of the agent that have a browser, and those that know the handler, when the list
-- of connections changes (agent/src/agent_win.cc).
use content_analysis_sdk.Prelude.{
  ℕ, zero, suc, ◌+◌, true, some, List, [], ◌∷◌, ◌++◌, ◌≡◌, arith, get_elem?, set, erase_idx,
  if◌then◌else◌,
}
use content_analysis_sdk.Connection.{Connection}
use content_analysis_sdk.Agent.Listening.{connected}

-- Every connection has the agent's handler.
abbrev pub AllHandled : List Connection → Type 0
AllHandled [] = Unit {0}
AllHandled (c ∷ cs) = (c.has_handler ≡ true) × AllHandled cs

pub AllHandled-append :
    (cs : List Connection) (c : Connection)
    → AllHandled cs
    → c.has_handler ≡ true
    → AllHandled (cs ++ (c ∷ []))
AllHandled-append [] c h e = (e, tt)
AllHandled-append (d ∷ cs) c h e = (h.0, AllHandled-append cs c h.1 e)

pub AllHandled-set :
    (cs : List Connection) (i : ℕ) (c : Connection)
    → AllHandled cs
    → c.has_handler ≡ true
    → AllHandled (set cs i c)
AllHandled-set [] i c h e = tt
AllHandled-set (d ∷ cs) zero c h e = (e, h.1)
AllHandled-set (d ∷ cs) (suc i) c h e = (h.0, AllHandled-set cs i c h.1 e)

pub AllHandled-erase : (cs : List Connection) (i : ℕ) → AllHandled cs → AllHandled (erase_idx cs i)
AllHandled-erase [] i h = tt
AllHandled-erase (d ∷ cs) zero h = h.1
AllHandled-erase (d ∷ cs) (suc i) h = (h.0, AllHandled-erase cs i h.1)

pub AllHandled-get :
    (cs : List Connection) (i : ℕ) (c : Connection)
    → AllHandled cs
    → get_elem? cs i ≡ some c
    → c.has_handler ≡ true
AllHandled-get [] i c h e = ground arith
AllHandled-get (d ∷ cs) zero c h e = ground arith
AllHandled-get (d ∷ cs) (suc i) c h e = AllHandled-get cs i c h.1 e

pub connected-append :
    (cs ds : List Connection) → connected (cs ++ ds) ≡ connected cs + connected ds
connected-append [] ds = omega arith
connected-append (c ∷ cs) ds = omega (arith, connected-append cs ds)

pub connected-set :
    (cs : List Connection) (i : ℕ) (c c' : Connection)
    → get_elem? cs i ≡ some c
    → connected (set cs i c') + (if c.is_connected then 1 else 0)
      ≡ connected cs + (if c'.is_connected then 1 else 0)
connected-set [] i c c' e = ground arith
connected-set (d ∷ cs) zero c c' e = ground arith
connected-set (d ∷ cs) (suc i) c c' e = ground (arith, connected-set cs i c c' e)

pub connected-erase :
    (cs : List Connection) (i : ℕ) (c : Connection)
    → get_elem? cs i ≡ some c
    → connected (erase_idx cs i) + (if c.is_connected then 1 else 0) ≡ connected cs
connected-erase [] i c e = ground arith
connected-erase (d ∷ cs) zero c e = ground arith
connected-erase (d ∷ cs) (suc i) c e = ground (arith, connected-erase cs i c e)
