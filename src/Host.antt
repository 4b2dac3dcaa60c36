-- ===== src/Host.antt =====
-- What surrounds the agent: the operating system, the generated message code, and the embedder's
-- AgentEventHandler (agent/include/content_analysis/sdk/analysis_agent.h), whose methods run
-- arbitrary code. The state of the model keeps the calls of the handler, newest first, beside the
-- state of the operating system that the handler's code may change too.
use content_analysis_sdk.Prelude.{List, ◌∷◌, Text}
use content_analysis_sdk.ResultCode.{ResultCode}
use content_analysis_sdk.Proto.{
  ContentAnalysisAcknowledgement, ContentAnalysisCancelRequests, Protobuf,
}
use content_analysis_sdk.Windows.{Windows}
use content_analysis_sdk.Event.{BrowserInfo, Event}

-- A call of a method of AgentEventHandler.
pub data Callback : Type 0 where
  browser_connected browser_disconnected : BrowserInfo → Callback
  analysis_requested : Event → Callback
  response_acknowledged : ContentAnalysisAcknowledgement → Callback
  cancel_requests : ContentAnalysisCancelRequests → Callback
  internal_error : Text → ResultCode → Callback

pub record Host : Type 1 where
  pub os : Windows
  pub pb : Protobuf
  -- What the handler's method does to the operating system.
  pub handler : Callback → os.World → os.World

pub record State (host : Host) : Type 0 where
  pub world : host.os.World
  pub calls : List Callback

abbrev pub call : (host : Host) → Callback → State host → State host
call host c s = record { world = host.handler c s.world; calls = c ∷ s.calls }
