-- ===== src/Lib.antt =====
-- The content analysis SDK: an agent that analyses content for browsers, and the browser's end of
-- the connection, over Windows named pipes.
--
-- An agent (agent/src/agent_win.cc) owns a list of connections, each with a pipe, and a stop event.
-- HandleEvents waits for the event of a connection. A listening connection accepts a browser; a
-- connected one reads the next part of a message, and a whole message is handed to the embedder's
-- AgentEventHandler, a request as a ContentAnalysisEvent that carries its own response. The client
-- (browser/src/client_win.cc) connects to a pipe of the agent, sends requests, acknowledgements and
-- cancellations, and reads responses. demo/ holds an agent and a client that use both.
--
-- ResultCode    agent/include/content_analysis/sdk/result_codes.inc, agent/src/agent_utils_win.cc
-- Proto         proto/content_analysis/sdk/analysis.proto and the accessors of its messages
-- Windows       the operating system calls of the program, a parameter of everything that uses them;
--               Windows.Messages and Windows.Handles say what is documented of pipes in message mode and
--               of the handles of a process
-- Event         agent/src/event_base.cc (UpdateResponse, SetEventVerdictTo) and event_win.cc (Init,
--               Send, Close, Shutdown, WriteMessageToPipe)
-- PipeName      common/utils_win.cc (GetUserSID, BuildPipeName, CreatePipe, GetProcessPath)
-- PrintHandle   agent/src/scoped_print_handle_win.cc and scoped_print_handle_base.cc
-- Host          the handler of agent/include/content_analysis/sdk/analysis_agent.h, the operating
--               system and the generated message code together
-- Connection    AgentWin::Connection of agent/src/agent_win.cc: `new_connection` and
--               `delete_connection` are the constructor and the destructor, `reset_internal` is
--               ResetInternal, `cleanup` is Cleanup; Connection.Reading is HandleEvent with
--               OnReadFile, QueueReadFile, CallHandler and BuildBrowserInfo
-- Agent         AgentWin: Create, HandleOneEvent, HandleEvents, Stop, Shutdown
-- Client        ClientWin: Create, ConnectToPipe, Send, Acknowledge, CancelRequests, Shutdown
-- Demo          demo/handler.h: Demo.Handler is the verdict and the response of AnalyzeContent,
--               Demo.Dump is DumpEvent, Demo.Delay is GetFileSpecificDelay, Demo.Analysis is
--               AnalyzeContent as a whole, Demo.Callbacks are the methods that the agent calls,
--               Demo.Workers are the threads of QueuingHandler over demo/request_queue.h
--               demo/client.cc: Demo.Requests is BuildRequest, Demo.Grouping and Demo.Severity are
--               what HandleRequest does with a response, Demo.Grouping.Threads are the threads of main,
--               Demo.Session is main with the calls of the library, Demo.Output is DumpResponse
--               demo/agent.cc: Demo.Serving is main; Demo.CommandLine are both command lines
-- UnitTests     agent/src/event_win_unittest.cc, and the test handlers, the tests in one thread and the
--               client threads of agent/src/agent_win_unittest.cc
-- Conversation  the library's two ends and the two programs of the demo together: the browser's
--               message up to the handler (Requests), a request up to the bytes of its response
--               (Service, Serving), the response up to the acknowledgement (Verdicts, Answers)
-- Tests         an operating system that can be run, and the theorems at concrete inputs
--
-- Each operation is a function that takes the state before it and returns its result and the state
-- after it. The state of the operating system is abstract: a call is an arbitrary function on it,
-- and a theorem that relies on what is documented of a call has that as a hypothesis. The state of
-- the agent's surroundings (`State`) keeps beside it the calls of the handler, newest first; what
-- the handler does to the operating system is an arbitrary function. A DWORD wraps at 2 ^ 32, and
-- a size that the source narrows to an int has what the source does from 2 ^ 31 on as a case or as a
-- parameter of its own.
--
-- Loops that the source does not bound run for a number of rounds. The loop of the agent's
-- WriteMessageToPipe has one round for each byte of the message, which is enough where a completed
-- write is of at least one byte. The loops of the client and of HandleEvents give `running` or
-- `none` when the rounds run out. The threads of the demo are step relations: a step of the request
-- queue holds its lock, and so does a step that records an answer.
--
-- What the program takes from the C and C++ library and from the files of the machine (`ctime`,
-- `sscanf` on a number out of range, the text of a pointer, the content of a file) is a parameter;
-- the code that the build generates from analysis.proto is one too. Times are not negative.
--
-- Not modelled: two threads of the client in GenerateRequestToken at once, the output of PrintHelp
-- and of QueuingHandler, the sharing of std::cout between threads, the Posix and Mac stubs, the
-- interleaving of the agent and a client in its unit tests, and the pointers to the functions of
-- NtDll.dll that the client keeps between two lookups. An allocation does not fail.
pub mod Prelude
pub mod ResultCode
pub mod Proto
pub mod Windows
pub mod Event
pub mod PipeName
pub mod PrintHandle
pub mod Host
pub mod Connection
pub mod Agent
pub mod Client
pub mod Demo
pub mod UnitTests
pub mod Conversation
mod Tests
