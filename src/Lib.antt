-- ===== src/Lib.antt =====
-- Crobe runs compliance playbooks: sections of assertions, each of which runs commands on a machine,
-- scores what they print, and is entered in a trace from which a report is made. A playbook is loaded,
-- validated, perhaps preprocessed by the builder, and run by the director, which calls the executor for
-- each command and an observer for each event. A local server holds the state for the web pages.
--
-- The parts, and the files that model them:
--   Playbook             playbook/playbook_types.go: the records, and the getters with their defaults
--   Playbook/Validator   playbook/validator.go: `Validate` of playbooks, sections and assertions
--   Playbook/Elevation   playbook/playbook_elevation.go: `ElevationStats`
--   Transpile            internal/transpile/preprocess.go: `Preprocess`
--   Executor             executor/executor.go: `RunExec`, `RunJS`, `PerformGather`, `EvaluateRule`,
--                        `CleanupOutput`
--   Director             director/director.go, director/observer.go, executor/trace_types.go:
--                        `RunWithObserver` and `unwindRemaining`
--   Report               report/report.go: the structured part of `GenerateReport`
--   Server/State         internal/server/state.go, internal/server/types.go: `StateManager`
--   Server/Handlers      internal/server/server.go: the state that the handlers share, and shutdown
--   Server/Auth          internal/server/auth.go: the test of `AuthMiddleware`
--   Server/Observer, Server/Runs
--                        internal/server/handlers_execution.go: the server's observer and the runs
--   Server/Destination   internal/server/report_destination.go: the checks of an endpoint
--   Server/Requests      internal/server/handlers_playbook.go, internal/server/handlers_destination.go,
--                        internal/server/handlers_shutdown.go
--   Server/Reports       internal/server/handlers_report.go
--   Server/Steps         the requests and the goroutines of the server as a machine of steps, with what
--                        holds in the states that it reaches: Asked, Kept, Orderly, Exclusive, Cancelled, Mirror,
--                        Live and Overtaken
--   Server/Lifecycle     internal/server/lifecycle.go: `LifecycleManager`
--   Server/Events        internal/server/events.go: `EventBroker`
--   Runner               internal/runner/runner.go: the decisions of `Run`, and the run without web pages
--   ReportWriter         internal/reportwriter/httpWriter.go: `WriteToHTTP`
--   Elevation            internal/elevation/client.go, internal/elevation/protocol.go: `Client`
--   Elevation/Worker     internal/elevation/worker.go: the loop of `RunWorker`, and the steps of both
--   Elevation/Setup      internal/elevation/elevation.go: `SetupElevation`
--   Examples             concrete playbooks, runs and histories
-- Common has what they share: tests, lists, integers, the texts of Go's `strings`, and results.
--
-- A slice is a list, a nil pointer is `none`, a map is an association list, a Go error is a text or a
-- `Result`. An `int` is an integer, whose addition wraps around at 64 bits; a count of things in memory
-- is a natural number. The time is in milliseconds and does not go back.
--
-- The outside is the record `Executor.Host`: a world that each call passes on, the engine of JavaScript,
-- regular expressions, the runners of commands, the clock and the cancellation of the run. The director
-- takes the executor as an argument, as the variable `runExec` of the source does, and its loops are
-- structural recursions over the playbook, with the trace, the totals, the world and the events of the
-- observer as their state: no fuel is needed, since every loop of the source ranges over a slice. Fuel
-- occurs in the digits of a number only, which are fewer than the number's successor.
--
-- A method of the server holds its mutex from its first line to its return, so it is one step, and an
-- interleaving is a list of steps. A timer's callback is a step that may come at any time. A handler
-- of a request is one step as well, with the broadcasts that follow its lock, and so is each call of
-- the observer, but for two kinds: a handler that loads a playbook asks `CanMutate` and reads in one
-- step, and loads in another, and the handler of a cancellation sets the status in one step, and calls
-- the cancel function in another. Between the two steps of a handler anything may come. The end of a
-- run or a submission is one step with its broadcast and the call of the lifecycle manager, and so is
-- shutdown. What holds only if no playbook is loaded while a run or a submission is under way says so.
-- The client of the elevated worker and the worker are joined by two queues of messages, and their
-- steps are a relation; its counter wraps around at 64 bits. The handler of the destination asks
-- `CanMutate` as well, but the method that it calls asks again.
--
-- Not modelled: reading and writing files, starting processes, opening sockets and sending HTTP requests,
-- the headers of answers, the archive of a report, esbuild, the desktop integration, the
-- embedded web pages and the generated schema; the markdown and the log of a report; listening and signals
-- in the command line. A nil context stands for one that is never cancelled, and a nil observer for one
-- that ignores its events.

pub mod Common
pub mod Playbook
pub mod Transpile
pub mod Executor
pub mod Director
pub mod Report
pub mod Runner
pub mod Server
pub mod Examples
pub mod Elevation
pub mod ReportWriter
