-- ===== src/Lib.antt =====
-- kinby: agents that run as instances, and a hub that runs factories of steps over them.
--
-- The parts. An instance answers calls: its gate decides whether a tool call may run, by the
-- policy, the mode and the ceiling, and tells a bash command that only reads inside the
-- workspace; it answers each step call of a factory run once; and it folds its event log into the
-- history of its routines, by which its scheduler fires them and disables those that keep
-- failing. The hub takes work items in, keeps a row of each factory run in its registry, sends
-- the steps to the instances, and settles each result by the factory's file: the run moves on,
-- goes back, is tried again, ends, or needs a human. A signal moves a run that waits for it on.
-- The hub also knows what the user approved on the home instance, and its outbox raises the
-- notifications of the instances and delivers each to every channel; what the user replies comes
-- back to the instance, to the run's stop or to the channel's mutes. On the instance, turns claim
-- their threads, park on approvals and takeovers, and are interrupted; what holds the instance
-- decides which turn, step or revert it takes. A factory step runs there as a turn, a coding
-- client, commands or a tool, and its hook records the result that the hub settles.
--
-- Which file models what (paths below src/kinby):
--   Common           lists, dicts, counters, texts and Booleans as the parts use them
--   Contracts        contracts/models.py: the types shared by the parts
--   Gate             core/gate.py, evaluate; Gate/Modes: instance/permissions.py, constrain_mode;
--                    Gate/Unasked joins the gate and the shell reads
--   Factory/File     factories/file.py: the declarations of a factory
--   Factory/Check    factories/check.py, _order; Factory/Check/Inputs: _inputs;
--                    Factory/Check/Resumes: _resumes
--   Runs/Values      hub/runs.py: _step, _earlier, _lacking, _value_type
--   Runs/Tally       hub/runs.py: _tally, _outcome, _failed_to, _retries
--   Runs/Settle      hub/runs.py: _settled, _checked_done, _checked_types, _noted
--   Runs/Results     hub/runs.py: _results
--   Runs/Row         hub/registry.py: the rows of a run and the statements that change them
--   Runs/Engine      hub/runs.py: _settle, _move, _park_until, _advance
--   Runs/Deliver     hub/runs.py: _deliver, _next_backoff
--   Runs/Commands    hub/runs.py: retry, send_back, approve, cancel
--   Runs/Unmet       hub/runs.py: _unmet, _branch
--   Runs/Signals     hub/runs.py: signal_accepted, _matches, _signal_field
--   Runs/Intake      hub/runs.py: _work_item_errors
--   Runs/Sessions    hub/runs.py: _session
--   HeldResults      core/held_results.py: answer, _run
--   Approvals        hub/approvals.py: HomeApprovals
--   Routines         core/routine_history.py: routine_history, with the payloads it reads in
--                    Routines/Data
--   Scheduler/Files     plugins/routines.py: the routine files, disable_routine
--   Scheduler/Failures  core/scheduler.py: _handle_failures, _reset_failures
--   Scheduler/Tick      core/scheduler.py: _arm, the choice of tick, the arming of _fire
--   ShellReads/Lexer    core/shell_reads.py: _TOKEN
--   ShellReads/Words    core/shell_reads.py: _commands, _unquoted
--   ShellReads/Guards   core/shell_reads.py: is_shell_read, _reads, _unsafe, _confined, _inside
--   Outbox/Store        hub/registry.py: the tables and statements of the notifications
--   Outbox/Raise        hub/outbox.py: raise_notification, notify
--   Outbox/Deliver      hub/outbox.py: _deliver
--   Replies/Store       hub/registry.py: the table and statements of the replies, and their joins
--   Replies/Apply       hub/replies.py: _applied, _settled, _apply
--   Replies/Tasks       hub/replies.py: reply, _take, _record, resume, and the tasks over all of
--                       them
--   Turns/Thread        core/turns.py: what a thread holds, _live, _parked, _turn_origin;
--                       core/threads.py: parked_on
--   Turns/Moves         core/turns.py: _wake, interrupt, _abandon, _resume_parked, _spawn, emit,
--                       on their thread
--   Turns/Instance      core/turns.py: require_available, wake, wake_recorded, step, step_turn,
--                       respond, _claim_revert
--   Steps/Coding        core/coding_clients.py: _run, run_coding_client, _reported, own_tokens
--   Steps/Results       core/steps.py: _failed, _bounded
--   Steps/Commands      core/steps.py: run_command_step, _commands, _run_command
--   Steps/Kinds         core/steps.py: _run_agent_step, _run_client_step, _run_code_step
--   Steps/Run           core/steps.py: run_step, _recorded
-- Runs/Budget, Runs/Termination and the folders below a part hold the lemmas and the theorems,
-- and Examples runs them at concrete inputs.
--
-- How it is modelled. A dict is an association list in insertion order. An attempt's rowid is its
-- place among the run's attempts. A method that changes a run maps a row to a row and to the
-- effects it starts beside it (publishing, queueing, reports). Concurrency is a sequence of
-- events: what is sent, what comes back, a restart. An exception is a value of the result: none,
-- or a constructor that names it. Times are natural numbers. The printing of a number in decimal
-- runs on fuel, which is the number itself and one more, and so do the delivery loop of the
-- outbox and the loop that applies a reply, for which 294 rounds are enough: the waits before the
-- 294th round last a day together, after which the loop gives up. The loop of `_session` runs on
-- the number of steps and one more. A regular expression of the shell reads is written out as the
-- length of its match, and a text is walked with a count of the characters that are already
-- behind, so that the walk is over the text itself.
--
-- The tasks that apply replies are one state (the hub's tables, the tasks, the one that holds the
-- lock and what it waits for, and the calls that ended), which events change. What a call of an
-- instance or a run's stop answers is part of its event.
--
-- An operation of the turns is cut at its waits, and what happens is a list of such pieces in any
-- order. A claim's identity is a number and the operation that holds it. A turn's first event and
-- its continuation after it are one piece, and so are a closing event and what follows it. The id
-- of a new turn is one that its thread has no start of, and a kept delivery's turn starts on a
-- thread that is parked on no routine's turn, which would be the delivery's own. Snapshots,
-- modes, messages and the counts of tokens are not part of the state.
--
-- Parameters. In the record Surroundings of Gate: re.search, the resolving of paths, from
-- Python's library, and the shell reads of its workspace. In Classes and Files of ShellReads: the
-- character classes of re, glob and the paths of pathlib. In Calendar of Outbox/Raise: the date
-- and the midnight of a time. What a channel's sender does, and what other tasks change while the
-- delivery loop waits. The next time of a cron schedule, of the library cronsim. The headers of a
-- signal are the lookup of the framework's mapping. The text of Python's KeyError is a parameter
-- of the replies. In Texts of Steps/Coding: str.strip, the grouping of digits, and the size of a
-- result in JSON. In Instance of Steps/Run: what a turn, a client's process and streams, the
-- commands, tools and hooks of a step come to.
--
-- Not modelled: the timers that end a wait's quiet time or deadline and that queue a limited run
-- again at its reset, resuming after a restart of the hub, the queues of runs, the scheduler's
-- worker task and its receiving of deliveries, the pages of the outbox, the modes, snapshots,
-- budgets and metrics of turns, the runner of turns, the streams of the coding clients, memory,
-- Docker, the web app and the command line.
pub mod Common
pub mod Contracts
pub mod Gate
pub mod Factory
pub mod Runs
pub mod ShellReads
pub mod HeldResults
pub mod Approvals
pub mod Outbox
pub mod Examples
pub mod Routines
pub mod Scheduler
pub mod Replies
pub mod Turns
pub mod Steps
