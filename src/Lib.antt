-- ===== src/Lib.antt =====
-- BlenderDesign: the bridge between a server and Blender, and the acceptance of assets.
--
-- The program has two halves that this library models. A server sends requests to a bridge inside
-- Blender: both sides share the protocol package (frames of bytes, JSON requests and responses), and
-- the bridge has an I/O thread, which reads requests and submits them to a queue, and Blender's main
-- thread, which runs the queue's tick. The acceptance takes the findings of many checks over an
-- asset and comes to a verdict and to the state of the candidate.
--
-- Which file models what:
--   Common         lists, results that raise, texts as sets, sorting, tests on numbers
--   Protocol/Framing   protocol/framing.py: encode_frame, FrameBuffer.feed (split_frames is its loop)
--   Protocol/Json      the values of Python's json module, and the length of a text in UTF-8
--   Protocol/Envelope  protocol/envelope.py: Request, encode_request, decode_request (request_of is
--                      what follows the JSON reader), error_frame, ok_frame_steps, ok_frame,
--                      decode_response
--   Bridge/Queue       bridge/core/queue.py: TaskQueue. submit, drain, complete_active, requeue and
--                      take_first are its critical sections; run_task is a round of the loop of tick
--   Bridge/Outbox      bridge/core/lifecycle.py: _Conn, send, _flush (flush_round is a round of its
--                      loop), and what _drop does to the connections, also where a socket stays open
--   Bridge/Dispatch    bridge/core/lifecycle.py: _read and _dispatch; bridge/core/session.py: verify
--   Bridge/Loop        bridge/core/lifecycle.py: _io_iterate (serve is what follows its selector)
--   Bridge/Router      bridge/core/router.py: handle (with_flags and scene_summary are its parts); the
--                      records of bridge/core/contracts.py
--   Bridge/Shutdown    bridge/core/lifecycle.py: stop, its steps and what they call (remove_own is
--                      the unlink or rmdir of one path, with the tests around it); its state, and
--                      the operations on single paths, are in Bridge/Shutdown/State
--   Server/Response    server/core/bridge_client.py: _response_result
--   Server/Client      server/core/bridge_client.py: BridgeClient.call and the methods it uses
--                      (exchange is the body of its try; after_x is what follows a call of x);
--                      Server/Client/Socket has what a call sees of the socket
--   Acceptance/FailureCodes  acceptance/failure_codes.py, and the exceptions
--   Acceptance/Registry      acceptance/check_registry.py: the table of checks
--   Acceptance/Contract      acceptance/contract.py: the fields that the decision reads, allowlisted
--   Acceptance/Paths         acceptance/input_bundle.py: valid_id, relative_path
--   Acceptance/Plan          acceptance/plan.py: FileSpec, assemble_plan (plan_job is a round of its loop);
--                            Acceptance/Plan/Jobs has the tests of a JobSpec
--   Acceptance/Outcome       acceptance/decide.py: Finding, CheckOutcome, Gate, Verdict
--   Acceptance/Aggregate     acceptance/decide.py: aggregate
--   Acceptance/Decide        acceptance/decide.py: decide
--   Acceptance/Technical     acceptance/decide.py: decide_technical, technical_state
--   Acceptance/Dicts         dicts built from pairs, of the decision and the stages
--   Acceptance/Stages        acceptance/stages.py: run_r0, run_r1
--   Acceptance/Canonical     acceptance/canonical.py: canonicalize, digest (emit is _emit, number is
--                            _number of a float, number_of_int of an int, positive its last part)
--   Acceptance/Strict        acceptance/strict_json.py: reject_duplicate_keys, finite_json_float
--   Tests              the theorems at concrete inputs
--
-- How state is modelled. A FrameBuffer is a record with its bytes, and feed returns it with the
-- frames or the error. The queue is a record with its tasks and its two counters; tick runs over a
-- World, which is that record, the number of observations made so far and the events shown outside
-- (replies, dropped tasks, closed generators). Step in Bridge/Queue/Interleaving is one critical
-- section of either thread, and Reach any interleaving of them. In Bridge/Outbox/Wire, Traffic is
-- any history of a connection: frames accepted between the rounds of _flush; in
-- Bridge/Outbox/Changes, Change is one change of the connections by either thread. A World of
-- Bridge/Shutdown is the session's transport and the nodes at its paths. Python exceptions are
-- values.
--
-- What is a parameter. JsonCodec stands for the json module: a reader, and the pieces of text that
-- its encoder hands out, as UTF-8 (a text that UTF-8 cannot encode is not handed out). Env stands
-- for what tick reads from outside: the clock, in milliseconds, the cancellation events, the handler
-- and the generators that it returns, and the frame for a failed request.
--
-- The client of the bridge reads its clock, in microseconds, its socket and check_cancelled from an
-- Env of its own, by the number of answers read so far.
--
-- For the canonical JSON, Floats and Unicode stand for Python's floats and encoders, and digest takes sha256. For the stages,
-- Path.resolve and verify_blender_gltf are parameters.
--
-- What the system's calls come to in one stop is an Env again: which sockets refuse to close,
-- whether the I/O thread ends in time, which paths cannot be read or removed, and what another process
-- does to a path between its check and its removal, which no check can rule out. Apart from that, the
-- nodes at the session's paths change by the stop only. What they come to in one round of the I/O thread
-- is an Events: what the peers send, whether accept and setblocking raise, which sockets do not close.
--
-- Bounds and fuel. Lengths and counters are natural numbers. split_frames runs on the length of its
-- buffer as fuel; a round removes at least the four bytes of a header, so it never runs out.
-- tick_loop runs on fuel and returns none where it runs out; each round looks at the clock, so fuel
-- for as many rounds as there are looks until the end of the budget is enough. The loops of the
-- client run on fuel, one for each round, and a round that starts after the deadline raises.
-- Subtraction stops at zero: where the code subtracts from a counter, it takes away what it added to
-- it before.
--
-- What is not modelled: sockets; of bridge/core/lifecycle.py start and the loop around _io_iterate;
-- the session file, Blender data, the discovery of bridges and the audit log of the server,
-- evidence files, processes, the installer, log lines, and the wording of error
-- messages. Tests of the code on the dynamic type of a field have no counterpart, since the fields
-- of the records are typed.
pub mod Common
pub mod Protocol
pub mod Acceptance
pub mod Bridge
pub mod Server
mod Tests
