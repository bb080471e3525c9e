-- ===== src/Lib.antt =====
-- bw2c, the C bindings of BOSSWAVE: a client that sends requests to a BOSSWAVE router as frames, and a
-- daemon thread that reads the frames that come back and hands them to the requests they answer.
--
-- The parts, and the files that model them:
-- - errors.h: Run.antt. A function that returns 0 or a code is a command on a state, whose result is a
--   value (`ok`), a code (`err`), undefined behaviour (`fault`, a null pointer that is followed), or a
--   loop that outlasts its fuel (`spin`). Run/Reads and Run/Writes say what it means that a command
--   takes given bytes off a connection, or puts them on one; Run/Ends, that it ends, and Run/Yields,
--   what a value that it returns satisfies, whatever the input is.
-- - The operating system: Os.antt. `recv`, `send` and `malloc` are parameters, records with their
--   documented behaviour. Os/Queue.antt has concrete functions that meet them. osutil.c: Os/Linux and
--   Os/Riot, its wrappers on functions of pthread and of the RIOT kernel.
-- - utils.h and utils.c: Utils/Reading and Utils/Writing (the reading and writing of bytes), Utils/DotForm
--   (`bw2_ponum_from_dot_form`), Utils/Logging, with proofs in Utils/Reads, Utils/Sends, Utils/Ends
--   and Utils/Stored.
-- - The C library's texts: Clib.antt and its children, the functions that the code calls, on lists of
--   bytes that end at a NUL (`strtoull`, `strncmp`, `strchr`, the formats of `snprintf`).
-- - frame.h and frame.c: Frame.antt (the structs, the building of frames, the verdict on a response, the
--   lengths), Frame/Write (`bw2_writeFrame`), Frame/Read (`bw2_readFrame`), Frame/Free
--   (`bw2_frameFreeResources`). Frame/Wire is the wire format as bytes, written without a look at the
--   code. The proofs on both stand in Frame/Sends,
--   Frame/FirstLine, Frame/Objects, Frame/RoundTrip and Frame/Faults, and those on input of any kind
--   in Frame/Ends, Frame/Bounds and Frame/Bounded. Frame/Verdict is about `bw2_frameMustResponse`.
-- - objects.h and objects.c: Objects.antt. ponames.h: Ponames.antt, the whole table.
-- - api.h and api.c: Api/Params (the parameter structs), Api/Requests (the frame of each call, by the
--   macros BW2_REQUEST_ADD_*, and what valid parameters are), Api/Callbacks (the functions that take
--   the answers), Api/Calls (the calls as wholes, from the number that is drawn to the code that is
--   returned). What the other threads do while a call waits is an argument of the call.
-- - daemon.h and daemon.c: Daemon/Request (`struct bw2_reqctx`), Daemon/Dispatch (the loops over the
--   outstanding requests), Daemon/Client (`struct bw2_client`, `bw2_transact`, and the functions of
--   api.c on the client), Daemon/Loop (`bw2_daemon`), Daemon/Connect (`bw2_connect` of api.c and the
--   thread that it starts). Daemon/Steps takes what the threads do under their locks as steps in any
--   order, the rounds in which the daemon releases a lost connection and the last assignment of
--   `bw2_connect` among them; Daemon/Steps/Sound is the invariant. Daemon/Wait takes
--   `bw2_reqctxWait` and `bw2_reqctxSignal` apart into the steps of two threads, with the lock, the
--   condition variable and the wakeups that nobody signalled.
-- - Examples: concrete inputs, at which the theorems are applied.
--
-- How the C state is modelled: a byte is a number below 256, a buffer is the list of its bytes, a
-- linked list is the list of its nodes, a pointer that may be NULL is an option. Machine integers
-- are natural numbers with the remainder written out where the code wraps around, on a machine with
-- 64-bit sizes. A callback has the buffers that it fills as its arguments, and the calls of the
-- application as a trace in the request.
--
-- Fuel: reading a frame takes a round for each object, so that the bytes under way, and one more, are
-- enough on any input for the loops to end; writing an array takes a round for each call of `send`;
-- the daemon takes a round for each frame. The theorems state how much is enough. The loops over a
-- known length have that length as their fuel.
--
-- Not modelled: the locks, but for Daemon/Wait (a function that holds one is one step), the end of a
-- context's lock (`bw2_reqctxDestroy`), and how long the memory of a context that a caller owns lasts.
-- gen_allocations_c.py makes ponames.h.
pub mod Base
pub mod Clib
pub mod Run
pub mod Os
pub mod Utils
pub mod Frame
pub mod Ponames
pub mod Objects
pub mod Api
pub mod Daemon
pub mod Examples
