-- ===== src/Examples/Verdicts.antt =====
-- The verdicts on some responses, the filling of buffers, the wait for a response, and some callbacks.
use bw2c.Base.{ℕ, ◌≡◌, refl, Bool, true, false, Option, none, some, [], ◌∷◌, Bytes, codes}
use bw2c.Clib.{strncmp_eq}
use bw2c.Run.{Error, ok, spin, response_status, connection_lost}
use bw2c.Frame.{Frame, get_first_header, frame_must_response}
use bw2c.Objects.{
  Buffer, subscription_handle_set, vk_set, vk_hash_set, dot_set, dot_hash_set, dot_chain_hash_set,
}
use bw2c.Daemon.Request.{
  ReqCtx, simple_req, create_dot, list, child, reqctx_wait, reqctx_signal, reqctx_signalled,
}
use bw2c.Api.Callbacks.{
  callback, create_dot_cb, list_cb, list_later, signal_last, set_from_header, set_from_po,
  header_slice, deliver, deliver_loss,
}
use bw2c.Daemon.Client.{Client, client_init, is_connected}
use bw2c.Examples.Wire.{text_po}
use bw2c.Examples.Calls.{header, hash}

-- A response, with the value of its header "status".
abbrev response_of : ℕ → Bytes → Frame
response_of n v = record {
  cmd = codes "resp";
  seqno = 1;
  hdrs = header (codes "status") n v ∷ [];
  pos = [];
  ros = [];
}

okay_test : frame_must_response (response_of 4 (codes "okay")) ≡ none
unfolding frame_must_response get_first_header strncmp_eq
okay_test = refl

error_test : frame_must_response (response_of 5 (codes "error")) ≡ some response_status
unfolding frame_must_response get_first_header strncmp_eq
error_test = refl

-- An empty status passes for "okay".
empty_status_test : frame_must_response (response_of 0 []) ≡ none
unfolding frame_must_response get_first_header strncmp_eq
empty_status_test = refl

abbrev long_blob : Bytes
long_blob = codes "0123456789012345678901234567890123456789"

handle_test :
    subscription_handle_set long_blob 40
    ≡ record { arr = codes "012345678901234567890123456789"; len = 30 }
unfolding subscription_handle_set
handle_test = refl

vk_test : vk_set (codes "abc") 2 ≡ record { arr = codes "ab"; len = 2 }
unfolding vk_set
vk_test = refl

vk_hash_test : vk_hash_set (codes "abc") 3 ≡ record { arr = codes "abc"; len = 3 }
unfolding vk_hash_set
vk_hash_test = refl

dot_test : dot_set (codes "abc") 1 ≡ record { arr = codes "a"; len = 1 }
unfolding dot_set
dot_test = refl

dot_hash_test : dot_hash_set (codes "abc") 0 ≡ record { arr = []; len = 0 }
unfolding dot_hash_set
dot_hash_test = refl

dot_chain_hash_test : dot_chain_hash_set long_blob 40 ≡ record { arr = long_blob; len = 40 }
unfolding dot_chain_hash_set
dot_chain_hash_test = refl

abbrev context : Bool → Option Error → ReqCtx
context ready rv = record {
  onframe = simple_req;
  ready = ready;
  rv = rv;
  seqno = 1;
  handle = none;
  delivered = [];
}

abbrev wakeup : ReqCtx → Unit {0} × ReqCtx
wakeup r = (tt, r)

-- The caller wakes up twice, and goes on at the second time.
wait_test :
    reqctx_wait (wakeup (context false none) ∷ wakeup (context true (some response_status)) ∷ [])
    ≡ ok (context true (some response_status)) tt
unfolding reqctx_wait
wait_test = refl

no_wakeup_test : reqctx_wait (wakeup (context false none) ∷ []) ≡ spin
unfolding reqctx_wait
no_wakeup_test = refl

abbrev new_client : Client
new_client = record { reqs = []; curseqno = 0; connected = false; closed = 0; ended = [] }

init_test : client_init true true true ≡ ok tt new_client
unfolding client_init
init_test = refl

connected_test : is_connected new_client ≡ false
unfolding is_connected
connected_test = refl

abbrev dot_frame : Frame
dot_frame = record {
  cmd = codes "resp";
  seqno = 1;
  hdrs = header (codes "hash") 3 (codes "xyz") ∷ header (codes "status") 4 (codes "okay") ∷ [];
  pos = text_po ∷ [];
  ros = [];
}

abbrev empty : Buffer
empty = record { arr = []; len = 0 }

-- The hash and the object of a new DOT are handed over.
create_dot_cb_test :
    callback (create_dot (some empty) (some empty)) (some dot_frame) true (context false none)
    ≡ some (
      true,
      record (context true none) {
        onframe = create_dot (some hash) (some (record { arr = codes "hi"; len = 2 }));
      },
    )
unfolding callback create_dot_cb signal_last reqctx_signal set_from_header set_from_po dot_hash_set
    dot_set frame_must_response get_first_header strncmp_eq
create_dot_cb_test = refl

-- A frame without a child is delivered as a null pointer, and so is the loss of the connection.
list_cb_test :
    callback (list (some λ ds. false)) (some dot_frame) false (context true none)
    ≡ some (false, record (context true none) { delivered = child none false none ∷ [] })
unfolding callback list_cb list_later reqctx_signalled deliver header_slice get_first_header
    strncmp_eq
list_cb_test = refl

list_loss_test :
    callback (list (some λ ds. false)) none true (context true (some connection_lost))
    ≡ some (
      true,
      record (context true (some connection_lost)) {
        delivered = child none true (some connection_lost) ∷ [];
      },
    )
unfolding callback list_cb list_later reqctx_signalled deliver_loss
list_loss_test = refl
