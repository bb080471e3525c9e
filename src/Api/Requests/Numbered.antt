-- ===== src/Api/Requests/Numbered.antt =====
-- The number that `bw2_frameInit` puts into a request stays there, whatever the macros add.
use bw2c.Base.{ℕ, ◌≡◌, ◌∙◌, Bool, Option, arith, Bytes}
use bw2c.Frame.{Frame, frame_init, append_kv, append_ro}
use bw2c.Objects.{Buffer}
use bw2c.Api.Params.{Tm, SubscribeParams}
use bw2c.Api.Requests.{
  add, add_autochain, add_expiry, add_uri, add_primary_access_chain, add_routing_objects,
  add_elaborate_pac, add_leave_packed, add_verify, listen_request, query_request,
}

add_autochain-seqno : (b : Bool) (req : Frame) → (add_autochain b req).seqno ≡ req.seqno
unfolding add_autochain add append_kv
add_autochain-seqno b req = ground arith

add_expiry-seqno :
    (t : Option Tm) (delta : ℕ) (req : Frame) → (add_expiry t delta req).seqno ≡ req.seqno
unfolding add_expiry add append_kv
add_expiry-seqno t delta req = ground arith

add_primary_access_chain-seqno :
    (pac : Option Buffer) (req : Frame) → (add_primary_access_chain pac req).seqno ≡ req.seqno
unfolding add_primary_access_chain add append_kv
add_primary_access_chain-seqno pac req = ground arith

add_elaborate_pac-seqno :
    (pac : Option Bytes) (req : Frame) → (add_elaborate_pac pac req).seqno ≡ req.seqno
unfolding add_elaborate_pac add append_kv
add_elaborate_pac-seqno pac req = ground arith

add_leave_packed-seqno : (b : Bool) (req : Frame) → (add_leave_packed b req).seqno ≡ req.seqno
unfolding add_leave_packed add append_kv
add_leave_packed-seqno b req = ground arith

pub query_request-seqno : (p : SubscribeParams) (n : ℕ) → (query_request p n).seqno ≡ n
unfolding query_request listen_request add_verify add_uri add_routing_objects append_ro add
    append_kv frame_init
query_request-seqno p n =
    add_leave_packed-seqno p.leave_packed _
    ∙ add_elaborate_pac-seqno p.elaborate_pac _
    ∙ add_primary_access_chain-seqno p.primary_access_chain _
    ∙ add_expiry-seqno p.expiry p.expiry_delta _
    ∙ add_autochain-seqno p.autochain _
