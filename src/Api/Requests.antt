-- ===== src/Api/Requests.antt =====
-- The frames that the functions of api.c send: one function for each BW2_REQUEST_ADD_* macro, and the
-- request of each call as the macros in their order.
pub mod Carries
pub mod Sendable
pub mod Macros
pub mod Requirements
pub mod Valid
pub mod Digits
pub mod Numbered
use bw2c.Base.{
  ℕ, Bool, not, Option, none, some, List, [], ◌∷◌, ◌++◌, ◌==◌, if◌then◌else◌, Bytes, codes, take,
}
use bw2c.Clib.{decimal, zero_pad}
use bw2c.Frame.{
  PayloadObj, RoutingObj, Frame, cmd_bytes, frame_init, kv_init, po_init, append_kv, append_po,
  append_ro, publish, persist, subscribe, query, list, set_entity, make_dot, make_entity,
  make_chain, build_chain, unsubscribe,
}
use bw2c.Objects.{Buffer}
use bw2c.Ponames.{ro_entity_w_key}
use bw2c.Api.Params.{
  Tm, PublishParams, SubscribeParams, ListParams, CreateDotParams, CreateDotChainParams,
  CreateEntityParams, BuildChainParams,
}

-- One header, of a C string or of a buffer with its length.
unfoldable pub add : Bytes → Bytes → ℕ → Frame → Frame
unfolding append_kv kv_init
add key value valuelen req = append_kv req (kv_init key value valuelen ∷ [])

unfoldable pub bool_text : Bool → Bytes
bool_text b = if b then codes "true" else codes "false"

unfoldable pub add_autochain : Bool → Frame → Frame
unfolding add
add_autochain autochain req =
    if autochain then add (codes "autochain") (codes "true") 0 req else req

-- `strftime` with "%Y-%m-%dT%H:%M:%SZ".
unfoldable pub format_time_rfc3339 : Tm → Bytes
format_time_rfc3339 t =
    decimal t.year
    ++ (b'-' ∷ two t.month
        ++ (b'-' ∷ two t.day
            ++ (b'T' ∷ two t.hour ++ (b':' ∷ two t.minute ++ (b':' ∷ two t.second ++ b'Z' ∷ [])))))
  where
    two : ℕ → Bytes
    two n = zero_pad 2 (decimal n)

-- `snprintf` of "%" PRIu64 "ms" into a buffer of BW2_FRAME_MAX_TIME_DIGITS + 4 bytes.
unfoldable pub format_timedelta : ℕ → Bytes
format_timedelta timedelta = take 23 (decimal timedelta ++ codes "ms")

unfoldable pub add_expiry : Option Tm → ℕ → Frame → Frame
unfolding add format_time_rfc3339 format_timedelta
add_expiry (some t) delta req = add (codes "expiry") (format_time_rfc3339 t) 0 req
add_expiry none delta req =
    if delta == 0 then req else add (codes "expirydelta") (format_timedelta delta) 0 req

unfoldable pub add_uri : Bytes → Frame → Frame
unfolding add
add_uri uri req = add (codes "uri") uri 0 req

unfoldable pub add_primary_access_chain : Option Buffer → Frame → Frame
unfolding add
add_primary_access_chain none req = req
add_primary_access_chain (some pac) req = add (codes "primary_access_chain") pac.arr pac.len req

-- A chain that is NULL is not appended, which is the same as appending nothing.
unfoldable pub add_routing_objects : List RoutingObj → Frame → Frame
unfolding append_ro
add_routing_objects ros req = append_ro req ros

unfoldable pub add_payload_objects : List PayloadObj → Frame → Frame
unfolding append_po
add_payload_objects pos req = append_po req pos

unfoldable pub add_elaborate_pac : Option Bytes → Frame → Frame
unfolding add
add_elaborate_pac none req = add (codes "elaborate_pac") (codes "partial") 0 req
add_elaborate_pac (some pac) req = add (codes "elaborate_pac") pac 0 req

unfoldable pub add_verify : Bool → Frame → Frame
unfolding add bool_text
add_verify do_not_verify req = add (codes "doverify") (bool_text (not do_not_verify)) 0 req

unfoldable pub add_persist : Bool → Frame → Frame
unfolding add bool_text
add_persist b req = add (codes "persist") (bool_text b) 0 req

unfoldable pub add_leave_packed : Bool → Frame → Frame
unfolding add
add_leave_packed leave_packed req =
    if not leave_packed then add (codes "unpack") (codes "true") 0 req else req

unfoldable pub add_contact : Option Bytes → Frame → Frame
unfolding add
add_contact none req = req
add_contact (some contact) req = add (codes "contact") contact 0 req

unfoldable pub add_comment : Option Bytes → Frame → Frame
unfolding add
add_comment none req = req
add_comment (some comment) req = add (codes "comment") comment 0 req

unfoldable pub add_revokers : List Buffer → Frame → Frame
unfolding add
add_revokers [] req = req
add_revokers (curr ∷ next) req = add_revokers next (add (codes "revoker") curr.arr curr.len req)

unfoldable pub add_omit_creation_date : Bool → Frame → Frame
unfolding add
add_omit_creation_date omit req =
    if omit then add (codes "omitcreationdate") (codes "true") 0 req else req

-- "%" PRIu8 into BW2_FRAME_MAX_TTL_LENGTH + 1 bytes.
unfoldable pub add_ttl : ℕ → Frame → Frame
unfolding add
add_ttl ttl req = add (codes "ttl") (take 3 (decimal ttl)) 0 req

unfoldable pub add_to : Buffer → Frame → Frame
unfolding add
add_to to req = add (codes "to") to.arr to.len req

unfoldable pub add_is_permission : Bool → Frame → Frame
unfolding add bool_text
add_is_permission b req = add (codes "ispermission") (bool_text b) 0 req

unfoldable pub add_access_permissions : Bytes → Frame → Frame
unfolding add
add_access_permissions permissions req = add (codes "accesspermissions") permissions 0 req

unfoldable pub add_unelaborate : Bool → Frame → Frame
unfolding add bool_text
add_unelaborate b req = add (codes "unelaborate") (bool_text b) 0 req

unfoldable pub add_dots : List Buffer → Frame → Frame
unfolding add
add_dots [] req = req
add_dots (curr ∷ next) req = add_dots next (add (codes "dot") curr.arr curr.len req)

-- The calls. `seqno` is what `_bw2_getSeqNo` returned.
unfoldable pub set_entity_request : (entity : Bytes) (entitylen seqno : ℕ) → Frame
set_entity_request entity entitylen seqno =
    append_po (frame_init (cmd_bytes set_entity) seqno)
      (po_init ro_entity_w_key entity entitylen ∷ [])

unfoldable pub publish_request : PublishParams → ℕ → Frame
publish_request p seqno =
    let req = frame_init (cmd_bytes (if p.persist then persist else publish)) seqno in
    let req = add_autochain p.autochain req in
    let req = add_expiry p.expiry p.expiry_delta req in
    let req = add_uri p.uri req in
    let req = add_primary_access_chain p.primary_access_chain req in
    let req = add_routing_objects p.routing_objects req in
    let req = add_payload_objects p.payload_objects req in
    let req = add_elaborate_pac p.elaborate_pac req in
    let req = add_verify p.do_not_verify req in add_persist p.persist req

-- `bw2_subscribe` and `bw2_query` differ in the command alone.
listen_request : Bytes → SubscribeParams → ℕ → Frame
listen_request cmd p seqno =
    let req = frame_init cmd seqno in
    let req = add_autochain p.autochain req in
    let req = add_expiry p.expiry p.expiry_delta req in
    let req = add_uri p.uri req in
    let req = add_primary_access_chain p.primary_access_chain req in
    let req = add_routing_objects p.routing_objects req in
    let req = add_elaborate_pac p.elaborate_pac req in
    let req = add_leave_packed p.leave_packed req in add_verify p.do_not_verify req

unfoldable pub subscribe_request : SubscribeParams → ℕ → Frame
unfolding listen_request
subscribe_request = listen_request (cmd_bytes subscribe)

unfoldable pub query_request : SubscribeParams → ℕ → Frame
unfolding listen_request
query_request = listen_request (cmd_bytes query)

unfoldable pub list_request : ListParams → ℕ → Frame
list_request p seqno =
    let req = frame_init (cmd_bytes list) seqno in
    let req = add_autochain p.autochain req in
    let req = add_expiry p.expiry p.expiry_delta req in
    let req = add_uri p.uri req in
    let req = add_primary_access_chain p.primary_access_chain req in
    let req = add_routing_objects p.routing_objects req in
    let req = add_elaborate_pac p.elaborate_pac req in add_verify p.do_not_verify req

-- `none` is the early return of BW2_ERROR_OPERATION_NOT_SUPPORTED, in front of the transaction.
unfoldable pub create_dot_request : CreateDotParams → ℕ → Option Frame
create_dot_request p seqno =
    let req = frame_init (cmd_bytes make_dot) seqno in
    let req = add_expiry p.expiry p.expiry_delta req in
    let req = add_contact p.contact req in
    let req = add_comment p.comment req in
    let req = add_revokers p.revokers req in
    let req = add_omit_creation_date p.omit_creation_date req in
    let req = add_ttl p.ttl req in
    let req = add_to p.to req in
    let req = add_is_permission p.is_permission req in
    if p.is_permission
    then none
    else some (add_access_permissions p.access_permissions (add_uri p.uri req))

unfoldable pub create_entity_request : CreateEntityParams → ℕ → Frame
create_entity_request p seqno =
    let req = frame_init (cmd_bytes make_entity) seqno in
    let req = add_expiry p.expiry p.expiry_delta req in
    let req = add_contact p.contact req in
    let req = add_comment p.comment req in
    let req = add_revokers p.revokers req in add_omit_creation_date p.omit_creation_date req

unfoldable pub create_dot_chain_request : CreateDotChainParams → ℕ → Frame
create_dot_chain_request p seqno =
    let req = frame_init (cmd_bytes make_chain) seqno in
    let req = add_is_permission p.is_permission req in
    let req = add_unelaborate p.un_elaborate req in add_dots p.dots req

unfoldable pub build_chain_request : BuildChainParams → ℕ → Frame
build_chain_request p seqno =
    let req = frame_init (cmd_bytes build_chain) seqno in
    let req = add_uri p.uri req in
    let req = add_to p.to req in add_access_permissions p.access_permissions req

unfoldable pub unsubscribe_request : (handle : Buffer) (seqno : ℕ) → Frame
unsubscribe_request handle seqno =
    add (codes "handle") handle.arr handle.len (frame_init (cmd_bytes unsubscribe) seqno)
