-- ===== src/Api/Requests/Valid.antt =====
-- The requests of the calls have a wire format when the parameters of the calls are valid.
use bw2c.Base.{
  ℕ, ◌^◌, ◌<◌, ◌≡◌, refl, ap, Bool, false, none, some, if◌then◌else◌, arith, Bytes, codes, length,
  take, All,
}
use bw2c.Frame.{
  Frame, Command, cmd_bytes, frame_init, append_po, po_init, publish, persist, subscribe, query,
  list, set_entity, make_dot, make_entity, make_chain, build_chain, unsubscribe,
}
use bw2c.Objects.{Buffer}
use bw2c.Api.Params.{
  PublishParams, SubscribeParams, ListParams, CreateDotParams, CreateDotChainParams,
  CreateEntityParams, BuildChainParams,
}
use bw2c.Api.Requests.{
  set_entity_request, publish_request, subscribe_request, query_request, list_request,
  create_dot_request, create_entity_request, create_dot_chain_request, build_chain_request,
  unsubscribe_request, listen_request,
}
use bw2c.Api.Requests.Requirements.{
  IsPublication, IsSubscription, IsListing, IsNewDot, IsNewEntity, IsChainQuery,
}
use bw2c.Api.Requests.Sendable.{IsSendable, IsBlob, add_blob-IsSendable}
use bw2c.Api.Requests.Macros.{
  add_autochain-IsSendable, add_expiry-IsSendable, add_uri-IsSendable,
  add_primary_access_chain-IsSendable, add_routing_objects-IsSendable,
  add_payload_objects-IsSendable, add_elaborate_pac-IsSendable, add_verify-IsSendable,
  add_persist-IsSendable, add_leave_packed-IsSendable, add_contact-IsSendable,
  add_comment-IsSendable, add_omit_creation_date-IsSendable, add_ttl-IsSendable, add_to-IsSendable,
  add_is_permission-IsSendable, add_access_permissions-IsSendable, add_unelaborate-IsSendable,
  add_revokers-IsSendable, add_dots-IsSendable,
}

cmd_bytes-length : (c : Command) → length (take 4 (cmd_bytes c)) ≡ 4
unfolding cmd_bytes
cmd_bytes-length c = ground arith

frame_init-IsSendable : (c : Command) (n : ℕ) → IsSendable n (frame_init (cmd_bytes c) n)
unfolding frame_init
frame_init-IsSendable c n = record {
  numbered = refl;
  cmd_exact = cmd_bytes-length c;
  hdrs_ok = tt;
  pos_ok = tt;
  ros_ok = tt;
}

pub publish_request-IsSendable :
    (p : PublishParams) (n : ℕ) → IsPublication p → IsSendable n (publish_request p n)
unfolding publish_request
publish_request-IsSendable p n h =
    let start = frame_init-IsSendable (if p.persist then persist else publish) n in
    let autochain = add_autochain-IsSendable _ p.autochain start in
    let expiry = add_expiry-IsSendable _ p.expiry p.expiry_delta h.expiry_ok autochain in
    let uri = add_uri-IsSendable _ p.uri h.uri_ok expiry in
    let chain = add_primary_access_chain-IsSendable _ p.primary_access_chain h.chain_ok uri in
    let ros = add_routing_objects-IsSendable _ p.routing_objects h.ros_ok chain in
    let pos = add_payload_objects-IsSendable _ p.payload_objects h.pos_ok ros in
    let pac = add_elaborate_pac-IsSendable _ p.elaborate_pac h.pac_ok pos in
    let verify = add_verify-IsSendable _ p.do_not_verify pac in
    add_persist-IsSendable _ p.persist verify

listen_request-IsSendable :
    (c : Command) (p : SubscribeParams) (n : ℕ)
    → IsSubscription p
    → IsSendable n (listen_request (cmd_bytes c) p n)
unfolding listen_request
listen_request-IsSendable c p n h =
    let autochain = add_autochain-IsSendable _ p.autochain (frame_init-IsSendable c n) in
    let expiry = add_expiry-IsSendable _ p.expiry p.expiry_delta h.expiry_ok autochain in
    let uri = add_uri-IsSendable _ p.uri h.uri_ok expiry in
    let chain = add_primary_access_chain-IsSendable _ p.primary_access_chain h.chain_ok uri in
    let ros = add_routing_objects-IsSendable _ p.routing_objects h.ros_ok chain in
    let pac = add_elaborate_pac-IsSendable _ p.elaborate_pac h.pac_ok ros in
    let packed = add_leave_packed-IsSendable _ p.leave_packed pac in
    add_verify-IsSendable _ p.do_not_verify packed

list_request-IsSendable : (p : ListParams) (n : ℕ) → IsListing p → IsSendable n (list_request p n)
unfolding list_request
list_request-IsSendable p n h =
    let autochain = add_autochain-IsSendable _ p.autochain (frame_init-IsSendable list n) in
    let expiry = add_expiry-IsSendable _ p.expiry p.expiry_delta h.expiry_ok autochain in
    let uri = add_uri-IsSendable _ p.uri h.uri_ok expiry in
    let chain = add_primary_access_chain-IsSendable _ p.primary_access_chain h.chain_ok uri in
    let ros = add_routing_objects-IsSendable _ p.routing_objects h.ros_ok chain in
    let pac = add_elaborate_pac-IsSendable _ p.elaborate_pac h.pac_ok ros in
    add_verify-IsSendable _ p.do_not_verify pac

unless_false : (b : Bool) (f : Frame) → b ≡ false → (if b then none else some f) ≡ some f
unless_false b f e = ap (λ t. if t then none else some f) e

pub create_dot_request-IsSendable :
    (p : CreateDotParams) (n : ℕ)
    → p.is_permission ≡ false
    → IsNewDot p
    → (f : Frame) × (create_dot_request p n ≡ some f) × IsSendable n f
unfolding create_dot_request
create_dot_request-IsSendable p n b h =
    let expiry =
      add_expiry-IsSendable _ p.expiry p.expiry_delta h.expiry_ok
        (frame_init-IsSendable make_dot n) in
    let contact = add_contact-IsSendable _ p.contact h.contact_ok expiry in
    let comment = add_comment-IsSendable _ p.comment h.comment_ok contact in
    let revokers = add_revokers-IsSendable p.revokers _ h.revokers_ok comment in
    let date = add_omit_creation_date-IsSendable _ p.omit_creation_date revokers in
    let ttl = add_ttl-IsSendable _ p.ttl date in
    let to = add_to-IsSendable _ p.to h.to_ok ttl in
    let permission = add_is_permission-IsSendable _ p.is_permission to in
    let uri = add_uri-IsSendable _ p.uri h.uri_ok permission in
    (
      _,
      unless_false p.is_permission _ b,
      add_access_permissions-IsSendable _ p.access_permissions h.permissions_ok uri,
    )

pub create_entity_request-IsSendable :
    (p : CreateEntityParams) (n : ℕ) → IsNewEntity p → IsSendable n (create_entity_request p n)
unfolding create_entity_request
create_entity_request-IsSendable p n h =
    let expiry =
      add_expiry-IsSendable _ p.expiry p.expiry_delta h.expiry_ok
        (frame_init-IsSendable make_entity n) in
    let contact = add_contact-IsSendable _ p.contact h.contact_ok expiry in
    let comment = add_comment-IsSendable _ p.comment h.comment_ok contact in
    let revokers = add_revokers-IsSendable p.revokers _ h.revokers_ok comment in
    add_omit_creation_date-IsSendable _ p.omit_creation_date revokers

pub create_dot_chain_request-IsSendable :
    (p : CreateDotChainParams) (n : ℕ)
    → All IsBlob p.dots
    → IsSendable n (create_dot_chain_request p n)
unfolding create_dot_chain_request
create_dot_chain_request-IsSendable p n h =
    let permission =
      add_is_permission-IsSendable _ p.is_permission (frame_init-IsSendable make_chain n) in
    let unelaborate = add_unelaborate-IsSendable _ p.un_elaborate permission in
    add_dots-IsSendable p.dots _ h unelaborate

pub build_chain_request-IsSendable :
    (p : BuildChainParams) (n : ℕ) → IsChainQuery p → IsSendable n (build_chain_request p n)
unfolding build_chain_request
build_chain_request-IsSendable p n h =
    let uri = add_uri-IsSendable _ p.uri h.uri_ok (frame_init-IsSendable build_chain n) in
    let to = add_to-IsSendable _ p.to h.to_ok uri in
    add_access_permissions-IsSendable _ p.access_permissions h.permissions_ok to

pub unsubscribe_request-IsSendable :
    (handle : Buffer) (n : ℕ) → IsBlob handle → IsSendable n (unsubscribe_request handle n)
unfolding unsubscribe_request
unsubscribe_request-IsSendable handle n h =
    add_blob-IsSendable (codes "handle") handle _ refl h (frame_init-IsSendable unsubscribe n)

pub set_entity_request-IsSendable :
    (entity : Bytes) (n : ℕ)
    → length entity < 10 ^ 9
    → IsSendable n (set_entity_request entity (length entity) n)
unfolding set_entity_request append_po po_init frame_init
set_entity_request-IsSendable entity n l = record {
  numbered = refl;
  cmd_exact = (frame_init-IsSendable set_entity n).cmd_exact;
  hdrs_ok = tt;
  pos_ok = (record { ponum_fits = omega arith; len_exact = refl; len_short = l }, tt);
  ros_ok = tt;
}

-- With parameters that are texts without NULs, full buffers, times with a year of four digits, and objects that have a
-- wire format, all below 10^9 bytes, every call makes a frame with the number that it drew and a command of four bytes,
-- whose headers and objects have a wire format; `bw2_createDOT` does so for a DOT that is not one of permissions.
pub requests-IsSendable :
    (n : ℕ) (publication : PublishParams) (subscription : SubscribeParams) (listing : ListParams)
    (dot : CreateDotParams) (entity : CreateEntityParams) (chain : CreateDotChainParams)
    (build : BuildChainParams) (handle : Buffer) (key : Bytes)
    → IsPublication publication
    → IsSubscription subscription
    → IsListing listing
    → IsNewDot dot
    → dot.is_permission ≡ false
    → IsNewEntity entity
    → All IsBlob chain.dots
    → IsChainQuery build
    → IsBlob handle
    → length key < 10 ^ 9
    → IsSendable n (publish_request publication n)
      × IsSendable n (subscribe_request subscription n)
      × IsSendable n (query_request subscription n)
      × IsSendable n (list_request listing n)
      × ((f : Frame) × (create_dot_request dot n ≡ some f) × IsSendable n f)
      × IsSendable n (create_entity_request entity n)
      × IsSendable n (create_dot_chain_request chain n)
      × IsSendable n (build_chain_request build n)
      × IsSendable n (unsubscribe_request handle n)
      × IsSendable n (set_entity_request key (length key) n)
unfolding subscribe_request query_request
requests-IsSendable n publication subscription listing dot entity chain build handle key p s l d b e
      c q h k =
    (
      publish_request-IsSendable publication n p,
      listen_request-IsSendable subscribe subscription n s,
      listen_request-IsSendable query subscription n s,
      list_request-IsSendable listing n l,
      create_dot_request-IsSendable dot n b d,
      create_entity_request-IsSendable entity n e,
      create_dot_chain_request-IsSendable chain n c,
      build_chain_request-IsSendable build n q,
      unsubscribe_request-IsSendable handle n h,
      set_entity_request-IsSendable key n k,
    )
