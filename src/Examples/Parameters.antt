-- ===== src/Examples/Parameters.antt =====
-- Parameters that are valid, and a message that is published with them.
use bw2c.Base.{◌<◌, ◌^◌, ◌≡◌, refl, true, false, none, some, [], ◌∷◌, arith, Bytes, codes, length}
use bw2c.Clib.{strlen, cstr, decimal, zero_pad}
use bw2c.Frame.{
  Frame, frame_init, append_kv, append_po, append_ro, kv_init, cmd_bytes, num_digits, kv_len,
  po_len, ro_len,
}
use bw2c.Frame.Length.{frame_length}
use bw2c.Os.Queue.{whole_sink}
use bw2c.Daemon.Request.{simple_req, ReqCtx}
use bw2c.Daemon.Client.{Client, World}
use bw2c.Api.Params.{
  ListParams, CreateDotParams, CreateDotChainParams, CreateEntityParams, BuildChainParams,
}
use bw2c.Api.Requests.{
  add, bool_text, add_autochain, format_time_rfc3339, add_expiry, add_uri, add_primary_access_chain,
  add_routing_objects, add_payload_objects, add_elaborate_pac, add_verify, add_persist,
  set_entity_request, publish_request, subscribe_request, query_request, list_request,
  create_dot_request, create_entity_request, create_dot_chain_request, build_chain_request,
  unsubscribe_request,
}
use bw2c.Api.Requests.Sendable.{IsSendable, IsText, IsBlob, is_word-IsText}
use bw2c.Api.Requests.Requirements.{
  IsPublication, IsSubscription, IsListing, IsNewDot, IsNewEntity, IsChainQuery,
}
use bw2c.Api.Requests.Valid.{requests-IsSendable}
use bw2c.Api.Calls.{
  publish_call, set_entity_call, create_entity_call, create_dot_chain_call, unsubscribe_call,
}
use bw2c.Api.Calls.Singles.{IsAnswered, calls_answered}
use bw2c.Api.Requests.{
  add_contact, add_comment, add_revokers, add_omit_creation_date, add_is_permission,
  add_unelaborate, add_dots,
}
use bw2c.Frame.{po_init, get_first_header, frame_must_response}
use bw2c.Clib.{strncmp_eq}
use bw2c.Run.{ok, fault}
use bw2c.Daemon.Dispatch.{is_final}
use bw2c.Daemon.Loop.{serve}
use bw2c.Api.Requests.{add_to, add_access_permissions}
use bw2c.Api.Calls.{build_chain_call}
use bw2c.Api.Calls.Chains.{build_chain_call-faults}
use bw2c.Examples.Calls.{header}
use bw2c.Api.Calls.Answered.{daemon_serves}
use bw2c.Examples.Wire.{message_frame-IsWire, whole_sink-SendsAll}
use bw2c.Examples.Calls.{hash, publication, listen}

-- The text of a literal.
ab-IsText : IsText (codes "a/b")
ab-IsText = is_word-IsText (codes "a/b") refl (omega arith)

hash-IsBlob : IsBlob hash
hash-IsBlob = record { len_exact = refl; short = omega arith }

publication-IsPublication : IsPublication publication
publication-IsPublication = record {
  uri_ok = ab-IsText;
  chain_ok = hash-IsBlob;
  ros_ok = message_frame-IsWire.ros_ok;
  pos_ok = message_frame-IsWire.pos_ok;
  expiry_ok = record {
    year_short = omega arith;
    month_short = omega arith;
    day_short = omega arith;
    hour_short = omega arith;
    minute_short = omega arith;
    second_short = omega arith;
  };
  pac_ok = tt;
}

listen-IsSubscription : IsSubscription listen
listen-IsSubscription = record {
  uri_ok = is_word-IsText (codes "u") refl (omega arith);
  chain_ok = tt;
  ros_ok = tt;
  expiry_ok = tt;
  pac_ok = is_word-IsText (codes "full") refl (omega arith);
}

abbrev listing : ListParams
listing = record {
  uri = codes "a/b";
  primary_access_chain = none;
  autochain = true;
  routing_objects = [];
  expiry = none;
  expiry_delta = 30;
  elaborate_pac = none;
  do_not_verify = false;
}

listing-IsListing : IsListing listing
listing-IsListing = record {
  uri_ok = ab-IsText;
  chain_ok = tt;
  ros_ok = tt;
  expiry_ok = tt;
  pac_ok = tt;
}

abbrev new_dot : CreateDotParams
new_dot = record {
  is_permission = false;
  to = hash;
  ttl = 12;
  expiry = none;
  expiry_delta = 250;
  contact = some (codes "a/b");
  comment = none;
  revokers = hash ∷ [];
  omit_creation_date = true;
  uri = codes "a/b";
  access_permissions = codes "a/b";
}

new_dot-IsNewDot : IsNewDot new_dot
new_dot-IsNewDot = record {
  to_ok = hash-IsBlob;
  expiry_ok = tt;
  contact_ok = ab-IsText;
  comment_ok = tt;
  revokers_ok = (hash-IsBlob, tt);
  uri_ok = ab-IsText;
  permissions_ok = ab-IsText;
}

abbrev new_entity : CreateEntityParams
new_entity = record {
  expiry = none;
  expiry_delta = 0;
  contact = none;
  comment = some (codes "a/b");
  revokers = [];
  omit_creation_date = false;
}

new_entity-IsNewEntity : IsNewEntity new_entity
new_entity-IsNewEntity = record {
  expiry_ok = tt;
  contact_ok = tt;
  comment_ok = ab-IsText;
  revokers_ok = tt;
}

abbrev new_chain : CreateDotChainParams
new_chain = record { dots = hash ∷ hash ∷ []; is_permission = true; un_elaborate = false }

abbrev chain_query : BuildChainParams
chain_query = record { uri = codes "a/b"; access_permissions = codes "a/b"; to = hash }

chain_query-IsChainQuery : IsChainQuery chain_query
chain_query-IsChainQuery = record {
  uri_ok = ab-IsText;
  permissions_ok = ab-IsText;
  to_ok = hash-IsBlob;
}

requests-IsSendable_example :
    IsSendable 7 (publish_request publication 7)
    × IsSendable 7 (subscribe_request listen 7)
    × IsSendable 7 (query_request listen 7)
    × IsSendable 7 (list_request listing 7)
    × ((f : Frame) × (create_dot_request new_dot 7 ≡ some f) × IsSendable 7 f)
    × IsSendable 7 (create_entity_request new_entity 7)
    × IsSendable 7 (create_dot_chain_request new_chain 7)
    × IsSendable 7 (build_chain_request chain_query 7)
    × IsSendable 7 (unsubscribe_request hash 7)
    × IsSendable 7 (set_entity_request (codes "key") (length (codes "key")) 7)
requests-IsSendable_example =
    requests-IsSendable 7 publication listen listing new_dot new_entity new_chain chain_query hash
      (codes "key") publication-IsPublication listen-IsSubscription listing-IsListing
      new_dot-IsNewDot refl new_entity-IsNewEntity (hash-IsBlob, (hash-IsBlob, tt))
      chain_query-IsChainQuery hash-IsBlob (omega arith)

abbrev fresh : ReqCtx
fresh = record {
  onframe = simple_req;
  ready = false;
  rv = none;
  seqno = 0;
  handle = none;
  delivered = [];
}

abbrev connected_client : Client
connected_client = record { reqs = []; curseqno = 7; connected = true; closed = 0; ended = [] }

abbrev world : World whole_sink
world = record { output = []; client = connected_client }

abbrev response : Frame
response = record { cmd = codes "resp"; seqno = 7; hdrs = []; pos = []; ros = [] }

abbrev key : Bytes
key = codes "key"

-- The requests are short.
all_short :
    (frame_length (publish_request publication 7) < 10 ^ 10)
    × (frame_length (set_entity_request key (length key) 7) < 10 ^ 10)
    × (frame_length (create_entity_request new_entity 7) < 10 ^ 10)
    × (frame_length (create_dot_chain_request new_chain 7) < 10 ^ 10)
    × (frame_length (unsubscribe_request hash 7) < 10 ^ 10)
unfolding publish_request add_autochain add_expiry add_uri add_primary_access_chain
    add_routing_objects add_payload_objects add_elaborate_pac add_verify add_persist add bool_text
    format_time_rfc3339 frame_init cmd_bytes append_kv append_po append_ro kv_init strlen cstr
    decimal zero_pad frame_length kv_len po_len ro_len num_digits set_entity_request po_init
    create_entity_request add_contact add_comment add_revokers add_omit_creation_date
    create_dot_chain_request add_is_permission add_unelaborate add_dots unsubscribe_request
all_short = (omega arith, omega arith, omega arith, omega arith, omega arith)

calls_answered_example :
    IsAnswered whole_sink response (publish_request publication 7) world (
      publish_call whole_sink
        (λ s. false)
        2
        (daemon_serves whole_sink response)
        fresh
        publication
        world)
    × IsAnswered whole_sink response (set_entity_request key (length key) 7) world (
        set_entity_call whole_sink
          (λ s. false)
          2
          (daemon_serves whole_sink response)
          fresh
          key
          (length key)
          none
          world)
    × IsAnswered whole_sink response (create_entity_request new_entity 7) world (
        create_entity_call whole_sink
          (λ s. false)
          2
          (daemon_serves whole_sink response)
          fresh
          new_entity
          none
          (some hash)
          world)
    × IsAnswered whole_sink response (create_dot_chain_request new_chain 7) world (
        create_dot_chain_call whole_sink
          (λ s. false)
          2
          (daemon_serves whole_sink response)
          fresh
          new_chain
          none
          world)
    × IsAnswered whole_sink response (unsubscribe_request hash 7) world (
        unsubscribe_call whole_sink
          (λ s. false)
          2
          (daemon_serves whole_sink response)
          fresh
          hash
          world)
calls_answered_example =
    calls_answered whole_sink (λ s. false) 0 whole_sink-SendsAll fresh response world publication
      key new_entity new_chain hash none (some hash) none publication-IsPublication (omega arith)
      new_entity-IsNewEntity (hash-IsBlob, (hash-IsBlob, tt)) hash-IsBlob (omega arith) all_short.0
      all_short.1 all_short.2 all_short.3 all_short.4 refl refl tt

-- The response to the request of a chain, and a frame that follows it.
abbrev okay_response : Frame
okay_response = record response { hdrs = header (codes "status") 4 (codes "okay") ∷ [] }

okay_response-accepted :
    (frame_must_response okay_response ≡ none) × (is_final okay_response ≡ false)
unfolding frame_must_response get_first_header strncmp_eq is_final
okay_response-accepted = (refl, refl)

chain_request_short : frame_length (build_chain_request chain_query 7) < 10 ^ 10
unfolding build_chain_request add_uri add_to add_access_permissions add frame_init cmd_bytes
    append_kv kv_init strlen cstr decimal frame_length kv_len po_len ro_len num_digits
chain_request_short = omega arith

build_chain_call-faults_example :
    (r : ReqCtx) × (w' : World whole_sink) × (build_chain_call whole_sink
        (λ s. false)
        2
        (daemon_serves whole_sink okay_response)
        fresh
        chain_query
        world
      ≡ ok (none, r) w')
    × (serve response w'.client ≡ fault)
build_chain_call-faults_example =
    build_chain_call-faults whole_sink (λ s. false) 0 whole_sink-SendsAll fresh chain_query world
      okay_response response chain_query-IsChainQuery (omega arith) chain_request_short refl tt refl
      okay_response-accepted.0 okay_response-accepted.1 refl
