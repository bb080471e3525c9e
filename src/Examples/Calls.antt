-- ===== src/Examples/Calls.antt =====
-- The frames of the calls of api.c at concrete parameters.
use bw2c.Base.{ℕ, ◌≡◌, refl, if◌then◌else◌, true, false, none, some, List, [], ◌∷◌, Bytes, codes}
use bw2c.Clib.{strlen, cstr, decimal, zero_pad}
use bw2c.Frame.{
  Header, cmd_bytes, frame_init, append_kv, append_po, append_ro, kv_init, po_init, ro_init,
}
use bw2c.Objects.{Buffer}
use bw2c.Api.Params.{PublishParams, Tm, SubscribeParams}
use bw2c.Api.Requests.{
  add, bool_text, add_autochain, format_time_rfc3339, format_timedelta, add_expiry, add_uri,
  add_primary_access_chain, add_routing_objects, add_payload_objects, add_elaborate_pac, add_verify,
  add_persist, add_leave_packed, add_contact, add_comment, add_revokers, add_omit_creation_date,
  add_ttl, add_to, add_is_permission, add_access_permissions, add_unelaborate, add_dots,
  set_entity_request, publish_request, subscribe_request, query_request, list_request,
  create_dot_request, create_entity_request, create_dot_chain_request, build_chain_request,
  unsubscribe_request,
}
use bw2c.Api.Requests.Carries.{publish_request-objects}
use bw2c.Examples.Wire.{text_po, dot_ro}

abbrev pub header : Bytes → ℕ → Bytes → Header
header k n v = record { key = k; len = n; value = v }

abbrev pub hash : Buffer
hash = record { arr = codes "xyz"; len = 3 }

abbrev noon : Tm
noon = record { year = 2017; month = 3; day = 9; hour = 12; minute = 0; second = 5 }

abbrev pub publication : PublishParams
publication = record {
  uri = codes "a/b";
  primary_access_chain = some hash;
  autochain = true;
  routing_objects = dot_ro ∷ [];
  payload_objects = text_po ∷ [];
  expiry = some noon;
  expiry_delta = 0;
  elaborate_pac = none;
  do_not_verify = false;
  persist = true;
}

publish_test : publish_request publication 5 ≡ record {
  cmd = codes "pers";
  seqno = 5;
  hdrs =
      header (codes "autochain") 4 (codes "true")
      ∷ header (codes "expiry") 20 (codes "2017-03-09T12:00:05Z")
      ∷ header (codes "uri") 3 (codes "a/b")
      ∷ header (codes "primary_access_chain") 3 (codes "xyz")
      ∷ header (codes "elaborate_pac") 7 (codes "partial")
      ∷ header (codes "doverify") 4 (codes "true")
      ∷ header (codes "persist") 4 (codes "true")
      ∷ [];
  pos = text_po ∷ [];
  ros = dot_ro ∷ [];
}
unfolding publish_request add_autochain add_expiry add_uri add_primary_access_chain
    add_routing_objects add_payload_objects add_elaborate_pac add_verify add_persist add bool_text
    format_time_rfc3339 frame_init cmd_bytes append_kv append_po append_ro kv_init strlen cstr
    decimal zero_pad
publish_test = refl

create_dot_test :
    create_dot_request
      (record {
        is_permission = false;
        to = hash;
        ttl = 12;
        expiry = none;
        expiry_delta = 250;
        contact = some (codes "me");
        comment = none;
        revokers = hash ∷ hash ∷ [];
        omit_creation_date = true;
        uri = codes "a/*";
        access_permissions = codes "PC";
      })
      6
    ≡ some (record {
      cmd = codes "makd";
      seqno = 6;
      hdrs =
          header (codes "expirydelta") 5 (codes "250ms")
          ∷ header (codes "contact") 2 (codes "me")
          ∷ header (codes "revoker") 3 (codes "xyz")
          ∷ header (codes "revoker") 3 (codes "xyz")
          ∷ header (codes "omitcreationdate") 4 (codes "true")
          ∷ header (codes "ttl") 2 (codes "12")
          ∷ header (codes "to") 3 (codes "xyz")
          ∷ header (codes "ispermission") 5 (codes "false")
          ∷ header (codes "uri") 3 (codes "a/*")
          ∷ header (codes "accesspermissions") 2 (codes "PC")
          ∷ [];
      pos = [];
      ros = [];
    })
unfolding create_dot_request add_expiry add_contact add_comment add_revokers add_omit_creation_date
    add_ttl add_to add_is_permission add_uri add_access_permissions add bool_text format_timedelta
    frame_init cmd_bytes append_kv kv_init strlen cstr decimal
create_dot_test = refl

create_dot_chain_test :
    (create_dot_chain_request
      (record { dots = hash ∷ []; is_permission = true; un_elaborate = false })
      7).hdrs
    ≡ header (codes "ispermission") 4 (codes "true")
      ∷ header (codes "unelaborate") 5 (codes "false")
      ∷ header (codes "dot") 3 (codes "xyz")
      ∷ []
unfolding create_dot_chain_request add_is_permission add_unelaborate add_dots add bool_text
    frame_init append_kv kv_init strlen cstr
create_dot_chain_test = refl

build_chain_test :
    (build_chain_request
      (record { uri = codes "u"; access_permissions = codes "P"; to = hash })
      8).hdrs
    ≡ header (codes "uri") 1 (codes "u")
      ∷ header (codes "to") 3 (codes "xyz")
      ∷ header (codes "accesspermissions") 1 (codes "P")
      ∷ []
unfolding build_chain_request add_uri add_to add_access_permissions add frame_init append_kv kv_init
    strlen cstr
build_chain_test = refl

abbrev pub listen : SubscribeParams
listen = record {
  uri = codes "u";
  primary_access_chain = none;
  autochain = false;
  routing_objects = [];
  expiry = none;
  expiry_delta = 0;
  elaborate_pac = some (codes "full");
  do_not_verify = true;
  leave_packed = false;
}

abbrev listen_headers : List Header
listen_headers =
    header (codes "uri") 1 (codes "u")
    ∷ header (codes "elaborate_pac") 4 (codes "full")
    ∷ header (codes "unpack") 4 (codes "true")
    ∷ header (codes "doverify") 5 (codes "false")
    ∷ []

subscribe_test :
    subscribe_request listen 9
    ≡ record { cmd = codes "subs"; seqno = 9; hdrs = listen_headers; pos = []; ros = [] }
unfolding subscribe_request add_autochain add_expiry add_uri add_primary_access_chain
    add_routing_objects add_elaborate_pac add_leave_packed add_verify add bool_text frame_init
    cmd_bytes append_kv append_ro kv_init strlen cstr
subscribe_test = refl

query_test :
    query_request listen 9
    ≡ record { cmd = codes "quer"; seqno = 9; hdrs = listen_headers; pos = []; ros = [] }
unfolding query_request add_autochain add_expiry add_uri add_primary_access_chain
    add_routing_objects add_elaborate_pac add_leave_packed add_verify add bool_text frame_init
    cmd_bytes append_kv append_ro kv_init strlen cstr
query_test = refl

list_test :
    (list_request
      (record {
        uri = codes "u";
        primary_access_chain = none;
        autochain = true;
        routing_objects = [];
        expiry = none;
        expiry_delta = 0;
        elaborate_pac = none;
        do_not_verify = false;
      })
      3).hdrs
    ≡ header (codes "autochain") 4 (codes "true")
      ∷ header (codes "uri") 1 (codes "u")
      ∷ header (codes "elaborate_pac") 7 (codes "partial")
      ∷ header (codes "doverify") 4 (codes "true")
      ∷ []
unfolding list_request add_autochain add_expiry add_uri add_primary_access_chain add_routing_objects
    add_elaborate_pac add_verify add bool_text frame_init append_kv append_ro kv_init strlen cstr
list_test = refl

create_entity_test :
    create_entity_request
      (record {
        expiry = none;
        expiry_delta = 0;
        contact = none;
        comment = some (codes "hi");
        revokers = [];
        omit_creation_date = false;
      })
      4
    ≡ record {
      cmd = codes "make";
      seqno = 4;
      hdrs = header (codes "comment") 2 (codes "hi") ∷ [];
      pos = [];
      ros = [];
    }
unfolding create_entity_request add_expiry add_contact add_comment add_revokers
    add_omit_creation_date add frame_init cmd_bytes append_kv kv_init strlen cstr
create_entity_test = refl

set_entity_test : set_entity_request (codes "key") 3 1 ≡ record {
  cmd = codes "sete";
  seqno = 1;
  hdrs = [];
  pos = record { ponum = 50; polen = 3; po = codes "key" } ∷ [];
  ros = [];
}
unfolding set_entity_request frame_init cmd_bytes append_po po_init
set_entity_test = refl

unsubscribe_test : unsubscribe_request hash 2 ≡ record {
  cmd = codes "usub";
  seqno = 2;
  hdrs = header (codes "handle") 3 (codes "xyz") ∷ [];
  pos = [];
  ros = [];
}
unfolding unsubscribe_request add frame_init cmd_bytes append_kv kv_init
unsubscribe_test = refl

ro_test : ro_init 32 (codes "dot") 3 ≡ dot_ro
unfolding ro_init
ro_test = refl

publish_request-objects_example :
    ((publish_request publication 5).cmd ≡ (if true then codes "pers" else codes "publ"))
    × ((publish_request publication 5).seqno ≡ 5)
    × ((publish_request publication 5).pos ≡ text_po ∷ [])
    × ((publish_request publication 5).ros ≡ dot_ro ∷ [])
publish_request-objects_example = publish_request-objects publication 5
