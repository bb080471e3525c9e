-- ===== src/Examples/Waits.antt =====
-- Calls on a client that is not connected, and one that is not supported.
use bw2c.Base.{
  ℕ, ◌≢◌, ◌==◌, ◌||◌, ne→==, ap, All, if◌then◌else◌, ◌≡◌, refl, Bool, true, false, none, some, List,
  [], ◌∷◌, codes,
}
use bw2c.Os.Queue.{whole_sink}
use bw2c.Run.{ok, spin, connection_lost}
use bw2c.Daemon.Request.{simple_req, ReqCtx}
use bw2c.Daemon.Client.{Client, World}
use bw2c.Api.Params.{ListParams, CreateDotChainParams, CreateEntityParams, BuildChainParams}
use bw2c.Api.Calls.{
  publish_call, set_entity_call, subscribe_call, list_call, create_entity_call,
  create_dot_chain_call, build_chain_call, unsubscribe_call, query_call,
}
use bw2c.Api.Params.{CreateDotParams}
use bw2c.Api.Requests.{create_dot_request}
use bw2c.Api.Calls.{create_dot_call, with_seq_no}
use bw2c.Daemon.Client.{get_seq_no}
use bw2c.Run.{operation_not_supported}
use bw2c.Api.Calls.Refused.{outcome_of, drawn, calls_refused, query_call-refused}
use bw2c.Examples.Calls.{hash, publication, listen}

abbrev fresh : ReqCtx
fresh = record {
  onframe = simple_req;
  ready = false;
  rv = none;
  seqno = 0;
  handle = none;
  delivered = [];
}

abbrev client_of : Bool → Client
client_of b = record { reqs = []; curseqno = 7; connected = b; closed = 0; ended = [] }

abbrev world_of : Bool → World whole_sink
world_of b = record { output = []; client = client_of b }

-- The other threads wake the context up where its request is in the list, and leave it alone otherwise.
listed : ℕ → List ReqCtx → Bool
listed n [] = false
listed n (q ∷ qs) = (q.seqno == n) || listed n qs

abbrev wakers : World whole_sink → ReqCtx → List (World whole_sink × ReqCtx)
wakers w r = (w, if listed r.seqno w.client.reqs then record r { ready = true } else r) ∷ []

listed_absent : (n : ℕ) (reqs : List ReqCtx) → All (λ q. q.seqno ≢ n) reqs → listed n reqs ≡ false
unfolding listed
listed_absent n [] h = refl
listed_absent n (q ∷ qs) (h, hs) = rw (ne→== q.seqno n h) (listed_absent n qs hs)

wakers_alone :
    (w : World whole_sink) (r : ReqCtx)
    → All (λ q. q.seqno ≢ r.seqno) w.client.reqs
    → All (λ x. x.1 ≡ r) (wakers w r)
wakers_alone w r h = (
  ap (λ b. if b then record r { ready = true } else r) (listed_absent r.seqno w.client.reqs h),
  tt,
)

query_call-refused_example :
    query_call whole_sink (λ s. false) 2 wakers fresh listen none (world_of false) ≡ spin
query_call-refused_example =
    query_call-refused whole_sink (λ s. false) 2 wakers fresh listen none (world_of false) refl tt
      wakers_alone

abbrev listing : ListParams
listing = record {
  uri = codes "u";
  primary_access_chain = none;
  autochain = true;
  routing_objects = [];
  expiry = none;
  expiry_delta = 0;
  elaborate_pac = none;
  do_not_verify = false;
}

abbrev new_entity : CreateEntityParams
new_entity = record {
  expiry = none;
  expiry_delta = 0;
  contact = none;
  comment = none;
  revokers = [];
  omit_creation_date = false;
}

abbrev new_chain : CreateDotChainParams
new_chain = record { dots = []; is_permission = true; un_elaborate = false }

abbrev unsupported : CreateDotParams
unsupported = record {
  is_permission = true;
  to = hash;
  ttl = 12;
  expiry = none;
  expiry_delta = 0;
  contact = none;
  comment = none;
  revokers = [];
  omit_creation_date = true;
  uri = codes "u";
  access_permissions = codes "P";
}

abbrev build : BuildChainParams
build = record { uri = codes "u"; access_permissions = codes "P"; to = hash }

calls_refused_example :
    (outcome_of (publish_call whole_sink (λ s. false) 2 wakers fresh publication (world_of false))
      ≡ some (some connection_lost, drawn (world_of false)))
    × (outcome_of (
          set_entity_call whole_sink
            (λ s. false)
            2
            wakers
            fresh
            (codes "k")
            1
            none
            (world_of false))
        ≡ some (some connection_lost, drawn (world_of false)))
    × (outcome_of (
          subscribe_call whole_sink
            (λ s. false)
            2
            wakers
            fresh
            listen
            none
            (some hash)
            (world_of false))
        ≡ some (none, drawn (world_of false)))
    × (outcome_of (list_call whole_sink (λ s. false) 2 wakers fresh listing none (world_of false))
        ≡ some (none, drawn (world_of false)))
    × (outcome_of (
          create_dot_call whole_sink
            (λ s. false)
            2
            wakers
            fresh
            unsupported
            none
            none
            (world_of false))
        ≡ some (some operation_not_supported, drawn (world_of false)))
    × (outcome_of (
          create_entity_call whole_sink
            (λ s. false)
            2
            wakers
            fresh
            new_entity
            none
            none
            (world_of false))
        ≡ some (none, drawn (world_of false)))
    × (outcome_of (
          create_dot_chain_call whole_sink
            (λ s. false)
            2
            wakers
            fresh
            new_chain
            none
            (world_of false))
        ≡ some (none, drawn (world_of false)))
    × (outcome_of (build_chain_call whole_sink (λ s. false) 2 wakers fresh build (world_of false))
        ≡ some (none, drawn (world_of false)))
    × (outcome_of (unsubscribe_call whole_sink (λ s. false) 2 wakers fresh hash (world_of false))
        ≡ some (none, drawn (world_of false)))
calls_refused_example =
    calls_refused whole_sink (λ s. false) 2 wakers fresh (world_of false) publication (codes "k") 1
      none none listen none hash listing unsupported new_entity new_chain build refl

-- The branch of `bw2_createDOT` that is not supported: nothing is sent, but a number was drawn.
unsupported_test :
    create_dot_call whole_sink (λ s. false) 2 wakers fresh unsupported none none (world_of true)
    ≡ ok
        (some operation_not_supported, fresh)
        (record { output = []; client = record (client_of true) { curseqno = 8 } })
unfolding create_dot_call with_seq_no get_seq_no create_dot_request
unsupported_test = refl
