-- ===== src/Api/Requests/Carries.antt =====
-- What the frame of `bw2_publish` (api.c) carries, whatever the other parameters are.
use bw2c.Base.{
  ℕ, ◌≡◌, refl, ap, ◌∙◌, Bool, true, false, Option, none, some, ◌++◌, Bytes, codes, if◌then◌else◌,
  Bool-cases, inl, inr, take, ◌==◌,
}
use bw2c.Frame.{Frame, cmd_bytes, frame_init, append_kv, append_po, append_ro, persist, publish}
use bw2c.Objects.{Buffer}
use bw2c.Api.Params.{Tm, PublishParams}
use bw2c.Api.Requests.{
  add, add_autochain, add_expiry, add_uri, add_primary_access_chain, add_routing_objects,
  add_payload_objects, add_elaborate_pac, add_verify, add_persist, publish_request,
}

-- All of a frame but its headers.
record IsSameBut (f g : Frame) : Type 0 where
  cmd : f.cmd ≡ g.cmd
  seqno : f.seqno ≡ g.seqno
  pos : f.pos ≡ g.pos
  ros : f.ros ≡ g.ros

add_autochain_lem : (b : Bool) (f : Frame) → IsSameBut (add_autochain b f) f
unfolding add_autochain add append_kv
add_autochain_lem true f = record { cmd = refl; seqno = refl; pos = refl; ros = refl }
add_autochain_lem false f = record { cmd = refl; seqno = refl; pos = refl; ros = refl }

add_expiry_lem : (t : Option Tm) (d : ℕ) (f : Frame) → IsSameBut (add_expiry t d f) f
unfolding add_expiry add append_kv
add_expiry_lem (some t) d f = record { cmd = refl; seqno = refl; pos = refl; ros = refl }
add_expiry_lem none d f = elim (Bool-cases (d == 0)) [
  | inl e ↦ rw e (record { cmd = refl; seqno = refl; pos = refl; ros = refl })
  | inr e ↦ rw e (record { cmd = refl; seqno = refl; pos = refl; ros = refl })
]

add_primary_access_chain_lem :
    (b : Option Buffer) (f : Frame) → IsSameBut (add_primary_access_chain b f) f
unfolding add_primary_access_chain add append_kv
add_primary_access_chain_lem none f = record { cmd = refl; seqno = refl; pos = refl; ros = refl }
add_primary_access_chain_lem (some b) f = record {
  cmd = refl;
  seqno = refl;
  pos = refl;
  ros = refl;
}

add_elaborate_pac_lem : (b : Option Bytes) (f : Frame) → IsSameBut (add_elaborate_pac b f) f
unfolding add_elaborate_pac add append_kv
add_elaborate_pac_lem none f = record { cmd = refl; seqno = refl; pos = refl; ros = refl }
add_elaborate_pac_lem (some b) f = record { cmd = refl; seqno = refl; pos = refl; ros = refl }

-- The headers that are appended in front of the objects, and those behind them.
abbrev with_chain : PublishParams → Frame → Frame
with_chain p f =
    add_primary_access_chain p.primary_access_chain
      (add_uri p.uri (add_expiry p.expiry p.expiry_delta (add_autochain p.autochain f)))

with_chain_lem : (p : PublishParams) (f : Frame) → IsSameBut (with_chain p f) f
unfolding add_uri add append_kv
with_chain_lem p f =
    let a = add_autochain_lem p.autochain f in
    let b = add_expiry_lem p.expiry p.expiry_delta (add_autochain p.autochain f) in
    let c =
      add_primary_access_chain_lem p.primary_access_chain
        (add_uri p.uri (add_expiry p.expiry p.expiry_delta (add_autochain p.autochain f))) in
    record {
      cmd = c.cmd ∙ b.cmd ∙ a.cmd;
      seqno = c.seqno ∙ b.seqno ∙ a.seqno;
      pos = c.pos ∙ b.pos ∙ a.pos;
      ros = c.ros ∙ b.ros ∙ a.ros;
    }

publish_command :
    (b : Bool)
    → take 4 (cmd_bytes (if b then persist else publish))
      ≡ (if b then codes "pers" else codes "publ")
unfolding cmd_bytes
publish_command true = refl
publish_command false = refl

-- The frame of `bw2_publish` has the command "pers" or "publ" by `persist`, the number it was given, and exactly
-- the payload objects and the routing objects of the parameters, in their order.
pub publish_request-objects :
    (p : PublishParams) (n : ℕ)
    → ((publish_request p n).cmd ≡ (if p.persist then codes "pers" else codes "publ"))
      × ((publish_request p n).seqno ≡ n)
      × ((publish_request p n).pos ≡ p.payload_objects)
      × ((publish_request p n).ros ≡ p.routing_objects)
unfolding publish_request add_routing_objects add_payload_objects append_po append_ro add_verify
    add_persist add append_kv frame_init
publish_request-objects p n =
    let start = frame_init (cmd_bytes (if p.persist then persist else publish)) n in
    let w = with_chain_lem p start in
    let front = with_chain p start in
    let filled =
      add_payload_objects p.payload_objects (add_routing_objects p.routing_objects front) in
    let e = add_elaborate_pac_lem p.elaborate_pac filled in
    (
      e.cmd ∙ w.cmd ∙ publish_command p.persist,
      e.seqno ∙ w.seqno,
      e.pos ∙ ap (λ l. l ++ p.payload_objects) w.pos,
      e.ros ∙ ap (λ l. l ++ p.routing_objects) w.ros,
    )
