-- ===== src/Frame.antt =====
-- frame.h and the operations of frame.c on a frame in memory. A linked list is modelled by the list
-- of its nodes: `hdrs` to `lasthdr`, `pos` to `lastpo` and `ros` to `lastro`, so that a `last`
-- pointer is the end of its list. Sizes are those of a 64-bit machine.
pub mod Length
pub mod Sends
pub mod Faults
pub mod FirstLine
pub mod RoundTrip
pub mod Objects
pub mod Write
pub mod Read
pub mod Wire
pub mod Ends
pub mod Free
pub mod Verdict
pub mod Bounded
pub mod Bounds
use bw2c.Base.{
  ℕ, zero, suc, ◌+◌, ◌-◌, ◌/◌, Bool, true, false, Option, none, some, List, [], ◌∷◌, ◌++◌, ltb,
  ◌==◌, if◌then◌else◌, Bytes, bytes_eq, codes, take, length,
}
use bw2c.Clib.{cstr, strlen, strncmp_eq}
use bw2c.Run.{Error, missing_header, response_status, unexpected_frame}

-- The value of a header is `len` bytes at `value`, which need not end in a NUL.
pub record Header : Type 0 where
  pub key : Bytes
  pub len : ℕ
  pub value : Bytes

pub record RoutingObj : Type 0 where
  pub ronum : ℕ
  pub rolen : ℕ
  pub ro : Bytes

pub record PayloadObj : Type 0 where
  pub ponum : ℕ
  pub polen : ℕ
  pub po : Bytes

-- `seqno` is the bit pattern of an int32_t.
pub record Frame : Type 0 where
  pub cmd : Bytes
  pub seqno : ℕ
  pub hdrs : List Header
  pub pos : List PayloadObj
  pub ros : List RoutingObj

-- BW2_FRAME_*
abbrev pub frame_header_length : ℕ
frame_header_length = 27

abbrev pub max_key_length : ℕ
max_key_length = 31

abbrev pub max_ponum_length : ℕ
max_ponum_length = 27

abbrev pub max_length_digits : ℕ
max_length_digits = 10

abbrev pub max_ronum_length : ℕ
max_ronum_length = 3

abbrev pub max_local_header_length : ℕ
max_local_header_length = 3 + max_key_length + 1 + 10 + 1 + 1

-- The commands, BW2_FRAME_CMD_*.
pub data Command : Type 0 where
  hello publish subscribe persist list : Command
  query tap_subscribe tap_query make_dot make_entity : Command
  make_chain build_chain set_entity put_dot put_entity : Command
  put_chain entity_balances address_balance bc_interaction_params transfer : Command
  make_short_alias make_long_alias resolve_alias new_dr_offer accept_dr_offer : Command
  resolve_registry_object update_srv_record list_dr_offers make_view subscribe_view : Command
  publish_view list_view unsubscribe revoke_dr_offer revoke_dr_accept : Command
  response result : Command

unfoldable pub cmd_bytes : Command → Bytes
cmd_bytes hello = codes "helo"
cmd_bytes publish = codes "publ"
cmd_bytes subscribe = codes "subs"
cmd_bytes persist = codes "pers"
cmd_bytes list = codes "list"
cmd_bytes query = codes "quer"
cmd_bytes tap_subscribe = codes "tsub"
cmd_bytes tap_query = codes "tque"
cmd_bytes make_dot = codes "makd"
cmd_bytes make_entity = codes "make"
cmd_bytes make_chain = codes "makc"
cmd_bytes build_chain = codes "bldc"
cmd_bytes set_entity = codes "sete"
cmd_bytes put_dot = codes "putd"
cmd_bytes put_entity = codes "pute"
cmd_bytes put_chain = codes "putc"
cmd_bytes entity_balances = codes "ebal"
cmd_bytes address_balance = codes "abal"
cmd_bytes bc_interaction_params = codes "bcip"
cmd_bytes transfer = codes "xfer"
cmd_bytes make_short_alias = codes "mksa"
cmd_bytes make_long_alias = codes "mkla"
cmd_bytes resolve_alias = codes "resa"
cmd_bytes new_dr_offer = codes "ndro"
cmd_bytes accept_dr_offer = codes "adro"
cmd_bytes resolve_registry_object = codes "rsro"
cmd_bytes update_srv_record = codes "usrv"
cmd_bytes list_dr_offers = codes "ldro"
cmd_bytes make_view = codes "mkvw"
cmd_bytes subscribe_view = codes "vsub"
cmd_bytes publish_view = codes "vpub"
cmd_bytes list_view = codes "vlst"
cmd_bytes unsubscribe = codes "usub"
cmd_bytes revoke_dr_offer = codes "rdro"
cmd_bytes revoke_dr_accept = codes "rdra"
cmd_bytes response = codes "resp"
cmd_bytes result = codes "rslt"

unfoldable pub frame_init : Bytes → ℕ → Frame
frame_init cmd seqno = record { cmd = take 4 cmd; seqno = seqno; hdrs = []; pos = []; ros = [] }

-- The node that is appended may head a chain, which comes along whole.
unfoldable pub append_kv : Frame → List Header → Frame
append_kv frame kv = record frame { hdrs = frame.hdrs ++ kv }

unfoldable pub append_po : Frame → List PayloadObj → Frame
append_po frame po = record frame { pos = frame.pos ++ po }

unfoldable pub append_ro : Frame → List RoutingObj → Frame
append_ro frame ro = record frame { ros = frame.ros ++ ro }

-- A length of 0 asks for the length of the C string.
unfoldable pub kv_init : (key value : Bytes) (valuelen : ℕ) → Header
kv_init key value valuelen = record {
  key = key;
  len = if valuelen == 0 then strlen value else valuelen;
  value = value;
}

unfoldable pub po_init : (ponum : ℕ) (poblob : Bytes) (polen : ℕ) → PayloadObj
po_init ponum poblob polen = record { ponum = ponum; polen = polen; po = poblob }

unfoldable pub ro_init : (ronum : ℕ) (roblob : Bytes) (rolen : ℕ) → RoutingObj
ro_init ronum roblob rolen = record { ronum = ronum; rolen = rolen; ro = roblob }

first_header : List Header → Bytes → Option Header
first_header [] key = none
first_header (curr ∷ next) key =
    if strncmp_eq curr.key key (max_key_length + 1) then some curr else first_header next key

unfoldable pub get_first_header : Frame → Bytes → Option Header
unfolding first_header
get_first_header frame key = first_header frame.hdrs key

-- `none` is the return value 0.
unfoldable pub frame_must_response : Frame → Option Error
frame_must_response frame =
    if bytes_eq frame.cmd (codes "resp")
    then elim (get_first_header frame (codes "status")) [
      | none ↦ some missing_header
      | some statushdr ↦
          if strncmp_eq statushdr.value (codes "okay") statushdr.len
          then none
          else some response_status
    ]
    else some unexpected_frame

-- The digits of `x`: a round for each division, so `x` rounds are enough.
num_digits_loop : (fuel x count : ℕ) → ℕ
num_digits_loop zero x count = count
num_digits_loop (suc f) x count =
    let again = num_digits_loop f (x / 10) (count + 1) in if ltb x 10 then count else again

unfoldable pub num_digits : ℕ → ℕ
unfolding num_digits_loop
num_digits x = num_digits_loop x x 1

unfoldable pub kv_len : Header → ℕ
kv_len hdr = 3 + strlen hdr.key + 1 + num_digits hdr.len + 1 + hdr.len + 1

unfoldable pub po_len : PayloadObj → ℕ
po_len po = 3 + 1 + num_digits po.ponum + 1 + num_digits po.polen + 1 + po.polen + 1

unfoldable pub ro_len : RoutingObj → ℕ
ro_len ro = 3 + num_digits ro.ronum + 1 + num_digits ro.rolen + 1 + ro.rolen + 1
