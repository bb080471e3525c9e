-- ===== src/Frame/Read.antt =====
-- `bw2_readFrame` of frame.c and the functions that read one token, one object and one frame.
use bw2c.Base.{
  ℕ, zero, suc, ◌+◌, ◌-◌, ◌%◌, ◌^◌, Bool, false, ◌&&◌, Option, none, some, [], ◌∷◌, ltb, leb, ◌==◌,
  if◌then◌else◌, Bytes, codes, take, drop, get_elem?,
}
use mathlib.Core.Option
use bw2c.Clib.{cstr, strlen, strcmp_eq, strtoull, strchr}
use bw2c.Run.{
  spin, Cmd, pure, fail, crash, ◌>>=◌, unless_heap_full, malformed_frame, bad_arg, system,
  connection_lost,
}
use bw2c.Os.{Source, closed, failed, bytes}
use bw2c.Utils.Reading.{
  Until, array_full, eof_reached, char_found, until_error, receive, read_until_char,
  drop_until_char, read_until_full, drop_full_array,
}
use bw2c.Utils.DotForm.{ponum_from_dot_form}
use bw2c.Frame.{
  Header, PayloadObj, RoutingObj, Frame, append_kv, append_po, append_ro, frame_header_length,
  max_key_length, max_ponum_length, max_length_digits, max_ronum_length,
}

-- `sizeof` of the three object structs on a 64-bit machine.
abbrev pub struct_size : ℕ
struct_size = 32

abbrev pub size_mod : ℕ
size_mod = 2 ^ 64

-- Where an allocated block stands: at an offset in the frame heap, or wherever `malloc` put it.
pub data Block : Type 0 where
  in_heap : ℕ → Block
  malloced : Block

unfoldable pub byte_is : ℕ → ℕ → Bytes → Bool
byte_is i b header = elim (get_elem? header i) [ none ↦ false | some c ↦ c == b ]

-- Bytes 4, 15 and 26 of the first line are checked; the length that it states is not looked at.
unfoldable pub header_ok : Bytes → Bool
header_ok header = byte_is 4 b' ' header && (byte_is 15 b' ' header && byte_is 26 b'\n' header)

unfoldable pub parse_header : Bytes → Frame
parse_header header = record {
  cmd = take 4 header;
  seqno = (strtoull (cstr (take 10 (drop 16 header)))).value % 2 ^ 32;
  hdrs = [];
  pos = [];
  ros = [];
}

module _ (os : Source) where
  open os use {State, malloc}

  -- The bytes that are stored in front of the NUL. A token that fills the buffer is followed by
  -- `bw2_drop_until_char` with a null `bytesread`, which makes one round at most.
  unfoldable pub read_token : (buflen delimiter : ℕ) → Cmd State Bytes
  read_token zero delimiter = fail bad_arg
  read_token (suc n) delimiter = do
    (rv, buf) ← read_until_char os n delimiter
    elim rv [
      | until_error ↦ fail system
      | eof_reached ↦ fail malformed_frame
      | char_found ↦ pure buf
      | array_full ↦ do
        (rv', _) ← drop_until_char os 1 delimiter false
        elim rv' [ eof_reached ↦ fail malformed_frame | until_error ↦ fail system | _ ↦ pure buf ]
    ]

  -- `frameheap` is NULL, or it has `heapsize` bytes. The block, if there is room, and `*heapused`.
  unfoldable pub heap_alloc :
      (frameheap : Option ℕ) (heapused size : ℕ) → Cmd State (Option Block × ℕ)
  heap_alloc none used size s =
      let (got, s') = malloc size s in pure ((if got then some malloced else none), used) s'
  heap_alloc (some heapsize) used size s =
      let heapleft = (heapsize + size_mod - used) % size_mod in
      if ltb heapleft size
      then pure (none, used) s
      else pure (some (in_heap used), (used + size) % size_mod) s

  unfoldable pub consume_newline : Cmd State Bool
  consume_newline = do
    r ← receive os 1
    elim r [ closed ↦ pure false | failed ↦ pure false | bytes c _ ↦ pure (c == b'\n') ]

  -- The value of an object, dropped where there is no block.
  unfoldable pub fill : (block : Option Block) (vallen : ℕ) → Cmd State (Until × Option Bytes)
  fill none vallen = do (rv, _) ← drop_full_array os vallen; pure (rv, none)
  fill (some _) vallen = do (rv, arr) ← read_until_full os vallen; pure (rv, some arr)

  -- The value and the newline behind it.
  unfoldable pub read_body : (block : Option Block) (vallen : ℕ) → Cmd State (Option Bytes)
  unfolding fill
  read_body block vallen = do
    (rv, value) ← fill block vallen
    elim rv [
      | array_full ↦ do
        newline ← consume_newline
        if newline then pure value else fail malformed_frame
      | _ ↦ fail malformed_frame
    ]

  -- Room for a struct, a key and a value, unless the sum wraps around.
  unfoldable pub alloc_object :
      (frameheap : Option ℕ) (heapused extra vallen : ℕ) → Cmd State (Option Block × ℕ)
  alloc_object heap used extra vallen =
      let len = (struct_size + extra + vallen) % size_mod in
      if leb vallen len then heap_alloc heap used len else pure (none, used)

  -- The second half of reading an object: a block for it, and the value into the block. The object
  -- that is pointed to, NULL where the value was dropped, and `*heapused`.
  unfoldable pub read_value :
      {A : Type 0} (frameheap : Option ℕ) (heapused extra vallen : ℕ) (make : Bytes → A)
      → Cmd State (Option A × ℕ)
  read_value heap used extra vallen make = do
    (block, used') ← alloc_object heap used extra vallen
    value ← read_body block vallen
    pure (Option.map make value, used')

  unfoldable pub read_kv : (frameheap : Option ℕ) (heapused : ℕ) → Cmd State (Option Header × ℕ)
  read_kv heap used = do
    key ← read_token (max_key_length + 1) b' '
    length ← read_token (max_length_digits + 1) b'\n'
    let vallen = (strtoull (cstr length)).value
    read_value heap used (strlen key + 1) vallen
        (λ v. record { key = cstr key; len = vallen; value = v })

  -- The number of a payload object: decimal behind a colon, or else the dot form in front of the
  -- colon. With no colon the source writes through the null pointer that `strchr` returns.
  unfoldable pub parse_ponum : Bytes → Cmd State ℕ
  parse_ponum ponumstr = elim (strchr ponumstr b':') [
    | none ↦ crash
    | some (before, after) ↦ elim before [
      | [] ↦
          let p = strtoull after in
          if p.erange then fail malformed_frame else pure (p.value % 2 ^ 32)
      | c ∷ digits ↦ elim (ponum_from_dot_form (c ∷ digits)) [
        | none ↦ fail malformed_frame
        | some n ↦ pure n
      ]
    ]
  ]

  unfoldable pub read_po : (frameheap : Option ℕ) (heapused : ℕ) → Cmd State (Option PayloadObj × ℕ)
  read_po heap used = do
    ponumstr ← read_token (max_ponum_length + 1) b' '
    length ← read_token (max_length_digits + 1) b'\n'
    ponum ← parse_ponum (cstr ponumstr)
    let vallen = (strtoull (cstr length)).value
    read_value heap used 0 vallen (λ v. record { ponum = ponum; polen = vallen; po = v })

  unfoldable pub read_ro : (frameheap : Option ℕ) (heapused : ℕ) → Cmd State (Option RoutingObj × ℕ)
  read_ro heap used = do
    ronumstr ← read_token (max_ronum_length + 1) b' '
    length ← read_token (max_length_digits + 1) b'\n'
    let ronum = (strtoull (cstr ronumstr)).value % 2 ^ 8
    let vallen = (strtoull (cstr length)).value
    read_value heap used 0 vallen (λ v. record { ronum = ronum; rolen = vallen; ro = v })

  -- A node that was read is linked at the end of its list; `hdr->next = NULL` follows the pointer.
  abbrev pub linked : {A : Type 0} → Option A → (A → Cmd State Frame) → Cmd State Frame
  linked none k = crash
  linked (some a) k = k a

  -- The loop of `bw2_readFrame`, one object in each round.
  unfoldable pub read_objects :
      (fuel : ℕ) (frameheap : Option ℕ) (heapused : ℕ) (frame : Frame) → Cmd State Frame
  read_objects zero heap used frame s = spin
  read_objects (suc f) heap used frame s =
      (do
        (res, objtype) ← read_until_full os 3
        elim res [
          | array_full ↦
              if strcmp_eq objtype (codes "kv ")
              then (λ s'.
                  unless_heap_full (read_kv heap used s')
                    (λ (hdr, used').
                      linked hdr λ h. read_objects f heap used' (append_kv frame (h ∷ [])))
                    (read_objects f heap used frame))
              else if strcmp_eq objtype (codes "ro ")
              then (λ s'.
                  unless_heap_full (read_ro heap used s')
                    (λ (ro, used').
                      linked ro λ r. read_objects f heap used' (append_ro frame (r ∷ [])))
                    (read_objects f heap used frame))
              else if strcmp_eq objtype (codes "po ")
              then (λ s'.
                  unless_heap_full (read_po heap used s')
                    (λ (po, used').
                      linked po λ p. read_objects f heap used' (append_po frame (p ∷ [])))
                    (read_objects f heap used frame))
              else if strcmp_eq objtype (codes "end")
              then (do
                newline ← consume_newline
                if newline then pure frame else fail malformed_frame)
              else fail malformed_frame
          | _ ↦ fail malformed_frame
        ])
        s

  unfoldable pub read_frame : (fuel : ℕ) (frameheap : Option ℕ) → Cmd State Frame
  read_frame fuel heap = do
    (rv, header) ← read_until_full os frame_header_length
    elim rv [
      | eof_reached ↦ fail malformed_frame
      | until_error ↦ fail connection_lost
      | _ ↦
          if header_ok header
          then read_objects fuel heap 0 (parse_header header)
          else fail malformed_frame
    ]
