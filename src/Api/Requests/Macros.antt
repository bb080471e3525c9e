-- ===== src/Api/Requests/Macros.antt =====
-- Each BW2_REQUEST_ADD_* macro keeps a request sendable.
use bw2c.Base.{
  ℕ, ◌≢◌, refl, Bool, true, false, not, Option, none, some, List, [], ◌∷◌, ◌++◌, ◌==◌, arith, inl,
  inr, Bool-cases, Bytes, codes, take, All, All-append,
}
use bw2c.Clib.{decimal}
use bw2c.Frame.{Frame, PayloadObj, RoutingObj, append_po, append_ro}
use bw2c.Frame.Wire.{IsWirePo, IsWireRo}
use bw2c.Objects.{Buffer}
use bw2c.Api.Params.{Tm}
use bw2c.Api.Requests.{
  add, bool_text, add_autochain, format_time_rfc3339, format_timedelta, add_expiry, add_uri,
  add_primary_access_chain, add_routing_objects, add_payload_objects, add_elaborate_pac, add_verify,
  add_persist, add_leave_packed, add_contact, add_comment, add_revokers, add_omit_creation_date,
  add_ttl, add_to, add_is_permission, add_access_permissions, add_unelaborate, add_dots,
}
use bw2c.Api.Requests.Digits.{IsTime, format_time_rfc3339-IsText}
use bw2c.Api.Requests.Sendable.{
  IsSendable, IsText, IsBlob, is_word-IsText, add_text-IsSendable, add_blob-IsSendable,
  decimal-NoNul, take-IsText,
}

-- The parameters that may be missing.
abbrev pub MayText : Option Bytes → Type 0
MayText none = Unit
MayText (some s) = IsText s

abbrev pub MayBlob : Option Buffer → Type 0
MayBlob none = Unit
MayBlob (some b) = IsBlob b

abbrev pub MayTime : Option Tm → Type 0
MayTime none = Unit
MayTime (some t) = IsTime t

bool_text-IsText : (b : Bool) → IsText (bool_text b)
unfolding bool_text
bool_text-IsText true = is_word-IsText (codes "true") refl (omega arith)
bool_text-IsText false = is_word-IsText (codes "false") refl (omega arith)

module _ {num : ℕ} (f : Frame) where
  pub add_autochain-IsSendable : (b : Bool) → IsSendable num f → IsSendable num (add_autochain b f)
  unfolding add_autochain
  add_autochain-IsSendable true s =
      add_text-IsSendable (codes "autochain") (codes "true") f refl
        (is_word-IsText (codes "true") refl (omega arith)) s
  add_autochain-IsSendable false s = s

  pub add_expiry-IsSendable :
      (t : Option Tm) (delta : ℕ)
      → MayTime t
      → IsSendable num f
      → IsSendable num (add_expiry t delta f)
  unfolding add_expiry format_timedelta
  add_expiry-IsSendable (some t) delta h s =
      add_text-IsSendable (codes "expiry") (format_time_rfc3339 t) f refl
        (format_time_rfc3339-IsText t h) s
  add_expiry-IsSendable none delta h s = elim (Bool-cases (delta == 0)) [
    | inl e ↦ rw e s
    | inr e ↦ rw e (
        add_text-IsSendable (codes "expirydelta") (format_timedelta delta) f refl
          (take-IsText 23 (decimal delta ++ codes "ms") (omega arith) (
            All-append (λ c. c ≢ 0) (decimal delta) (codes "ms") (decimal-NoNul delta)
              (λ e. omega arith, (λ e. omega arith, tt))))
          s)
  ]

  pub add_uri-IsSendable :
      (uri : Bytes) → IsText uri → IsSendable num f → IsSendable num (add_uri uri f)
  unfolding add_uri
  add_uri-IsSendable uri t s = add_text-IsSendable (codes "uri") uri f refl t s

  pub add_primary_access_chain-IsSendable :
      (pac : Option Buffer)
      → MayBlob pac
      → IsSendable num f
      → IsSendable num (add_primary_access_chain pac f)
  unfolding add_primary_access_chain
  add_primary_access_chain-IsSendable none h s = s
  add_primary_access_chain-IsSendable (some b) h s =
      add_blob-IsSendable (codes "primary_access_chain") b f refl h s

  pub add_routing_objects-IsSendable :
      (ros : List RoutingObj)
      → All IsWireRo ros
      → IsSendable num f
      → IsSendable num (add_routing_objects ros f)
  unfolding add_routing_objects append_ro
  add_routing_objects-IsSendable ros h s = record {
    numbered = s.numbered;
    cmd_exact = s.cmd_exact;
    hdrs_ok = s.hdrs_ok;
    pos_ok = s.pos_ok;
    ros_ok = All-append IsWireRo f.ros ros s.ros_ok h;
  }

  pub add_payload_objects-IsSendable :
      (pos : List PayloadObj)
      → All IsWirePo pos
      → IsSendable num f
      → IsSendable num (add_payload_objects pos f)
  unfolding add_payload_objects append_po
  add_payload_objects-IsSendable pos h s = record {
    numbered = s.numbered;
    cmd_exact = s.cmd_exact;
    hdrs_ok = s.hdrs_ok;
    pos_ok = All-append IsWirePo f.pos pos s.pos_ok h;
    ros_ok = s.ros_ok;
  }

  pub add_elaborate_pac-IsSendable :
      (pac : Option Bytes)
      → MayText pac
      → IsSendable num f
      → IsSendable num (add_elaborate_pac pac f)
  unfolding add_elaborate_pac
  add_elaborate_pac-IsSendable none h s =
      add_text-IsSendable (codes "elaborate_pac") (codes "partial") f refl
        (is_word-IsText (codes "partial") refl (omega arith)) s
  add_elaborate_pac-IsSendable (some pac) h s =
      add_text-IsSendable (codes "elaborate_pac") pac f refl h s

  pub add_verify-IsSendable : (b : Bool) → IsSendable num f → IsSendable num (add_verify b f)
  unfolding add_verify
  add_verify-IsSendable b s =
      add_text-IsSendable (codes "doverify") (bool_text (not b)) f refl (bool_text-IsText (not b)) s

  pub add_persist-IsSendable : (b : Bool) → IsSendable num f → IsSendable num (add_persist b f)
  unfolding add_persist
  add_persist-IsSendable b s =
      add_text-IsSendable (codes "persist") (bool_text b) f refl (bool_text-IsText b) s

  pub add_leave_packed-IsSendable :
      (b : Bool) → IsSendable num f → IsSendable num (add_leave_packed b f)
  unfolding add_leave_packed
  add_leave_packed-IsSendable true s = s
  add_leave_packed-IsSendable false s =
      add_text-IsSendable (codes "unpack") (codes "true") f refl
        (is_word-IsText (codes "true") refl (omega arith)) s

  pub add_contact-IsSendable :
      (contact : Option Bytes)
      → MayText contact
      → IsSendable num f
      → IsSendable num (add_contact contact f)
  unfolding add_contact
  add_contact-IsSendable none h s = s
  add_contact-IsSendable (some t) h s = add_text-IsSendable (codes "contact") t f refl h s

  pub add_comment-IsSendable :
      (comment : Option Bytes)
      → MayText comment
      → IsSendable num f
      → IsSendable num (add_comment comment f)
  unfolding add_comment
  add_comment-IsSendable none h s = s
  add_comment-IsSendable (some t) h s = add_text-IsSendable (codes "comment") t f refl h s

  pub add_omit_creation_date-IsSendable :
      (b : Bool) → IsSendable num f → IsSendable num (add_omit_creation_date b f)
  unfolding add_omit_creation_date
  add_omit_creation_date-IsSendable true s =
      add_text-IsSendable (codes "omitcreationdate") (codes "true") f refl
        (is_word-IsText (codes "true") refl (omega arith)) s
  add_omit_creation_date-IsSendable false s = s

  pub add_ttl-IsSendable : (ttl : ℕ) → IsSendable num f → IsSendable num (add_ttl ttl f)
  unfolding add_ttl
  add_ttl-IsSendable ttl s =
      add_text-IsSendable (codes "ttl") (take 3 (decimal ttl)) f refl
        (take-IsText 3 (decimal ttl) (omega arith) (decimal-NoNul ttl)) s

  pub add_to-IsSendable :
      (to : Buffer) → IsBlob to → IsSendable num f → IsSendable num (add_to to f)
  unfolding add_to
  add_to-IsSendable to h s = add_blob-IsSendable (codes "to") to f refl h s

  pub add_is_permission-IsSendable :
      (b : Bool) → IsSendable num f → IsSendable num (add_is_permission b f)
  unfolding add_is_permission
  add_is_permission-IsSendable b s =
      add_text-IsSendable (codes "ispermission") (bool_text b) f refl (bool_text-IsText b) s

  pub add_access_permissions-IsSendable :
      (permissions : Bytes)
      → IsText permissions
      → IsSendable num f
      → IsSendable num (add_access_permissions permissions f)
  unfolding add_access_permissions
  add_access_permissions-IsSendable permissions h s =
      add_text-IsSendable (codes "accesspermissions") permissions f refl h s

  pub add_unelaborate-IsSendable :
      (b : Bool) → IsSendable num f → IsSendable num (add_unelaborate b f)
  unfolding add_unelaborate
  add_unelaborate-IsSendable b s =
      add_text-IsSendable (codes "unelaborate") (bool_text b) f refl (bool_text-IsText b) s

pub add_revokers-IsSendable :
    {num : ℕ} (l : List Buffer) (f : Frame)
    → All IsBlob l
    → IsSendable num f
    → IsSendable num (add_revokers l f)
unfolding add_revokers
add_revokers-IsSendable [] f h s = s
add_revokers-IsSendable (b ∷ l) f (h, hs) s =
    add_revokers-IsSendable l (add (codes "revoker") b.arr b.len f) hs
      (add_blob-IsSendable (codes "revoker") b f refl h s)

pub add_dots-IsSendable :
    {num : ℕ} (l : List Buffer) (f : Frame)
    → All IsBlob l
    → IsSendable num f
    → IsSendable num (add_dots l f)
unfolding add_dots
add_dots-IsSendable [] f h s = s
add_dots-IsSendable (b ∷ l) f (h, hs) s =
    add_dots-IsSendable l (add (codes "dot") b.arr b.len f) hs
      (add_blob-IsSendable (codes "dot") b f refl h s)
