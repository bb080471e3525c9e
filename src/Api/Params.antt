-- ===== src/Api/Params.antt =====
-- The parameter structs of api.h. A pointer that may be NULL is an option; a chain of objects is a
-- list; `char*` is a C string.
use bw2c.Base.{ℕ, Bool, Option, List, Bytes}
use bw2c.Frame.{PayloadObj, RoutingObj}
use bw2c.Objects.{Buffer}

-- The fields of `struct tm` that are printed, with the full year and the month from 1.
pub record Tm : Type 0 where
  pub year : ℕ
  pub month : ℕ
  pub day : ℕ
  pub hour : ℕ
  pub minute : ℕ
  pub second : ℕ

pub record PublishParams : Type 0 where
  pub uri : Bytes
  pub primary_access_chain : Option Buffer
  pub autochain : Bool
  pub routing_objects : List RoutingObj
  pub payload_objects : List PayloadObj
  pub expiry : Option Tm
  pub expiry_delta : ℕ
  pub elaborate_pac : Option Bytes
  pub do_not_verify : Bool
  pub persist : Bool

-- `struct bw2_queryParams` has the same fields.
pub record SubscribeParams : Type 0 where
  pub uri : Bytes
  pub primary_access_chain : Option Buffer
  pub autochain : Bool
  pub routing_objects : List RoutingObj
  pub expiry : Option Tm
  pub expiry_delta : ℕ
  pub elaborate_pac : Option Bytes
  pub do_not_verify : Bool
  pub leave_packed : Bool

pub record ListParams : Type 0 where
  pub uri : Bytes
  pub primary_access_chain : Option Buffer
  pub autochain : Bool
  pub routing_objects : List RoutingObj
  pub expiry : Option Tm
  pub expiry_delta : ℕ
  pub elaborate_pac : Option Bytes
  pub do_not_verify : Bool

-- `to` and the revokers are hashes of verifying keys.
pub record CreateDotParams : Type 0 where
  pub is_permission : Bool
  pub to : Buffer
  pub ttl : ℕ
  pub expiry : Option Tm
  pub expiry_delta : ℕ
  pub contact : Option Bytes
  pub comment : Option Bytes
  pub revokers : List Buffer
  pub omit_creation_date : Bool
  pub uri : Bytes
  pub access_permissions : Bytes

pub record CreateDotChainParams : Type 0 where
  pub dots : List Buffer
  pub is_permission : Bool
  pub un_elaborate : Bool

pub record CreateEntityParams : Type 0 where
  pub expiry : Option Tm
  pub expiry_delta : ℕ
  pub contact : Option Bytes
  pub comment : Option Bytes
  pub revokers : List Buffer
  pub omit_creation_date : Bool

pub record BuildChainParams : Type 0 where
  pub uri : Bytes
  pub access_permissions : Bytes
  pub to : Buffer
