-- ===== src/Api/Requests/Requirements.antt =====
-- What the parameters of the calls must be for their requests to have a wire format: texts without NULs, full
-- buffers, and objects that have a wire format.
use bw2c.Base.{All}
use bw2c.Frame.Wire.{IsWirePo, IsWireRo}
use bw2c.Api.Params.{
  PublishParams, SubscribeParams, ListParams, CreateDotParams, CreateEntityParams, BuildChainParams,
}
use bw2c.Api.Requests.Sendable.{IsText, IsBlob}
use bw2c.Api.Requests.Macros.{MayText, MayBlob, MayTime}

pub record IsPublication (p : PublishParams) : Type 0 where
  pub uri_ok : IsText p.uri
  pub chain_ok : MayBlob p.primary_access_chain
  pub ros_ok : All IsWireRo p.routing_objects
  pub pos_ok : All IsWirePo p.payload_objects
  pub expiry_ok : MayTime p.expiry
  pub pac_ok : MayText p.elaborate_pac

pub record IsSubscription (p : SubscribeParams) : Type 0 where
  pub uri_ok : IsText p.uri
  pub chain_ok : MayBlob p.primary_access_chain
  pub ros_ok : All IsWireRo p.routing_objects
  pub expiry_ok : MayTime p.expiry
  pub pac_ok : MayText p.elaborate_pac

pub record IsListing (p : ListParams) : Type 0 where
  pub uri_ok : IsText p.uri
  pub chain_ok : MayBlob p.primary_access_chain
  pub ros_ok : All IsWireRo p.routing_objects
  pub expiry_ok : MayTime p.expiry
  pub pac_ok : MayText p.elaborate_pac

pub record IsNewDot (p : CreateDotParams) : Type 0 where
  pub to_ok : IsBlob p.to
  pub expiry_ok : MayTime p.expiry
  pub contact_ok : MayText p.contact
  pub comment_ok : MayText p.comment
  pub revokers_ok : All IsBlob p.revokers
  pub uri_ok : IsText p.uri
  pub permissions_ok : IsText p.access_permissions

pub record IsNewEntity (p : CreateEntityParams) : Type 0 where
  pub expiry_ok : MayTime p.expiry
  pub contact_ok : MayText p.contact
  pub comment_ok : MayText p.comment
  pub revokers_ok : All IsBlob p.revokers

pub record IsChainQuery (p : BuildChainParams) : Type 0 where
  pub uri_ok : IsText p.uri
  pub permissions_ok : IsText p.access_permissions
  pub to_ok : IsBlob p.to
