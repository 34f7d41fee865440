-- ===== src/Transport/KvService.antt =====
-- proto/raft.proto: the messages of KVService.
use raftra.Common.{String, Bool}
use raftra.Storage.{Error}

-- The field `error` of the responses of KVService: the empty text, a text of the handler, or what
-- Error() gives of an error.
pub data ErrorText : Type 0 where
  no_error : ErrorText
  message : String → ErrorText
  of_error : Error → ErrorText
  encode_error : ErrorText

pub record SetRequest : Type 0 where
  pub key : String
  pub value : String

-- SetResponse and DeleteResponse, which have the same fields.
pub record WriteResponse : Type 0 where
  pub success : Bool
  pub error : ErrorText
  pub leader_hint : String

pub record GetRequest : Type 0 where
  pub key : String

pub record GetResponse : Type 0 where
  pub value : String
  pub found : Bool
  pub error : ErrorText

pub record DeleteRequest : Type 0 where
  pub key : String
