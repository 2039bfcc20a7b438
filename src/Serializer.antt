-- ===== src/Serializer.antt =====
-- src/serializer.cc and src/include/serializer.h: ProtobufSerializer over an abstract
-- protobuf message type. SerializeToString and ParseFromArray of the business messages are
-- generated code, and so parameters; ParseFromArray starts from an empty message and gives its
-- contents. The context argument is unused by the source.
use hxrpc.Common.{Option, none, some, Bytes, codes, Expected, value, unexpected}
use hxrpc.Types.{RpcError, RpcStatusCode}

-- A message of the program is a type name and contents.
pub record MessageApi (M : Type 0) : Type 0 where
  pub serialize_to_string : M → Option Bytes
  -- the result of parsing into a message with the type of the first argument
  pub parse_from_array : M → Bytes → Option M
  -- GetDescriptor()->full_name(), New() and Clear()
  pub full_name : M → Bytes
  pub new : M → M
  pub clear : M → M

module _ {M : Type 0} (api : MessageApi M) where
  open api use {serialize_to_string, parse_from_array}

  -- ProtobufSerializer::Serialize
  unfoldable pub serialize : M → Expected Bytes RpcError
  serialize message = elim (serialize_to_string message) [
    | none ↦ unexpected (record {
      code = RpcStatusCode.serialize_error;
      message = codes "protobuf serialize failed";
    })
    | some payload ↦ value payload
  ]

  -- ProtobufSerializer::Deserialize, with the message that the source writes to as the result
  unfoldable pub deserialize : Bytes → M → Expected M RpcError
  deserialize payload message = elim (parse_from_array message payload) [
    | none ↦ unexpected (record {
      code = RpcStatusCode.deserialize_error;
      message = codes "protobuf deserialize failed";
    })
    | some m ↦ value m
  ]
