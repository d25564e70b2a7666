-- ===== src/Proto.antt =====
-- src/proto.rs: the serializable NAT types, their conversions, and the agent messages.
pub mod RoundTrip
use jrok_rs.Base.{ℕ, Bool, String, Option, List}
use jrok_rs.Base.Map.{StrMap}
use jrok_rs.Nat.{NatType, NatInfo}
use jrok_rs.Nat

pub data NatTypeSer : Type 0 where
  open_nat full_cone restricted_cone port_restricted_cone symmetric unknown : NatTypeSer

-- `From<NatType> for NatTypeSer`
unfoldable pub nat_type_to_ser : NatType → NatTypeSer
nat_type_to_ser NatType.open_nat = open_nat
nat_type_to_ser NatType.full_cone = full_cone
nat_type_to_ser NatType.restricted_cone = restricted_cone
nat_type_to_ser NatType.port_restricted_cone = port_restricted_cone
nat_type_to_ser NatType.symmetric = symmetric
nat_type_to_ser NatType.unknown = unknown

-- `From<NatTypeSer> for NatType`
unfoldable pub nat_type_of_ser : NatTypeSer → NatType
nat_type_of_ser open_nat = NatType.open_nat
nat_type_of_ser full_cone = NatType.full_cone
nat_type_of_ser restricted_cone = NatType.restricted_cone
nat_type_of_ser port_restricted_cone = NatType.port_restricted_cone
nat_type_of_ser symmetric = NatType.symmetric
nat_type_of_ser unknown = NatType.unknown

pub record NatInfoSer : Type 0 where
  pub local_addr : String
  pub public_ip : String
  pub public_port : ℕ
  pub nat_type : NatTypeSer
  pub hairpinning : Bool

-- `From<NatInfo> for NatInfoSer`
unfoldable pub nat_info_to_ser : NatInfo → NatInfoSer
unfolding nat_type_to_ser
nat_info_to_ser info = record {
  local_addr = info.local_addr;
  public_ip = info.public_ip;
  public_port = info.public_port;
  nat_type = nat_type_to_ser info.nat_type;
  hairpinning = info.hairpinning;
}

-- `From<NatInfoSer> for NatInfo`
unfoldable pub nat_info_of_ser : NatInfoSer → NatInfo
unfolding nat_type_of_ser
nat_info_of_ser info = record {
  local_addr = info.local_addr;
  public_ip = info.public_ip;
  public_port = info.public_port;
  nat_type = nat_type_of_ser info.nat_type;
  hairpinning = info.hairpinning;
}

-- The fields stand in the order of the source.
pub data Message : Type 0 where
  register : (subdomain : String) (local_port : ℕ) (local_host protocol api_key : String) → Message
  welcome : (agent_id subdomain protocol : String) → Message
  error : (message : String) → Message
  http_request :
      (request_id method path : String) (headers : StrMap String) (body : Option (List ℕ)) → Message
  http_response :
      (request_id : String) (status : ℕ) (headers : StrMap String) (body : Option (List ℕ))
      → Message
  heartbeat : Message
  heartbeat_ack : Message
  tcp_listen_request : (session_id : String) (client_nat : Option NatInfoSer) → Message
  tcp_listen_response : (session_id endpoint : String) (agent_nat : Option NatInfoSer) → Message
  connection_established : (session_id : String) (is_direct : Bool) → Message
  tcp_connect : (connection_id client_ip : String) → Message
  tcp_data : (connection_id payload : String) → Message
  tcp_disconnect : (connection_id : String) → Message
