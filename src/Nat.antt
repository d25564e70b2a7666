-- ===== src/Nat.antt =====
-- src/nat/mod.rs: NAT types and information, the private-address test, and the strategy table.
pub mod Discovery
pub mod Strategy
pub mod Private
pub mod Punch
use jrok_rs.Base.{ℕ, Bool, true, false, String, leb, ◌==◌, ◌&&◌, if◌then◌else◌}
use jrok_rs.Net.{Ipv4Addr, IpAddr, v4, v6}

pub data NatType : Type 0 where
  open_nat full_cone restricted_cone port_restricted_cone symmetric unknown : NatType

pub record NatInfo : Type 0 where
  pub local_addr : String
  pub public_ip : String
  pub public_port : ℕ
  pub nat_type : NatType
  pub hairpinning : Bool

is_private_v4 : Ipv4Addr → Bool
is_private_v4 x =
    if x.a == 10
    then true
    else if x.a == 172 && leb 16 x.b && leb x.b 31
    then true
    else if x.a == 192 && x.b == 168
    then true
    else if x.a == 127
    then true
    else false

unfoldable pub is_private_ip : IpAddr → Bool
unfolding is_private_v4
is_private_ip (v4 x) = is_private_v4 x
is_private_ip (v6 _) = true

pub data HolePunchStrategy : Type 0 where
  direct hole_punch relay : HolePunchStrategy

unfoldable pub determine_strategy : NatType → NatType → HolePunchStrategy
determine_strategy open_nat _ = direct
determine_strategy _ open_nat = direct
determine_strategy full_cone _ = hole_punch
determine_strategy _ full_cone = hole_punch
determine_strategy symmetric symmetric = relay
determine_strategy _ _ = hole_punch
