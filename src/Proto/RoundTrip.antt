-- ===== src/Proto/RoundTrip.antt =====
-- NAT information survives the trip through its serializable form.
use jrok_rs.Base.{◌≡◌, arith}
use jrok_rs.Nat.{NatInfo}
use jrok_rs.Proto.{NatInfoSer, nat_info_to_ser, nat_info_of_ser}

-- The two conversions of NAT information are inverse to one another, in both directions.
pub nat_info_ser_inverse :
    (info : NatInfo) (ser : NatInfoSer)
    → (nat_info_of_ser (nat_info_to_ser info) ≡ info)
      × (nat_info_to_ser (nat_info_of_ser ser) ≡ ser)
unfolding nat_info_of_ser nat_info_to_ser
nat_info_ser_inverse info ser = ground arith
