-- ===== src/Nat/Private.antt =====
-- is_private_ip against the address blocks that it names.
use jrok_rs.Base.{ℕ, ◌*◌, ◌+◌, ◌≤◌, ◌<◌, ◌≡◌, ◌↔◌, ◌⊎◌, true, arith}
use jrok_rs.Net.{Ipv4Addr, IsOctets, v4}
use jrok_rs.Nat.{is_private_ip}

-- The 32-bit number of an address.
abbrev pub to_bits : Ipv4Addr → ℕ
to_bits x = x.a * 16777216 + x.b * 65536 + x.c * 256 + x.d

-- The address lies in the block from `base` with `size` addresses.
abbrev pub InBlock : ℕ → ℕ → Ipv4Addr → Type 0
InBlock base size x = (base ≤ to_bits x) × (to_bits x < base + size)

-- For octets below 256, an IPv4 address is private exactly when its 32-bit number lies in one of
-- the blocks 10.0.0.0/8, 172.16.0.0/12, 192.168.0.0/16 and 127.0.0.0/8.
pub is_private_ip-blocks :
    (x : Ipv4Addr)
    → IsOctets x
    → (is_private_ip (v4 x) ≡ true) ↔ (
        InBlock 0x0a000000 0x1000000 x
        ⊎ InBlock 0xac100000 0x100000 x
        ⊎ InBlock 0xc0a80000 0x10000 x
        ⊎ InBlock 0x7f000000 0x1000000 x)
unfolding is_private_ip
is_private_ip-blocks x h = ground arith
