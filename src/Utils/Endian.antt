-- ===== src/Utils/Endian.antt =====
-- uint32_to_le and uint32_from_le.
use daemonlib.Base.{ℕ, ◌^◌, ◌<◌, ◌≡◌, Bool, true, false, arith}
use daemonlib.Utils.{uint32_to_le, uint32_from_le}

-- Whatever the byte order of the host, uint32_from_le undoes uint32_to_le.
pub uint32_from_le-to_le :
    (little_endian : Bool) (x : ℕ)
    → x < 2 ^ 32
    → uint32_from_le little_endian (uint32_to_le little_endian x) ≡ x
uint32_from_le-to_le true x small = omega (arith, small)
uint32_from_le-to_le false x small = omega (arith, small)
