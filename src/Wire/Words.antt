-- ===== src/Wire/Words.antt =====
-- Words of two and four bytes are read back as they were written.
use py.Prelude.{ℕ, ◌≡◌, Bytes, some, length, arith}
use py.Wire.{to_bytes2, to_bytes4, from_bytes}

pub from_bytes-to_bytes2 :
    (x : ℕ) (out : Bytes) → to_bytes2 x ≡ some out → (from_bytes 0 out ≡ x) × (length out ≡ 2)
unfolding to_bytes2 from_bytes
from_bytes-to_bytes2 x out h = ground arith

pub from_bytes-to_bytes4 :
    (x : ℕ) (out : Bytes) → to_bytes4 x ≡ some out → (from_bytes 0 out ≡ x) × (length out ≡ 4)
unfolding to_bytes4 from_bytes
from_bytes-to_bytes4 x out h = ground arith
