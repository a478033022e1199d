-- ===== src/Common/Endpoint/Ports.antt =====
-- The range of the ports that common/Endpoint.hpp reads.
use loggerlib.Common.Text.Numbers.{parse_number_iff}
use loggerlib.Common.Text.{parse_number}
use loggerlib.Common.Endpoint.{parse_number, parse_port}
use loggerlib.Prelude.{ℕ, ◌≤◌, ◌≡◌, inl, inr, some, arith, Bytes, Option-cases}

pub parse_port-bounds :
    (text : Bytes) (port : ℕ) → parse_port text ≡ some port → (1 ≤ port) × (port ≤ 65535)
unfolding parse_port
parse_port-bounds text port h = elim (Option-cases (parse_number 65535 text)) [
  | inl nothing ↦ absurd (ground arith)
  | inr (n, e) ↦ ground (arith, ((parse_number_iff 65535 n text).0 e).3)
]
