-- ===== src/Common/Usage.antt =====
-- What both usage texts share: app/core/Options.cpp and collector/core/Options.cpp.
use loggerlib.Logger.LogLevel.{LogLevel, from_index, index, level_to_string}
use loggerlib.Logger.SocketProtocol.{SocketProtocol, protocol_to_string}
use loggerlib.Prelude.{ℕ, zero, suc, ◌+◌, [], ◌++◌, Bytes, codes, ltb, if◌then◌else◌}

-- A loop over the values of an enumeration, with `i` the next one and the number of those left.
unfoldable pub print_names : (ℕ → Bytes) → ℕ → ℕ → Bytes
print_names name i zero = []
print_names name i (suc n) =
    (if ltb 0 i then codes ", " else []) ++ (name i ++ print_names name (i + 1) n)

abbrev pub protocol_at : ℕ → SocketProtocol
protocol_at zero = SocketProtocol.tcp
protocol_at (suc zero) = SocketProtocol.udp
protocol_at (suc (suc zero)) = SocketProtocol.count
protocol_at (suc (suc (suc n))) = SocketProtocol.beyond n

-- `printProtocols`
unfoldable pub print_protocols : Bytes
print_protocols = print_names (λ i. protocol_to_string (protocol_at i)) 0 2

-- `printLevels`
unfoldable pub print_levels : Bytes
print_levels = print_names (λ i. level_to_string (from_index i)) 0 (index LogLevel.count)
