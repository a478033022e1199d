-- ===== src/Collector/Usage.antt =====
-- `printUsage` of collector/core/Options.cpp.
use loggerlib.Common.Usage.{print_protocols}
use loggerlib.Common.Text.Numbers.{to_string}
use loggerlib.Logger.SocketProtocol.{SocketProtocol, protocol_to_string}
use loggerlib.Prelude.{flatten, [], ◌∷◌, Bytes, codes}

unfoldable pub print_usage : (program : Bytes) → Bytes
print_usage program = flatten (
    codes "Usage: "
    ∷ program
    ∷ codes " [--] <host:port> [count] [timeout]\n       "
    ∷ program
    ∷ codes " --listen <host:port> [--proto tcp|udp] [--count N] [--timeout T]\n       "
    ∷ program
    ∷ codes " --help\n\n"
    ∷ codes "  <host:port>  address to listen on; \":5555\" takes every interface,\n"
    ∷ codes "               an IPv6 address needs brackets: \"[::1]:5555\"\n"
    ∷ codes "  --proto      transport to receive, one of "
    ∷ print_protocols
    ∷ codes " (default: "
    ∷ protocol_to_string SocketProtocol.tcp
    ∷ codes ")\n  --count      report the statistics after every N-th message (default: "
    ∷ to_string 100
    ∷ codes ")\n  --timeout    report them after T seconds as well, when anything arrived "
    ∷ codes "(default: "
    ∷ to_string 10
    ∷ codes ")\n\nReceived records are printed as they come. "
    ∷ codes "Stop with Ctrl-C for a final report.\n"
    ∷ [])
