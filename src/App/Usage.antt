-- ===== src/App/Usage.antt =====
-- `printUsage` of app/core/Options.cpp.
use loggerlib.Common.Usage.{print_levels, print_protocols}
use loggerlib.Logger.LogLevel.{LogLevel, level_to_string}
use loggerlib.Logger.SocketProtocol.{SocketProtocol, protocol_to_string}
use loggerlib.Prelude.{flatten, [], ◌∷◌, Bytes, codes}

unfoldable pub print_usage : (program : Bytes) → Bytes
print_usage program = flatten (
    codes "Usage: "
    ∷ program
    ∷ codes " [--] <logfile> [level]\n       "
    ∷ program
    ∷ codes " [--file <path>] [--socket <host:port> [--proto tcp|udp]] [--level <name>]\n       "
    ∷ program
    ∷ codes " --help\n\n"
    ∷ codes "  <logfile>  file the log is appended to\n"
    ∷ codes "  --file     another log file, may be given several times\n"
    ∷ codes "  --socket   receiver the log is sent to, may be given several times\n"
    ∷ codes "  --proto    transport of the preceding --socket, one of "
    ∷ print_protocols
    ∷ codes " (default: "
    ∷ protocol_to_string SocketProtocol.tcp
    ∷ codes ")\n  --level    lowest level that reaches the log, one of "
    ∷ print_levels
    ∷ codes " (default: "
    ∷ level_to_string LogLevel.info
    ∷ codes ")\n  [level]    same as --level\n\n"
    ∷ codes "Type /help inside the application for the list of commands.\n"
    ∷ [])
