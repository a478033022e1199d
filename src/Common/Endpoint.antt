-- ===== src/Common/Endpoint.antt =====
-- common/Endpoint.hpp: `host:port` taken apart and put together.
pub mod RoundTrip
pub mod Ports
use loggerlib.Prelude.{
  ℕ, ◌+◌, ◌-◌, Bool, true, false, [], ◌∷◌, ◌++◌, Option, none, some, ◌==◌, if◌then◌else◌, Bytes,
  length, take, drop, substr, find, rfind, find_pair,
}
use loggerlib.Common.Text.{parse_number}
use loggerlib.Common.Text.Numbers.{to_string}

pub record HostPort : Type 0 where
  pub host : Bytes
  pub port : Bytes

-- `!text.empty() && text.front() == c`
abbrev pub starts : ℕ → Bytes → Bool
starts c [] = false
starts c (x ∷ text) = x == c

-- `host.find(':') != npos`
abbrev pub holds : ℕ → Bytes → Bool
holds c text = elim (find c text) [ none ↦ false | some i ↦ true ]

unfoldable pub split_host_port : Bytes → Option HostPort
split_host_port text =
    if starts b'[' text
    then elim (find_pair b']' b':' text) [
      | none ↦ none
      | some close ↦
          some (record { host = substr 1 (close - 1) text; port = drop (close + 2) text })
    ]
    else elim (rfind b':' text) [
      | none ↦ none
      | some colon ↦
          if holds b':' (substr 0 colon text)
          then none
          else some (record { host = substr 0 colon text; port = drop (colon + 1) text })
    ]

unfoldable pub join_host_port : Bytes → ℕ → Bytes
join_host_port host port =
    let bracketed = holds b':' host in
    (if bracketed then b'[' ∷ [] else [])
    ++ (host ++ ((if bracketed then b']' ∷ [] else []) ++ (b':' ∷ to_string port)))

-- `std::uint16_t` reaches to 65535.
unfoldable pub parse_port : Bytes → Option ℕ
parse_port text = elim (parse_number 65535 text) [
  | none ↦ none
  | some port ↦ if port == 0 then none else some port
]
