-- ===== src/Common/Endpoint/RoundTrip.antt =====
-- `joinHostPort` of common/Endpoint.hpp against `splitHostPort` and `parsePort`.
use loggerlib.Prelude.{
  ℕ, ◌+◌, ◌-◌, ◌≤◌, false, [], ◌∷◌, ◌++◌, none, some, ◌≡◌, ◌≢◌, refl, arith, ◌==◌, if◌then◌else◌,
  Bytes, Lacks, length, find, rfind, find_pair, take-length, drop_past, Bool-cases, suc, inl, inr,
}
use loggerlib.Common.Endpoint.{starts, holds, split_host_port, join_host_port, parse_port}
use loggerlib.Common.Text.Numbers.{to_string, to_string-Lacks, parse_number-to_string}

rfind-Lacks : (c : ℕ) (s : Bytes) → Lacks c s → rfind c s ≡ none
unfolding rfind
rfind-Lacks c [] h = refl
rfind-Lacks c (x ∷ s) (hx, hs) = ground (arith, rfind-Lacks c s hs)

rfind_last : (c : ℕ) (s t : Bytes) → Lacks c t → rfind c (s ++ c ∷ t) ≡ some (length s)
unfolding rfind
rfind_last c [] t h = ground (arith, rfind-Lacks c t h)
rfind_last c (x ∷ s) t h = ground (arith, rfind_last c s t h)

-- A pair that the text in front does not hold is found right behind it; the first byte of the pair
-- may not stand twice, as in `]]:`, where the second one starts the pair.
find_pair_first :
    (a b : ℕ) (s t : Bytes)
    → a ≢ b
    → find_pair a b s ≡ none
    → find_pair a b (s ++ (a ∷ b ∷ t)) ≡ some (length s)
unfolding find_pair
find_pair_first a b [] t d h = ground arith
find_pair_first a b (x ∷ []) t d h = ground arith
find_pair_first a b (x ∷ y ∷ s) t d h = ground (arith, find_pair_first a b (y ∷ s) t d)

find_pair-cons :
    (a b x : ℕ) (s : Bytes) → x ≢ a → find_pair a b s ≡ none → find_pair a b (x ∷ s) ≡ none
unfolding find_pair
find_pair-cons a b x [] d h = refl
find_pair-cons a b x (y ∷ s) d h = ground arith

split_bracketed :
    (host rest : Bytes)
    → find_pair b']' b':' host ≡ none
    → split_host_port (b'[' ∷ (host ++ (b']' ∷ b':' ∷ rest)))
      ≡ some (record { host = host; port = rest })
unfolding split_host_port
split_bracketed host rest h =
    let found =
      find_pair_first b']' b':' (b'[' ∷ host) rest (omega arith)
        (find_pair-cons b']' b':' b'[' host (omega arith) h) in
    let inner : suc (length host) - 1 ≡ length host = omega arith in
    let behind : suc (length host) + 2 ≡ suc (length host + 2) = omega arith in
    rw (found, split_host_port, inner, take-length, behind, drop_past 2 host _)

holds-Lacks : (c : ℕ) (s : Bytes) → Lacks c s → holds c s ≡ false
unfolding find
holds-Lacks c [] h = refl
holds-Lacks c (x ∷ s) (hx, hs) = ground (arith, holds-Lacks c s hs)

not-holds-Lacks : (c : ℕ) (s : Bytes) → holds c s ≡ false → Lacks c s
unfolding find
not-holds-Lacks c [] h = tt
not-holds-Lacks c (x ∷ s) h = ground (arith, not-holds-Lacks c s)

starts-append :
    (c : ℕ) (s t : Bytes) → starts c s ≡ false → starts c t ≡ false → starts c (s ++ t) ≡ false
starts-append c [] t hs ht = ht
starts-append c (x ∷ s) t hs ht = hs

split_plain :
    (host rest : Bytes)
    → Lacks b':' host
    → Lacks b':' rest
    → starts b'[' host ≡ false
    → split_host_port (host ++ (b':' ∷ rest)) ≡ some (record { host = host; port = rest })
unfolding split_host_port
split_plain host rest lh lr h = rw (
  split_host_port,
  starts-append b'[' host (b':' ∷ rest) h refl,
  rfind_last b':' host rest lr,
  take-length,
  holds-Lacks b':' host lh,
  drop_past 1 host _,
)

-- Putting a host and a port together and splitting the text gives both back: the host has no `]:`
-- inside, and one without a colon does not start with `[`.
pub split-join :
    (host : Bytes) (port : ℕ)
    → find_pair b']' b':' host ≡ none
    → (holds b':' host ≡ false → starts b'[' host ≡ false)
    → split_host_port (join_host_port host port)
      ≡ some (record { host = host; port = to_string port })
unfolding join_host_port
split-join host port single unbracketed = elim (Bool-cases (holds b':' host)) [
  | inl yes_colon ↦ rw yes_colon (split_bracketed host (to_string port) single)
  | inr no_colon ↦ rw no_colon (
      split_plain host (to_string port) (not-holds-Lacks b':' host no_colon)
        (to_string-Lacks b':' port (omega arith)) (unbracketed no_colon))
]

-- The port that is read back is the one that was written.
pub parse_port-to_string :
    (port : ℕ)
    → port ≤ 65535
    → parse_port (to_string port) ≡ (if port == 0 then none else some port)
unfolding parse_port
parse_port-to_string port h = rw (parse_number-to_string 65535 port h, parse_port)
