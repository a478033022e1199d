-- ===== src/App/Options/Targets.antt =====
-- The targets that app/core/Options.cpp collects, and `--proto` on one of them.
use loggerlib.Logger.LogLevel.{LogLevel, is_valid_level}
use loggerlib.Logger.SocketProtocol.{is_valid_protocol, SocketProtocol}
use loggerlib.App.Options.{socket_target, file_target, SocketProtocol, put_protocol}
use loggerlib.Logger.LoggerFactory.{Target}
use loggerlib.Prelude.{
  ℕ, zero, suc, ◌≤◌, ◌≡◌, refl, ◌≢◌, true, some, List, [], ◌∷◌, ◌++◌, Bytes, All, length,
}

-- A target that the factory can open: a named file, or a host with a port and a known protocol.
pub data IsTarget : Target → Type 0 where
  is_file : {path : Bytes} → path ≢ [] → IsTarget (file_target path)
  is_socket :
      {host : Bytes} {port : ℕ} {protocol : SocketProtocol}
      → host ≢ []
      → 1 ≤ port
      → port ≤ 65535
      → is_valid_protocol protocol ≡ true
      → IsTarget (socket_target host port protocol)

-- A socket target stands at the index.
unfoldable pub SocketAt : ℕ → List Target → Type 0
SocketAt i [] = ⊥
SocketAt zero (file_target path ∷ targets) = ⊥
SocketAt zero (socket_target host port protocol ∷ targets) = Unit
SocketAt (suc i) (target ∷ targets) = SocketAt i targets

pub SocketAt-append : (i : ℕ) (xs ys : List Target) → SocketAt i xs → SocketAt i (xs ++ ys)
unfolding SocketAt
SocketAt-append zero (socket_target host port protocol ∷ xs) ys h = tt
SocketAt-append (suc i) (x ∷ xs) ys h = SocketAt-append i xs ys h
SocketAt-append _ _ ys h = absurd h

pub SocketAt-end :
    (xs : List Target) (host : Bytes) (port : ℕ) (protocol : SocketProtocol)
    → SocketAt (length xs) (xs ++ (socket_target host port protocol ∷ []))
unfolding SocketAt
SocketAt-end [] host port protocol = tt
SocketAt-end (x ∷ xs) host port protocol = SocketAt-end xs host port protocol

pub info_valid : is_valid_level LogLevel.info ≡ true
unfolding is_valid_level
info_valid = refl

put_here :
    (host : Bytes) (port : ℕ) (old protocol : SocketProtocol)
    → is_valid_protocol protocol ≡ true
    → IsTarget (socket_target host port old)
    → IsTarget (socket_target host port protocol)
put_here host port old protocol valid (is_socket full low high known) =
    is_socket full low high valid

SocketAt-tail :
    (target : Target) (xs ys : List Target)
    → ((j : ℕ) → SocketAt j xs → SocketAt j ys)
    → (j : ℕ) → SocketAt j (target ∷ xs)
    → SocketAt j (target ∷ ys)
unfolding SocketAt
SocketAt-tail (socket_target host port protocol) xs ys same zero h = tt
SocketAt-tail (file_target path) xs ys same zero h = absurd h
SocketAt-tail target xs ys same (suc j) h = same j h

SocketAt-put :
    (host : Bytes) (port : ℕ) (old protocol : SocketProtocol) (xs : List Target) (j : ℕ)
    → SocketAt j (socket_target host port old ∷ xs)
    → SocketAt j (socket_target host port protocol ∷ xs)
unfolding SocketAt
SocketAt-put host port old protocol xs zero h = tt
SocketAt-put host port old protocol xs (suc j) h = h

pub put_protocol-keeps :
    (i : ℕ) (protocol : SocketProtocol) (targets : List Target)
    → is_valid_protocol protocol ≡ true
    → SocketAt i targets
    → All IsTarget targets
    → (after : List Target) × (put_protocol i protocol targets ≡ some after)
      × All IsTarget after
      × ((j : ℕ) → SocketAt j targets → SocketAt j after)
unfolding put_protocol SocketAt
put_protocol-keeps zero protocol (socket_target host port old ∷ targets) valid here (t, ts) = (
  socket_target host port protocol ∷ targets,
  refl,
  (put_here host port old protocol valid t, ts),
  SocketAt-put host port old protocol targets,
)
put_protocol-keeps (suc i) protocol (target ∷ targets) valid there (t, ts) =
    let (after, put, all, same) = put_protocol-keeps i protocol targets valid there ts in
    (target ∷ after, rw put refl, (t, all), SocketAt-tail target targets after same)
put_protocol-keeps _ protocol _ valid there all = absurd there
