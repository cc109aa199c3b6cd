-- ===== src/Vk/Handlers/Outcome.antt =====
-- What every handler of implementations/slims/slims/vk/handlers.go returns, and its tests of a body.
use orv.Base.{ℕ, Bool, true, false, List, [], ◌∷◌, Option, some}
use orv.Protocol.{Header}
use orv.Vk.State.{AddrPort, Errno, Platform, VaultKeeper}

-- What a `MessageHandler` does to the state, and its error.
abbrev pub Outcome : Platform → Type 0
Outcome P = VaultKeeper P × Option Errno

abbrev pub MessageHandler : Platform → Type 0
MessageHandler P = Header → List ℕ → AddrPort → VaultKeeper P → Outcome P

abbrev pub fail : {P : Platform} → Errno → VaultKeeper P → Outcome P
fail e vk = (vk, some e)

-- `len(reqBody) == 0`.
abbrev pub is_nil : List ℕ → Bool
is_nil [] = true
is_nil (x ∷ xs) = false
