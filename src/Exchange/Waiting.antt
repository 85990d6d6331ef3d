-- ===== src/Exchange/Waiting.antt =====
-- The client waits for the response while the server waits for the end of the request.
use pwdmanlib.Base.{ℕ, ◌+◌, ◌-◌, ◌∷◌, ◌++◌, length, take, drop, Bytes}

-- What goes out of the client: its message, the zero behind it and the rest of the allocation.
abbrev sent_wire : ℕ → Bytes → Bytes → Bytes
sent_wire size message memory =
    message ++ 0 ∷ take (size - length message - 1) (drop (length message + 1) memory)
