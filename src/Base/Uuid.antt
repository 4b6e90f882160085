-- ===== src/Base/Uuid.antt =====
-- uuid.UUID of github.com/google/uuid: the 128 bits as a number. `uuid.New()` is a value that each
-- operation takes as an argument.
use Prim.Native.Nat.{ℕ}

abbrev pub Uuid : Type 0
Uuid = ℕ

-- uuid.Nil
abbrev pub uuid_nil : Uuid
uuid_nil = 0
