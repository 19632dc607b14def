-- ===== src/Prelude/Types.antt =====
-- The scalar types that every part of the program uses.
use Prim.Native.Nat.{ℕ}
use Prim.Native.String.{String, ◌++◌}

-- A UUID is compared and stored, never taken apart.
abbrev pub Uuid : Type 0
Uuid = ℕ

-- A `timestamptz` or `Date`, in milliseconds since the epoch.
abbrev pub Timestamp : Type 0
Timestamp = ℕ

-- A JSON document, as the text that `JSON.stringify` gives.
abbrev pub Json : Type 0
Json = String

-- Concatenation of texts.
abbrev pub text_append : String → String → String
text_append s t = s ++ t
