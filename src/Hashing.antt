-- ===== src/Hashing.antt =====
-- What the payload hashes are made of: `"|".join(...)`, `str(uuid)`, and the hexadecimal SHA-256
-- digest of a text, which is a parameter, since its code is not in the repository.
use Prim.Native.String.{◌++◌}
use instructional_agent_mvp.Prelude.{String, Option, none, some, List, [], ◌∷◌}
use instructional_agent_mvp.Schema.{Uuid}

pub record Hashing : Type 0 where
  pub digest : String → String
  pub str_uuid : Uuid → String

-- `"|".join(parts)`.
unfoldable pub join : List String → String
join [] = ""
join (part ∷ []) = part
join (part ∷ next ∷ rest) = part ++ "|" ++ join (next ∷ rest)

-- `str(version_id) if version_id else "NULL"`.
abbrev pub str_or_null : (Uuid → String) → Option Uuid → String
str_or_null str_uuid none = "NULL"
str_or_null str_uuid (some id) = str_uuid id
