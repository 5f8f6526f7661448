-- ===== src/Dumps.antt =====
-- `json.dumps(value, sort_keys=True, separators=(",", ":"))`, as
-- src/persistence/repositories/context_engine.py calls it: the text of a JSON value without spaces,
-- the keys of every object in order, and every character that is not printable ASCII escaped.
use Prim.Native.Nat.{◌/◌, ◌%◌}
use Prim.Native.Char.{code}
use Prim.Native.String.{◌++◌}
use instructional_agent_mvp.Prelude.{
  ℕ, zero, suc, ◌+◌, ◌-◌, ◌≡◌, refl, String, true, false, List, [], ◌∷◌, ltb, ◌==◌, map,
  if◌then◌else◌,
}
use instructional_agent_mvp.Schema.{
  Json, null, bool, num, text, array, object, Items, nil, cons, Fields, end, field,
}
use instructional_agent_mvp.Sorting.{text_le, sorted}

abbrev digit : ℕ → String
digit zero = "0"
digit (suc zero) = "1"
digit (suc (suc zero)) = "2"
digit (suc (suc (suc zero))) = "3"
digit (suc (suc (suc (suc zero)))) = "4"
digit (suc (suc (suc (suc (suc zero))))) = "5"
digit (suc (suc (suc (suc (suc (suc zero)))))) = "6"
digit (suc (suc (suc (suc (suc (suc (suc zero))))))) = "7"
digit (suc (suc (suc (suc (suc (suc (suc (suc zero)))))))) = "8"
digit (suc (suc (suc (suc (suc (suc (suc (suc (suc zero))))))))) = "9"
digit (suc (suc (suc (suc (suc (suc (suc (suc (suc (suc n)))))))))) =
    if n == 0
    then "a"
    else if n == 1
    then "b"
    else if n == 2
    then "c"
    else if n == 3
    then "d"
    else if n == 4
    then "e"
    else "f"

-- Decimal digits, with the number as fuel: it has fewer digits than that, and one.
decimal : ℕ → ℕ → String
decimal zero n = ""
decimal (suc fuel) n =
    let rest = decimal fuel (n / 10) ++ digit (n % 10) in if ltb n 10 then digit n else rest

unfoldable pub str_nat : ℕ → String
unfolding decimal
str_nat n = decimal (suc n) n

-- `\uXXXX`.
escape_unit : ℕ → String
escape_unit u =
    "\\u" ++ digit (u / 4096 % 16) ++ digit (u / 256 % 16) ++ digit (u / 16 % 16) ++ digit (u % 16)

escape_code : ℕ → String → String
unfolding escape_unit
escape_code u plain =
    if u == 34
    then "\\\""
    else if u == 92
    then "\\\\"
    else if u == 8
    then "\\b"
    else if u == 9
    then "\\t"
    else if u == 10
    then "\\n"
    else if u == 12
    then "\\f"
    else if u == 13
    then "\\r"
    else if ltb u 32
    then escape_unit u
    else if ltb u 127
    then plain
    else if ltb u 65536
    then escape_unit u
    else escape_unit (55296 + (u - 65536) / 1024) ++ escape_unit (56320 + (u - 65536) % 1024)

escape : String → String
unfolding escape_code
escape String.[] = ""
escape (String.◌∷◌ c s) = escape_code (code c) (String.◌∷◌ c String.[]) ++ escape s

quote : String → String
unfolding escape
quote s = "\"" ++ escape s ++ "\""

join_commas : List String → String
join_commas [] = ""
join_commas (s ∷ []) = s
join_commas (s ∷ t ∷ rest) = s ++ "," ++ join_commas (t ∷ rest)

-- The text of an entry of an object, with its key for the order.
abbrev entry_text : String × String → String
entry_text (k, v) = quote k ++ ":" ++ v

unfoldable mutual
  unfolding quote join_commas str_nat sorted

  pub dumps : Json → String
  dumps null = "null"
  dumps (bool true) = "true"
  dumps (bool false) = "false"
  dumps (num n) = str_nat n
  dumps (text s) = quote s
  dumps (array items) = "[" ++ join_commas (dumps_items items) ++ "]"
  dumps (object fields) =
      "{"
      ++ join_commas
          (map entry_text (sorted text_le (λ (e : String × String). e.0) (dumps_fields fields)))
      ++ "}"

  pub dumps_items : Items → List String
  dumps_items nil = []
  dumps_items (cons j rest) = dumps j ∷ dumps_items rest

  pub dumps_fields : Fields → List (String × String)
  dumps_fields end = []
  dumps_fields (field k j rest) = (k, dumps j) ∷ dumps_fields rest

-- A run.
dumps_example :
    dumps
      (object (field "b" (array (cons (num 120) (cons null nil))) (field "a" (text "x\"é") end)))
    ≡ "{\"a\":\"x\\\"\\u00e9\",\"b\":[120,null]}"
unfolding dumps
dumps_example = refl
