-- ===== src/Value/Print.antt =====
-- `JSON.stringify`, without and with an indentation of two blanks.
use trace_graph.Base.{
  ℕ, Text, codes, text_eq, decimal, replicate, ltb, leb, ◌==◌, if◌then◌else◌, List, [], ◌∷◌, ◌++◌,
  Bool, true, false, Option, none, some, ◌+◌, ◌*◌, ◌/◌, ◌%◌, ◌&&◌, ◌||◌, ◌≡◌, refl,
}
use trace_graph.Value.{
  Js, undefined, null, bool, num, other_num, str, arr, obj, Items, nil, cons, Fields, end, field,
}

abbrev hex_digit : ℕ → ℕ
hex_digit d = if ltb d 10 then d + 48 else d + 87

-- `\uXXXX`
hex_escape : ℕ → Text
hex_escape c =
    b'\\'
    ∷ b'u'
    ∷ hex_digit (c / 4096 % 16)
    ∷ hex_digit (c / 256 % 16)
    ∷ hex_digit (c / 16 % 16)
    ∷ hex_digit (c % 16)
    ∷ []

-- Control characters and lone surrogates are written by their numbers.
abbrev needs_hex : ℕ → Bool
needs_hex c = ltb c 32 || (leb 0xd800 c && leb c 0xdfff)

unfoldable pub quote_char : ℕ → Text
unfolding hex_escape
quote_char c =
    if c == b'"'
    then codes "\\\""
    else if c == b'\\'
    then codes "\\\\"
    else if c == 8
    then codes "\\b"
    else if c == 9
    then codes "\\t"
    else if c == 10
    then codes "\\n"
    else if c == 12
    then codes "\\f"
    else if c == 13
    then codes "\\r"
    else if needs_hex c
    then hex_escape c
    else c ∷ []

unfoldable pub quote_chars : Text → Text
quote_chars [] = []
quote_chars (c ∷ s) = quote_char c ++ quote_chars s

unfoldable pub quote : Text → Text
quote s = b'"' ∷ (quote_chars s ++ (b'"' ∷ []))

-- `parts.join(sep)`
unfoldable pub join : Text → List Text → Text
join sep [] = []
join sep (p ∷ []) = p
join sep (p ∷ q ∷ ps) = p ++ (sep ++ join sep (q ∷ ps))

-- The brackets round the parts of an array or an object that stands at a depth.
unfoldable pub wrap : Bool → ℕ → ℕ → ℕ → List Text → Text
wrap pretty depth opening closing [] = opening ∷ closing ∷ []
wrap false depth opening closing (p ∷ ps) = opening ∷ (join (codes ",") (p ∷ ps) ++ (closing ∷ []))
wrap true depth opening closing (p ∷ ps) =
    let inner = replicate (2 * (depth + 1)) b' ' in
    let outer = replicate (2 * depth) b' ' in
    opening
    ∷ 10
    ∷ (inner ++ (join (b',' ∷ 10 ∷ inner) (p ∷ ps) ++ (10 ∷ (outer ++ (closing ∷ [])))))

-- The text that JSON has for a number: NaN and the infinities are null.
unfoldable pub json_num : Text → Text
json_num t =
    if text_eq t (codes "NaN") || (text_eq t (codes "Infinity") || text_eq t (codes "-Infinity"))
    then codes "null"
    else t

-- A field whose value is undefined is left out, an element is null.
unfoldable pub add_member : Bool → Text → Option Text → List Text → List Text
add_member pretty k none ps = ps
add_member pretty k (some t) ps =
    (quote k ++ ((if pretty then codes ": " else codes ":") ++ t)) ∷ ps

unfoldable pub or_null : Option Text → Text
or_null none = codes "null"
or_null (some t) = t

unfoldable mutual
  unfolding quote quote_chars quote_char join wrap json_num add_member or_null

  pub serialize : Bool → ℕ → Js → Option Text
  serialize pretty depth undefined = none
  serialize pretty depth null = some (codes "null")
  serialize pretty depth (bool b) = some (if b then codes "true" else codes "false")
  serialize pretty depth (num n) = some (decimal n)
  serialize pretty depth (other_num t) = some (json_num t)
  serialize pretty depth (str s) = some (quote s)
  serialize pretty depth (arr vs) =
      some (wrap pretty depth b'[' b']' (serialize_items pretty (depth + 1) vs))
  serialize pretty depth (obj fs) =
      some (wrap pretty depth b'{' b'}' (serialize_fields pretty (depth + 1) fs))

  pub serialize_items : Bool → ℕ → Items → List Text
  serialize_items pretty depth nil = []
  serialize_items pretty depth (cons v vs) =
      or_null (serialize pretty depth v) ∷ serialize_items pretty depth vs

  pub serialize_fields : Bool → ℕ → Fields → List Text
  serialize_fields pretty depth end = []
  serialize_fields pretty depth (field k v fs) =
      add_member pretty k (serialize pretty depth v) (serialize_fields pretty depth fs)

-- `JSON.stringify(v)`
unfoldable pub stringify : Js → Option Text
unfolding serialize
stringify v = serialize false 0 v

-- `JSON.stringify(v, null, 2)`
unfoldable pub stringify_pretty : Js → Option Text
unfolding serialize
stringify_pretty v = serialize true 0 v

stringify_tests :
    (stringify (
        obj (
          field
            (codes "a")
            (arr (cons (num 12) (cons undefined nil)))
            (field (codes "b") undefined end)))
      ≡ some (codes "{\"a\":[12,null]}"))
    × (stringify_pretty (obj (field (codes "a") (arr (cons null nil)) end))
        ≡ some (codes "{\n  \"a\": [\n    null\n  ]\n}"))
unfolding stringify stringify_pretty codes decimal replicate text_eq
stringify_tests = (refl, refl)
