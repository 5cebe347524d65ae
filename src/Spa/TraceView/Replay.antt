-- ===== src/Spa/TraceView/Replay.antt =====
-- The replay buttons of a trace: the request that a click sends and the toast that follows.
pub mod Requests
use trace_graph.Base.{
  ℕ, zero, suc, Text, codes, decimal, ltb, leb, ◌==◌, if◌then◌else◌, List, [], ◌∷◌, ◌++◌, Bool,
  true, false, Option, none, some, ◌&&◌, ◌||◌, ◌/◌, ◌%◌, ◌+◌, ◌-◌, any,
}
use trace_graph.Value.{Js, undefined, null, str, nullish, get, to_text}
use trace_graph.Value.Print.{stringify}
use trace_graph.Spa.Api.{ApiResult, value, failure}
use trace_graph.Spa.Steps.{◌>>=◌}

-- The characters that `encodeURIComponent` keeps.
unfoldable pub is_unreserved : ℕ → Bool
is_unreserved c =
    (leb b'a' c && leb c b'z')
    || ((leb b'A' c && leb c b'Z')
        || ((leb b'0' c && leb c b'9') || any (λ d. d == c) (codes "-_.!~*'()")))

abbrev pub hex_digit : ℕ → ℕ
hex_digit d = if ltb d 10 then d + 48 else d + 55

-- A byte as `%XX`.
unfoldable pub percent : ℕ → Text
percent b = b'%' ∷ hex_digit (b / 16 % 16) ∷ hex_digit (b % 16) ∷ []

-- The bytes of a code point in UTF-8, each with a percent sign.
unfoldable pub encode_char : ℕ → Text
encode_char c =
    if is_unreserved c
    then c ∷ []
    else if ltb c 0x80
    then percent c
    else if ltb c 0x800
    then percent (0xc0 + c / 64) ++ percent (0x80 + c % 64)
    else if ltb c 0x10000
    then percent (0xe0 + c / 4096) ++ (percent (0x80 + c / 64 % 64) ++ percent (0x80 + c % 64))
    else percent (0xf0 + c / 262144)
      ++ (percent (0x80 + c / 4096 % 64)
          ++ (percent (0x80 + c / 64 % 64) ++ percent (0x80 + c % 64)))

-- `encodeURIComponent`, on a text with no lone surrogate.
unfoldable pub encode_uri : Text → Text
encode_uri [] = []
encode_uri (c ∷ s) = encode_char c ++ encode_uri s

unfoldable pub replay_path : Text → Text → Text
replay_path id step =
    codes "/tracegraph/traces/" ++ (encode_uri id ++ (codes "/replay?step=" ++ step))

-- What `JSON.stringify` gives, inside a template.
unfoldable pub or_undefined : Option Text → Text
or_undefined none = codes "undefined"
or_undefined (some t) = t

-- `typeof result === 'string' ? result : (result.executionId ?? JSON.stringify(result))`
unfoldable pub new_id : Js → Option Text
unfolding or_undefined
new_id (str s) = some s
new_id result = do
  id ← get (codes "executionId") result
  some (to_text (nullish id (str (or_undefined (stringify result)))))

-- The toast, by the result of the request; a TypeError in `new_id` is caught, and its message is
-- the engine's.
unfoldable pub replay_toast : Text → ApiResult → Text
replay_toast type_error (value result) = elim (new_id result) [
  | some id ↦ codes "Replay started — new execution ID: " ++ id
  | none ↦ codes "Replay failed: " ++ type_error
]
replay_toast type_error (failure m s) = codes "Replay failed: " ++ m
