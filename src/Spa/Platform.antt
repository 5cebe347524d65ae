-- ===== src/Spa/Platform.antt =====
-- What the app takes from the browser and this development does not define: dates in the user's
-- place and zone, the rounding of `toFixed`, `JSON.parse`, and sums of numbers that are not whole.
use trace_graph.Base.{ℕ, Text, Option}
use trace_graph.Value.{Js}

pub record Platform : Type 0 where
  -- `new Date(v).toLocaleString()`
  pub local_time : Js → Text
  -- `new Date(v)` as a number of milliseconds; `none` is NaN.
  pub epoch : Js → Option ℕ
  -- `(ms / 1000).toFixed(2)`
  pub seconds : ℕ → Text
  -- `JSON.parse(t)`; `none` is its SyntaxError.
  pub parse : Text → Option Js
  -- `x + i` for a number that is no whole one, as text.
  pub float_add : Text → ℕ → Text
