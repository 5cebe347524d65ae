-- ===== src/Spa/Tests.antt =====
-- Data of a small server for the tests of the views, and the theorems at it.
mod Texts
mod Views
mod Comparison
use trace_graph.Base.{
  ℕ, Text, codes, text_eq, decimal, if◌then◌else◌, List, [], ◌∷◌, ◌++◌, Option, none, some, ◌/◌,
}
use trace_graph.Value.{Js, num, str, arr, obj, nil, cons, Items, Fields, end, field, to_text}
use trace_graph.Spa.Api.{ApiResult, value, failure}
use trace_graph.Spa.Platform.{Platform}

-- Dates are milliseconds as numbers here.
abbrev millis : Js → Option ℕ
millis (num n) = some n
millis _ = none

abbrev platform : Platform
platform = record {
  local_time = to_text;
  epoch = millis;
  seconds = λ ms. decimal (ms / 1000);
  parse = λ t. none;
  float_add = λ t i. t;
}

abbrev validate_fields : Fields
validate_fields =
    field (codes "nodeName") (str (codes "validate")) (field (codes "attempts") (num 2) end)

abbrev charge_fields : Fields
charge_fields = field (codes "nodeName") (str (codes "<charge>")) end

abbrev ship_fields : Fields
ship_fields = field (codes "nodeName") (str (codes "ship")) end

abbrev prefix_steps : Items
prefix_steps = cons (obj validate_fields) nil

abbrev left_steps : Items
left_steps = cons (obj charge_fields) nil

abbrev right_steps : Items
right_steps = cons (obj ship_fields) (cons (obj charge_fields) nil)

abbrev diff_fields : Fields
diff_fields = field (codes "commonPrefix") (arr prefix_steps) (
    field (codes "leftRemainder") (arr left_steps) (
      field (codes "rightRemainder") (arr right_steps)
        (field (codes "divergenceIndex") (num 1) end)))

abbrev listed_ids : Items
listed_ids = cons (str (codes "a1")) (cons (str (codes "b&2")) nil)

abbrev metric_fields : Fields
metric_fields = field (codes "nodeCount") (num 5) end

-- The answers of the server by path.
unfoldable server : Text → ApiResult
server path =
    if text_eq path (codes "/tracegraph/traces")
    then value (arr listed_ids)
    else if text_eq path (codes "/tracegraph/traces/a1/diff/b%262")
    then value (obj diff_fields)
    else if text_eq path (codes "/tracegraph/ui/graph")
    then value (str (codes "graph TD"))
    else if text_eq path (codes "/tracegraph/ui/complexity")
    then value (obj metric_fields)
    else failure (codes "HTTP 404") (some 404)
