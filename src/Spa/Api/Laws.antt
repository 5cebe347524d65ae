-- ===== src/Spa/Api/Laws.antt =====
-- Which replies give a value, and which error they give else.
use trace_graph.Base.{ℕ, Text, ◌≤◌, true, Option, ◌≡◌, refl, arith, ◌⊎◌}
use trace_graph.Value.{Js, str}
use trace_graph.Spa.Api.{
  parsed, Response, Reply, rejected, answered, value, failure, api_fetch, is_not_found,
}

-- A result with a value comes from an answer with a status from 200 to 299, and the value is the
-- parsed JSON of its body or its text as a string.
pub api_fetch-value :
    (r : Response) (v : Js)
    → api_fetch (answered r) ≡ value v
    → ((200 ≤ r.status) × (r.status ≤ 299)) × ((r.json ≡ parsed v) ⊎ (v ≡ str r.text))
unfolding api_fetch
api_fetch-value r v h = ground arith

-- A failure for which the views show the message of a missing trace comes from an answer with
-- status 404: no other status, no rejected promise and no body that fails to parse gives it.
pub api_fetch-not_found :
    (reply : Reply) (m : Text) (s : Option ℕ)
    → api_fetch reply ≡ failure m s
    → is_not_found s ≡ true
    → (r : Response) × (reply ≡ answered r) × (r.status ≡ 404)
unfolding api_fetch is_not_found
api_fetch-not_found (rejected _) m s h e = cc
api_fetch-not_found (answered r) m s h e = (r, refl, ground arith)
