-- ===== src/Load/Laws.antt =====
-- What the scenarios of the load test ask for and count.
use trace_graph.Base.{
  ℕ, Text, codes, ◌<◌, List, [], ◌∷◌, not, some, length, get_elem?, get_elem?-in_range, ◌≡◌, refl,
  arith,
}
use trace_graph.Load.{
  ids, HttpResponse, Request, Iteration, is_get_ok, id_text, list_request, trace_request, get_one,
  get_listed, get_trace,
}

-- An iteration asked for one of these ids and counted what came of it.
pub record AsksFor (base : Text) (server : Request → HttpResponse) (it : Iteration)
    (listed : List Text) : Type 0 where
  pub index : ℕ
  pub id : Text
  pub is_listed : get_elem? listed index ≡ some id
  pub asked : it.requests ≡ list_request base server (codes "5") ∷ trace_request base server id ∷ []
  pub counted : it.errors ≡ not (is_get_ok (server (trace_request base server id)).status) ∷ []

get_one-AsksFor :
    (base : Text) (server : Request → HttpResponse) (listed : List Text) (k : ℕ)
    → k < length listed
    → AsksFor base server (get_one base server (id_text (get_elem? listed k))) listed
unfolding get_one id_text
get_one-AsksFor base server listed k h =
    let (id, e) = get_elem?-in_range listed k h in
    record { index = k; id = id; is_listed = e; asked = rw e refl; counted = rw e refl }

-- If the list of the server is answered with status 200 and some ids, and the random index is below
-- their number, then an iteration of the scenario `get` asks for one of these ids, never for
-- "undefined", and counts an error exactly if its answer has none of the statuses 200, 304 and 404.
pub get_trace-AsksFor :
    (base : Text) (server : Request → HttpResponse) (pick : ℕ → ℕ) (t : Text) (ts : List Text)
    → ((n : ℕ) → 0 < n → pick n < n)
    → (server (list_request base server (codes "5"))).status ≡ 200
    → (server (list_request base server (codes "5"))).body ≡ ids (t ∷ ts)
    → AsksFor base server (get_trace base server pick) (t ∷ ts)
unfolding get_trace get_listed
get_trace-AsksFor base server pick t ts p e b =
    rw (e, b)
      (get_one-AsksFor base server (t ∷ ts) (pick (length (t ∷ ts)))
        (p (length (t ∷ ts)) (omega arith)))
