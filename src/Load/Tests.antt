-- ===== src/Load/Tests.antt =====
-- The theorem on the scenario `get`, at a server with two traces.
use trace_graph.Base.{ℕ, codes, ◌-◌, ◌<◌, [], ◌∷◌, refl, arith}
use trace_graph.Load.{ids, HttpResponse, Request, get_trace}
use trace_graph.Load.Laws.{AsksFor, get_trace-AsksFor}

abbrev small_server : Request → HttpResponse
small_server r = record { status = 200; body = ids (codes "a1" ∷ codes "b2" ∷ []) }

abbrev last_index : ℕ → ℕ
last_index n = n - 1

last_index-below : (n : ℕ) → 0 < n → last_index n < n
last_index-below n h = omega arith

get_trace-AsksFor_example :
    AsksFor
      (codes "http://localhost:8082")
      small_server
      (get_trace (codes "http://localhost:8082") small_server last_index)
      (codes "a1" ∷ codes "b2" ∷ [])
get_trace-AsksFor_example =
    get_trace-AsksFor (codes "http://localhost:8082") small_server last_index (codes "a1")
      (codes "b2" ∷ []) last_index-below refl refl
