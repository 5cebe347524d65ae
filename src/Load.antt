-- ===== src/Load.antt =====
-- The load test, tools/load/k6-traces.js: one iteration of each scenario, by what the server
-- answers. The list of traces is read as what the endpoint sends: null, or an array of ids.
pub mod Laws
mod Tests
use trace_graph.Base.{
  ℕ, Text, codes, ◌==◌, ◌||◌, if◌then◌else◌, List, [], ◌∷◌, ◌++◌, Bool, true, false, not, Option,
  none, some, length, get_elem?,
}

-- `JSON.parse(listRes.body)`
pub data ListBody : Type 0 where
  syntax_error null : ListBody
  ids : List Text → ListBody

pub record HttpResponse : Type 0 where
  pub status : ℕ
  pub body : ListBody

pub data Request : Type 0 where
  get post : Text → Request

-- What an iteration did: the requests in order, what it added to its error rate, and whether it
-- ended by an exception.
pub record Iteration : Type 0 where
  pub requests : List Request
  pub errors : List Bool
  pub threw : Bool

-- `r.status === 200 || r.status === 304`
unfoldable pub is_list_ok : ℕ → Bool
is_list_ok status = status == 200 || status == 304

unfoldable pub is_get_ok : ℕ → Bool
is_get_ok status = status == 200 || (status == 304 || status == 404)

unfoldable pub is_replay_ok : ℕ → Bool
is_replay_ok status = status == 200 || status == 429

-- An id in a template, where one that is out of range gives the word for it.
unfoldable pub id_text : Option Text → Text
id_text none = codes "undefined"
id_text (some id) = id

module _ (base : Text) (server : Request → HttpResponse) where
  unfoldable pub list_request : Text → Request
  list_request limit = get (base ++ (codes "/tracegraph/traces?limit=" ++ limit))

  unfoldable pub trace_request : Text → Request
  trace_request id = get (base ++ (codes "/tracegraph/traces/" ++ id))

  unfoldable pub replay_request : Text → Request
  replay_request id =
      post (base ++ (codes "/tracegraph/traces/" ++ (id ++ codes "/replay?step=-1")))

  unfoldable pub list_traces : Iteration
  unfolding list_request is_list_ok
  list_traces = record {
    requests = list_request (codes "20") ∷ [];
    errors = not (is_list_ok (server (list_request (codes "20"))).status) ∷ [];
    threw = false;
  }

  -- The rest of `getTrace` for the list of ids, and an iteration that stops behind the list.
  unfoldable pub only_list : List Bool → Bool → Iteration
  unfolding list_request
  only_list errors threw = record {
    requests = list_request (codes "5") ∷ [];
    errors = errors;
    threw = threw;
  }

  unfoldable pub get_one : Text → Iteration
  unfolding list_request trace_request is_get_ok
  get_one id = record {
    requests = list_request (codes "5") ∷ trace_request id ∷ [];
    errors = not (is_get_ok (server (trace_request id)).status) ∷ [];
    threw = false;
  }

  -- `pick n` is `Math.floor(Math.random() * n)`.
  unfoldable pub get_listed : (ℕ → ℕ) → ListBody → Iteration
  unfolding only_list get_one id_text
  get_listed pick syntax_error = only_list [] true
  get_listed pick null = only_list [] false
  get_listed pick (ids []) = only_list [] false
  get_listed pick (ids (t ∷ ts)) = get_one (id_text (get_elem? (t ∷ ts) (pick (length (t ∷ ts)))))

  unfoldable pub get_trace : (ℕ → ℕ) → Iteration
  unfolding get_listed only_list
  get_trace pick =
      if (server (list_request (codes "5"))).status == 200
      then get_listed pick (server (list_request (codes "5"))).body
      else only_list (true ∷ []) false

  -- The check of a replay counts for no error rate.
  unfoldable pub replay_listed : ListBody → Iteration
  unfolding only_list replay_request
  replay_listed syntax_error = only_list [] true
  replay_listed null = only_list [] false
  replay_listed (ids []) = only_list [] false
  replay_listed (ids (t ∷ ts)) = record {
    requests = list_request (codes "5") ∷ replay_request t ∷ [];
    errors = [];
    threw = false;
  }

  unfoldable pub replay_trace : Iteration
  unfolding replay_listed only_list
  replay_trace =
      if (server (list_request (codes "5"))).status == 200
      then replay_listed (server (list_request (codes "5"))).body
      else only_list [] false
