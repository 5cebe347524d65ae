-- ===== src/Site/Explorer/Data/Recording.antt =====
-- `TRACE` of data.jsx: the run that the explorer shows.
use trace_graph.Base.{ℕ, Text, codes, List, [], ◌∷◌, Bool, true, false, Option, none, some}
use trace_graph.Value.{Js, null, bool, num, other_num, str, obj, end, field}

-- The token counts of a step that called a model.
pub record Usage : Type 0 where
  pub prompt : ℕ
  pub completion : ℕ

-- An entry of `TRACE.steps`.
pub record Step : Type 0 where
  pub i : ℕ
  pub name : Text
  pub kind : Text
  pub status : Text
  pub attempts : ℕ
  pub is_async : Bool
  pub dur : ℕ
  pub t0 : ℕ
  pub branches : Option ℕ
  pub usage : Option Usage
  pub err : Option Text
  pub before : Js
  pub after : Js
  pub diff : List Text

-- An entry of `TRACE.logs`.
pub record LogLine : Type 0 where
  pub t : ℕ
  pub lv : Text
  pub msg : Text

unfoldable pub validate_step : Step
validate_step = record {
  i = 0;
  name = codes "validate";
  kind = codes "node";
  status = codes "ok";
  attempts = 1;
  is_async = false;
  dur = 12;
  t0 = 0;
  branches = none;
  usage = none;
  err = none;
  before = obj (
      field (codes "id") (str (codes "o-91")) (
        field (codes "valid") (bool false)
          (field (codes "charged") (bool false) (field (codes "shipped") (bool false) end))));
  after = obj (
      field (codes "id") (str (codes "o-91")) (
        field (codes "valid") (bool true)
          (field (codes "charged") (bool false) (field (codes "shipped") (bool false) end))));
  diff =
      codes "  id: o-91"
      ∷ codes "- valid: false"
      ∷ codes "+ valid: true"
      ∷ codes "  charged: false"
      ∷ [];
}

unfoldable pub enrich_step : Step
enrich_step = record {
  i = 1;
  name = codes "enrich";
  kind = codes "parallel";
  status = codes "parallel";
  attempts = 1;
  is_async = false;
  dur = 184;
  t0 = 14;
  branches = some (3);
  usage = none;
  err = none;
  before = obj (
      field (codes "id") (str (codes "o-91")) (
        field (codes "valid") (bool true) (
          field (codes "profile") (null)
            (field (codes "fraud") (null) (field (codes "inventory") (null) end)))));
  after = obj (
      field (codes "id") (str (codes "o-91")) (
        field (codes "valid") (bool true) (
          field (codes "profile") (str (codes "PRO")) (
            field (codes "fraud") (other_num (codes "0.04"))
              (field (codes "inventory") (str (codes "IN_STOCK")) end)))));
  diff =
      codes "  id: o-91"
      ∷ codes "+ profile: PRO"
      ∷ codes "+ fraud: 0.04"
      ∷ codes "+ inventory: IN_STOCK"
      ∷ [];
}

unfoldable pub score_step : Step
score_step = record {
  i = 2;
  name = codes "score";
  kind = codes "async";
  status = codes "ok";
  attempts = 1;
  is_async = true;
  dur = 312;
  t0 = 200;
  branches = none;
  usage = some (record { prompt = 482; completion = 96 });
  err = none;
  before = obj (field (codes "id") (str (codes "o-91")) (field (codes "riskScore") (null) end));
  after = obj (
      field (codes "id") (str (codes "o-91"))
        (field (codes "riskScore") (other_num (codes "0.18")) end));
  diff = codes "  id: o-91" ∷ codes "+ riskScore: 0.18" ∷ [];
}

unfoldable pub charge_step : Step
charge_step = record {
  i = 3;
  name = codes "charge";
  kind = codes "node";
  status = codes "retry";
  attempts = 2;
  is_async = false;
  dur = 421;
  t0 = 514;
  branches = none;
  usage = none;
  err = none;
  before = obj (
      field (codes "id") (str (codes "o-91"))
        (field (codes "charged") (bool false) (field (codes "attempts") (num 0) end)));
  after = obj (
      field (codes "id") (str (codes "o-91"))
        (field (codes "charged") (bool true) (field (codes "attempts") (num 2) end)));
  diff =
      codes "  attempt 1: NetworkTimeoutException"
      ∷ codes "! retrying after 200ms (exponential)"
      ∷ codes "  attempt 2: ok"
      ∷ codes "+ charged: true"
      ∷ codes "+ attempts: 2 (recovered)"
      ∷ [];
}

unfoldable pub ship_step : Step
ship_step = record {
  i = 4;
  name = codes "ship";
  kind = codes "node";
  status = codes "err";
  attempts = 1;
  is_async = false;
  dur = 92;
  t0 = 938;
  branches = none;
  usage = none;
  err = some (codes "CarrierUnavailableException: gateway returned 503");
  before = obj (field (codes "id") (str (codes "o-91")) (field (codes "shipped") (bool false) end));
  after = null;
  diff =
      codes "  id: o-91"
      ∷ codes "! ship attempt 1: CarrierUnavailableException"
      ∷ codes "! gateway returned 503"
      ∷ codes "! retries exhausted (max=1)"
      ∷ [];
}

unfoldable pub steps : List Step
unfolding validate_step enrich_step score_step charge_step ship_step
steps = validate_step ∷ enrich_step ∷ score_step ∷ charge_step ∷ ship_step ∷ []

unfoldable pub logs : List LogLine
logs =
    record {
      t = 0;
      lv = codes "evt";
      msg = codes "execution started · entry=validate · idem=ord-91-v2";
    }
    ∷ record { t = 12; lv = codes "info"; msg = codes "validate completed · 12ms" }
    ∷ record { t = 14; lv = codes "evt"; msg = codes "parallel(enrich) fan-out · 3 branches" }
    ∷ record { t = 198; lv = codes "info"; msg = codes "parallel(enrich) merged · 184ms" }
    ∷ record {
      t = 201;
      lv = codes "evt";
      msg = codes "async(score) submitted to virtual-thread executor";
    }
    ∷ record {
      t = 512;
      lv = codes "info";
      msg = codes "async(score) completed · 312ms · usage{p=482,c=96}";
    }
    ∷ record { t = 514; lv = codes "info"; msg = codes "charge attempt 1 of 3" }
    ∷ record {
      t = 717;
      lv = codes "warn";
      msg = codes "charge attempt 1 failed · NetworkTimeoutException · retrying in 200ms";
    }
    ∷ record { t = 919; lv = codes "info"; msg = codes "charge attempt 2 succeeded · 218ms" }
    ∷ record { t = 938; lv = codes "info"; msg = codes "ship attempt 1 of 1" }
    ∷ record {
      t = 1030;
      lv = codes "err";
      msg = codes "ship failed · CarrierUnavailableException: gateway 503 · no retries left";
    }
    ∷ record {
      t = 1041;
      lv = codes "evt";
      msg = codes "execution finished · status=FAILED · path=[validate, enrich, score, charge]";
    }
    ∷ []

-- The head of the run.
unfoldable pub execution_id : Text
execution_id = codes "e9c4f1a2-8b40-4e15-9c2d-0a4e7d6b5e21"

unfoldable pub graph_name : Text
graph_name = codes "order-pipeline"

unfoldable pub started_at : Text
started_at = codes "2026-05-06 10:42:18.221"

unfoldable pub run_duration : ℕ
run_duration = 1041
