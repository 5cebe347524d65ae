-- ===== src/Site/Explorer.antt =====
-- trace.jsx: the trace explorer, the selected step and what the five panels show of it.
pub mod Data
pub mod Graph
pub mod Selection
pub mod Runs
pub mod Logs
pub mod Panels
pub mod Timeline
pub mod Inspect
pub mod GraphView
pub mod Page
mod Tests
use trace_graph.Base.{
  ℕ, zero, suc, ◌+◌, ◌-◌, Text, codes, text_eq, starts_with, decimal, replicate, ltb, ◌==◌,
  if◌then◌else◌, List, [], ◌∷◌, ◌++◌, Bool, true, false, Option, none, some, map, find, get_elem?,
  length, take,
}
use mathlib.Core.Option
use trace_graph.Value.{Js, truthy}
use trace_graph.Value.Print.{stringify_pretty}
use trace_graph.Site.Explorer.Data.{Step, LogLine, Usage}

-- `String(n).padStart(width, '0')`
unfoldable pub pad_start : ℕ → ℕ → Text
pad_start width n = replicate (width - length (decimal n)) b'0' ++ decimal n

-- `TRACE.steps.find(s => s.name === name)`
unfoldable pub step_for : List Step → Text → Option Step
step_for steps name = find (λ s. text_eq s.name name) steps

-- What sets `activeIdx`: the buttons of the step list, the nodes of the graph, the buttons of the
-- timeline.
pub data Click : Type 0 where
  step_button : ℕ → Click
  graph_node : Text → Click
  timeline_button : ℕ → Click

-- The index of the step, where there is one; else the old index.
unfoldable pub index_of : ℕ → Option Step → ℕ
index_of active none = active
index_of active (some s) = s.i

-- A list button is the one in position `k` of the list, if the list has that many.
unfoldable pub click : List Step → ℕ → Click → ℕ
unfolding index_of
click steps active (step_button k) = index_of active (get_elem? steps k)
click steps active (graph_node name) = index_of active (step_for steps name)
click steps active (timeline_button k) = index_of active (get_elem? steps k)

-- `useState(0)` and the clicks since.
unfoldable pub clicks : List Step → ℕ → List Click → ℕ
clicks steps active [] = active
clicks steps active (c ∷ cs) = clicks steps (click steps active c) cs

-- A badge: its tone and its text.
pub record Tag : Type 0 where
  pub tone : Text
  pub text : Text

unfoldable pub tag_if : Bool → Text → Text → List Tag
tag_if b tone text = if b then record { tone = tone; text = text } ∷ [] else []

-- A number among the children of an element, where a missing one gives nothing.
unfoldable pub child_number : Option ℕ → Text
child_number none = []
child_number (some n) = decimal n

-- A number in a concatenation, where a missing one gives the word for it.
unfoldable pub number_text : Option ℕ → Text
number_text none = codes "undefined"
number_text (some n) = decimal n

-- The badges of a step in the step list.
unfoldable pub badges : Step → List Tag
unfolding tag_if child_number
badges s =
    tag_if (text_eq s.status (codes "parallel")) (codes "neutral")
      (codes "∥ " ++ child_number s.branches)
    ++ (tag_if s.is_async (codes "neutral") (codes "async")
        ++ (tag_if (ltb 1 s.attempts) (codes "warn") (codes "↻ " ++ decimal s.attempts)
            ++ (tag_if (text_eq s.status (codes "err")) (codes "err") (codes "FAIL")
                ++ tag_if (text_eq s.status (codes "ok")) (codes "ok") (codes "ok"))))

-- A row of the step list.
pub record StepButton : Type 0 where
  pub number : Text
  pub name : Text
  pub marked : Bool
  pub failed : Bool
  pub tags : List Tag
  pub duration : Text

unfoldable pub step_buttons : ℕ → List Step → List StepButton
unfolding pad_start badges
step_buttons active steps =
    map
      (λ s. record {
        number = codes "#" ++ pad_start 2 s.i;
        name = s.name;
        marked = active == s.i;
        failed = text_eq s.status (codes "err");
        tags = badges s;
        duration = decimal s.dur ++ codes "ms";
      })
      steps

-- A field of the inspector: its key, its value and its tone.
pub record Field : Type 0 where
  pub k : Text
  pub v : Text
  pub tone : Text

unfoldable pub status_tone : Text → Text
status_tone status =
    if text_eq status (codes "err")
    then codes "err"
    else if text_eq status (codes "ok")
    then codes "ok"
    else []

unfoldable pub usage_field : Option Usage → List Field
usage_field none = []
usage_field (some u) =
    record {
      k = codes "usage";
      v = codes "p=" ++ (decimal u.prompt ++ (codes " c=" ++ decimal u.completion));
      tone = [];
    }
    ∷ []

-- `step.err && …`, which leaves out an empty message too.
unfoldable pub err_field : Option Text → List Field
err_field none = []
err_field (some []) = []
err_field (some (c ∷ m)) = record { k = codes "error"; v = c ∷ m; tone = codes "err" } ∷ []

unfoldable pub fields : Step → List Field
unfolding pad_start status_tone usage_field err_field
fields s =
    record { k = codes "node"; v = s.name; tone = [] }
    ∷ record { k = codes "index"; v = codes "#" ++ pad_start 2 s.i; tone = [] }
    ∷ record { k = codes "status"; v = s.status; tone = status_tone s.status }
    ∷ record { k = codes "duration"; v = decimal s.dur ++ codes " ms"; tone = [] }
    ∷ record { k = codes "attempts"; v = decimal s.attempts; tone = [] }
    ∷ record {
      k = codes "async";
      v = if s.is_async then codes "true" else codes "false";
      tone = [];
    }
    ∷ (usage_field s.usage ++ err_field s.err)

-- The class of a line of the state diff.
unfoldable pub diff_line_class : Text → Text
diff_line_class line =
    if starts_with line (codes "+")
    then codes "text-emerald-300"
    else if starts_with line (codes "-")
    then codes "text-rose-300"
    else if starts_with line (codes "!")
    then codes "text-rose-300"
    else codes "text-ink-400"

-- The state behind the step, or the note that stands for it.
unfoldable pub after_text : Js → Option Text
after_text after =
    if truthy after then stringify_pretty after else some (codes "(no exit; node failed)")

pub record Inspector : Type 0 where
  pub title : Text
  pub fields : List Field
  pub diff_classes : List Text
  pub before : Option Text
  pub after : Option Text

-- What the inspector shows of a step.
unfoldable pub inspect : Step → Inspector
unfolding fields diff_line_class after_text
inspect s = record {
  title = codes "step · " ++ s.name;
  fields = fields s;
  diff_classes = map diff_line_class s.diff;
  before = stringify_pretty s.before;
  after = after_text s.after;
}

-- The inspector for the active index; `none` is the TypeError on `undefined.name`.
unfoldable pub inspector : List Step → ℕ → Option Inspector
unfolding inspect
inspector steps active = Option.map inspect (get_elem? steps active)

-- The colour of a step in the timeline: the last test that holds decides.
unfoldable pub timeline_bg : Text → Text
timeline_bg status =
    if text_eq status (codes "err")
    then codes "bg-rose-500 text-white"
    else if text_eq status (codes "retry")
    then codes "bg-amber-400 text-ink-950"
    else if text_eq status (codes "parallel")
    then codes "bg-amber-200 text-ink-950"
    else codes "bg-accent-200 text-ink-950"

-- The message of the button "Fork from step"; `none` is the TypeError.
unfoldable pub fork_message : Text → List Step → ℕ → Option Text
unfolding pad_start
fork_message execution_id steps active = elim (get_elem? steps active) [
  | none ↦ none
  | some s ↦ some (
      codes "Forking from #"
      ++ (pad_start 2 active
          ++ (codes " · "
              ++ (s.name
                  ++ (codes "\n\nPOST /tracegraph/traces/"
                      ++ (take 8 execution_id ++ (codes "/replay?step=" ++ decimal active)))))))
]
