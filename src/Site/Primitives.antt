-- ===== src/Site/Primitives.antt =====
-- ui.jsx, icons.jsx and footer.jsx: what the primitives of the site compute from their arguments,
-- and the links of the footer; with the table `MODULES` of data.jsx.
pub mod Tones
pub mod Elements
pub mod IconEffect
use trace_graph.Base.{
  ℕ, Text, codes, text_eq, split_head, split_tail, leb, ◌-◌, if◌then◌else◌, List, [], ◌∷◌, ◌++◌,
  Bool, true, false, ◌&&◌, Option, none, some, map, find,
}
use mathlib.Core.Option

-- A table of texts by name, and `table[name]` for a name that is not inherited.
pub record Entry : Type 0 where
  pub key : Text
  pub cls : Text

unfoldable pub class_of : List Entry → Text → Option Text
class_of table name = Option.map Entry.cls (find (λ e. text_eq e.key name) table)

-- A class in a template, where a missing one gives the word for it.
unfoldable pub class_text : Option Text → Text
class_text none = codes "undefined"
class_text (some cls) = cls

-- `sizes` of `Button`.
unfoldable pub button_sizes : List Entry
button_sizes =
    record { key = codes "sm"; cls = codes "h-8 px-3 text-[12.5px] rounded-lg" }
    ∷ record { key = codes "md"; cls = codes "h-10 px-4 text-[13.5px] rounded-lg" }
    ∷ record { key = codes "lg"; cls = codes "h-12 px-6 text-[15px] rounded-full" }
    ∷ []

-- `variants` of `Button`.
unfoldable pub button_variants : List Entry
button_variants =
    record {
      key = codes "primary";
      cls =
          codes
            "bg-ink-950 text-white hover:bg-ink-800 dark:bg-white dark:text-ink-950 dark:hover:bg-ink-100";
    }
    ∷ record {
      key = codes "ghost";
      cls =
          codes
            "border hairline text-ink-950 dark:text-white hover:bg-ink-50 dark:hover:bg-ink-900";
    }
    ∷ []

-- `tones` of `Badge`.
unfoldable pub badge_tones : List Entry
badge_tones =
    record {
      key = codes "neutral";
      cls = codes "bg-ink-100 text-ink-700 dark:bg-ink-900 dark:text-ink-300";
    }
    ∷ record {
      key = codes "ok";
      cls = codes "bg-emerald-50 text-emerald-700 dark:bg-emerald-900/30 dark:text-emerald-200";
    }
    ∷ record {
      key = codes "warn";
      cls = codes "bg-amber-50 text-amber-700 dark:bg-amber-900/30 dark:text-amber-200";
    }
    ∷ record {
      key = codes "err";
      cls = codes "bg-rose-50 text-rose-700 dark:bg-rose-900/30 dark:text-rose-200";
    }
    ∷ record {
      key = codes "accent";
      cls = codes "bg-accent-50 text-accent-700 dark:bg-accent-700/30 dark:text-accent-100";
    }
    ∷ record {
      key = codes "dark";
      cls = codes "bg-ink-950 text-white dark:bg-white dark:text-ink-950";
    }
    ∷ []

-- `tones` of `StatusDot`.
unfoldable pub dot_tones : List Entry
dot_tones =
    record { key = codes "ok"; cls = codes "bg-emerald-500" }
    ∷ record { key = codes "warn"; cls = codes "bg-amber-500" }
    ∷ record { key = codes "err"; cls = codes "bg-rose-500" }
    ∷ record { key = codes "neutral"; cls = codes "bg-ink-400" }
    ∷ []

-- `cls` of `Button`.
unfoldable pub button_class : (variant size class_name : Text) → Text
unfolding class_of class_text button_sizes button_variants
button_class variant size class_name =
    codes
      "inline-flex items-center justify-center gap-2 font-medium tracking-tight transition-all duration-200 select-none whitespace-nowrap"
    ++ (codes " "
        ++ (class_text (class_of button_sizes size)
            ++ (codes " "
                ++ (class_text (class_of button_variants variant) ++ (codes " " ++ class_name)))))

-- The size of a button's icons.
unfoldable pub button_icon_size : Text → ℕ
button_icon_size size = if text_eq size (codes "lg") then 16 else 14

-- The element of a button: a link, or a button.
unfoldable pub button_element : Text → Text
button_element as_element = if text_eq as_element (codes "a") then codes "a" else codes "button"

unfoldable pub badge_class : Text → Text
unfolding class_of class_text badge_tones
badge_class tone =
    codes
      "mono inline-flex items-center gap-1 text-[10.5px] px-1.5 h-[18px] rounded uppercase tracking-wider "
    ++ class_text (class_of badge_tones tone)

unfoldable pub dot_class : Text → Bool → Text
unfolding class_of class_text dot_tones
dot_class tone pulse =
    codes "inline-block w-1.5 h-1.5 rounded-full "
    ++ (class_text (class_of dot_tones tone)
        ++ (codes " " ++ (if pulse then codes "pulse-dot" else [])))

-- `w[0].toUpperCase() + w.slice(1)` on a word whose first letter is an ASCII one; `none` is the
-- TypeError on an empty word.
unfoldable pub capitalize : Text → Option Text
capitalize [] = none
capitalize (c ∷ w) = some ((if leb b'a' c && leb c b'z' then c - 32 else c) ∷ w)

unfoldable pub join_capitalized : List Text → Option Text
unfolding capitalize
join_capitalized [] = some []
join_capitalized (w ∷ ws) = elim (capitalize w) [
  | none ↦ none
  | some v ↦ Option.map (λ vs. v ++ vs) (join_capitalized ws)
]

-- `key` of `Icon`: the name in kebab case as the icon library spells it.
unfoldable pub icon_key : Text → Option Text
unfolding join_capitalized
icon_key name = join_capitalized (split_head b'-' name ∷ split_tail b'-' name)

-- A column of the footer, with its links as label and address.
pub record FooterColumn : Type 0 where
  pub title : Text
  pub items : List (Text × Text)

unfoldable pub footer_columns : List FooterColumn
footer_columns =
    record {
      title = codes "Product";
      items =
          (codes "Docs", codes "#/docs")
          ∷ (codes "Trace explorer", codes "#/trace")
          ∷ (codes "Graph studio", codes "#/studio")
          ∷ (codes "Changelog", codes "#/changelog")
          ∷ [];
    }
    ∷ record {
      title = codes "Reference";
      items =
          (codes "Quickstart", codes "#/docs/quickstart")
          ∷ (codes "REST API", codes "#/api")
          ∷ (codes "Javadoc", codes "#")
          ∷ (codes "Examples", codes "#")
          ∷ [];
    }
    ∷ record {
      title = codes "Project";
      items =
          (codes "GitHub", codes "#")
          ∷ (codes "Maven Central", codes "#")
          ∷ (codes "Sponsor", codes "#")
          ∷ (codes "License — Apache 2.0", codes "#")
          ∷ [];
    }
    ∷ []

-- An entry of `MODULES`.
pub record ModuleInfo : Type 0 where
  pub name : Text
  pub desc : Text
  pub status : Text
  pub cov : Text

unfoldable pub modules : List ModuleInfo
modules =
    record {
      name = codes "tracegraph-core";
      desc = codes "Graph<S>, builder, executor, retries, parallel, async. Zero deps beyond SLF4J.";
      status = codes "stable";
      cov = codes "94%";
    }
    ∷ record {
      name = codes "tracegraph-observability";
      desc =
          codes "OtelNodeListener, RecordingTraceRecorder, replay, diff. Optional OpenTelemetry.";
      status = codes "stable";
      cov = codes "88%";
    }
    ∷ record {
      name = codes "tracegraph-memory-jdbc";
      desc = codes "JDBC-backed MemoryStore + CheckpointStore. PostgreSQL & H2 tested.";
      status = codes "stable";
      cov = codes "82%";
    }
    ∷ record {
      name = codes "tracegraph-memory-file";
      desc = codes "File-system backed stores for local dev and small deployments.";
      status = codes "stable";
      cov = codes "90%";
    }
    ∷ record {
      name = codes "tracegraph-llm";
      desc = codes "Vendor-neutral LlmClient SPI. Token usage flows into traces.";
      status = codes "stable";
      cov = codes "79%";
    }
    ∷ record {
      name = codes "tracegraph-llm-openai";
      desc = codes "OpenAI-compatible adapter (OpenAI, Together, vLLM, …).";
      status = codes "stable";
      cov = codes "74%";
    }
    ∷ record {
      name = codes "tracegraph-llm-anthropic";
      desc = codes "Anthropic Messages API adapter with streaming.";
      status = codes "stable";
      cov = codes "71%";
    }
    ∷ record {
      name = codes "tracegraph-spring-boot-starter";
      desc = codes "Auto-config for the four SPIs, REST inspector at /tracegraph/traces, SSE.";
      status = codes "stable";
      cov = codes "83%";
    }
    ∷ record {
      name = codes "tracegraph-eval";
      desc = codes "Test harness for graphs: deterministic seeds, golden traces, CI assertions.";
      status = codes "experimental";
      cov = codes "61%";
    }
    ∷ record {
      name = codes "tracegraph-mcp";
      desc = codes "Expose graphs as MCP tools and consume MCP servers as nodes.";
      status = codes "experimental";
      cov = codes "52%";
    }
    ∷ record {
      name = codes "tracegraph-bom";
      desc = codes "Maven BOM for version alignment across all modules.";
      status = codes "stable";
      cov = codes "n/a";
    }
    ∷ []
