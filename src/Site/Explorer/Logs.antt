-- ===== src/Site/Explorer/Logs.antt =====
-- `LogsPanel` of trace.jsx: the rows of the log.
use trace_graph.Base.{
  Text, codes, text_eq, leb, ◌-◌, if◌then◌else◌, List, ◌++◌, ◌&&◌, Option, none, some, map,
}
use trace_graph.Site.Explorer.Data.{LogLine}
use trace_graph.Site.Explorer.{pad_start}

-- `lvColors[lv]` for a level that is no inherited name.
unfoldable pub level_color : Text → Option Text
level_color lv =
    if text_eq lv (codes "info")
    then some (codes "text-ink-500")
    else if text_eq lv (codes "warn")
    then some (codes "text-amber-600 dark:text-amber-400")
    else if text_eq lv (codes "err")
    then some (codes "text-rose-600 dark:text-rose-400")
    else if text_eq lv (codes "evt")
    then some (codes "text-accent-600 dark:text-accent-100")
    else none

-- `lv.toUpperCase()` on ASCII characters, which all levels are made of.
unfoldable pub upper : Text → Text
upper s = map (λ c. if leb b'a' c && leb c b'z' then c - 32 else c) s

pub record LogRow : Type 0 where
  pub time : Text
  pub color : Option Text
  pub level : Text
  pub msg : Text

unfoldable pub log_rows : List LogLine → List LogRow
unfolding level_color upper
log_rows logs =
    map
      (λ l. record {
        time = pad_start 4 l.t ++ codes "ms";
        color = level_color l.lv;
        level = upper l.lv;
        msg = l.msg;
      })
      logs
