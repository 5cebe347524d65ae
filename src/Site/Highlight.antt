-- ===== src/Site/Highlight.antt =====
-- `highlightJava` of data.jsx: five replacements by regular expressions, each a scan of the text.
pub mod Comment
pub mod Keeps
mod Tests
use trace_graph.Base.{
  ℕ, zero, suc, Text, codes, text_eq, starts_with, leb, ltb, ◌==◌, if◌then◌else◌, List, [], ◌∷◌,
  ◌++◌, Bool, true, false, not, all, any, ◌&&◌, ◌||◌, Option, none, some, length,
}
use mathlib.Core.Option
use trace_graph.Spa.Escape.{esc}

-- `<span class="cls">` and `</span>`.
unfoldable pub span_open : Text → Text
span_open cls = codes "<span class=\"" ++ (cls ++ codes "\">")

unfoldable pub span_close : Text
span_close = codes "</span>"

-- `s.replace(/(\/\/[^\n]*)/g, …)`; the flag says that the scan is in a comment.
unfoldable pub mark_comments : Bool → Text → Text
mark_comments false [] = []
mark_comments true [] = span_close
mark_comments false (c ∷ s) = elim (c == b'/' && starts_with s (codes "/")) [
  | true ↦ span_open (codes "cm") ++ (c ∷ mark_comments true s)
  | false ↦ c ∷ mark_comments false s
]
mark_comments true (c ∷ s) = elim (c == 10) [
  | true ↦ span_close ++ (c ∷ mark_comments false s)
  | false ↦ c ∷ mark_comments true s
]

-- What `.` does not match.
unfoldable pub is_line_end : ℕ → Bool
is_line_end c = c == 10 || (c == 13 || (c == 0x2028 || c == 0x2029))

-- How many characters `(?:\\.|[^"\\])*"` takes, the closing quote included; the flag says that a
-- backslash was just read.
unfoldable pub string_length : Bool → Text → Option ℕ
string_length escaping [] = none
string_length true (c ∷ s) = elim (is_line_end c) [
  | true ↦ none
  | false ↦ Option.map suc (string_length false s)
]
string_length false (c ∷ s) = elim (c == b'"') [
  | true ↦ some 1
  | false ↦ Option.map suc (string_length (c == b'\\') s)
]

-- `s.replace(/("(?:\\.|[^"\\])*")/g, …)`; the number is that of the characters still to be copied
-- of a string.
unfoldable pub mark_strings : ℕ → Text → Text
mark_strings n [] = []
mark_strings zero (c ∷ s) = elim (c == b'"') [
  | true ↦ elim (string_length false s) [
    | none ↦ c ∷ mark_strings 0 s
    | some n ↦ span_open (codes "st") ++ (c ∷ mark_strings n s)
  ]
  | false ↦ c ∷ mark_strings 0 s
]
mark_strings (suc zero) (c ∷ s) = c ∷ (span_close ++ mark_strings 0 s)
mark_strings (suc (suc n)) (c ∷ s) = c ∷ mark_strings (suc n) s

unfoldable pub is_digit : ℕ → Bool
is_digit c = leb b'0' c && leb c b'9'

unfoldable pub is_upper : ℕ → Bool
is_upper c = leb b'A' c && leb c b'Z'

-- `\w`
unfoldable pub is_word : ℕ → Bool
unfolding is_digit is_upper
is_word c = is_digit c || (is_upper c || ((leb b'a' c && leb c b'z') || c == b'_'))

unfoldable pub kws : List Text
kws =
    codes "record"
    ∷ codes "class"
    ∷ codes "interface"
    ∷ codes "enum"
    ∷ codes "public"
    ∷ codes "private"
    ∷ codes "protected"
    ∷ codes "static"
    ∷ codes "final"
    ∷ codes "abstract"
    ∷ codes "new"
    ∷ codes "return"
    ∷ codes "if"
    ∷ codes "else"
    ∷ codes "for"
    ∷ codes "while"
    ∷ codes "do"
    ∷ codes "switch"
    ∷ codes "case"
    ∷ codes "break"
    ∷ codes "continue"
    ∷ codes "throw"
    ∷ codes "throws"
    ∷ codes "try"
    ∷ codes "catch"
    ∷ codes "finally"
    ∷ codes "import"
    ∷ codes "package"
    ∷ codes "extends"
    ∷ codes "implements"
    ∷ codes "this"
    ∷ codes "super"
    ∷ codes "void"
    ∷ codes "true"
    ∷ codes "false"
    ∷ codes "null"
    ∷ codes "var"
    ∷ []

unfoldable pub is_keyword : Text → Bool
is_keyword w = any (text_eq w) kws

-- `[A-Z][A-Za-z0-9_]+` on a whole run of word characters.
unfoldable pub is_type_name : Text → Bool
is_type_name [] = false
is_type_name (c ∷ []) = false
is_type_name (c ∷ d ∷ w) = is_upper c

unfoldable pub marked : Text → Text → Text
marked cls w = span_open cls ++ (w ++ span_close)

-- A run of word characters as it is put out.
unfoldable pub flush : (Text → Bool) → Text → Text → Text
flush p cls run = if p run then marked cls run else run

-- `s.replace(/\b(…)\b/g, …)` where the group matches whole runs of word characters: those that
-- have the property. `run` is the part of the run that was read.
unfoldable pub mark_words : (Text → Bool) → Text → Text → Text → Text
mark_words p cls run [] = flush p cls run
mark_words p cls run (c ∷ s) = elim (is_word c) [
  | true ↦ mark_words p cls (run ++ (c ∷ [])) s
  | false ↦ flush p cls run ++ (c ∷ mark_words p cls [] s)
]

unfoldable pub is_number : Text → Bool
is_number [] = false
is_number (c ∷ w) = all is_digit (c ∷ w)

-- The scan for `\b(\d+(?:\.\d+)?)\b`: in a run of word characters, or behind a number and its
-- point, with the digits read since.
pub data NumberScan : Type 0 where
  in_run : Text → NumberScan
  in_fraction : Text → Text → NumberScan

-- A number with no digits behind its point is put out without the point.
unfoldable pub flush_number : Text → Text → Text
flush_number whole [] = marked (codes "nm") whole ++ codes "."
flush_number whole (d ∷ ds) = marked (codes "nm") (whole ++ (codes "." ++ (d ∷ ds)))

unfoldable pub flush_scan : NumberScan → Text
flush_scan (in_run run) = flush is_number (codes "nm") run
flush_scan (in_fraction whole ds) = flush_number whole ds

unfoldable pub mark_numbers : NumberScan → Text → Text
mark_numbers st [] = flush_scan st
mark_numbers (in_run run) (c ∷ s) = elim (is_word c) [
  | true ↦ mark_numbers (in_run (run ++ (c ∷ []))) s
  | false ↦ elim (c == b'.' && is_number run) [
    | true ↦ mark_numbers (in_fraction run []) s
    | false ↦ flush is_number (codes "nm") run ++ (c ∷ mark_numbers (in_run []) s)
  ]
]
mark_numbers (in_fraction whole ds) (c ∷ s) = elim (is_digit c) [
  | true ↦ mark_numbers (in_fraction whole (ds ++ (c ∷ []))) s
  | false ↦ elim (is_word c) [
    | true ↦ marked (codes "nm") whole ++ (codes "." ++ mark_numbers (in_run (ds ++ (c ∷ []))) s)
    | false ↦ flush_number whole ds ++ (c ∷ mark_numbers (in_run []) s)
  ]
]

unfoldable pub highlight_java : Text → Text
highlight_java src =
    let escaped = esc src in
    let comments = mark_comments false escaped in
    let strings = mark_strings 0 comments in
    let keywords = mark_words is_keyword (codes "kw") [] strings in
    let types = mark_words is_type_name (codes "ty") [] keywords in mark_numbers (in_run []) types
