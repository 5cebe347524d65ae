-- ===== src/Site/Tests.antt =====
-- The theorems on the site at concrete addresses, sessions and texts.
use trace_graph.Base.{
  codes, text_eq, List, [], ◌∷◌, ◌++◌, ◌≡◌, refl, false, true, Bool, some, arith,
}
use trace_graph.Site.Shell.{
  parse_route, Event, hash_change, theme_button, scroll_down, reload, mount, run, Shell,
}
use trace_graph.Site.Shell.Routes.{IsPage, parse_route_canonical}
use trace_graph.Site.Shell.Session.{IsConsistent, run-mount-IsConsistent}
use trace_graph.Site.Highlight.{is_word, is_digit, is_upper, highlight_java}
use trace_graph.Site.Highlight.Comment.{IsInert, highlight_java-comment}

parse_route_canonical_example :
    IsPage (parse_route (codes "#/nowhere"))
    × (parse_route (codes "#/" ++ parse_route (codes "#/nowhere"))
        ≡ parse_route (codes "#/nowhere"))
parse_route_canonical_example = parse_route_canonical (codes "#/nowhere")

-- Each event with whether its render commits: the fourth page does not.
abbrev session : List (Bool × Event)
session =
    (true, hash_change (codes "#/docs"))
    ∷ (true, theme_button)
    ∷ (true, scroll_down)
    ∷ (false, hash_change (codes "#/docs/constructor"))
    ∷ (true, hash_change (codes "#/"))
    ∷ (true, reload)
    ∷ []

mounted_again :
    Shell.is_mounted (run (mount true (codes "#/") (some (codes "dark"))) session) ≡ true
unfolding run text_eq codes
mounted_again = refl

run-mount-IsConsistent_example :
    IsConsistent (run (mount true (codes "#/") (some (codes "dark"))) session)
run-mount-IsConsistent_example =
    run-mount-IsConsistent true (codes "#/") (some (codes "dark")) session mounted_again

blank_IsInert : IsInert b' '
unfolding is_word is_digit is_upper
blank_IsInert = record {
  word = refl;
  amp = λ e. absurd (omega arith);
  lt = λ e. absurd (omega arith);
  gt = λ e. absurd (omega arith);
  quote = λ e. absurd (omega arith);
  feed = λ e. absurd (omega arith);
}

highlight_java-comment_example :
    highlight_java (codes "//" ++ (b' ' ∷ b' ' ∷ []))
    ≡ codes
        "<span <span class=\"kw\">class</span>=<span <span class=\"kw\">class</span>=\"st\">\"cm\"</span>>//"
      ++ ((b' ' ∷ b' ' ∷ []) ++ codes "</span>")
highlight_java-comment_example =
    highlight_java-comment (b' ' ∷ b' ' ∷ []) (blank_IsInert, (blank_IsInert, tt))
