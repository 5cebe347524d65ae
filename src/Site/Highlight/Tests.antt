-- ===== src/Site/Highlight/Tests.antt =====
-- Runs of the highlighter, and the theorem on its passes at a line of code.
use trace_graph.Site.Highlight.Keeps.Passes.{highlight_java-Keeps}
use trace_graph.Base.{arith, count, ◌≤◌, codes, text_eq, starts_with, ◌≡◌, refl}
use trace_graph.Spa.Escape.{esc, replace_all}
use trace_graph.Site.Highlight.{
  span_open, span_close, mark_comments, is_line_end, string_length, mark_strings, is_digit,
  is_upper, is_word, kws, is_keyword, is_type_name, marked, flush, mark_words, is_number,
  flush_number, flush_scan, mark_numbers, highlight_java,
}

highlight_tests :
    (highlight_java (codes "Foo x1 = 1.5;")
      ≡ codes "<span class=\"ty\">Foo</span> x1 = <span class=\"nm\">1.5</span>;")
    × (highlight_java (codes "new Foo")
        ≡ codes "<span class=\"kw\">new</span> <span class=\"ty\">Foo</span>")
unfolding highlight_java codes text_eq starts_with esc replace_all span_open span_close
    mark_comments is_line_end string_length mark_strings is_digit is_upper is_word kws is_keyword
    is_type_name marked flush mark_words is_number flush_number flush_scan mark_numbers
highlight_tests = (refl, refl)

highlight_java-Keeps_example :
    (count b'<' (highlight_java (codes "return new Foo(\"a<b\", 1.5); // ok"))
      ≡ count b'>' (highlight_java (codes "return new Foo(\"a<b\", 1.5); // ok")))
    × (count b'o' (codes "return new Foo(\"a<b\", 1.5); // ok")
        ≤ count b'o' (highlight_java (codes "return new Foo(\"a<b\", 1.5); // ok")))
highlight_java-Keeps_example =
    highlight_java-Keeps (codes "return new Foo(\"a<b\", 1.5); // ok") b'o' (omega arith)
      (omega arith) (omega arith)
