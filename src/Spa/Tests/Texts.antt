-- ===== src/Spa/Tests/Texts.antt =====
-- The theorems on texts, addresses and requests at concrete inputs.
use trace_graph.Base.{
  ℕ, Bool, Text, leb, not, ◌&&◌, ◌==◌, if◌then◌else◌, remove_first, strip_prefix, text_eq, codes,
  decimal, Lacks, split_head, split_tail, [], ◌∷◌, ◌++◌, ◌≡◌, ◌≢◌, refl, arith,
}
use trace_graph.Spa.Escape.{esc, replace_all}
use trace_graph.Spa.Escape.Laws.{shown, shown-esc}
use trace_graph.Spa.Escape.Attribute.{attribute_value, attribute_value-esc_quote}
use trace_graph.Spa.Router.{trace, trace_list, route, row_hash, diff_hash}
use trace_graph.Spa.TraceView.Replay.{
  percent, hex_digit, is_unreserved, encode_char, encode_uri, replay_path,
}
use trace_graph.Spa.TraceView.Replay.Requests.{replay_path-segments}
use trace_graph.Spa.DiffView.{is_space, trim, compare, submit}
use trace_graph.Spa.DiffView.Form.{submit-compare}

esc_example : esc (codes "a<b & c") ≡ codes "a&lt;b &amp; c"
unfolding esc replace_all codes
esc_example = refl

shown-esc_example : shown (esc (codes "&lt;b")) ≡ codes "&lt;b"
shown-esc_example = shown-esc (codes "&lt;b")

id_Lacks : Lacks b'"' (codes "a&1") × Lacks b'/' (codes "a&1")
unfolding codes
id_Lacks = (omega arith, omega arith)

-- A browser that percent-encodes what may not stand in a fragment.
abbrev is_fragment_char : ℕ → Bool
is_fragment_char c =
    leb 33 c
    && (leb c 126 && (not (c == b'"') && (not (c == b'<') && (not (c == b'>') && not (c == b'`')))))

abbrev encode_fragment : Text → Text
encode_fragment [] = []
encode_fragment (c ∷ s) = (if is_fragment_char c then c ∷ [] else percent c) ++ encode_fragment s

abbrev set_hash : Text → Text
set_hash [] = []
set_hash (c ∷ s) = c ∷ encode_fragment s

-- An id with a space comes back encoded.
space-run : route (set_hash (row_hash (codes "a b"))) ≡ trace (codes "a%20b")
unfolding route row_hash codes percent hex_digit remove_first strip_prefix split_head split_tail
    text_eq
space-run = refl

attribute_value-esc_quote_example :
    attribute_value (esc (codes "a&1" ++ (b'"' ∷ codes " onfocus=x")) ++ (b'"' ∷ codes " />"))
    ≡ codes "a&1"
attribute_value-esc_quote_example =
    attribute_value-esc_quote (codes "a&1") (codes " onfocus=x") (codes " />") id_Lacks.0

replay_path-segments_example :
    (split_tail b'/' (split_head b'?' (replay_path (codes "a/b?c") (decimal 2)))
      ≡ codes "tracegraph" ∷ codes "traces" ∷ encode_uri (codes "a/b?c") ∷ codes "replay" ∷ [])
    × (split_tail b'?' (replay_path (codes "a/b?c") (decimal 2))
        ≡ (codes "step=" ++ decimal 2) ∷ [])
replay_path-segments_example = replay_path-segments (codes "a/b?c") 2

submitted :
    submit (codes " a1 ") (codes "b2")
    ≡ compare (codes "#/diff?a=a1&b=b2") (codes "a1") (codes "b2")
unfolding submit trim is_space codes encode_uri encode_char is_unreserved diff_hash
submitted = refl

submit-compare_example :
    (trim (codes " a1 ") ≡ codes "a1")
    × (trim (codes "b2") ≡ codes "b2")
    × (codes "a1" ≢ [])
    × (codes "b2" ≢ [])
    × (route (codes "#/diff?a=a1&b=b2") ≡ trace_list)
submit-compare_example =
    submit-compare (codes " a1 ") (codes "b2") (codes "#/diff?a=a1&b=b2") (codes "a1") (codes "b2")
      submitted
