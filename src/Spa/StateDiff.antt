-- ===== src/Spa/StateDiff.antt =====
-- `prettyJson` and `renderStateDiff` of app.js.
pub mod Laws
pub mod Keys
use trace_graph.Base.{
  ℕ, suc, decimal, Text, codes, text_eq, if◌then◌else◌, List, [], ◌∷◌, ◌++◌, Bool, true, false, not,
  Option, none, some, any,
}
use trace_graph.Value.{
  Js, undefined, null, bool, str, obj, arr, Items, nil, cons, Fields, field, end, keys, field_at,
  to_text,
}
use trace_graph.Value.Print.{stringify, stringify_pretty}
use trace_graph.Spa.Template.{Piece, lit, escaped, plain, escaped_opt}

-- `JSON.parse` is a parameter; `none` is its SyntaxError.
module _ (parse : Text → Option Js) where
  pretty_parsed : Text → Option Js → Option Text
  pretty_parsed t none = some t
  pretty_parsed t (some v) = stringify_pretty v

  unfoldable pub pretty_json : Js → Option Text
  unfolding pretty_parsed
  pretty_json (str t) = pretty_parsed t (parse t)
  pretty_json v = stringify_pretty v

-- The keys of an array are its indices.
unfoldable pub indexed_fields : ℕ → Items → Fields
indexed_fields i nil = end
indexed_fields i (cons v vs) = field (decimal i) v (indexed_fields (suc i) vs)

-- `typeof v === 'object' && v !== null ? v : {}`.
unfoldable pub object_fields : Js → Fields
unfolding indexed_fields
object_fields (obj fs) = fs
object_fields (arr vs) = indexed_fields 0 vs
object_fields _ = end

unfoldable pub member : Text → List Text → Bool
member k xs = any (text_eq k) xs

-- The keys that a set of the keys seen so far takes in.
unfoldable pub fresh : List Text → List Text → List Text
unfolding member
fresh seen [] = []
fresh seen (k ∷ ks) = elim (member k seen) [
  | true ↦ fresh seen ks
  | false ↦ k ∷ fresh (k ∷ seen) ks
]

-- `new Set([...Object.keys(b), ...Object.keys(a)])`, in the order of insertion.
unfoldable pub all_keys : Fields → Fields → List Text
unfolding fresh
all_keys b a = fresh [] (keys b ++ keys a)

-- `bv !== av` on two results of `JSON.stringify`.
unfoldable pub differs : Option Text → Option Text → Bool
differs none none = false
differs none (some _) = true
differs (some _) none = true
differs (some s) (some t) = not (text_eq s t)

abbrev cell_open : Piece
cell_open = lit "<td style=\"padding:3px 4px;font-family:var(--font-mono);font-size:0.78rem\">"

-- The background of a row whose texts differ.
unfoldable pub background : Bool → Piece
background changed = if changed then lit "background:var(--diff-add);" else lit ""

unfoldable pub diff_row : Text → Option Text → Option Text → List Piece
diff_row k bv av =
    lit "<tr style=\""
    ∷ background (differs bv av)
    ∷ lit "\">"
    ∷ cell_open
    ∷ escaped k
    ∷ lit "</td>"
    ∷ cell_open
    ∷ escaped_opt bv
    ∷ lit " → "
    ∷ escaped_opt av
    ∷ lit "</td></tr>"
    ∷ []

unfoldable pub diff_rows : Fields → Fields → List Text → List Piece
diff_rows b a [] = []
diff_rows b a (k ∷ ks) =
    diff_row k (stringify (field_at k b)) (stringify (field_at k a)) ++ diff_rows b a ks

unfoldable pub diff_head : List Piece
diff_head =
    lit "<table style=\"width:100%;border-collapse:collapse\">"
    ∷ lit
        "<tr><th style=\"width:35%;text-align:left;padding:2px 4px;color:var(--text-muted)\">Key</th>"
    ∷ lit
        "<th style=\"text-align:left;padding:2px 4px;color:var(--text-muted)\">Before → After</th></tr>"
    ∷ []

unfoldable pub render_state_diff : Js → Js → List Piece
unfolding object_fields
render_state_diff before after =
    let b = object_fields before in
    let a = object_fields after in
    diff_head ++ (diff_rows b a (all_keys b a) ++ (lit "</table>" ∷ []))
