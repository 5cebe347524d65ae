-- ===== src/Spa/StateDiff/Laws.antt =====
-- The markup of a state diff does not depend on the states' contents.
use trace_graph.Base.{
  Text, codes, count, length, text_eq_iff, List, [], ◌∷◌, false, ◌≡◌, ◌↔◌, refl, arith, Option,
  none, some, ◌+◌, ◌*◌,
}
use trace_graph.Value.{Js, Fields, field_at}
use trace_graph.Value.Print.{stringify}
use trace_graph.Spa.Template.{lit, markup}
use trace_graph.Spa.Template.Brackets.{
  open_count, Opens, Opens-append, HasBrackets, markup-HasBrackets,
}
use trace_graph.Spa.StateDiff.{
  object_fields, all_keys, differs, background, diff_row, diff_rows, diff_head, render_state_diff,
}

diff_row-Opens : (k : Text) (bv av : Option Text) → Opens (diff_row k bv av) 6
unfolding diff_row open_count background differs count codes
diff_row-Opens k none none = (refl, refl)
diff_row-Opens k none (some t) = (refl, refl)
diff_row-Opens k (some s) none = (refl, refl)
diff_row-Opens k (some s) (some t) = ground arith

diff_rows-Opens : (b a : Fields) (ks : List Text) → Opens (diff_rows b a ks) (6 * length ks)
unfolding diff_rows
diff_rows-Opens b a [] = unfold open_count in (refl, refl)
diff_rows-Opens b a (k ∷ ks) =
    let row = diff_row-Opens k (stringify (field_at k b)) (stringify (field_at k a)) in
    let (p, q) = Opens-append _ _ 6 (6 * length ks) row (diff_rows-Opens b a ks) in
    (omega (arith, p), omega (arith, q))

diff_head-Opens : Opens diff_head 7
unfolding diff_head open_count count codes
diff_head-Opens = (refl, refl)

table_end-Opens : Opens (lit "</table>" ∷ []) 1
unfolding open_count count codes
table_end-Opens = (refl, refl)

pub render_state_diff-Opens :
    (before after : Js)
    → Opens
        (render_state_diff before after)
        (7 + (6 * length (all_keys (object_fields before) (object_fields after)) + 1))
unfolding render_state_diff
render_state_diff-Opens before after =
    Opens-append diff_head _ 7 _ diff_head-Opens
      (Opens-append _ (lit "</table>" ∷ []) _ 1 (diff_rows-Opens _ _ _) table_end-Opens)

-- For any two states, the table has the tags of its frame and six for each key of either state:
-- no key and no value of a state adds a tag.
render_state_diff-HasBrackets :
    (before after : Js)
    → HasBrackets
        (markup (render_state_diff before after))
        (7 + (6 * length (all_keys (object_fields before) (object_fields after)) + 1))
render_state_diff-HasBrackets before after =
    markup-HasBrackets _ _ (render_state_diff-Opens before after)

-- A row is marked as changed exactly when the JSON texts of the key in the two states differ,
-- where a missing value has no text.
pub differs_iff : (bv av : Option Text) → (differs bv av ≡ false) ↔ (bv ≡ av)
unfolding differs
differs_iff none none = (λ _. refl, λ _. refl)
differs_iff none (some _) = (λ e. cc, λ e. cc)
differs_iff (some _) none = (λ e. cc, λ e. cc)
differs_iff (some s) (some t) = ground (arith, text_eq_iff s t)
