-- ===== src/Site/Primitives/Tones.antt =====
-- The tones that the badges of the other pages ask for.
use trace_graph.Base.{
  Text, codes, text_eq, Bool, true, false, List, ◌++◌, some, All, ltb, decimal, ◌≡◌, refl,
}
use trace_graph.Site.Explorer.Data.{Step}
use trace_graph.Site.Explorer.{Tag, tag_if, child_number, badges}
use trace_graph.Site.Primitives.{class_of, badge_tones}

-- The table of `Badge` has a class for the tone.
abbrev pub HasTone : Text → Type 0
HasTone tone = (cls : Text) × (class_of badge_tones tone ≡ some cls)

-- A badge in front of badges with tones.
tag_if-HasTone :
    (b : Bool) (tone text : Text) (rest : List Tag)
    → HasTone tone
    → All (λ t. HasTone t.tone) rest
    → All (λ t. HasTone t.tone) (tag_if b tone text ++ rest)
unfolding tag_if
tag_if-HasTone true tone text rest h r = (h, r)
tag_if-HasTone false tone text rest h r = r

last_tag-HasTone :
    (b : Bool) (tone text : Text) → HasTone tone → All (λ t. HasTone t.tone) (tag_if b tone text)
unfolding tag_if
last_tag-HasTone true tone text h = (h, tt)
last_tag-HasTone false tone text h = tt

tones :
    HasTone (codes "neutral")
    × HasTone (codes "warn")
    × HasTone (codes "err")
    × HasTone (codes "ok")
unfolding class_of badge_tones codes text_eq
tones = ((_, refl), (_, refl), (_, refl), (_, refl))

-- Whatever the step, each badge of its row in the step list has a tone of the table, so its class
-- is never "undefined".
pub badges-HasTone : (s : Step) → All (λ t. HasTone t.tone) (badges s)
unfolding badges
badges-HasTone s =
    let ok = tag_if (text_eq s.status (codes "ok")) (codes "ok") (codes "ok") in
    let err = tag_if (text_eq s.status (codes "err")) (codes "err") (codes "FAIL") ++ ok in
    let warn = tag_if (ltb 1 s.attempts) (codes "warn") (codes "↻ " ++ decimal s.attempts) ++ err in
    let async = tag_if s.is_async (codes "neutral") (codes "async") ++ warn in
    tag_if-HasTone (text_eq s.status (codes "parallel")) (codes "neutral")
      (codes "∥ " ++ child_number s.branches) async tones.0
      (tag_if-HasTone s.is_async (codes "neutral") (codes "async") warn tones.0 (
        tag_if-HasTone (ltb 1 s.attempts) (codes "warn") (codes "↻ " ++ decimal s.attempts) err
          tones.1
          (tag_if-HasTone (text_eq s.status (codes "err")) (codes "err") (codes "FAIL") ok tones.2
            (last_tag-HasTone (text_eq s.status (codes "ok")) (codes "ok") (codes "ok") tones.3))))
