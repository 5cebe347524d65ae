-- ===== src/Site/Shell/Routes.antt =====
-- The routes that the shell can show, and what the header marks.
use trace_graph.Base.{
  ℕ, suc, Text, codes, text_eq, text_eq_iff, split_head, split_head-Lacks, Lacks, List, [], ◌∷◌,
  ◌++◌, ◌==◌, All, ==_iff, sym, subst, not, Bool, true, false, ◌≡◌, refl, arith, Bool-cases, inl,
  inr, ◌⊎◌,
}
use trace_graph.Site.Shell.{
  drop_leading, includes, known_segments, known_or_home, route_of_path, parse_route, Content,
  trace_explorer, studio, content, show_footer, nav, nav_marks,
}

-- The six names of a page.
abbrev pub IsPage : Text → Type 0
IsPage r =
    (r ≡ codes "docs")
    ⊎ (r ≡ codes "trace")
    ⊎ (r ≡ codes "studio")
    ⊎ (r ≡ codes "api")
    ⊎ (r ≡ codes "changelog")
    ⊎ (r ≡ codes "home")

known_or_home-IsPage : (seg : Text) → IsPage (known_or_home seg)
unfolding known_or_home
known_or_home-IsPage seg = ground (
  arith,
  text_eq_iff seg (codes "docs"),
  text_eq_iff seg (codes "trace"),
  text_eq_iff seg (codes "studio"),
  text_eq_iff seg (codes "api"),
  text_eq_iff seg (codes "changelog"),
)

route_of_path-IsPage : (h : Text) → IsPage (route_of_path h)
unfolding route_of_path
route_of_path-IsPage [] = inr (inr (inr (inr (inr refl))))
route_of_path-IsPage (c ∷ h) = known_or_home-IsPage _

pub parse_route-IsPage : (hash : Text) → IsPage (parse_route hash)
unfolding parse_route
parse_route-IsPage hash = route_of_path-IsPage _

-- To prove something of a page, prove it of each of the six.
pub IsPage-cases {ℓ} :
    (P : Text → Type ℓ)
    → P (codes "docs")
    → P (codes "trace")
    → P (codes "studio")
    → P (codes "api")
    → P (codes "changelog")
    → P (codes "home")
    → (r : Text) → IsPage r
    → P r
IsPage-cases P d t s a c h r (inl e) = subst P (sym e) d
IsPage-cases P d t s a c h r (inr (inl e)) = subst P (sym e) t
IsPage-cases P d t s a c h r (inr (inr (inl e))) = subst P (sym e) s
IsPage-cases P d t s a c h r (inr (inr (inr (inl e)))) = subst P (sym e) a
IsPage-cases P d t s a c h r (inr (inr (inr (inr (inl e))))) = subst P (sym e) c
IsPage-cases P d t s a c h r (inr (inr (inr (inr (inr e))))) = subst P (sym e) h

page_address : (r : Text) → IsPage r → parse_route (codes "#/" ++ r) ≡ r
unfolding parse_route codes text_eq split_head
page_address = IsPage-cases (λ r. parse_route (codes "#/" ++ r) ≡ r) refl refl refl refl refl refl

-- Whatever the address, the route is one of the six pages, and the address `#/` with the route's
-- name opens the same page again.
pub parse_route_canonical :
    (hash : Text)
    → IsPage (parse_route hash) × (parse_route (codes "#/" ++ parse_route hash) ≡ parse_route hash)
parse_route_canonical hash = (parse_route-IsPage hash, page_address _ (parse_route-IsPage hash))

-- The address of a page with anything behind a further slash, such as `#/docs/quickstart`, opens
-- that page.
pub parse_route-subpage :
    (page rest : Text) → IsPage page → parse_route (codes "#/" ++ (page ++ (b'/' ∷ rest))) ≡ page
unfolding parse_route codes text_eq split_head
parse_route-subpage page rest =
    IsPage-cases (λ p. parse_route (codes "#/" ++ (p ++ (b'/' ∷ rest))) ≡ p) refl refl refl refl
      refl refl page

-- An address with no slash behind its `#`, as the anchors of a docs page have, opens the home
-- page, unless it is the name of another page.
parse_route-anchor :
    (c : ℕ) (anchor : Text)
    → Lacks b'/' (c ∷ anchor)
    → includes known_segments (c ∷ anchor) ≡ false
    → parse_route (b'#' ∷ c ∷ anchor) ≡ codes "home"
unfolding parse_route
parse_route-anchor c anchor (p, h) e = elim (Bool-cases (c == b'/')) [
  | inl s ↦ absurd (p ((==_iff c b'/').0 s))
  | inr s ↦
      rw (s, drop_leading) (rw (split_head-Lacks b'/' (c ∷ anchor) (p, h)) (rw (e, known_or_home)))
]

-- How many of the tests hold.
abbrev pub count_true : List Bool → ℕ
count_true [] = 0
count_true (true ∷ bs) = suc (count_true bs)
count_true (false ∷ bs) = count_true bs

-- On every route the header marks one entry, and the entry's own address opens its page.
pub nav_marks_one :
    (hash : Text)
    → (count_true (nav_marks (parse_route hash)) ≡ 1) × All (λ n. parse_route n.href ≡ n.id) nav
unfolding nav_marks nav parse_route codes text_eq split_head
nav_marks_one hash = (
  IsPage-cases (λ r. count_true (nav_marks r) ≡ 1) refl refl refl refl refl refl _
      (parse_route-IsPage hash),
  (refl, (refl, (refl, (refl, (refl, (refl, tt)))))),
)

-- The two application views, which have no footer.
abbrev pub is_canvas : Content → Bool
is_canvas trace_explorer = true
is_canvas studio = true
is_canvas _ = false

-- The footer is left out exactly where the content is the trace explorer or the studio.
pub show_footer-content :
    (hash : Text) → show_footer (parse_route hash) ≡ not (is_canvas (content (parse_route hash)))
unfolding show_footer content codes text_eq
show_footer-content hash =
    IsPage-cases (λ r. show_footer r ≡ not (is_canvas (content r))) refl refl refl refl refl refl _
      (parse_route-IsPage hash)
