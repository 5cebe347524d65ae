-- ===== src/Site/Primitives/IconEffect.antt =====
-- The effect of `Icon` in icons.jsx, which draws an icon of the icon library into its element. The
-- library is an argument: the icons by their keys, or nothing before it is loaded.
use trace_graph.Base.{
  ℕ, Text, codes, text_eq, text_eq_refl, text_eq_iff, subst, sym, ◌∙◌, decimal, if◌then◌else◌, List,
  [], ◌∷◌, true, false, Option, none, some, find, ◌≡◌, refl, Bool-cases, inl, inr,
}
use mathlib.Core.Option
use trace_graph.Spa.Steps.{◌>>=◌}
use trace_graph.Site.Primitives.{icon_key}

-- An icon of the library: the attributes of its `svg`, and its parts with theirs.
pub record LucideIcon : Type 0 where
  pub attrs : List (Text × Text)
  pub children : List (Text × List (Text × Text))

-- What the effect does to the content of the element.
pub data IconContent : Type 0 where
  unchanged cleared : IconContent
  drawn : List (Text × Text) → List (Text × List (Text × Text)) → IconContent

-- `{ ...attrs, k: v }`: a property that is there keeps its position.
unfoldable pub with_property : Text → Text → List (Text × Text) → List (Text × Text)
with_property k v [] = (k, v) ∷ []
with_property k v ((j, w) ∷ attrs) =
    let rest = with_property k v attrs in if text_eq j k then (j, v) ∷ attrs else (j, w) ∷ rest

unfoldable pub svg_attrs : Text → Text → List (Text × Text) → List (Text × Text)
unfolding with_property
svg_attrs size stroke_width attrs =
    with_property (codes "stroke-width") stroke_width
      (with_property (codes "height") size (with_property (codes "width") size attrs))

unfoldable pub drawing_of : Text → Text → Option LucideIcon → IconContent
unfolding svg_attrs
drawing_of size stroke_width none = cleared
drawing_of size stroke_width (some icon) =
    drawn (svg_attrs size stroke_width icon.attrs) icon.children

-- The effect; `none` is the TypeError on an empty word in the name.
unfoldable pub icon_effect :
    Option (Text → Option LucideIcon)
    → (name : Text) (size : ℕ) (stroke_width : Text) → Option IconContent
unfolding drawing_of icon_key
icon_effect none name size stroke_width = some unchanged
icon_effect (some icons) name size stroke_width = do
  key ← icon_key name
  some (drawing_of (decimal size) stroke_width (icons key))

-- `svg.getAttribute(k)`
unfoldable pub attribute_of : Text → List (Text × Text) → Option Text
attribute_of k attrs = Option.map (λ a. a.1) (find (λ a. text_eq a.0 k) attrs)

attribute_of-same :
    (k v : Text) (attrs : List (Text × Text)) → attribute_of k (with_property k v attrs) ≡ some v
unfolding attribute_of with_property
attribute_of-same k v [] = rw (text_eq_refl k) refl
attribute_of-same k v ((j, w) ∷ attrs) = elim (Bool-cases (text_eq j k)) [
  | inl e ↦ rw (e, e) refl
  | inr e ↦ rw (e, e) (attribute_of-same k v attrs)
]

attribute_of-other :
    (k l v : Text) (attrs : List (Text × Text))
    → text_eq k l ≡ false
    → attribute_of l (with_property k v attrs) ≡ attribute_of l attrs
unfolding attribute_of with_property
attribute_of-other k l v [] h = rw h refl
attribute_of-other k l v ((j, w) ∷ attrs) h = elim (Bool-cases (text_eq j k)) [
  | inl e ↦ rw (e, other e) refl
  | inr e ↦ elim (Bool-cases (text_eq j l)) [
    | inl f ↦ rw (e, f) refl
    | inr f ↦ rw (e, f) (attribute_of-other k l v attrs h)
  ]
]
  where
    other : text_eq j k ≡ true → text_eq j l ≡ false
    other e = subst (λ t. text_eq t l ≡ false) (sym ((text_eq_iff j k).0 e)) h

differ :
    (text_eq (codes "stroke-width") (codes "width") ≡ false)
    × (text_eq (codes "height") (codes "width") ≡ false)
    × (text_eq (codes "stroke-width") (codes "height") ≡ false)
unfolding text_eq codes
differ = (refl, refl, refl)

-- The drawing has the size and the stroke width that were asked for, whatever the library says of
-- them, and every other attribute is that of the library.
pub svg_attrs-attribute_of :
    (size stroke_width : Text) (attrs : List (Text × Text)) (l : Text)
    → text_eq (codes "width") l ≡ false
    → text_eq (codes "height") l ≡ false
    → text_eq (codes "stroke-width") l ≡ false
    → (attribute_of (codes "width") (svg_attrs size stroke_width attrs) ≡ some size)
      × (attribute_of (codes "height") (svg_attrs size stroke_width attrs) ≡ some size)
      × (attribute_of (codes "stroke-width") (svg_attrs size stroke_width attrs)
          ≡ some stroke_width)
      × (attribute_of l (svg_attrs size stroke_width attrs) ≡ attribute_of l attrs)
unfolding svg_attrs
svg_attrs-attribute_of size stroke_width attrs l w h s = (
  attribute_of-other (codes "stroke-width") (codes "width") stroke_width tall differ.0
      ∙ (attribute_of-other (codes "height") (codes "width") size wide differ.1
          ∙ attribute_of-same (codes "width") size attrs),
  attribute_of-other (codes "stroke-width") (codes "height") stroke_width tall differ.2
      ∙ attribute_of-same (codes "height") size wide,
  attribute_of-same (codes "stroke-width") stroke_width tall,
  attribute_of-other (codes "stroke-width") l stroke_width tall s
      ∙ (attribute_of-other (codes "height") l size wide h
          ∙ attribute_of-other (codes "width") l size attrs w),
)
  where
    wide : List (Text × Text)
    wide = with_property (codes "width") size attrs

    tall : List (Text × Text)
    tall = with_property (codes "height") size wide
