-- ===== src/Site/Labels.antt =====
-- `KindTag` of changelog.jsx and `methodColor` of api.jsx, the labels of the notes and endpoints.
pub mod Data
pub mod Notes
pub mod Api
use trace_graph.Base.{
  Text, codes, text_eq, if◌then◌else◌, List, [], ◌∷◌, Bool, true, false, Option, none, some, map,
  find, All, ◌≡◌, refl,
}
use mathlib.Core.List.{flat_map}
use trace_graph.Site.Shell.{includes}
use trace_graph.Site.Docs.{inherited_names}
use trace_graph.Site.Labels.Data.{Note, Release, ApiEndpoint, ApiGroup, changelog_data, api_groups}

-- An entry of `styles`: the key, the class and the label.
pub record KindStyle : Type 0 where
  pub key : Text
  pub cls : Text
  pub label : Text

unfoldable pub improve_style : KindStyle
improve_style = record {
  key = codes "improve";
  cls = codes "bg-ink-100 text-ink-700 dark:bg-ink-900 dark:text-ink-300";
  label = codes "improve";
}

unfoldable pub kind_styles : List KindStyle
unfolding improve_style
kind_styles =
    record {
      key = codes "feat";
      cls = codes "bg-accent-50 text-accent-700 dark:bg-accent-700/20 dark:text-accent-100";
      label = codes "feat";
    }
    ∷ record {
      key = codes "fix";
      cls = codes "bg-blue-50 text-blue-700 dark:bg-blue-900/30 dark:text-blue-200";
      label = codes "fix";
    }
    ∷ improve_style
    ∷ record {
      key = codes "breaking";
      cls = codes "bg-rose-50 text-rose-700 dark:bg-rose-900/30 dark:text-rose-200";
      label = codes "breaking";
    }
    ∷ []

-- `styles[kind] || styles.improve`; `none` is the TypeError of taking an inherited property apart.
unfoldable pub kind_style : Text → Option KindStyle
unfolding kind_styles improve_style
kind_style kind = elim (find (λ s. text_eq s.key kind) kind_styles) [
  | some s ↦ some s
  | none ↦ if includes inherited_names kind then none else some improve_style
]

-- The badge "latest" of a release.
unfoldable pub is_latest : Release → Bool
is_latest r = elim r.tag [ none ↦ false | some tag ↦ text_eq tag (codes "latest") ]

pub record MethodColor : Type 0 where
  pub method : Text
  pub cls : Text

unfoldable pub method_colors : List MethodColor
method_colors =
    record {
      method = codes "GET";
      cls = codes "bg-emerald-50 text-emerald-700 dark:bg-emerald-900/30 dark:text-emerald-200";
    }
    ∷ record {
      method = codes "POST";
      cls = codes "bg-blue-50 text-blue-700 dark:bg-blue-900/30 dark:text-blue-200";
    }
    ∷ record {
      method = codes "DELETE";
      cls = codes "bg-rose-50 text-rose-700 dark:bg-rose-900/30 dark:text-rose-200";
    }
    ∷ record {
      method = codes "PUT";
      cls = codes "bg-amber-50 text-amber-700 dark:bg-amber-900/30 dark:text-amber-200";
    }
    ∷ []

-- `methodColor(m)`, for a method that is no inherited name.
unfoldable pub method_color : Text → Text
unfolding method_colors
method_color m = elim (find (λ c. text_eq c.method m) method_colors) [
  | some c ↦ c.cls
  | none ↦ codes "bg-ink-100 text-ink-700"
]

-- A note has a style whose key and label are its kind.
abbrev pub HasOwnTag : Note → Type 0
HasOwnTag n = (s : KindStyle) × (kind_style n.kind ≡ some s) × (s.key ≡ n.kind) × (s.label ≡ n.kind)

-- Every note of the changelog is tagged by the style that its kind names, with the kind as its
-- label, never by the default.
pub changelog-HasOwnTag : All HasOwnTag (flat_map Release.notes changelog_data)
unfolding changelog_data kind_style kind_styles improve_style text_eq codes flat_map
changelog-HasOwnTag = (
  (_, refl, refl, refl),
  (
    (_, refl, refl, refl),
    (
      (_, refl, refl, refl),
      (
        (_, refl, refl, refl),
        (
          (_, refl, refl, refl),
          (
            (_, refl, refl, refl),
            (
              (_, refl, refl, refl),
              (
                (_, refl, refl, refl),
                (
                  (_, refl, refl, refl),
                  ((_, refl, refl, refl), ((_, refl, refl, refl), ((_, refl, refl, refl), tt))),
                ),
              ),
            ),
          ),
        ),
      ),
    ),
  ),
)
