-- ===== src/Site/Docs.antt =====
-- docs.jsx: which page an address shows, and the marks of the sidebar.
pub mod Data
pub mod Page
pub mod Bodies
pub mod Parts
pub mod Pages
mod Tests
use trace_graph.Base.{
  Text, codes, text_eq, strip_prefix, any, if◌then◌else◌, List, [], ◌∷◌, ◌++◌, Bool, true, false,
  Option, none, some, map, find,
}
use trace_graph.Site.Shell.{includes}
use trace_graph.Site.Highlight.{is_line_end}
use trace_graph.Site.Docs.Data.{DocItem, DocPage, quickstart_page, doc_pages}

-- `(.+)$` on the rest of the address: some text with no line end in it.
unfoldable pub docs_id : Option Text → Option Text
docs_id none = none
docs_id (some []) = none
docs_id (some (c ∷ rest)) = if any is_line_end (c ∷ rest) then none else some (c ∷ rest)

-- The group of `/^#\/docs\/(.+)$/`, where the address has that form.
unfoldable pub docs_match : Text → Option Text
unfolding docs_id
docs_match hash = docs_id (strip_prefix (codes "#/docs/") hash)

unfoldable pub id_or_quickstart : Option Text → Text
id_or_quickstart none = codes "quickstart"
id_or_quickstart (some id) = id

-- The `active` page for an address, at the first render and after each change of the address.
unfoldable pub active_doc : Text → Text
unfolding docs_match id_or_quickstart
active_doc hash = id_or_quickstart (docs_match hash)

-- What an object inherits from `Object.prototype`.
unfoldable pub inherited_names : List Text
inherited_names =
    codes "constructor"
    ∷ codes "hasOwnProperty"
    ∷ codes "isPrototypeOf"
    ∷ codes "propertyIsEnumerable"
    ∷ codes "toLocaleString"
    ∷ codes "toString"
    ∷ codes "valueOf"
    ∷ codes "__proto__"
    ∷ codes "__defineGetter__"
    ∷ codes "__defineSetter__"
    ∷ codes "__lookupGetter__"
    ∷ codes "__lookupSetter__"
    ∷ []

-- What `DOC_PAGES[id]` can find: a page, or what an object inherits, which has no `body`.
pub data Property : Type 0 where
  own : DocPage → Property
  inherited : Property

-- The lookup of a name in an object: its own property, or else the one of `Object.prototype`.
unfoldable pub property_of : Bool → Option DocPage → Option Property
property_of is_inherited (some p) = some (own p)
property_of true none = some inherited
property_of false none = none

unfoldable pub find_property : Text → Option Property
unfolding doc_pages property_of inherited_names
find_property id =
    property_of (includes inherited_names id) (find (λ p. text_eq p.key id) doc_pages)

-- `… || DOC_PAGES.quickstart`
unfoldable pub or_quickstart : Option Property → Property
or_quickstart (some p) = p
or_quickstart none = own quickstart_page

-- The page of which the view calls `body`; `none` is the TypeError of that call.
unfoldable pub page_with_body : Property → Option DocPage
page_with_body (own p) = some p
page_with_body inherited = none

-- `DOC_PAGES[id] || DOC_PAGES.quickstart`, as the view uses it.
unfoldable pub doc_page : Text → Option DocPage
unfolding find_property or_quickstart page_with_body
doc_page id = page_with_body (or_quickstart (find_property id))

-- The address of a sidebar entry, and which entries are marked.
unfoldable pub item_href : DocItem → Text
item_href it = codes "#/docs/" ++ it.id

unfoldable pub item_marks : Text → List DocItem → List Bool
item_marks active items = map (λ it. text_eq active it.id) items
