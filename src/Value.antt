-- ===== src/Value.antt =====
-- The values of the language that the app reads from a response, with the operations of the
-- language that it applies to them.
pub mod Print
use trace_graph.Base.{
  ℕ, zero, suc, Text, codes, text_eq, decimal, if◌then◌else◌, List, [], ◌∷◌, ◌++◌, Bool, true,
  false, Option, none, some, length,
}

-- A number is a whole one or any other, the latter by the text that `String` gives for it. The
-- fields of an object stand in the order of `Object.keys`.
mutual
  pub data Js : Type 0 where
    undefined null : Js
    bool : Bool → Js
    num : ℕ → Js
    other_num : Text → Js
    str : Text → Js
    arr : Items → Js
    obj : Fields → Js

  pub data Items : Type 0 where
    nil : Items
    cons : Js → Items → Items

  pub data Fields : Type 0 where
    end : Fields
    field : Text → Js → Fields → Fields

unfoldable pub items : Items → List Js
items nil = []
items (cons v vs) = v ∷ items vs

-- `Object.keys`
unfoldable pub keys : Fields → List Text
keys end = []
keys (field k v fs) = k ∷ keys fs

-- `o[k]` on the fields of an object.
unfoldable pub field_at : Text → Fields → Js
field_at k end = undefined
field_at k (field j v fs) = if text_eq j k then v else field_at k fs

-- `v?.k` for a name `k` that is no property of a string, an array, a number or a Boolean.
unfoldable pub opt_get : Text → Js → Js
opt_get k (obj fs) = field_at k fs
opt_get k _ = undefined

-- `v.k`, where `none` is the TypeError on null and undefined.
unfoldable pub get : Text → Js → Option Js
get k undefined = none
get k null = none
get k v = some (opt_get k v)

-- `v ?? d`
unfoldable pub nullish : Js → Js → Js
nullish undefined d = d
nullish null d = d
nullish v d = v

-- `v ? … : …`. The only other numbers that are false are NaN, and zero is whole.
unfoldable pub truthy : Js → Bool
truthy undefined = false
truthy null = false
truthy (bool b) = b
truthy (num zero) = false
truthy (num (suc _)) = true
truthy (other_num t) = if text_eq t (codes "NaN") then false else true
truthy (str []) = false
truthy (str (_ ∷ _)) = true
truthy (arr _) = true
truthy (obj _) = true

-- `Array.isArray(v)`, with the elements.
unfoldable pub elements? : Js → Option (List Js)
elements? (arr vs) = some (items vs)
elements? _ = none

-- What an element gives to `join`: null and undefined give nothing.
unfoldable pub or_blank : Js → Text → Text
or_blank undefined t = []
or_blank null t = []
or_blank _ t = t

-- A comma in front of the texts that follow, if any do.
unfoldable pub comma_before : Items → Text → Text
comma_before nil t = t
comma_before (cons _ _) t = b',' ∷ t

-- `String(v)`
unfoldable mutual
  unfolding or_blank comma_before

  pub to_text : Js → Text
  to_text undefined = codes "undefined"
  to_text null = codes "null"
  to_text (bool b) = if b then codes "true" else codes "false"
  to_text (num n) = decimal n
  to_text (other_num t) = t
  to_text (str s) = s
  to_text (arr vs) = join_items vs
  to_text (obj fs) = codes "[object Object]"

  pub join_items : Items → Text
  join_items nil = []
  join_items (cons v vs) = or_blank v (to_text v) ++ comma_before vs (join_items vs)
