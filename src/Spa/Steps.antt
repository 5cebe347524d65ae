-- ===== src/Spa/Steps.antt =====
-- The lists of steps in the documents of the server, and `duration` of app.js.
pub mod Duration
use trace_graph.Base.{
  ap, ◌∙◌, ℕ, Text, codes, decimal, leb, ◌-◌, if◌then◌else◌, List, [], ◌∷◌, ◌++◌, Bool, true, false,
  Option, none, some, ◌&&◌, ◌≡◌, refl,
}
use trace_graph.Value.{
  Js, undefined, null, bool, num, other_num, str, arr, obj, nil, Items, items, nullish, get,
  opt_get, field_at, truthy, to_text,
}
use trace_graph.Spa.Platform.{Platform}

infixl 5 ◌>>=◌
abbrev pub ◌>>=◌ {ℓ κ} : {A : Type ℓ} {B : Type κ} → Option A → (A → Option B) → Option B
none >>= f = none
some a >>= f = f a

pub >>=-eq-some {ℓ κ} :
    {A : Type ℓ} {B : Type κ} (m : Option A) (f : A → Option B) {b : B}
    → (m >>= f) ≡ some b
    → (a : A) × (m ≡ some a) × (f a ≡ some b)
>>=-eq-some none f h = cc
>>=-eq-some (some a) f h = (a, refl, h)

-- A computation has a result.
abbrev pub HasResult {ℓ} : {A : Type ℓ} → Option A → Type ℓ
HasResult {A = A} o = (a : A) × (o ≡ some a)

pub >>=-HasResult {ℓ κ} :
    {A : Type ℓ} {B : Type κ} (m : Option A) (f : A → Option B) {a : A}
    → m ≡ some a
    → HasResult (f a)
    → HasResult (m >>= f)
>>=-HasResult m f e (b, h) = (b, ap (λ o. o >>= f) e ∙ h)

-- `v ?? []`
unfoldable pub or_empty : Js → Js
or_empty v = nullish v (arr nil)

-- The rounds of `v.forEach`; `none` is the TypeError on a value that is no array.
unfoldable pub for_each : Js → Option (List Js)
for_each (arr vs) = some (items vs)
for_each _ = none

-- `esc(s.nodeName ?? '?')`; the text is what `esc` gets.
unfoldable pub node_name : Js → Option Text
node_name s = do name ← get (codes "nodeName") s; some (to_text (nullish name (str (codes "?"))))

-- `${s.attempts ?? 1}`
unfoldable pub attempts : Js → Option Text
attempts s = do n ← get (codes "attempts") s; some (to_text (nullish n (num 1)))

unfoldable pub show_ms : Platform → ℕ → Text
show_ms pf ms = if leb 1000 ms then pf.seconds ms ++ codes "s" else decimal ms ++ codes "ms"

-- The difference of two dates; a negative one has a sign, and NaN is less than nothing.
unfoldable pub show_elapsed : Platform → Option ℕ → Option ℕ → Text
unfolding show_ms
show_elapsed pf none _ = codes "NaNms"
show_elapsed pf (some start) none = codes "NaNms"
show_elapsed pf (some start) (some stop) =
    if leb start stop
    then show_ms pf (stop - start)
    else codes "-" ++ (decimal (start - stop) ++ codes "ms")

unfoldable pub duration : Platform → Js → Option Text
unfolding show_elapsed
duration pf s = do
  started ← get (codes "startedAt") s
  completed ← get (codes "completedAt") s
  some (
      if truthy started && truthy completed
      then show_elapsed pf (pf.epoch started) (pf.epoch completed)
      else codes "—")
