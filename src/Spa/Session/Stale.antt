-- ===== src/Spa/Session/Stale.antt =====
-- A late answer overwrites the view that the user has gone on to; without one the view is right.
use trace_graph.Base.{Text, List, [], ◌∷◌, ◌++◌, ◌≡◌, refl, ◌⊎◌, inl, inr, All, ap}
use trace_graph.Spa.Router.{View, trace_list, trace, graph, diff}
use trace_graph.Spa.Session.{
  Shown, loading, loaded, Screen, on_route, navigate, open_view, answer, Reach, here, next,
}

-- From a screen with nothing pending, the user can open a trace and then the graph view, and end
-- with the trace on the screen while the address is that of the graph and nothing is pending.
pub stale_view :
    (v : View) (shown : Shown) (id : Text)
    → Reach
        (record { current = v; shown = shown; pending = [] })
        (record { current = graph; shown = loaded (trace id); pending = [] })
unfolding navigate on_route
stale_view v shown id =
    next
      (next (next (next here (open_view (trace id))) (open_view graph))
        (answer (trace id ∷ []) graph [] refl))
      (answer [] (trace id) [] refl)

-- The run of a user who opens a view only while no request is pending.
pub data Patient (s : Screen) : Screen → Type 0 where
  start : Patient s s
  opened : {t : Screen} (v : View) → Patient s t → t.pending ≡ [] → Patient s (navigate v t)
  answered :
      {t : Screen} (before : List View) (v : View) (after : List View)
      → Patient s t
      → t.pending ≡ before ++ (v ∷ after)
      → Patient s (record { current = t.current; shown = loaded v; pending = before ++ after })

-- The screen shows the view of the address, and only that view is waited for.
pub record IsCurrent (s : Screen) : Type 0 where
  pub fits : (s.shown ≡ loading s.current) ⊎ (s.shown ≡ loaded s.current)
  pub waits : All (λ v. v ≡ s.current) s.pending

navigate-IsCurrent : (v : View) (s : Screen) → s.pending ≡ [] → IsCurrent (navigate v s)
unfolding navigate on_route
navigate-IsCurrent trace_list s e = rw e (record { fits = inl refl; waits = (refl, tt) })
navigate-IsCurrent (trace id) s e = rw e (record { fits = inl refl; waits = (refl, tt) })
navigate-IsCurrent graph s e = rw e (record { fits = inl refl; waits = (refl, tt) })
navigate-IsCurrent (diff q) s e = rw e (record { fits = inr refl; waits = tt })

All-middle {ℓ κ} :
    {A : Type ℓ} (P : A → Type κ) (xs : List A) (y : A) (zs : List A)
    → All P (xs ++ (y ∷ zs))
    → P y × All P (xs ++ zs)
All-middle P [] y zs h = h
All-middle P (x ∷ xs) y zs (p, h) = let (q, k) = All-middle P xs y zs h in (q, (p, k))

-- If the user opens a view only when no request is pending, then from a screen that shows the view
-- of the address and waits for nothing else, every later screen does so too.
pub Patient-IsCurrent : {s t : Screen} → IsCurrent s → Patient s t → IsCurrent t
Patient-IsCurrent c start = c
Patient-IsCurrent c (opened {t} v r e) = navigate-IsCurrent v t e
Patient-IsCurrent c (answered {t} before v after r e) =
    let ih = Patient-IsCurrent c r in
    let (same, rest) = All-middle (λ w. w ≡ t.current) before v after (rw e at ih.waits) in
    record { fits = inr (ap loaded same); waits = rest }
