-- ===== src/Spa/Steps/Duration.antt =====
-- When `duration` shows a time, and in which unit.
use trace_graph.Base.{
  ℕ, codes, decimal, leb, ◌-◌, ◌+◌, if◌then◌else◌, ◌++◌, true, false, some, ◌&&◌, ◌≡◌, refl, ap,
  ◌∙◌, arith,
}
use trace_graph.Value.{obj, Fields, field_at, get, opt_get, truthy}
use trace_graph.Spa.Platform.{Platform}
use trace_graph.Spa.Steps.{duration, show_elapsed, show_ms}

show_elapsed-add :
    (pf : Platform) (start ms : ℕ)
    → show_elapsed pf (some start) (some (start + ms)) ≡ show_ms pf ms
unfolding show_elapsed
show_elapsed-add pf start ms =
    let later : leb start (start + ms) ≡ true = ground arith in
    let between : start + ms - start ≡ ms = omega arith in rw later (rw between)

-- The time of a step with two dates that parse, the second not before the first, is the time
-- between them: in seconds, as `toFixed(2)` writes them, from one second on, else in whole
-- milliseconds.
pub duration-elapsed :
    (pf : Platform) (fs : Fields) (start ms : ℕ)
    → truthy (field_at (codes "startedAt") fs) ≡ true
    → truthy (field_at (codes "completedAt") fs) ≡ true
    → pf.epoch (field_at (codes "startedAt") fs) ≡ some start
    → pf.epoch (field_at (codes "completedAt") fs) ≡ some (start + ms)
    → duration pf (obj fs)
      ≡ some (if leb 1000 ms then pf.seconds ms ++ codes "s" else decimal ms ++ codes "ms")
unfolding duration get opt_get
duration-elapsed pf fs start ms s c es ec =
    rw (s, c, es, ec) (ap some (show_elapsed-add pf start ms ∙ unfold show_ms in refl))

-- A step that lacks either date shows a dash.
pub duration-dash :
    (pf : Platform) (fs : Fields)
    → (truthy (field_at (codes "startedAt") fs) && truthy (field_at (codes "completedAt") fs))
      ≡ false
    → duration pf (obj fs) ≡ some (codes "—")
unfolding duration get opt_get
duration-dash pf fs h = rw h refl
