-- ===== src/Spa/Toast.antt =====
-- `showToast` of app.js: the message box and its timer, one millisecond after the other.
pub mod Laws
use trace_graph.Base.{
  ℕ, zero, suc, ◌==◌, ◌||◌, if◌then◌else◌, Text, List, [], ◌∷◌, ◌++◌, Bool, true, false, Option,
  none, some,
}

-- A timer that the browser runs: its number and the time left.
pub record Timer : Type 0 where
  pub id : ℕ
  pub left : ℕ

-- The element `#toast`, the variable `toastTimer`, and the browser's timers, each of which hides
-- the box when it runs out, with the number that the next one gets.
pub record Toast : Type 0 where
  pub text : Text
  pub hidden : Bool
  pub toast_timer : Option ℕ
  pub timers : List Timer
  pub next_id : ℕ

-- `clearTimeout`: the timer of that number, if it still runs, is taken out.
unfoldable pub clear_id : ℕ → List Timer → List Timer
clear_id id [] = []
clear_id id (t ∷ ts) = let rest = clear_id id ts in if t.id == id then rest else t ∷ rest

unfoldable pub clear_timeout : Option ℕ → List Timer → List Timer
unfolding clear_id
clear_timeout none ts = ts
clear_timeout (some id) ts = clear_id id ts

-- `setTimeout(() => toast.classList.add('hidden'), durationMs)`
unfoldable pub set_timeout : ℕ → Toast → Toast
set_timeout duration_ms s = record s {
  toast_timer = some s.next_id;
  timers = s.timers ++ (record { id = s.next_id; left = duration_ms } ∷ []);
  next_id = suc s.next_id;
}

unfoldable pub show_toast : Text → ℕ → Toast → Toast
unfolding clear_timeout set_timeout
show_toast msg duration_ms s =
    set_timeout duration_ms
      (record s { text = msg; hidden = false; timers = clear_timeout s.toast_timer s.timers })

-- The timers that go on when a millisecond passes, and whether one runs out.
unfoldable pub tick_timer : Timer → List Timer → List Timer
tick_timer t rest = elim t.left [ zero ↦ rest | suc n ↦ record t { left = n } ∷ rest ]

unfoldable pub tick_timers : List Timer → List Timer
unfolding tick_timer
tick_timers [] = []
tick_timers (t ∷ ts) = tick_timer t (tick_timers ts)

unfoldable pub is_due : ℕ → Bool
is_due zero = true
is_due (suc n) = false

unfoldable pub runs_out : List Timer → Bool
unfolding is_due
runs_out [] = false
runs_out (t ∷ ts) = is_due t.left || runs_out ts

unfoldable pub tick : Toast → Toast
unfolding tick_timers runs_out
tick s = record s { hidden = s.hidden || runs_out s.timers; timers = tick_timers s.timers }

-- What happens to the box: a call, or a millisecond.
pub data ToastEvent : Type 0 where
  shown : Text → ℕ → ToastEvent
  passed : ToastEvent

unfoldable pub toast_event : Toast → ToastEvent → Toast
unfolding show_toast tick
toast_event s (shown msg d) = show_toast msg d s
toast_event s passed = tick s

unfoldable pub toast_run : Toast → List ToastEvent → Toast
unfolding toast_event
toast_run s [] = s
toast_run s (e ∷ es) = toast_run (toast_event s e) es
