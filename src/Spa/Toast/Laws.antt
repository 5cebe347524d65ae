-- ===== src/Spa/Toast/Laws.antt =====
-- How long a message stands, and that no older timer hides it.
use trace_graph.Base.{
  ℕ, zero, suc, ◌+◌, Text, List, [], ◌∷◌, true, false, Option, none, some, ◌≡◌, refl, arith, ap,
  ◌∙◌,
}
use trace_graph.Spa.Toast.{
  Toast, clear_id, clear_timeout, set_timeout, show_toast, tick_timer, tick_timers, runs_out,
  is_due, tick, ToastEvent, shown, passed, toast_event, toast_run,
}

-- So many milliseconds.
abbrev pub millis : ℕ → List ToastEvent
millis zero = []
millis (suc n) = passed ∷ millis n

-- The box is hidden and no timer runs, or it is on the screen and the one timer that runs is that
-- of `toastTimer`.
pub data Fits : Toast → Type 0 where
  rests :
      {text : Text} {toast_timer : Option ℕ} {next_id : ℕ}
      → Fits (record {
        text = text;
        hidden = true;
        toast_timer = toast_timer;
        timers = [];
        next_id = next_id;
      })
  stands :
      {text : Text} {id left next_id : ℕ}
      → Fits (record {
        text = text;
        hidden = false;
        toast_timer = some id;
        timers = record { id = id; left = left } ∷ [];
        next_id = next_id;
      })

-- The box with a message, and its one timer.
abbrev pub showing : Text → ℕ → ℕ → Toast
showing msg id left = record {
  text = msg;
  hidden = false;
  toast_timer = some id;
  timers = record { id = id; left = left } ∷ [];
  next_id = suc id;
}

abbrev pub gone : Text → ℕ → Toast
gone msg id = record {
  text = msg;
  hidden = true;
  toast_timer = some id;
  timers = [];
  next_id = suc id;
}

clear_id-own : (id left : ℕ) → clear_id id (record { id = id; left = left } ∷ []) ≡ []
unfolding clear_id
clear_id-own id left = ground arith

clear_timeout-Fits : (s : Toast) → Fits s → clear_timeout s.toast_timer s.timers ≡ []
unfolding clear_timeout
clear_timeout-Fits s (rests {toast_timer = none}) = refl
clear_timeout-Fits s (rests {toast_timer = some id}) = unfold clear_id in refl
clear_timeout-Fits s (stands {id = id} {left = left}) = clear_id-own id left

show_toast-showing :
    (s : Toast) (msg : Text) (d : ℕ) → Fits s → show_toast msg d s ≡ showing msg s.next_id d
unfolding show_toast set_timeout
show_toast-showing s msg d h = rw (clear_timeout-Fits s h) refl

count_down :
    (msg : Text) (id n d : ℕ) → toast_run (showing msg id (n + d)) (millis n) ≡ showing msg id d
unfolding toast_run toast_event tick tick_timers tick_timer runs_out is_due
count_down msg id zero d = ap (showing msg id) (omega arith)
count_down msg id (suc n) d =
    let shift : suc n + d ≡ suc (n + d) = omega arith in rw shift (count_down msg id n d)

run_out : (msg : Text) (id n : ℕ) → toast_run (showing msg id n) (millis (suc n)) ≡ gone msg id
unfolding toast_run toast_event tick tick_timers tick_timer runs_out is_due
run_out msg id zero = refl
run_out msg id (suc n) = run_out msg id n

-- If the box is hidden without a timer, or on the screen with one timer, that of `toastTimer`: from a
-- call on the message stands for its full time, however much of the older timer was left, and it is
-- hidden in the next millisecond, if no other message comes.
pub show_toast-stands :
    (s : Toast) (msg : Text) (n d : ℕ)
    → Fits s
    → (toast_run s (shown msg (n + d) ∷ millis n) ≡ showing msg s.next_id d)
      × (toast_run s (shown msg n ∷ millis (suc n)) ≡ gone msg s.next_id)
unfolding toast_run toast_event
show_toast-stands s msg n d h = (
  ap (λ t. toast_run t (millis n)) (show_toast-showing s msg (n + d) h)
      ∙ count_down msg s.next_id n d,
  ap (λ t. toast_run t (millis (suc n))) (show_toast-showing s msg n h) ∙ run_out msg s.next_id n,
)

tick-Fits : (s : Toast) → Fits s → Fits (tick s)
unfolding tick tick_timers tick_timer runs_out is_due
tick-Fits s rests = rests
tick-Fits s (stands {left = zero}) = rests
tick-Fits s (stands {left = suc left}) = stands

-- If the box is hidden without a timer, or on the screen with one timer, that of `toastTimer`, then
-- so it is after any calls and any time: no older timer is left that could hide a newer message.
pub toast_run-Fits : (s : Toast) (es : List ToastEvent) → Fits s → Fits (toast_run s es)
unfolding toast_run toast_event
toast_run-Fits s [] h = h
toast_run-Fits s (shown msg d ∷ es) h =
    toast_run-Fits (show_toast msg d s) es (rw (show_toast-showing s msg d h) stands)
toast_run-Fits s (passed ∷ es) h = toast_run-Fits (tick s) es (tick-Fits s h)
