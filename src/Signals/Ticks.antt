-- ===== src/Signals/Ticks.antt =====
-- The alarm goes off every five seconds.
use c_basics.Prelude.{
  ℕ, zero, suc, ◌+◌, ◌-◌, ◌/◌, ◌%◌, ◌≡◌, ◌≤◌, ◌<◌, refl, ap, ◌∙◌, Bool, true, false, arith,
}
use c_basics.Signals.Alarm.{State, runs, killed, exited, second, seconds, install, alrmsigdemo}

-- `t` seconds after the alarm was first set.
abbrev pub at : Bool → ℕ → State
at handled t = record { alarm = 5 - t % 5; handled = handled; lines = t / 5 }

second-at : (t : ℕ) → second (at true t) ≡ runs (at true (suc t))
unfolding second
second-at t = ground arith

seconds-at : (n t : ℕ) → seconds n (runs (at true t)) ≡ runs (at true (t + n))
seconds-at zero t = ap (λ k. runs (at true k)) (omega arith)
seconds-at (suc n) t =
    ap (seconds n) (second-at t) ∙ seconds-at n (suc t) ∙ ap (λ k. runs (at true k)) (omega arith)

seconds-killed : (n : ℕ) → seconds n killed ≡ killed
seconds-killed zero = refl
seconds-killed (suc n) = refl

-- Without the handler.
early : (delay : ℕ) → delay < 5 → seconds delay (runs (at false 0)) ≡ runs (at false delay)
unfolding second
early zero h = refl
early (suc zero) h = refl
early (suc (suc zero)) h = refl
early (suc (suc (suc zero))) h = refl
early (suc (suc (suc (suc zero)))) h = refl
early (suc (suc (suc (suc (suc delay))))) h = absurd (omega arith)

too_late : (delay : ℕ) → 5 ≤ delay → seconds delay (runs (at false 0)) ≡ killed
unfolding second
too_late (suc (suc (suc (suc (suc delay))))) h = seconds-killed delay
too_late zero h = absurd (omega arith)
too_late (suc zero) h = absurd (omega arith)
too_late (suc (suc zero)) h = absurd (omega arith)
too_late (suc (suc (suc zero))) h = absurd (omega arith)
too_late (suc (suc (suc (suc zero)))) h = absurd (omega arith)

-- If the handler is installed less than five seconds after the alarm was set, then at every later
-- second the process still runs, the next alarm is set, and a line has been printed for every five
-- seconds since the alarm was first set. If sigaction(2) fails by then, the process exits; and if
-- it is called five seconds late or later, the signal has ended the process.
pub alrmsigdemo-ticks :
    (delay n late : ℕ) (sigaction : Bool)
    → delay < 5
    → 5 ≤ late
    → (seconds n (alrmsigdemo true delay) ≡ runs (at true (delay + n)))
      × (alrmsigdemo false delay ≡ exited)
      × (alrmsigdemo sigaction late ≡ killed)
unfolding alrmsigdemo
alrmsigdemo-ticks delay n late sigaction soon slow = (
  ap (λ p. seconds n (install true p)) (early delay soon) ∙ seconds-at n delay,
  ap (install false) (early delay soon),
  ap (install sigaction) (too_late late slow),
)
