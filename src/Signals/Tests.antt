-- ===== src/Signals/Tests.antt =====
-- The handler after two seconds, and fifteen seconds since the alarm.
use c_basics.Prelude.{◌≡◌, refl, true}
use c_basics.Signals.Alarm.{runs, killed, seconds, alrmsigdemo}

three_lines :
    seconds 13 (alrmsigdemo true 2) ≡ runs (record { alarm = 5; handled = true; lines = 3 })
unfolding alrmsigdemo
three_lines = refl

killed_late : alrmsigdemo true 7 ≡ killed
unfolding alrmsigdemo
killed_late = refl
