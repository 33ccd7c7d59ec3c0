-- ===== src/Signals/Alarm.antt =====
-- `sigalrm` and `alrmsigdemo` of AlarmSignal.c, second by second.
use c_basics.Prelude.{ℕ, zero, suc, ◌+◌, ◌-◌, Bool, true, false, ◌==◌, if◌then◌else◌}

-- The seconds until SIGALRM (0 if no alarm is set), whether the handler is installed, and how many
-- lines have been printed.
pub record State : Type 0 where
  pub alarm : ℕ
  pub handled : Bool
  pub lines : ℕ

-- The process runs, or has been ended by SIGALRM, or by `exit(EXIT_FAILURE)`.
pub data Process : Type 0 where
  runs : State → Process
  killed : Process
  exited : Process

-- The handler.
unfoldable pub sigalrm : State → State
sigalrm s = record s { alarm = 5; lines = s.lines + 1 }

-- A second passes. Where SIGALRM comes without a handler it ends the process, as signal(7) says.
unfoldable pub second : State → Process
unfolding sigalrm
second s =
    if s.alarm == 0
    then runs s
    else if s.alarm == 1
    then (if s.handled then runs (sigalrm (record s { alarm = 0 })) else killed)
    else runs (record s { alarm = s.alarm - 1 })

abbrev pub seconds : ℕ → Process → Process
seconds zero p = p
seconds (suc n) killed = killed
seconds (suc n) exited = exited
seconds (suc n) (runs s) = seconds n (second s)

-- sigaction(2), true for success.
unfoldable pub install : Bool → Process → Process
install sigaction killed = killed
install sigaction exited = exited
install true (runs s) = runs (record s { handled = true })
install false (runs s) = exited

-- `delay` seconds pass between alarm(2) and sigaction(2). The endless loop on pause(2) that follows
-- does nothing.
unfoldable pub alrmsigdemo : Bool → ℕ → Process
unfolding second install
alrmsigdemo sigaction delay =
    install sigaction (seconds delay (runs (record { alarm = 5; handled = false; lines = 0 })))
