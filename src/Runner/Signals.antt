-- ===== src/Runner/Signals.antt =====
-- What the signals of a run do, src/runner.rs.
use bench_cli.Base.{ℕ, zero, suc, ◌≡◌, refl, ap, true, false, List, [], ◌∷◌, replicate}
use bench_cli.Runner.{StopFlag, SignalAction, drain, hard_exit, new_flag, stop, on_signal}

-- What comes in: a stop from within the run, or a real signal.
pub data Event : Type 0 where
  internal_stop signal : Event

-- The actions of the signals, and the flag after the events.
unfoldable pub handle : List Event → StopFlag → List SignalAction × StopFlag
handle [] f = ([], f)
handle (internal_stop ∷ es) f = handle es (stop f)
handle (signal ∷ es) f = let r = on_signal f in let rest = handle es (r.1) in (r.0 ∷ rest.0, rest.1)

abbrev pub signals : List Event → ℕ
signals [] = 0
signals (internal_stop ∷ es) = signals es
signals (signal ∷ es) = suc (signals es)

-- The first one drains and each later one exits.
abbrev pub answers : ℕ → List SignalAction
answers zero = []
answers (suc n) = drain ∷ replicate n hard_exit

handle-signaled :
    (es : List Event) (f : StopFlag)
    → f.signaled ≡ true
    → (handle es f).0 ≡ replicate (signals es) hard_exit
unfolding handle stop on_signal
handle-signaled [] f h = refl
handle-signaled (internal_stop ∷ es) f h = handle-signaled es (record f { inner = true }) h
handle-signaled (signal ∷ es) f h =
    rw h (
      ap (λ xs. hard_exit ∷ xs)
        (handle-signaled es (record { inner = true; signaled = true }) refl))

handle-quiet :
    (es : List Event) (f : StopFlag) → f.signaled ≡ false → (handle es f).0 ≡ answers (signals es)
unfolding handle stop on_signal
handle-quiet [] f h = refl
handle-quiet (internal_stop ∷ es) f h = handle-quiet es (record f { inner = true }) h
handle-quiet (signal ∷ es) f h =
    rw h
      (ap (λ xs. drain ∷ xs) (handle-signaled es (record { inner = true; signaled = true }) refl))

-- However stops from within come between them, the first real signal of a run drains, and every
-- later one exits at once.
pub handle-answers : (es : List Event) → (handle es new_flag).0 ≡ answers (signals es)
handle-answers es = handle-quiet es new_flag refl
