-- ===== src/Process/Serve/Shutdown.antt =====
-- The return of main does not wait for Shutdown.
use fce_extension_scaffold.Base.{ℕ, zero, suc, none, some, ◌≡◌, refl}
use fce_extension_scaffold.Process.Serve.{
  closed, serving, waiting, stopping, main_returned, Process, launched, bind, accept, signal, close,
  return_main, Reach, here, next,
}

-- The server with `n` requests that are being handled.
abbrev busy : ℕ → Process
busy n = record { main = serving; handler = waiting; active = n; exit = none }

Reach-busy : (n : ℕ) → Reach launched (busy n)
Reach-busy zero = next here (bind refl refl refl)
Reach-busy (suc n) = next (Reach-busy n) (accept refl refl refl)

-- However many requests are being handled when the signal comes, the process can end with all of them
-- unanswered: main returns while Shutdown still waits for them, and its context has not timed out.
pub shutdown_cuts_requests :
    (n : ℕ)
    → (p : Process) × Reach launched p
      × (p.exit ≡ some main_returned)
      × (p.active ≡ n)
      × (p.handler ≡ stopping)
shutdown_cuts_requests n = (
  record { main = closed; handler = stopping; active = n; exit = some main_returned },
  next (next (next (Reach-busy n) (signal refl refl)) (close refl refl refl))
      (return_main refl refl),
  refl,
  refl,
  refl,
)
