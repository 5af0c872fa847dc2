-- ===== src/Process/Serve.antt =====
-- go/cmd/main.go as two goroutines: that of main, which serves, and that which waits for a signal. The
-- server is net/http's: Shutdown closes the listener, makes ListenAndServe return ErrServerClosed, and
-- itself returns when no request is being handled or when its context has timed out.
pub mod Ends
pub mod Shutdown
use fce_extension_scaffold.Base.{ℕ, suc, Bytes, Bool, true, false, Option, none, some, ◌≡◌}

pub data MainPc : Type 0 where
  starting : MainPc  -- in ListenAndServe, before the port is bound
  serving : MainPc
  closed : MainPc  -- ListenAndServe has returned ErrServerClosed
  failed : (error : Bytes) → MainPc  -- it has returned another error

pub data SignalPc : Type 0 where
  waiting : SignalPc  -- before <-sigChan has a signal
  stopping : SignalPc  -- in Shutdown
  drained : SignalPc  -- Shutdown has returned nil
  timed_out : SignalPc  -- it has returned the error of its context

-- What ends the process.
pub data Exit : Type 0 where
  main_returned : Exit
  os_exit : Exit  -- os.Exit(0) after Shutdown
  fatal : (error : Bytes) → Exit  -- logger.Fatalf

pub record Process : Type 0 where
  pub main : MainPc
  pub handler : SignalPc
  pub active : ℕ  -- the requests that are being handled
  pub exit : Option Exit

abbrev pub launched : Process
launched = record { main = starting; handler = waiting; active = 0; exit = none }

-- ListenAndServe has not returned.
abbrev pub is_listening : MainPc → Bool
is_listening starting = true
is_listening serving = true
is_listening closed = false
is_listening (failed error) = false

-- Shutdown has been called.
abbrev pub is_shut : SignalPc → Bool
is_shut waiting = false
is_shut stopping = true
is_shut drained = true
is_shut timed_out = true

-- Shutdown has returned.
abbrev pub is_stopped : SignalPc → Bool
is_stopped waiting = false
is_stopped stopping = false
is_stopped drained = true
is_stopped timed_out = true

-- A step of one goroutine, or of the server; none is made once the process has ended.
pub data Step (p : Process) : Process → Type 0 where
  bind :
      p.exit ≡ none → p.main ≡ starting → p.handler ≡ waiting → Step p (record p { main = serving })
  cannot_bind :
      (error : Bytes)
      → p.exit ≡ none
      → p.main ≡ starting
      → Step p (record p { main = failed error })
  accept :
      p.exit ≡ none
      → p.main ≡ serving
      → p.handler ≡ waiting
      → Step p (record p { active = suc p.active })
  answer : (n : ℕ) → p.exit ≡ none → p.active ≡ suc n → Step p (record p { active = n })
  -- the listener fails for good
  break_down :
      (error : Bytes) → p.exit ≡ none → p.main ≡ serving → Step p (record p { main = failed error })
  signal : p.exit ≡ none → p.handler ≡ waiting → Step p (record p { handler = stopping })
  close :
      p.exit ≡ none
      → is_listening p.main ≡ true
      → is_shut p.handler ≡ true
      → Step p (record p { main = closed })
  drain :
      p.exit ≡ none → p.handler ≡ stopping → p.active ≡ 0 → Step p (record p { handler = drained })
  time_out : p.exit ≡ none → p.handler ≡ stopping → Step p (record p { handler = timed_out })
  exit_zero :
      p.exit ≡ none → is_stopped p.handler ≡ true → Step p (record p { exit = some os_exit })
  return_main : p.exit ≡ none → p.main ≡ closed → Step p (record p { exit = some main_returned })
  fatalf :
      (error : Bytes)
      → p.exit ≡ none
      → p.main ≡ failed error
      → Step p (record p { exit = some (fatal error) })

-- The states that a run from `p` comes through.
pub data Reach (p : Process) : Process → Type 0 where
  here : Reach p p
  next : {q r : Process} → Reach p q → Step q r → Reach p r
