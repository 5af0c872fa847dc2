-- ===== src/Process/Serve/Ends.antt =====
-- How the process of go/cmd/main.go ends.
use fce_extension_scaffold.Base.{Bytes, true, none, some, ◌≡◌, refl, ◌⊎◌, inl, inr, arith}
use fce_extension_scaffold.Process.Serve.{
  closed, failed, SignalPc, waiting, stopping, drained, timed_out, main_returned, os_exit, fatal,
  Process, launched, is_shut, is_stopped, Step, bind, cannot_bind, accept, answer, break_down,
  signal, close, drain, time_out, exit_zero, return_main, fatalf, Reach, here, next,
}

-- What the process has done where it ended in one of the three ways.
pub record Ended (p : Process) : Type 0 where
  pub by_main : p.exit ≡ some main_returned → (p.main ≡ closed) × (is_shut p.handler ≡ true)
  pub by_signal :
      p.exit ≡ some os_exit → ((p.handler ≡ drained) × (p.active ≡ 0)) ⊎ (p.handler ≡ timed_out)
  pub by_error : (e : Bytes) → p.exit ≡ some (fatal e) → p.main ≡ failed e

record Kept (p : Process) : Type 0 where
  ended : Ended p
  idle : p.handler ≡ drained → p.active ≡ 0
  shut : p.main ≡ closed → is_shut p.handler ≡ true

-- A process that goes on has not ended in any way.
goes_on : (p : Process) → p.exit ≡ none → Ended p
goes_on p e = record { by_main = λ h. cc; by_signal = λ h. cc; by_error = λ x h. cc }

stopped_cases : (h : SignalPc) → is_stopped h ≡ true → (h ≡ drained) ⊎ (h ≡ timed_out)
stopped_cases waiting e = cc
stopped_cases stopping e = cc
stopped_cases drained e = inl refl
stopped_cases timed_out e = inr refl

Step-Kept : {p q : Process} → Kept p → Step p q → Kept q
Step-Kept {p} k (bind x m h) = record { ended = goes_on _ x; idle = k.idle; shut = λ c. cc }
Step-Kept {p} k (cannot_bind e x m) = record { ended = goes_on _ x; idle = k.idle; shut = λ c. cc }
Step-Kept {p} k (accept x m h) = record { ended = goes_on _ x; idle = λ d. cc; shut = k.shut }
Step-Kept {p} k (answer n x a) = record {
  ended = goes_on _ x;
  idle = λ d. absurd (omega (arith, k.idle d));
  shut = k.shut;
}
Step-Kept {p} k (break_down e x m) = record { ended = goes_on _ x; idle = k.idle; shut = λ c. cc }
Step-Kept {p} k (signal x h) = record { ended = goes_on _ x; idle = λ d. cc; shut = λ c. refl }
Step-Kept {p} k (close x l s) = record { ended = goes_on _ x; idle = k.idle; shut = λ c. s }
Step-Kept {p} k (drain x h a) = record { ended = goes_on _ x; idle = λ d. a; shut = λ c. refl }
Step-Kept {p} k (time_out x h) = record { ended = goes_on _ x; idle = λ d. cc; shut = λ c. refl }
Step-Kept {p} k (exit_zero x s) = record {
  ended = record {
    by_main = λ e. cc;
    by_signal = λ e. elim (stopped_cases p.handler s) [ inl d ↦ inl (d, k.idle d) | inr t ↦ inr t ];
    by_error = λ e h. cc;
  };
  idle = k.idle;
  shut = k.shut;
}
Step-Kept {p} k (return_main x m) = record {
  ended = record { by_main = λ e. (m, k.shut m); by_signal = λ e. cc; by_error = λ e h. cc };
  idle = k.idle;
  shut = k.shut;
}
Step-Kept {p} k (fatalf error x m) = record {
  ended = record { by_main = λ e. cc; by_signal = λ e. cc; by_error = λ e h. ground arith };
  idle = k.idle;
  shut = k.shut;
}

Reach-Kept : {p q : Process} → Kept p → Reach p q → Kept q
Reach-Kept k here = k
Reach-Kept k (next r s) = Step-Kept (Reach-Kept k r) s

-- The process ends by the return of main only after Shutdown was called, by os.Exit only where Shutdown
-- has left no request that is being handled or has timed out, and by Fatalf with the error that
-- ListenAndServe returned.
pub Reach-Ended : {p : Process} → Reach launched p → Ended p
Reach-Ended r = (Reach-Kept start r).ended
  where
    start : Kept launched
    start = record { ended = goes_on launched refl; idle = λ d. refl; shut = λ c. cc }
