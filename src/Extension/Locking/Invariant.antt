-- ===== src/Extension/Locking/Invariant.antt =====
-- What holds of the goroutines of extension.go between any two steps.
use fce_extension_scaffold.Base.{ℕ, Bool, true, false, Option, none, some, ◌≡◌, ◌≢◌, [], ◌∷◌, arith}
use fce_extension_scaffold.Extension.Types.{Extension, new, int_suc}
use fce_extension_scaffold.Extension.Laws.{Effect, greet, farewell, apply}
use fce_extension_scaffold.Extension.Locking.Steps.{
  Log, Pc, idle, hello_waiting, hello_locked, hello_counted, hello_numbered, hello_written,
  hello_done, goodbye_waiting, goodbye_locked, goodbye_counted, goodbye_numbered, goodbye_written,
  goodbye_done, state_waiting, state_locked, state_read1, state_read2, state_read3, state_read4,
  state_done,
}

-- The state after the effects of a log, the newest first.
abbrev pub state_of : Log → Extension
state_of [] = new
state_of ((i, x) ∷ xs) = apply x (state_of xs)

-- `xs` was the log at some time before, or is the log now.
pub data Earlier (xs : Log) : Log → Type 0 where
  now : Earlier xs xs
  before : {x : ℕ × Effect} {log : Log} → Earlier xs log → Earlier xs (x ∷ log)

-- What a goroutine's place says of the lock, its read lock, the log and the fields.
abbrev pub GoroutineOk : Option ℕ → Bool → Log → Extension → ℕ → Pc → Type 0
GoroutineOk w r log e j idle = (r ≡ false) × (w ≢ some j)
GoroutineOk w r log e j (hello_waiting name) = (r ≡ false) × (w ≢ some j)
GoroutineOk w r log e j (hello_locked name) = (r ≡ false) × (w ≡ some j) × (e ≡ state_of log)
GoroutineOk w r log e j (hello_counted name) =
    (r ≡ false)
    × (w ≡ some j)
    × (e ≡ record (state_of log) { greeting_count = int_suc (state_of log).greeting_count })
GoroutineOk w r log e j (hello_numbered name n) =
    (r ≡ false)
    × (w ≡ some j)
    × (e ≡ record (state_of log) { greeting_count = int_suc (state_of log).greeting_count })
    × (n ≡ int_suc (state_of log).greeting_count)
GoroutineOk w r log e j (hello_written name n) =
    (r ≡ false)
    × (w ≡ some j)
    × (e ≡ apply (greet name) (state_of log))
    × (n ≡ int_suc (state_of log).greeting_count)
GoroutineOk w r log e j (hello_done name n) =
    (r ≡ false)
    × (w ≢ some j)
    × ((xs : Log) × Earlier ((j, greet name) ∷ xs) log
        × (n ≡ (state_of ((j, greet name) ∷ xs)).greeting_count))
GoroutineOk w r log e j (goodbye_waiting name reason) = (r ≡ false) × (w ≢ some j)
GoroutineOk w r log e j (goodbye_locked name reason) =
    (r ≡ false) × (w ≡ some j) × (e ≡ state_of log)
GoroutineOk w r log e j (goodbye_counted name reason) =
    (r ≡ false)
    × (w ≡ some j)
    × (e ≡ record (state_of log) { farewell_count = int_suc (state_of log).farewell_count })
GoroutineOk w r log e j (goodbye_numbered name reason n) =
    (r ≡ false)
    × (w ≡ some j)
    × (e ≡ record (state_of log) { farewell_count = int_suc (state_of log).farewell_count })
    × (n ≡ int_suc (state_of log).farewell_count)
GoroutineOk w r log e j (goodbye_written name reason n) =
    (r ≡ false)
    × (w ≡ some j)
    × (e ≡ apply (farewell name reason) (state_of log))
    × (n ≡ int_suc (state_of log).farewell_count)
GoroutineOk w r log e j (goodbye_done name reason n) =
    (r ≡ false)
    × (w ≢ some j)
    × ((xs : Log) × Earlier ((j, farewell name reason) ∷ xs) log
        × (n ≡ (state_of ((j, farewell name reason) ∷ xs)).farewell_count))
GoroutineOk w r log e j state_waiting = (r ≡ false) × (w ≢ some j)
GoroutineOk w r log e j state_locked = (r ≡ true) × (w ≡ none)
GoroutineOk w r log e j (state_read1 a) = (r ≡ true) × (w ≡ none) × (a ≡ e.greeting_count)
GoroutineOk w r log e j (state_read2 a b) =
    (r ≡ true) × (w ≡ none) × (a ≡ e.greeting_count) × (b ≡ e.last_greeting)
GoroutineOk w r log e j (state_read3 a b c) =
    (r ≡ true)
    × (w ≡ none)
    × (a ≡ e.greeting_count)
    × (b ≡ e.last_greeting)
    × (c ≡ e.farewell_count)
GoroutineOk w r log e j (state_read4 s) = (r ≡ true) × (w ≡ none) × (s ≡ e)
GoroutineOk w r log e j (state_done s) =
    (r ≡ false) × (w ≢ some j) × ((xs : Log) × Earlier xs log × (s ≡ state_of xs))

-- Taking the lock, where nobody reads, leaves the other goroutines alone.
pub lock_others :
    (i j : ℕ) (r : Bool) (log : Log) (e : Extension) (pc : Pc)
    → i ≢ j
    → r ≡ false
    → GoroutineOk none r log e j pc
    → GoroutineOk (some i) r log e j pc
lock_others i j r log e (hello_done name n) ne f ok = (f, ground arith, ok.2)
lock_others i j r log e (goodbye_done name reason n) ne f ok = (f, ground arith, ok.2)
lock_others i j r log e (state_done s) ne f ok = (f, ground arith, ok.2)
lock_others i j r log e _ ne f ok = ground arith

-- So does a statement under the lock.
pub statement_others :
    (i j : ℕ) (r : Bool) (log : Log) (e e' : Extension) (pc : Pc)
    → i ≢ j
    → GoroutineOk (some i) r log e j pc
    → GoroutineOk (some i) r log e' j pc
statement_others i j r log e e' (hello_done name n) ne ok = ok
statement_others i j r log e e' (goodbye_done name reason n) ne ok = ok
statement_others i j r log e e' (state_done s) ne ok = ok
statement_others i j r log e e' _ ne ok = ground arith

-- So does giving the lock back, with one more effect in the log.
pub unlock_others :
    (i j : ℕ) (r : Bool) (log : Log) (x : ℕ × Effect) (e : Extension) (pc : Pc)
    → i ≢ j
    → GoroutineOk (some i) r log e j pc
    → GoroutineOk none r (x ∷ log) e j pc
unlock_others i j r log x e (hello_done name n) ne (f, g, (xs, was, k)) =
    (f, ground arith, (xs, before was, k))
unlock_others i j r log x e (goodbye_done name reason n) ne (f, g, (xs, was, k)) =
    (f, ground arith, (xs, before was, k))
unlock_others i j r log x e (state_done s) ne (f, g, (xs, was, k)) =
    (f, ground arith, (xs, before was, k))
unlock_others i j r log x e _ ne ok = ground arith
