-- ===== src/Extension/Locking/Steps.antt =====
-- The steps of the goroutines of extension.go: `processSayHello`, `processSayGoodbye` and
-- `stateHandler` around `mu`. Decoding and encoding touch no shared state and are left out here.
use fce_extension_scaffold.Base.{
  ℕ, Bytes, Bool, true, false, Option, none, some, ◌≡◌, ◌==◌, if◌then◌else◌, List, [], ◌∷◌,
}
use fce_extension_scaffold.Extension.Types.{Extension, new, int_suc}
use fce_extension_scaffold.Extension.Handlers.{greeting_text, farewell_text}
use fce_extension_scaffold.Extension.Laws.{Effect, greet, farewell}

-- Where a goroutine stands, with its local variables.
pub data Pc : Type 0 where
  idle : Pc
  hello_waiting : (name : Bytes) → Pc  -- before mu.Lock()
  hello_locked : (name : Bytes) → Pc  -- before e.greetingCount++
  hello_counted : (name : Bytes) → Pc  -- before greetingNumber := e.greetingCount
  hello_numbered : (name : Bytes) (number : ℕ) → Pc  -- before e.lastGreeting = greeting
  hello_written : (name : Bytes) (number : ℕ) → Pc  -- before mu.Unlock()
  hello_done : (name : Bytes) (number : ℕ) → Pc
  goodbye_waiting : (name reason : Bytes) → Pc
  goodbye_locked : (name reason : Bytes) → Pc
  goodbye_counted : (name reason : Bytes) → Pc
  goodbye_numbered : (name reason : Bytes) (number : ℕ) → Pc
  goodbye_written : (name reason : Bytes) (number : ℕ) → Pc
  goodbye_done : (name reason : Bytes) (number : ℕ) → Pc
  state_waiting : Pc  -- before mu.RLock()
  state_locked : Pc  -- before the four fields are read
  state_read1 : ℕ → Pc
  state_read2 : ℕ → Bytes → Pc
  state_read3 : ℕ → Bytes → ℕ → Pc
  state_read4 : Extension → Pc  -- before mu.RUnlock()
  state_done : Extension → Pc

-- What a request begins with.
abbrev pub is_request : Pc → Bool
is_request (hello_waiting name) = true
is_request (goodbye_waiting name reason) = true
is_request state_waiting = true
is_request _ = false

-- mu.Lock() gives the lock to a goroutine that waits to write.
abbrev pub after_lock : Pc → Option Pc
after_lock (hello_waiting name) = some (hello_locked name)
after_lock (goodbye_waiting name reason) = some (goodbye_locked name reason)
after_lock _ = none

-- One statement between Lock and Unlock.
unfoldable pub after_statement : Pc → Extension → Option (Pc × Extension)
after_statement (hello_locked name) e =
    some (hello_counted name, record e { greeting_count = int_suc e.greeting_count })
after_statement (hello_counted name) e = some (hello_numbered name e.greeting_count, e)
after_statement (hello_numbered name n) e =
    some (hello_written name n, record e { last_greeting = greeting_text name })
after_statement (goodbye_locked name reason) e =
    some (goodbye_counted name reason, record e { farewell_count = int_suc e.farewell_count })
after_statement (goodbye_counted name reason) e =
    some (goodbye_numbered name reason e.farewell_count, e)
after_statement (goodbye_numbered name reason n) e =
    some (goodbye_written name reason n, record e { last_farewell = farewell_text name reason })
after_statement _ e = none

-- mu.Unlock(), with the effect that is then complete.
abbrev pub after_unlock : Pc → Option (Pc × Effect)
after_unlock (hello_written name n) = some (hello_done name n, greet name)
after_unlock (goodbye_written name reason n) =
    some (goodbye_done name reason n, farewell name reason)
after_unlock _ = none

-- One field read between RLock and RUnlock.
unfoldable pub after_read : Pc → Extension → Option Pc
after_read state_locked e = some (state_read1 e.greeting_count)
after_read (state_read1 a) e = some (state_read2 a e.last_greeting)
after_read (state_read2 a b) e = some (state_read3 a b e.farewell_count)
after_read (state_read3 a b c) e = some (
    state_read4 (record {
      greeting_count = a;
      last_greeting = b;
      farewell_count = c;
      last_farewell = e.last_farewell;
    }))
after_read _ e = none

-- The effects that are complete, the newest first, each with the goroutine that made it.
abbrev pub Log : Type 0
Log = List (ℕ × Effect)

-- The server: the fields, the RWMutex and the goroutines. The program has no field `log`.
pub record Server : Type 0 where
  pub ext : Extension
  pub writer : Option ℕ
  pub readers : ℕ → Bool
  pub pcs : ℕ → Pc
  pub log : Log

abbrev pub update : {A : Type 0} → (ℕ → A) → ℕ → A → ℕ → A
update f i a j = if i == j then a else f j

abbrev pub start : Server
start = record { ext = new; writer = none; readers = λ _. false; pcs = λ _. idle; log = [] }

-- A step of goroutine `i`.
pub data Step (s : Server) : Server → Type 0 where
  request :
      (i : ℕ) (pc : Pc)
      → s.pcs i ≡ idle
      → is_request pc ≡ true
      → Step s (record s { pcs = update s.pcs i pc })
  lock :
      (i : ℕ) (pc : Pc)
      → after_lock (s.pcs i) ≡ some pc
      → s.writer ≡ none
      → ((j : ℕ) → s.readers j ≡ false)
      → Step s (record s { pcs = update s.pcs i pc; writer = some i })
  statement :
      (i : ℕ) (pc : Pc) (e : Extension)
      → after_statement (s.pcs i) s.ext ≡ some (pc, e)
      → Step s (record s { pcs = update s.pcs i pc; ext = e })
  unlock :
      (i : ℕ) (pc : Pc) (x : Effect)
      → after_unlock (s.pcs i) ≡ some (pc, x)
      → Step s (record s { pcs = update s.pcs i pc; writer = none; log = (i, x) ∷ s.log })
  read_lock :
      (i : ℕ)
      → s.pcs i ≡ state_waiting
      → s.writer ≡ none
      → Step s (record s { pcs = update s.pcs i state_locked; readers = update s.readers i true })
  read :
      (i : ℕ) (pc : Pc)
      → after_read (s.pcs i) s.ext ≡ some pc
      → Step s (record s { pcs = update s.pcs i pc })
  read_unlock :
      (i : ℕ) (shown : Extension)
      → s.pcs i ≡ state_read4 shown
      → Step s
          (record s { pcs = update s.pcs i (state_done shown); readers = update s.readers i false })

pub data Reach : Server → Type 0 where
  here : Reach start
  next : {s t : Server} → Reach s → Step s t → Reach t
