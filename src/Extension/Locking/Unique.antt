-- ===== src/Extension/Locking/Unique.antt =====
-- No two SAY_HELLO requests of extension.go are given the same number.
use fce_extension_scaffold.Base.{
  ℕ, ◌%◌, ◌^◌, ◌≤◌, ◌<◌, Bytes, Bool, true, Option, none, some, ◌≡◌, ◌≢◌, refl, ◌==◌, List, [], ◌∷◌,
  arith, Bool-cases, inl, inr, ==_iff, sym, ap, ◌∙◌, subst, length,
}
use fce_extension_scaffold.Extension.Types.{Extension}
use fce_extension_scaffold.Extension.Laws.{Effect, greet, farewell, greeted}
use fce_extension_scaffold.Extension.Locking.Steps.{
  Log, Pc, idle, hello_waiting, hello_locked, hello_counted, hello_numbered, hello_written,
  hello_done, goodbye_waiting, goodbye_locked, goodbye_counted, goodbye_numbered, goodbye_written,
  state_locked, state_read1, state_read2, state_read3, state_done, is_request, after_lock,
  after_statement, after_unlock, after_read, Server, update, Step, request, lock, statement, unlock,
  read_lock, read, read_unlock, Reach, here, next,
}
use fce_extension_scaffold.Extension.Locking.Invariant.{state_of, Earlier, now, before, GoroutineOk}
use fce_extension_scaffold.Extension.Locking.Theorems.{Reach-Inv}
use fce_extension_scaffold.Extension.Locking.Own.{hello_done-Earlier}

-- The number that a request has been answered with.
abbrev pub number_of : Pc → Option ℕ
number_of (hello_done name n) = some n
number_of _ = none

-- The effects of a log, without the goroutines.
abbrev pub effects : Log → List Effect
effects [] = []
effects ((i, x) ∷ log) = x ∷ effects log

-- How many greetings a log has.
abbrev greetings : Log → ℕ
greetings log = length (greeted (effects log))

state_of-greetings : (log : Log) → (state_of log).greeting_count ≡ greetings log % 2 ^ 64
state_of-greetings [] = omega arith
state_of-greetings ((i, greet name) ∷ log) = omega (arith, state_of-greetings log)
state_of-greetings ((i, farewell name reason) ∷ log) = state_of-greetings log

Earlier-greetings : {xs log : Log} → Earlier xs log → greetings xs ≤ greetings log
Earlier-greetings now = omega arith
Earlier-greetings (before {x = (i, greet name)} was) = omega (arith, Earlier-greetings was)
Earlier-greetings (before {x = (i, farewell name reason)} was) = Earlier-greetings was

number-cases : (pc : Pc) {n : ℕ} → number_of pc ≡ some n → (name : Bytes) × (pc ≡ hello_done name n)
number-cases (hello_done name m) h = (name, ground arith)
number-cases idle h = cc
number-cases _ h = cc

-- A number is at most the greetings so far.
number-le :
    {s : Server} (i n : ℕ)
    → Reach s
    → greetings s.log < 2 ^ 64
    → number_of (s.pcs i) ≡ some n
    → n ≤ greetings s.log
number-le {s} i n r few h =
    let (name, at) = number-cases (s.pcs i) h in
    let (one, xs, was, e) = hello_done-Earlier i r at in
    omega (arith, Earlier-greetings was, state_of-greetings ((i, greet name) ∷ xs))

abbrev AllDiffer : (ℕ → Pc) → Type 0
AllDiffer pcs = (i j n : ℕ) → i ≢ j → number_of (pcs i) ≡ some n → number_of (pcs j) ≢ some n

-- One goroutine moves, and a number that it gets is no other goroutine's.
moved :
    (pcs : ℕ → Pc) (i : ℕ) (pc : Pc)
    → AllDiffer pcs
    → ((j n : ℕ) → i ≢ j → number_of pc ≡ some n → number_of (pcs j) ≢ some n)
    → AllDiffer (update pcs i pc)
moved pcs i pc differ new a b n ne ha hb = elim (Bool-cases (i == a)) [
  | inl ia ↦ elim (Bool-cases (i == b)) [
    | inl ib ↦ ground (arith, ==_iff i a, ==_iff i b)
    | inr ib ↦ ground (arith, new b n, ==_iff i a)
  ]
  | inr ia ↦ elim (Bool-cases (i == b)) [
    | inl ib ↦ ground (arith, new a n, ==_iff i b)
    | inr ib ↦ ground (arith, differ a b n)
  ]
]

-- A goroutine that moves without getting a number.
moved_unnumbered :
    (pcs : ℕ → Pc) (i : ℕ) (pc : Pc)
    → AllDiffer pcs
    → number_of pc ≡ none
    → AllDiffer (update pcs i pc)
moved_unnumbered pcs i pc differ h = moved pcs i pc differ (λ j n ne k. cc)

request-unnumbered : (pc : Pc) → is_request pc ≡ true → number_of pc ≡ none
request-unnumbered (hello_done name n) h = cc
request-unnumbered idle h = refl
request-unnumbered _ h = refl

lock-unnumbered : (p : Pc) {pc : Pc} → after_lock p ≡ some pc → number_of pc ≡ none
lock-unnumbered (hello_waiting name) h = ground arith
lock-unnumbered (goodbye_waiting name reason) h = ground arith
lock-unnumbered _ h = cc

statement-unnumbered :
    (p : Pc) (e : Extension) {pc : Pc} {e' : Extension}
    → after_statement p e ≡ some (pc, e')
    → number_of pc ≡ none
unfolding after_statement
statement-unnumbered (hello_locked name) e h = ground arith
statement-unnumbered (hello_counted name) e h = ground arith
statement-unnumbered (hello_numbered name n) e h = ground arith
statement-unnumbered (goodbye_locked name reason) e h = ground arith
statement-unnumbered (goodbye_counted name reason) e h = ground arith
statement-unnumbered (goodbye_numbered name reason n) e h = ground arith
statement-unnumbered _ e h = cc

read-unnumbered :
    (p : Pc) (e : Extension) {pc : Pc} → after_read p e ≡ some pc → number_of pc ≡ none
unfolding after_read
read-unnumbered state_locked e h = ground arith
read-unnumbered (state_read1 a) e h = ground arith
read-unnumbered (state_read2 a b) e h = ground arith
read-unnumbered (state_read3 a b c) e h = ground arith
read-unnumbered _ e h = cc

-- A request that ends under the lock is given one number more than the greetings before it.
unlock-number :
    (w : Option ℕ) (r : Bool) (log : Log) (e : Extension) (i : ℕ) (p : Pc) {pc : Pc} {x : Effect}
    (n : ℕ)
    → greetings ((i, x) ∷ log) < 2 ^ 64
    → GoroutineOk w r log e i p
    → after_unlock p ≡ some (pc, x)
    → number_of pc ≡ some n
    → greetings log < n
unlock-number w r log e i (hello_written name m) {pc} {x} n few own h k =
    let same : x ≡ greet name = ground arith in
    let few' : greetings ((i, greet name) ∷ log) < 2 ^ 64 =
      subst (λ y. greetings ((i, y) ∷ log) < 2 ^ 64) same few in
    let number : n ≡ m = ground arith in omega (arith, state_of-greetings log, own.3, number)
unlock-number w r log e i (goodbye_written name reason m) n few own h k = ground arith
unlock-number w r log e i _ n few own h k = cc

greetings_mono : (i : ℕ) (x : Effect) (log : Log) → greetings log ≤ greetings ((i, x) ∷ log)
greetings_mono i (greet name) log = omega arith
greetings_mono i (farewell name reason) log = omega arith

Step-log : {s t : Server} → Step s t → greetings s.log ≤ greetings t.log
Step-log (request i pc h q) = omega arith
Step-log (lock i pc h q k) = omega arith
Step-log (statement i pc e h) = omega arith
Step-log {s} (unlock i pc x h) = greetings_mono i x s.log
Step-log (read_lock i h q) = omega arith
Step-log (read i pc h) = omega arith
Step-log (read_unlock i shown h) = omega arith

Step-AllDiffer :
    {s t : Server}
    → Reach s
    → greetings t.log < 2 ^ 64
    → AllDiffer s.pcs
    → Step s t
    → AllDiffer t.pcs
Step-AllDiffer {s} r few d (request i pc h q) =
    moved_unnumbered s.pcs i pc d (request-unnumbered pc q)
Step-AllDiffer {s} r few d (lock i pc h q k) =
    moved_unnumbered s.pcs i pc d (lock-unnumbered (s.pcs i) h)
Step-AllDiffer {s} r few d (statement i pc e h) =
    moved_unnumbered s.pcs i pc d (statement-unnumbered (s.pcs i) s.ext h)
Step-AllDiffer {s} r few d (unlock i pc x h) = moved s.pcs i pc d (λ j n ne k q. omega (
  arith,
  unlock-number s.writer (s.readers i) s.log s.ext i (s.pcs i) n few ((Reach-Inv r).goroutines i) h
      k,
  number-le j n r (omega (arith, greetings_mono i x s.log)) q,
))
Step-AllDiffer {s} r few d (read_lock i h q) = moved_unnumbered s.pcs i state_locked d refl
Step-AllDiffer {s} r few d (read i pc h) =
    moved_unnumbered s.pcs i pc d (read-unnumbered (s.pcs i) s.ext h)
Step-AllDiffer {s} r few d (read_unlock i shown h) =
    moved_unnumbered s.pcs i (state_done shown) d refl

Reach-AllDiffer : {s : Server} → Reach s → greetings s.log < 2 ^ 64 → AllDiffer s.pcs
Reach-AllDiffer here few = λ i j n ne h. cc
Reach-AllDiffer (next r st) few =
    Step-AllDiffer r few (Reach-AllDiffer r (omega (arith, Step-log st))) st

-- In every interleaving, as long as fewer than 2^64 greetings are complete, no two SAY_HELLO requests
-- are answered with the same greeting number.
pub greeting_numbers-differ :
    {s : Server} (i j : ℕ) {name other : Bytes} {n m : ℕ}
    → Reach s
    → length (greeted (effects s.log)) < 2 ^ 64
    → i ≢ j
    → s.pcs i ≡ hello_done name n
    → s.pcs j ≡ hello_done other m
    → n ≢ m
greeting_numbers-differ {s} i j {name} {other} {n} {m} r few ne hi hj e =
    Reach-AllDiffer r few i j n ne (ap number_of hi) (ap number_of hj ∙ ap some (sym e))
