-- ===== src/Extension/Locking/Own.antt =====
-- The greeting number of a SAY_HELLO request of extension.go belongs to the one effect that the
-- request's own goroutine has in the log.
use fce_extension_scaffold.Base.{
  ℕ, suc, ◌+◌, Bytes, some, ◌≡◌, ◌≢◌, ◌==◌, if◌then◌else◌, true, Bool-cases, inl, inr, ==_iff, ap,
  ◌∙◌, subst, [], ◌∷◌, arith, refl,
}
use fce_extension_scaffold.Extension.Types.{Extension}
use fce_extension_scaffold.Extension.Laws.{Effect, greet}
use fce_extension_scaffold.Extension.Locking.Steps.{
  Log, Pc, idle, hello_waiting, hello_locked, hello_counted, hello_numbered, hello_written,
  hello_done, goodbye_waiting, goodbye_locked, goodbye_counted, goodbye_numbered, goodbye_written,
  goodbye_done, state_locked, state_read1, state_read2, state_read3, state_done, is_request,
  after_lock, after_statement, after_unlock, after_read, Server, update, Step, request, lock,
  statement, unlock, read_lock, read, read_unlock, Reach, here, next,
}
use fce_extension_scaffold.Extension.Locking.Invariant.{state_of, Earlier, GoroutineOk}
use fce_extension_scaffold.Extension.Locking.Theorems.{Reach-Inv}

-- How many effects of a log are a goroutine's.
abbrev pub own_effects : ℕ → Log → ℕ
own_effects i [] = 0
own_effects i ((j, x) ∷ log) = (if i == j then 1 else 0) + own_effects i log

-- How many effects a goroutine has made at its place.
abbrev effects_at : Pc → ℕ
effects_at (hello_done name n) = 1
effects_at (goodbye_done name reason n) = 1
effects_at _ = 0

-- Every effect of the log is counted once for the goroutine that made it.
abbrev Owned : Log → (ℕ → Pc) → Type 0
Owned log pcs = (j : ℕ) → own_effects j log ≡ effects_at (pcs j)

module _ (log : Log) (pcs : ℕ → Pc) (i : ℕ) (pc : Pc) where
  Owned-update :
      own_effects i log ≡ effects_at pc
      → ((j : ℕ) → i ≢ j → own_effects j log ≡ effects_at (pcs j))
      → Owned log (update pcs i pc)
  Owned-update mine others j = elim (Bool-cases (i == j)) [
    | inl same ↦
        let eq : i ≡ j = (==_iff i j).0 same in
        subst (λ k. own_effects k log ≡ effects_at (update pcs i pc k)) eq (ground (arith, mine))
    | inr ne ↦ ground (arith, others j (λ e. ground arith))
  ]

  -- A step that makes no effect.
  Owned-still : Owned log pcs → effects_at (pcs i) ≡ effects_at pc → Owned log (update pcs i pc)
  Owned-still owned same = Owned-update (owned i ∙ same) (λ j ne. owned j)

request-still : (pc : Pc) → is_request pc ≡ true → effects_at idle ≡ effects_at pc
request-still (hello_done name n) h = cc
request-still (goodbye_done name reason n) h = cc
request-still _ h = refl

lock-still : (p : Pc) {pc : Pc} → after_lock p ≡ some pc → effects_at p ≡ effects_at pc
lock-still (hello_waiting name) h = ground arith
lock-still (goodbye_waiting name reason) h = ground arith
lock-still _ h = cc

statement-still :
    (p : Pc) (e : Extension) {pc : Pc} {e' : Extension}
    → after_statement p e ≡ some (pc, e')
    → effects_at p ≡ effects_at pc
unfolding after_statement
statement-still (hello_locked name) e h = ground arith
statement-still (hello_counted name) e h = ground arith
statement-still (hello_numbered name n) e h = ground arith
statement-still (goodbye_locked name reason) e h = ground arith
statement-still (goodbye_counted name reason) e h = ground arith
statement-still (goodbye_numbered name reason n) e h = ground arith
statement-still _ e h = cc

read-still :
    (p : Pc) (e : Extension) {pc : Pc} → after_read p e ≡ some pc → effects_at p ≡ effects_at pc
unfolding after_read
read-still state_locked e h = ground arith
read-still (state_read1 a) e h = ground arith
read-still (state_read2 a b) e h = ground arith
read-still (state_read3 a b c) e h = ground arith
read-still _ e h = cc

unlock-counts :
    (p : Pc) {pc : Pc} {x : Effect}
    → after_unlock p ≡ some (pc, x)
    → effects_at pc ≡ suc (effects_at p)
unlock-counts (hello_written name n) h = ground arith
unlock-counts (goodbye_written name reason n) h = ground arith
unlock-counts _ h = cc

Step-Owned : {s t : Server} → Step s t → Owned s.log s.pcs → Owned t.log t.pcs
Step-Owned {s} (request i pc was q) owned =
    Owned-still s.log s.pcs i pc owned (ap effects_at was ∙ request-still pc q)
Step-Owned {s} (lock i pc h q k) owned = Owned-still s.log s.pcs i pc owned (lock-still (s.pcs i) h)
Step-Owned {s} (statement i pc e h) owned =
    Owned-still s.log s.pcs i pc owned (statement-still (s.pcs i) s.ext h)
Step-Owned {s} (unlock i pc x h) owned =
    Owned-update ((i, x) ∷ s.log) s.pcs i pc
      (ground (arith, owned i, unlock-counts (s.pcs i) h, ==_iff i i))
      (λ j ne. ground (arith, owned j, ==_iff j i))
Step-Owned {s} (read_lock i was free) owned =
    Owned-still s.log s.pcs i state_locked owned (ap effects_at was)
Step-Owned {s} (read i pc h) owned =
    Owned-still s.log s.pcs i pc owned (read-still (s.pcs i) s.ext h)
Step-Owned {s} (read_unlock i shown was) owned =
    Owned-still s.log s.pcs i (state_done shown) owned (ap effects_at was)

Reach-Owned : {s : Server} → Reach s → Owned s.log s.pcs
Reach-Owned here = λ j. refl
Reach-Owned (next r st) = Step-Owned st (Reach-Owned r)

-- In every interleaving, a SAY_HELLO request that has been answered has made exactly one effect of the
-- log, which is the greeting of its name, and the number that it is given is the greeting counter
-- right after this effect in the order of the log.
pub hello_done-Earlier :
    {s : Server} (i : ℕ) {name : Bytes} {n : ℕ}
    → Reach s
    → s.pcs i ≡ hello_done name n
    → (own_effects i s.log ≡ 1)
      × (xs : Log) × Earlier ((i, greet name) ∷ xs) s.log
      × (n ≡ (state_of ((i, greet name) ∷ xs)).greeting_count)
hello_done-Earlier {s} i {name} {n} r at =
    let (xs, was, number) =
      (subst (λ p. GoroutineOk s.writer (s.readers i) s.log s.ext i p) at
        ((Reach-Inv r).goroutines i)).2 in
    (Reach-Owned r i ∙ ap effects_at at, xs, was, number)
