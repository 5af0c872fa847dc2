-- ===== src/Extension/Locking/Theorems.antt =====
-- Every reachable server of extension.go's goroutines keeps the invariant, and what follows from it.
use fce_extension_scaffold.Base.{
  ℕ, Bool, true, false, Option, none, some, ◌≡◌, ◌≢◌, refl, ◌==◌, ◌∷◌, arith, Bool-cases, inl, inr,
  ==_iff, ◌⊎◌, sym, ◌∙◌, subst,
}
use mathlib.Core.Option.{some-injective}
use fce_extension_scaffold.Extension.Types.{Extension}
use fce_extension_scaffold.Extension.Laws.{Effect, apply}
use fce_extension_scaffold.Extension.Locking.Steps.{
  Log, Pc, idle, hello_waiting, hello_locked, hello_counted, hello_numbered, hello_written,
  hello_done, goodbye_waiting, goodbye_locked, goodbye_counted, goodbye_numbered, goodbye_written,
  goodbye_done, state_waiting, state_locked, state_read1, state_read2, state_read3, state_read4,
  state_done, is_request, after_lock, after_statement, after_unlock, after_read, Server, update,
  Step, request, lock, statement, unlock, read_lock, read, read_unlock, Reach, here, next,
}
use fce_extension_scaffold.Extension.Locking.Invariant.{
  state_of, Earlier, now, before, GoroutineOk, lock_others, statement_others, unlock_others,
}

abbrev pub Ok : Server → ℕ → Type 0
Ok s j = GoroutineOk s.writer (s.readers j) s.log s.ext j (s.pcs j)

-- Each goroutine is in order, and while nobody writes the fields show the log.
pub record Inv (s : Server) : Type 0 where
  pub goroutines : (j : ℕ) → Ok s j
  pub quiet : s.writer ≡ none → s.ext ≡ state_of s.log

module _ (w : Option ℕ) (r : Bool) (log : Log) (e : Extension) (i : ℕ) where
  request_own :
      (pc : Pc) → is_request pc ≡ true → GoroutineOk w r log e i idle → GoroutineOk w r log e i pc
  request_own (hello_waiting name) q ok = ok
  request_own (goodbye_waiting name reason) q ok = ok
  request_own state_waiting q ok = ok
  request_own _ q ok = cc

  lock_own :
      (pc pc' : Pc)
      → after_lock pc ≡ some pc'
      → e ≡ state_of log
      → GoroutineOk w r log e i pc
      → GoroutineOk (some i) r log e i pc'
  lock_own (hello_waiting name) pc' q f ok =
      subst (λ p. GoroutineOk (some i) r log e i p) (some-injective _ _ q) (ok.0, refl, f)
  lock_own (goodbye_waiting name reason) pc' q f ok =
      subst (λ p. GoroutineOk (some i) r log e i p) (some-injective _ _ q) (ok.0, refl, f)
  lock_own _ pc' q f ok = cc

  statement_own :
      (pc : Pc) (z : Pc × Extension)
      → after_statement pc e ≡ some z
      → GoroutineOk w r log e i pc
      → (w ≡ some i) × GoroutineOk w r log z.1 i z.0
  unfolding after_statement
  statement_own (hello_locked name) z q ok = (
    ok.1,
    subst (λ p. GoroutineOk w r log p.1 i p.0) (some-injective _ _ q) (ok.0, ok.1, ground arith),
  )
  statement_own (hello_counted name) z q ok = (
    ok.1,
    subst (λ p. GoroutineOk w r log p.1 i p.0) (some-injective _ _ q)
        (ok.0, ok.1, ok.2, ground arith),
  )
  statement_own (hello_numbered name n) z q ok = (
    ok.1,
    subst (λ p. GoroutineOk w r log p.1 i p.0) (some-injective _ _ q)
        (ok.0, ok.1, ground arith, ok.3),
  )
  statement_own (goodbye_locked name reason) z q ok = (
    ok.1,
    subst (λ p. GoroutineOk w r log p.1 i p.0) (some-injective _ _ q) (ok.0, ok.1, ground arith),
  )
  statement_own (goodbye_counted name reason) z q ok = (
    ok.1,
    subst (λ p. GoroutineOk w r log p.1 i p.0) (some-injective _ _ q)
        (ok.0, ok.1, ok.2, ground arith),
  )
  statement_own (goodbye_numbered name reason n) z q ok = (
    ok.1,
    subst (λ p. GoroutineOk w r log p.1 i p.0) (some-injective _ _ q)
        (ok.0, ok.1, ground arith, ok.3),
  )
  statement_own _ z q ok = cc

  unlock_own :
      (pc : Pc) (z : Pc × Effect)
      → after_unlock pc ≡ some z
      → GoroutineOk w r log e i pc
      → (w ≡ some i) × (e ≡ apply z.1 (state_of log)) × GoroutineOk none r ((i, z.1) ∷ log) e i z.0
  unlock_own (hello_written name n) z q ok = (
    ok.1,
    ground arith,
    subst (λ p. GoroutineOk none r ((i, p.1) ∷ log) e i p.0) (some-injective _ _ q)
        (ok.0, (λ h. cc), (log, now, ok.3)),
  )
  unlock_own (goodbye_written name reason n) z q ok = (
    ok.1,
    ground arith,
    subst (λ p. GoroutineOk none r ((i, p.1) ∷ log) e i p.0) (some-injective _ _ q)
        (ok.0, (λ h. cc), (log, now, ok.3)),
  )
  unlock_own _ z q ok = cc

  read_own :
      (pc pc' : Pc)
      → after_read pc e ≡ some pc'
      → GoroutineOk w r log e i pc
      → GoroutineOk w r log e i pc'
  unfolding after_read
  read_own state_locked pc' q ok =
      subst (λ p. GoroutineOk w r log e i p) (some-injective _ _ q) (ok.0, ok.1, refl)
  read_own (state_read1 a) pc' q ok =
      subst (λ p. GoroutineOk w r log e i p) (some-injective _ _ q) (ok.0, ok.1, ok.2, refl)
  read_own (state_read2 a b) pc' q ok =
      subst (λ p. GoroutineOk w r log e i p) (some-injective _ _ q) (ok.0, ok.1, ok.2, ok.3, refl)
  read_own (state_read3 a b c) pc' q ok =
      subst (λ p. GoroutineOk w r log e i p) (some-injective _ _ q) (ok.0, ok.1, ground arith)
  read_own _ pc' q ok = cc

some-ne : {i j : ℕ} → i ≢ j → some i ≢ some j
some-ne ne h = ne (some-injective _ _ h)

Earlier-trans : {xs ys zs : Log} → Earlier xs ys → Earlier ys zs → Earlier xs zs
Earlier-trans e now = e
Earlier-trans e (before f) = before (Earlier-trans e f)

ℕ-cases : (i j : ℕ) → (i ≡ j) ⊎ (i ≢ j)
ℕ-cases i j = elim (Bool-cases (i == j)) [
  | inl h ↦ inl ((==_iff i j).0 h)
  | inr h ↦ inr (λ e. ground arith)
]

update_self : {A : Type 0} (f : ℕ → A) (i : ℕ) (a : A) → update f i a i ≡ a
update_self f i a = ground arith

update_other : {A : Type 0} (f : ℕ → A) {i j : ℕ} (a : A) → i ≢ j → update f i a j ≡ f j
update_other f a ne = ground arith

-- A goroutine is in order after a step of `i`, if it is when it is `i`, and when it is another.
module _ (i : ℕ) (pc : Pc) (pcs : ℕ → Pc) (w : Option ℕ) (log : Log) (e : Extension) where
  update_goroutines :
      (r : ℕ → Bool)
      → GoroutineOk w (r i) log e i pc
      → ((j : ℕ) → i ≢ j → GoroutineOk w (r j) log e j (pcs j))
      → (j : ℕ) → GoroutineOk w (r j) log e j (update pcs i pc j)
  update_goroutines r own others j = elim (ℕ-cases i j) [
    | inl same ↦
        subst (λ k. GoroutineOk w (r k) log e k (update pcs i pc k)) same
          (subst (λ p. GoroutineOk w (r i) log e i p) (sym (update_self pcs i pc)) own)
    | inr ne ↦
        subst (λ p. GoroutineOk w (r j) log e j p) (sym (update_other pcs pc ne)) (others j ne)
  ]

Step-Inv : {s t : Server} → Step s t → Inv s → Inv t
Step-Inv {s} (request i pc was q) inv = record {
  goroutines =
      update_goroutines i pc s.pcs s.writer s.log s.ext s.readers
        (request_own s.writer (s.readers i) s.log s.ext i pc q
          (subst (λ p. GoroutineOk s.writer (s.readers i) s.log s.ext i p) was (inv.goroutines i)))
        (λ j ne. inv.goroutines j);
  quiet = inv.quiet;
}
Step-Inv {s} (lock i pc q free nobody) inv = record {
  goroutines =
      update_goroutines i pc s.pcs (some i) s.log s.ext s.readers
        (lock_own s.writer (s.readers i) s.log s.ext i (s.pcs i) pc q (inv.quiet free)
          (inv.goroutines i))
        (λ j ne. lock_others i j (s.readers j) s.log s.ext (s.pcs j) ne (nobody j) (
          subst (λ w. GoroutineOk w (s.readers j) s.log s.ext j (s.pcs j)) free
            (inv.goroutines j)));
  quiet = λ h. cc;
}
Step-Inv {s} (statement i pc e q) inv =
    let (held, own) =
      statement_own s.writer (s.readers i) s.log s.ext i (s.pcs i) (pc, e) q (inv.goroutines i) in
    record {
      goroutines = update_goroutines i pc s.pcs s.writer s.log e s.readers own (λ j ne.
          subst (λ w. GoroutineOk w (s.readers j) s.log e j (s.pcs j)) (sym held)
            (statement_others i j (s.readers j) s.log s.ext e (s.pcs j) ne (
              subst (λ w. GoroutineOk w (s.readers j) s.log s.ext j (s.pcs j)) held
                (inv.goroutines j))));
      quiet = λ h. cc;
    }
Step-Inv {s} (unlock i pc x q) inv =
    let (held, done, own) =
      unlock_own s.writer (s.readers i) s.log s.ext i (s.pcs i) (pc, x) q (inv.goroutines i) in
    record {
      goroutines = update_goroutines i pc s.pcs none ((i, x) ∷ s.log) s.ext s.readers own (λ j ne.
          unlock_others i j (s.readers j) s.log (i, x) s.ext (s.pcs j) ne
            (subst (λ w. GoroutineOk w (s.readers j) s.log s.ext j (s.pcs j)) held
              (inv.goroutines j)));
      quiet = λ h. done;
    }
Step-Inv {s} (read_lock i was free) inv = record {
  goroutines =
      update_goroutines i state_locked s.pcs s.writer s.log s.ext (update s.readers i true)
        (update_self s.readers i true, free)
        (λ j ne.
          subst (λ r. GoroutineOk s.writer r s.log s.ext j (s.pcs j))
            (sym (update_other s.readers true ne)) (inv.goroutines j));
  quiet = inv.quiet;
}
Step-Inv {s} (read i pc q) inv = record {
  goroutines =
      update_goroutines i pc s.pcs s.writer s.log s.ext s.readers
        (read_own s.writer (s.readers i) s.log s.ext i (s.pcs i) pc q (inv.goroutines i))
        (λ j ne. inv.goroutines j);
  quiet = inv.quiet;
}
Step-Inv {s} (read_unlock i shown was) inv =
    let own : GoroutineOk s.writer (s.readers i) s.log s.ext i (state_read4 shown) =
      subst (λ p. GoroutineOk s.writer (s.readers i) s.log s.ext i p) was (inv.goroutines i) in
    record {
      goroutines =
          update_goroutines i (state_done shown) s.pcs s.writer s.log s.ext
            (update s.readers i false)
            (
              update_self s.readers i false,
              (λ h. cc (own.1)),
              (s.log, now, own.2 ∙ inv.quiet own.1),
            )
            (λ j ne.
              subst (λ r. GoroutineOk s.writer r s.log s.ext j (s.pcs j))
                (sym (update_other s.readers false ne)) (inv.goroutines j));
      quiet = inv.quiet;
    }

pub Reach-Inv : {s : Server} → Reach s → Inv s
Reach-Inv here = record { goroutines = λ j. (refl, (λ h. cc)); quiet = λ h. refl }
Reach-Inv (next r st) = Step-Inv st (Reach-Inv r)

-- In every interleaving, the answer to `GET /state` is one state that the server had between two
-- effects: that of the effects that were complete at some time.
pub state_done-Earlier :
    {s : Server} (i : ℕ) {shown : Extension}
    → Reach s
    → s.pcs i ≡ state_done shown
    → (xs : Log) × Earlier xs s.log × (shown ≡ state_of xs)
state_done-Earlier {s} i {shown} r at =
    (subst (λ p. GoroutineOk s.writer (s.readers i) s.log s.ext i p) at
      ((Reach-Inv r).goroutines i)).2

-- Between mu.Lock() and mu.Unlock().
abbrev pub is_writing : Pc → Bool
is_writing (hello_locked name) = true
is_writing (hello_counted name) = true
is_writing (hello_numbered name n) = true
is_writing (hello_written name n) = true
is_writing (goodbye_locked name reason) = true
is_writing (goodbye_counted name reason) = true
is_writing (goodbye_numbered name reason n) = true
is_writing (goodbye_written name reason n) = true
is_writing _ = false

-- Between mu.RLock() and mu.RUnlock().
abbrev pub is_reading : Pc → Bool
is_reading state_locked = true
is_reading (state_read1 a) = true
is_reading (state_read2 a b) = true
is_reading (state_read3 a b c) = true
is_reading (state_read4 shown) = true
is_reading _ = false

module _ (w : Option ℕ) (r : Bool) (log : Log) (e : Extension) where
  writing_holds : (i : ℕ) (pc : Pc) → is_writing pc ≡ true → GoroutineOk w r log e i pc → w ≡ some i
  writing_holds i idle q ok = cc
  writing_holds i _ q ok = ground arith

  others_wait :
      (i j : ℕ) (pc : Pc)
      → i ≢ j
      → w ≡ some i
      → GoroutineOk w r log e j pc
      → (is_writing pc ≡ false) × (is_reading pc ≡ false)
  others_wait i j (hello_done name n) ne held ok = (refl, refl)
  others_wait i j (goodbye_done name reason n) ne held ok = (refl, refl)
  others_wait i j (state_done shown) ne held ok = (refl, refl)
  others_wait i j _ ne held ok = ground arith

-- In every interleaving, while one goroutine writes the fields no other writes or reads them.
pub is_writing-exclusive :
    {s : Server} (i j : ℕ)
    → Reach s
    → is_writing (s.pcs i) ≡ true
    → (i ≡ j) ⊎ ((is_writing (s.pcs j) ≡ false) × (is_reading (s.pcs j) ≡ false))
is_writing-exclusive {s} i j r q =
    let inv = Reach-Inv r in
    let held = writing_holds s.writer (s.readers i) s.log s.ext i (s.pcs i) q (inv.goroutines i) in
    elim (ℕ-cases i j) [
      | inl same ↦ inl same
      | inr ne ↦
          inr (
            others_wait s.writer (s.readers j) s.log s.ext i j (s.pcs j) ne held (inv.goroutines j))
    ]
