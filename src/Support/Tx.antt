-- ===== src/Support/Tx.antt =====
-- Transactions: `CheckTx` of tools/pkg/support/support.go, and the state in which the operations of
-- tools/pkg/fccutils and tools/pkg/utils run, the transactions that were sent before. What a contract
-- answers may depend on all of them.
use fce_extension_scaffold.Base.{
  Bool, true, false, Bool-cases, ◌≡◌, refl, ◌⊎◌, inl, inr, Result-cases, arith, ℕ, Bytes, str, ◌==◌,
  if◌then◌else◌, Option, none, some, Result, ok, err, List, ◌∷◌, ◌++◌,
}

-- A mined transaction. A log is known by its number.
pub record Receipt : Type 0 where
  pub status : ℕ
  pub logs : List ℕ

-- `CheckTx`, from the transaction's hash, what `getFailingMessage` gives and what bind.WaitMined gives.
unfoldable pub check_tx : Bytes → Result Bytes → Result Receipt → Result Receipt
check_tx hash failing (err e) =
    err (str "transaction not mined within 2 minutes (tx: " ++ hash ++ str "): " ++ e)
check_tx hash failing (ok receipt) =
    if receipt.status == 0
    then elim failing [
      | err e ↦ err e
      | ok reason ↦ err (str "error: Transaction fail: " ++ reason)
    ]
    else ok receipt

-- An operation that sends transactions of type `T`, the newest of which stands first.
abbrev pub M : Type 0 → Type 0 → Type 0
M T A = List T → Result A × List T

abbrev pub continue : {T A B : Type 0} → Result A → List T → (A → M T B) → Result B × List T
continue (ok a) sent f = f a sent
continue (err e) sent f = (err e, sent)

infixl 5 ◌>>=◌ ◌>>◌
abbrev pub ◌>>=◌ : {T A B : Type 0} → M T A → (A → M T B) → M T B
◌>>=◌ m f sent = continue (m sent).0 (m sent).1 f

abbrev pub ◌>>◌ : {T B : Type 0} → M T (Unit {0}) → M T B → M T B
m >> k = m >>= λ _. k

abbrev pub pure : {T A : Type 0} → A → M T A
pure a sent = (ok a, sent)

-- An answer that depends on what was sent, with the error `wrap e` for an error `e`.
abbrev pub ask : {T A : Type 0} → (Bytes → Bytes) → (List T → Result A) → M T A
ask wrap answer sent = elim (answer sent) [ ok a ↦ (ok a, sent) | err e ↦ (err (wrap e), sent) ]

-- An error, if there is one.
abbrev pub check : {T : Type 0} → Option Bytes → M T (Unit {0})
check none sent = (ok tt, sent)
check (some e) sent = (err e, sent)

-- The chain as a sender of transactions meets it.
pub record Chain (T : Type 0) : Type 0 where
  pub transactor : Option Bytes  -- the error of bind.NewKeyedTransactorWithChainID
  pub send : List T → T → Result (Result Receipt)  -- the call, and then bind.WaitMined
  pub tx_hash : T → Bytes
  pub failing_message : List T → T → Result Bytes  -- `getFailingMessage`, of a transaction sent

-- A transaction whose call succeeds stays sent, whatever becomes of it. `refused` words an error of
-- the call and `failed` one of `CheckTx`.
unfoldable pub send_tx : {T : Type 0} → Chain T → (refused failed : Bytes → Bytes) → T → M T Receipt
send_tx chain refused failed tx sent = elim (chain.send sent tx) [
  | err e ↦ (err (refused e), sent)
  | ok mined ↦ elim (check_tx (chain.tx_hash tx) (chain.failing_message (tx ∷ sent) tx) mined) [
    | err e ↦ (err (failed e), tx ∷ sent)
    | ok receipt ↦ (ok receipt, tx ∷ sent)
  ]
]

pub send_tx-sent :
    {T : Type 0} (chain : Chain T) (refused failed : Bytes → Bytes) (tx : T) (sent : List T)
    → ((send_tx chain refused failed tx sent).1 ≡ sent)
      ⊎ ((send_tx chain refused failed tx sent).1 ≡ tx ∷ sent)
unfolding send_tx
send_tx-sent chain refused failed tx sent = elim (Result-cases (chain.send sent tx)) [
  | inr (x, e) ↦ inl (ground arith)
  | inl (mined, e) ↦
      elim (Result-cases
        (check_tx (chain.tx_hash tx) (chain.failing_message (tx ∷ sent) tx) mined)) [
          | inr (x, e') ↦ inr (ground arith)
          | inl (receipt, e') ↦ inr (ground arith)
        ]
]

pub send_tx-ok :
    {T : Type 0} (chain : Chain T) (refused failed : Bytes → Bytes) (tx : T) (sent : List T)
    {r : Receipt}
    → (send_tx chain refused failed tx sent).0 ≡ ok r
    → (send_tx chain refused failed tx sent).1 ≡ tx ∷ sent
unfolding send_tx
send_tx-ok chain refused failed tx sent h = elim (Result-cases (chain.send sent tx)) [
  | inr (x, e) ↦ ground arith
  | inl (mined, e) ↦
      elim (Result-cases
        (check_tx (chain.tx_hash tx) (chain.failing_message (tx ∷ sent) tx) mined)) [
          | inr (x, e') ↦ ground arith
          | inl (receipt, e') ↦ ground arith
        ]
]

-- A transaction whose receipt is not looked at.
unfoldable pub send_only :
    {T : Type 0} → Chain T → (refused failed : Bytes → Bytes) → T → M T (Unit {0})
send_only chain refused failed tx = do receipt ← send_tx chain refused failed tx; pure tt

module _ {T : Type 0} (chain : Chain T) (refused failed : Bytes → Bytes) (tx : T)
    (sent : List T) where
  pub send_only-sent :
      ((send_only chain refused failed tx sent).1 ≡ sent)
      ⊎ ((send_only chain refused failed tx sent).1 ≡ tx ∷ sent)
  unfolding send_only
  send_only-sent = elim (Result-cases (send_tx chain refused failed tx sent).0) [
    | inr (x, e) ↦ elim (send_tx-sent chain refused failed tx sent) [
      | inl same ↦ inl (ground arith)
      | inr one ↦ inr (ground arith)
    ]
    | inl (r, e) ↦ inr (ground (arith, send_tx-ok chain refused failed tx sent e))
  ]

  pub send_only-ok :
      (send_only chain refused failed tx sent).0 ≡ ok tt
      → (send_only chain refused failed tx sent).1 ≡ tx ∷ sent
  unfolding send_only
  send_only-ok h = elim (Result-cases (send_tx chain refused failed tx sent).0) [
    | inr (x, e) ↦ ground arith
    | inl (r, e) ↦ ground (arith, send_tx-ok chain refused failed tx sent e)
  ]

-- An action whose error is worded anew.
abbrev pub wrap_error : {T A : Type 0} → (Bytes → Bytes) → M T A → M T A
wrap_error wrap m sent = elim (m sent).0 [
  | ok a ↦ (ok a, (m sent).1)
  | err e ↦ (err (wrap e), (m sent).1)
]

abbrev pub unless : {T : Type 0} → Bool → M T (Unit {0}) → M T (Unit {0})
unless true m sent = (ok tt, sent)
unless false m sent = m sent

-- Acts where a question is answered by false.
unfoldable pub ensure :
    {T : Type 0}
    → (holds : List T → Result Bool) → (Bytes → Bytes)
    → M T (Unit {0})
    → M T (Unit {0})
ensure holds wrap act = do yes_already ← ask wrap holds; unless yes_already act

-- Once an action that makes the answer true is ensured, the answer is true.
pub ensure-Holds :
    {T : Type 0} (holds : List T → Result Bool) (wrap : Bytes → Bytes) (act : M T (Unit {0}))
    (sent : List T)
    → ((act sent).0 ≡ ok tt → holds (act sent).1 ≡ ok true)
    → (ensure holds wrap act sent).0 ≡ ok tt
    → holds (ensure holds wrap act sent).1 ≡ ok true
unfolding ensure
ensure-Holds holds wrap act sent makes h = elim (Result-cases (holds sent)) [
  | inr (x, e) ↦ ground arith
  | inl (b, e) ↦ elim (Bool-cases b) [
    | inl yes_already ↦ ground arith
    | inr not_yet ↦ ground (arith, makes)
  ]
]

pub ensure-sent :
    {T : Type 0} (holds : List T → Result Bool) (wrap : Bytes → Bytes) (act : M T (Unit {0}))
    (tx : T) (sent : List T)
    → ((act sent).1 ≡ sent) ⊎ ((act sent).1 ≡ tx ∷ sent)
    → ((ensure holds wrap act sent).1 ≡ sent) ⊎ ((ensure holds wrap act sent).1 ≡ tx ∷ sent)
unfolding ensure
ensure-sent holds wrap act tx sent acts = elim (Result-cases (holds sent)) [
  | inr (x, e) ↦ inl (ground arith)
  | inl (b, e) ↦ elim (Bool-cases b) [
    | inl yes_already ↦ inl (ground arith)
    | inr not_yet ↦ elim acts [ inl same ↦ inl (ground arith) | inr one ↦ inr (ground arith) ]
  ]
]

-- A transaction whose receipt is read by an action that sends nothing.
module _ {T B : Type 0} (chain : Chain T) (refused failed : Bytes → Bytes) (tx : T)
    (k : Receipt → M T B) (reads : (r : Receipt) (s : List T) → (k r s).1 ≡ s) (sent : List T) where
  pub send_then-ok :
      {b : B}
      → ((send_tx chain refused failed tx >>= k) sent).0 ≡ ok b
      → ((send_tx chain refused failed tx >>= k) sent).1 ≡ tx ∷ sent
  send_then-ok h = elim (Result-cases (send_tx chain refused failed tx sent).0) [
    | inr (x, e) ↦ ground arith
    | inl (r, e) ↦ ground (
      arith,
      send_tx-ok chain refused failed tx sent e,
      reads r (send_tx chain refused failed tx sent).1,
    )
  ]

  pub send_then-sent :
      (((send_tx chain refused failed tx >>= k) sent).1 ≡ sent)
      ⊎ (((send_tx chain refused failed tx >>= k) sent).1 ≡ tx ∷ sent)
  send_then-sent = elim (Result-cases (send_tx chain refused failed tx sent).0) [
    | inr (x, e) ↦ elim (send_tx-sent chain refused failed tx sent) [
      | inl same ↦ inl (ground arith)
      | inr one ↦ inr (ground arith)
    ]
    | inl (r, e) ↦ inr (
        ground (
          arith,
          send_tx-ok chain refused failed tx sent e,
          reads r (send_tx chain refused failed tx sent).1,
        ))
  ]

pub check-reads : {T : Type 0} (e : Option Bytes) (sent : List T) → (check e sent).1 ≡ sent
check-reads none sent = refl
check-reads (some x) sent = refl

-- Wording an error anew changes neither what is sent nor a success.
module _ {T A : Type 0} (wrap : Bytes → Bytes) (m : M T A) (sent : List T) where
  pub wrap_error-sent : (wrap_error wrap m sent).1 ≡ (m sent).1
  wrap_error-sent = elim (Result-cases (m sent).0) [
    | inl (a, e) ↦ ground arith
    | inr (x, e) ↦ ground arith
  ]

  pub wrap_error-ok : {a : A} → (wrap_error wrap m sent).0 ≡ ok a → (m sent).0 ≡ ok a
  wrap_error-ok h = elim (Result-cases (m sent).0) [
    | inl (a, e) ↦ ground arith
    | inr (x, e) ↦ ground arith
  ]

-- A success of two actions is a success of the first, and then of the second.
pub bind-ok :
    {T A B : Type 0} (m : M T A) (k : A → M T B) (sent : List T) {b : B}
    → ((m >>= k) sent).0 ≡ ok b
    → (a : A) × ((m sent).0 ≡ ok a)
      × ((k a (m sent).1).0 ≡ ok b)
      × (((m >>= k) sent).1 ≡ (k a (m sent).1).1)
bind-ok m k sent h = elim (Result-cases (m sent).0) [
  | inr (x, e) ↦ ground arith
  | inl (a, e) ↦ (a, e, ground arith, ground arith)
]

pub check-none :
    {T : Type 0} (e : Option Bytes) (sent : List T) → (check e sent).0 ≡ ok tt → e ≡ none
check-none none sent h = refl
check-none (some x) sent h = cc
