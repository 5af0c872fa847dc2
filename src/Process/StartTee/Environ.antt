-- ===== src/Process/StartTee/Environ.antt =====
-- The environment that start-tee leaves to the node.
use fce_extension_scaffold.Base.{
  Bytes, str, is_empty, beq, beq_iff, Bool-cases, true, false, some, Option-cases, Result-cases, ok,
  [], ◌∷◌, ◌≡◌, ◌≢◌, refl, ap, sym, ◌∙◌, ◌⊎◌, inl, inr, arith,
}
use fce_extension_scaffold.Support.Keys.{
  Crypto, Key, Address, Environment, set_owner_address, default_private_key,
}
use fce_extension_scaffold.Process.StartTee.{
  Environ, getenv, setenv, value_or_empty, Machine, load_env, export_owner, export_extension_id,
  run_extension, start_tee,
}

-- What main has made of the environment `before`.
pub record Exported (flag : Bytes) (before after : Environ) : Type 0 where
  pub kept :
      (k v : Bytes)
      → k ≢ str "INITIAL_OWNER"
      → k ≢ str "EXTENSION_ID"
      → before k ≡ some v
      → after k ≡ some v
  pub owner_kept :
      (v : Bytes)
      → before (str "INITIAL_OWNER") ≡ some v
      → v ≢ []
      → after (str "INITIAL_OWNER") ≡ some v
  pub flag_wins : flag ≢ [] → after (str "EXTENSION_ID") ≡ some flag
  pub id_kept :
      (v : Bytes)
      → flag ≡ []
      → before (str "EXTENSION_ID") ≡ some v
      → after (str "EXTENSION_ID") ≡ some v
  pub owned : getenv after (str "INITIAL_OWNER") ≢ []

-- Load does not override a variable that is set.
abbrev pub Keeps : Machine → Type 0
Keeps m =
    (path : Bytes) (env env' : Environ) (k v : Bytes)
    → m.load path env ≡ ok env'
    → env k ≡ some v
    → env' k ≡ some v

load_env-Keeps :
    (m : Machine) (env : Environ) (k v : Bytes)
    → Keeps m
    → env k ≡ some v
    → load_env m env k ≡ some v
unfolding load_env
load_env-Keeps m env k v keeps h = elim (Result-cases (m.load m.root_env env)) [
  | inl (e, p) ↦ ground (arith, keeps m.root_env env e k v p h)
  | inr (x, p) ↦ elim (Result-cases (m.load (str ".env") env)) [
    | inl (e, q) ↦ ground (arith, keeps (str ".env") env e k v q h)
    | inr (y, q) ↦ ground arith
  ]
]

setenv_self : (env : Environ) (k v : Bytes) → setenv env k v k ≡ some v
setenv_self env k v = rw ((beq_iff k k).1 refl)

setenv_other : (env : Environ) (k v j : Bytes) → j ≢ k → setenv env k v j ≡ env j
setenv_other env k v j n = ground (arith, beq_iff j k)

-- The owner's text that `setOwnerAddress` leaves: the address of a key where there was none.
owner-cases :
    (c : Crypto) (e f : Environment) (a : Address)
    → set_owner_address c e ≡ ok (a, f)
    → is_empty e.initial_owner ≡ true
    → (key : Key) × (f.initial_owner ≡ c.text (c.key_address key))
unfolding set_owner_address
owner-cases c e f a h empty = elim (Result-cases (default_private_key c e.deployment_private_key)) [
  | inl (key, k) ↦ (key, ground arith)
  | inr (x, k) ↦ ground arith
]

-- The owner is left alone where it is set, and is otherwise the address of a key.
export_owner-cases :
    (c : Crypto) (env owned : Environ)
    → export_owner c env ≡ ok owned
    → ((is_empty (getenv env (str "INITIAL_OWNER")) ≡ false) × (owned ≡ env))
      ⊎ ((is_empty (getenv env (str "INITIAL_OWNER")) ≡ true)
          × ((a : Address) × (owned ≡ setenv env (str "INITIAL_OWNER") (c.text a))))
unfolding export_owner
export_owner-cases c env owned h =
    let e : Environment = record {
      initial_owner = getenv env (str "INITIAL_OWNER");
      deployment_private_key = getenv env (str "DEPLOYMENT_PRIVATE_KEY");
    } in
    elim (Result-cases (set_owner_address c e)) [
      | inr (x, p) ↦ ground arith
      | inl ((a, f), p) ↦ elim (Bool-cases (is_empty (getenv env (str "INITIAL_OWNER")))) [
        | inr full ↦ inl (full, ground arith)
        | inl empty ↦
            let (key, shown) = owner-cases c e f a p empty in
            inr (empty, (c.key_address key, ground arith))
      ]
    ]

-- EXTENSION_ID is no INITIAL_OWNER.
names_differ : ◌≢◌ {A = Bytes} (str "EXTENSION_ID") (str "INITIAL_OWNER")
unfolding beq str
names_differ e = cc (differ, (beq_iff (str "EXTENSION_ID") (str "INITIAL_OWNER")).1 e)
  where
    differ : beq (str "EXTENSION_ID") (str "INITIAL_OWNER") ≡ false
    differ = refl

export_owner-other :
    (c : Crypto) (env owned : Environ) (k : Bytes)
    → export_owner c env ≡ ok owned
    → k ≢ str "INITIAL_OWNER"
    → owned k ≡ env k
export_owner-other c env owned k h n = elim (export_owner-cases c env owned h) [
  | inl (full, same) ↦ ap (λ (e : Environ). e k) same
  | inr (empty, (a, set)) ↦
      ap (λ (e : Environ). e k) set ∙ setenv_other env (str "INITIAL_OWNER") (c.text a) k n
]

export_owner-full :
    (c : Crypto) (env owned : Environ)
    → export_owner c env ≡ ok owned
    → is_empty (getenv env (str "INITIAL_OWNER")) ≡ false
    → owned ≡ env
export_owner-full c env owned h full = elim (export_owner-cases c env owned h) [
  | inl (f, same) ↦ same
  | inr (empty, set) ↦ cc
]

export_owner-owned :
    (c : Crypto) (env owned : Environ)
    → ((a : Address) → c.text a ≢ [])
    → export_owner c env ≡ ok owned
    → getenv owned (str "INITIAL_OWNER") ≢ []
export_owner-owned c env owned shown h = elim (export_owner-cases c env owned h) [
  | inl (full, same) ↦ λ e. cc
  | inr (empty, (a, set)) ↦ λ e. shown a (
      sym (ap value_or_empty (setenv_self env (str "INITIAL_OWNER") (c.text a)))
      ∙ sym (ap (λ (v : Environ). getenv v (str "INITIAL_OWNER")) set)
      ∙ e)
]

-- A run that comes to its wait has an owner and has exported the flag.
start_tee-parts :
    (c : Crypto) (m : Machine) (flag : Bytes) (before after : Environ)
    → start_tee c m flag before ≡ ok after
    → (owned : Environ) × (export_owner c (load_env m before) ≡ ok owned)
      × (after ≡ export_extension_id flag owned)
unfolding start_tee
start_tee-parts c m flag before after h = elim (Result-cases (export_owner c (load_env m before))) [
  | inr (x, p) ↦ ground arith
  | inl (owned, p) ↦ elim (Option-cases (run_extension m)) [
    | inr (x, q) ↦ ground arith
    | inl q ↦ (owned, p, ground arith)
  ]
]

export_extension_id-other :
    (flag : Bytes) (env : Environ) (k : Bytes)
    → k ≢ str "EXTENSION_ID"
    → export_extension_id flag env k ≡ env k
unfolding export_extension_id
export_extension_id-other [] env k n = refl
export_extension_id-other (b ∷ bs) env k n = setenv_other env (str "EXTENSION_ID") (b ∷ bs) k n

export_extension_id-flag :
    (flag : Bytes) (env : Environ)
    → flag ≢ []
    → export_extension_id flag env (str "EXTENSION_ID") ≡ some flag
unfolding export_extension_id
export_extension_id-flag [] env n = absurd (n refl)
export_extension_id-flag (b ∷ bs) env n = setenv_self env (str "EXTENSION_ID") (b ∷ bs)

not_empty : (v : Bytes) → v ≢ [] → is_empty v ≡ false
not_empty [] n = absurd (n refl)
not_empty (b ∷ bs) n = refl

-- Where Load does not override what is set, and an address is no empty text: when start-tee comes to its
-- wait, the flag -extensionID, if it is given, is the value of EXTENSION_ID, INITIAL_OWNER has a value,
-- and each other variable that was set has the value that it had, as have EXTENSION_ID without the flag
-- and an INITIAL_OWNER that was not empty.
pub start_tee-Exported :
    (c : Crypto) (m : Machine) (flag : Bytes) (before after : Environ)
    → Keeps m
    → ((a : Address) → c.text a ≢ [])
    → start_tee c m flag before ≡ ok after
    → Exported flag before after
start_tee-Exported c m flag before after keeps shown h =
    let (owned, found, e) = start_tee-parts c m flag before after h in
    let at : (k : Bytes) → after k ≡ export_extension_id flag owned k =
      λ k. ap (λ (v : Environ). v k) e in
    let owner_at =
      at (str "INITIAL_OWNER")
      ∙ export_extension_id-other flag owned (str "INITIAL_OWNER") (λ p. names_differ (sym p)) in
    record {
      kept = λ k v n o b.
          at k
          ∙ export_extension_id-other flag owned k o
          ∙ export_owner-other c (load_env m before) owned k found n
          ∙ load_env-Keeps m before k v keeps b;
      owner_kept = λ v b n.
          let loaded = load_env-Keeps m before (str "INITIAL_OWNER") v keeps b in
          let same =
            export_owner-full c (load_env m before) owned found
              (ap (λ o. is_empty (value_or_empty o)) loaded ∙ not_empty v n) in
          owner_at ∙ ap (λ (x : Environ). x (str "INITIAL_OWNER")) same ∙ loaded;
      flag_wins = λ n. at (str "EXTENSION_ID") ∙ export_extension_id-flag flag owned n;
      id_kept = λ v empty b.
          at (str "EXTENSION_ID")
          ∙ ap (λ f. export_extension_id f owned (str "EXTENSION_ID")) empty
          ∙ unfold export_extension_id in
            (export_owner-other c (load_env m before) owned (str "EXTENSION_ID") found names_differ
              ∙ load_env-Keeps m before (str "EXTENSION_ID") v keeps b);
      owned = λ none.
          export_owner-owned c (load_env m before) owned shown found
            (sym (ap value_or_empty owner_at) ∙ none);
    }
