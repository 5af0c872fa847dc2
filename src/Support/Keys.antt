-- ===== src/Support/Keys.antt =====
-- Keys and ports from the environment: `DefaultPrivateKey` of tools/pkg/support/support.go,
-- `setOwnerAddress` and `setProxyURL` of go/cmd/start-tee/main.go, `intEnv` of go/cmd/docker/main.go and
-- the ports of go/internal/config/config.go.
use fce_extension_scaffold.Base.{
  ℕ, Bytes, str, is_empty, show_nat, ℤ, atoi, ◌==◌, ◌&&◌, ◌||◌, if◌then◌else◌, Option, none, some,
  Result, ok, err, [], ◌∷◌, ◌++◌, ◌≡◌, ◌≢◌, refl, arith,
}

abbrev pub Key : Type 0
Key = ℕ

abbrev pub Address : Type 0
Address = ℕ

-- go-ethereum's functions on keys and addresses.
pub record Crypto : Type 0 where
  pub hex_to_ecdsa : Bytes → Result Key
  pub dev_key : Key  -- the key that is written down in the program
  pub key_address : Key → Address  -- PubkeyToAddress of its public key
  pub text : Address → Bytes  -- Address.String
  pub address_of : Bytes → Address  -- common.HexToAddress

pub record Environment : Type 0 where
  pub initial_owner : Bytes
  pub deployment_private_key : Bytes

-- A key's text without "0x" or "0X" at its front.
unfoldable pub strip_prefix : Bytes → Bytes
strip_prefix [] = []
strip_prefix (z ∷ []) = z ∷ []
strip_prefix (z ∷ x ∷ rest) =
    if (z == b'0') && ((x == b'x') || (x == b'X')) then rest else z ∷ x ∷ rest

module _ (c : Crypto) where
  -- `DefaultPrivateKey`, and the key of `setOwnerAddress`, whose error ends the process.
  unfoldable pub default_private_key : Bytes → Result Key
  unfolding strip_prefix
  default_private_key key = if is_empty key then ok c.dev_key else c.hex_to_ecdsa (strip_prefix key)

  unfoldable pub export_owner : Environment → Result Key → Result (Address × Environment)
  export_owner env (err e) = err e
  export_owner env (ok key) =
      ok (c.address_of env.initial_owner, record env { initial_owner = c.text (c.key_address key) })

  -- `setOwnerAddress`: what it returns, and the environment that it leaves.
  unfoldable pub set_owner_address : Environment → Result (Address × Environment)
  unfolding export_owner
  set_owner_address env =
      if is_empty env.initial_owner
      then export_owner env (default_private_key env.deployment_private_key)
      else ok (c.address_of env.initial_owner, env)

  -- Where HexToAddress makes the zero address of the empty text and reads an address's own text: with
  -- INITIAL_OWNER not set and a key that can be read, setOwnerAddress returns the zero address and not
  -- that of the key, which it exports; only a second call returns it.
  pub set_owner_address_unset :
      (key_text : Bytes) (key : Key)
      → c.address_of [] ≡ 0
      → c.address_of (c.text (c.key_address key)) ≡ c.key_address key
      → c.text (c.key_address key) ≢ []
      → default_private_key key_text ≡ ok key
      → let env : Environment = record { initial_owner = []; deployment_private_key = key_text } in
        let after : Environment = record env { initial_owner = c.text (c.key_address key) } in
        (set_owner_address env ≡ ok (0, after))
        × (set_owner_address after ≡ ok (c.key_address key, after))
  unfolding set_owner_address
  set_owner_address_unset key_text key zero_text own_text some_text k = (ground arith, exported)
    where
      text_cases :
          (t : Bytes)
          → t ≢ []
          → c.address_of t ≡ c.key_address key
          → (if is_empty t
              then export_owner
                  (record { initial_owner = t; deployment_private_key = key_text })
                  (default_private_key key_text)
              else ok
                  (c.address_of t, record { initial_owner = t; deployment_private_key = key_text }))
            ≡ ok
                (c.key_address key, record { initial_owner = t; deployment_private_key = key_text })
      text_cases [] n e = absurd (n refl)
      text_cases (b ∷ bs) n e = ground arith

      exported :
          set_owner_address (record {
            initial_owner = c.text (c.key_address key);
            deployment_private_key = key_text;
          })
          ≡ ok (
            c.key_address key,
            record {
              initial_owner = c.text (c.key_address key);
              deployment_private_key = key_text;
            },
          )
      exported = text_cases (c.text (c.key_address key)) some_text own_text

abbrev pub or_else : ℤ → Option ℤ → ℤ
or_else fallback none = fallback
or_else fallback (some v) = v

-- `intEnv`, of a variable's value.
unfoldable pub int_env : Bytes → ℤ → ℤ
unfolding atoi
int_env value fallback = or_else fallback (atoi value)

-- A port of config.go after its `init`, from the variable's value and the default.
unfoldable pub port_of : Bytes → ℤ → ℤ
unfolding atoi
port_of value fallback = if is_empty value then fallback else or_else fallback (atoi value)

-- `setProxyURL`: the address of the proxy, as JSON, is posted to the node. `post` is http.Post with the
-- URL and the body, and gives the status.
unfoldable pub post_outcome : Result ℕ → Option Bytes
post_outcome (err e) = some e
post_outcome (ok status) =
    if status == 200 then none else some (str "unexpected status code: " ++ show_nat status)

unfoldable pub set_proxy_url :
    (marshal : Bytes → Result Bytes)
    → (post : (url body : Bytes) → Result ℕ) → (configuration_port proxy_port : ℕ) → Option Bytes
unfolding post_outcome
set_proxy_url marshal post configuration_port proxy_port =
    elim (marshal (str "http://localhost:" ++ show_nat proxy_port)) [
      | err e ↦ some e
      | ok body ↦
          post_outcome
            (post (str "http://localhost:" ++ (show_nat configuration_port ++ str "/proxy")) body)
    ]

-- The ports of config.go are read as the port of the docker command is.
pub port_of-int_env :
    (value : Bytes) (fallback : ℤ) → port_of value fallback ≡ int_env value fallback
unfolding port_of int_env
port_of-int_env [] fallback = refl
port_of-int_env (b ∷ bs) fallback = refl
