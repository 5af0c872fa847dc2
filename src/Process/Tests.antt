-- ===== src/Process/Tests.antt =====
-- The theorems on the processes of the Go extension, at short runs.
use fce_extension_scaffold.Base.{◌⊎◌, inl, Bytes, str, none, some, ok, err, [], ◌≡◌, ◌≢◌, refl}
use fce_extension_scaffold.Support.Keys.{
  Crypto, set_owner_address, default_private_key, set_proxy_url,
}
use fce_extension_scaffold.Process.Serve.{
  serving, stopping, drained, main_returned, os_exit, Process, launched, bind, accept, answer,
  signal, drain, exit_zero, Reach, here, next,
}
use fce_extension_scaffold.Process.Serve.Ends.{Ended, Reach-Ended}
use fce_extension_scaffold.Process.Serve.Shutdown.{shutdown_cuts_requests}
use fce_extension_scaffold.Process.Launch
use fce_extension_scaffold.Process.Launch.Reported.{EndedWith, Unaware}
use fce_extension_scaffold.Process.Launch.Late.{CanReport, late_error}
use fce_extension_scaffold.Process.StartTee.{
  Environ, setenv, Machine, load_env, export_owner, export_extension_id, run_extension, start_tee,
}
use fce_extension_scaffold.Process.StartTee.Environ.{Exported, start_tee-Exported}

-- The process after one request that was answered while Shutdown waited for it.
abbrev stopped : Process
stopped = record { main = serving; handler = drained; active = 0; exit = some os_exit }

graceful : Reach launched stopped
graceful =
    next
      (next
        (next
          (next (next (next here (bind refl refl refl)) (accept refl refl refl)) (signal refl refl))
          (answer 0 refl refl))
        (drain refl refl refl))
      (exit_zero refl refl)

Reach-Ended_example : Ended stopped
Reach-Ended_example = Reach-Ended graceful

shutdown_cuts_requests_example :
    (p : Process) × Reach launched p
    × (p.exit ≡ some main_returned)
    × (p.active ≡ 3)
    × (p.handler ≡ stopping)
shutdown_cuts_requests_example = shutdown_cuts_requests 3

abbrev in_use : Bytes
in_use = str "address already in use"

-- docker whose server fails after the first look at the channel.
abbrev failed_late : Launch.Launch
failed_late = record { server = Launch.sending in_use; channel = none; main = Launch.waiting }

fails_late : Launch.Reach Launch.docker Launch.launched failed_late
fails_late = Launch.next (Launch.next Launch.here (Launch.poll refl refl)) (Launch.fail in_use refl)

late_error_example :
    CanReport Launch.docker failed_late in_use
    ⊎ ((Launch.docker ≡ Launch.start_tee)
        × Unaware failed_late.main
        × ((m : Launch.Launch)
            → Launch.Reach Launch.docker failed_late m
            → ¬ EndedWith Launch.docker m in_use))
late_error_example = late_error Launch.docker in_use fails_late (inl refl) refl

abbrev crypto : Crypto
crypto = record {
  hex_to_ecdsa = λ t. ok 5;
  dev_key = 1;
  key_address = λ k. k;
  text = λ a. str "0x05";
  address_of = λ t. 5;
}

-- A machine without any file .env, on which all goes well.
abbrev machine : Machine
machine = record {
  load = λ path env. err (str "no such file");
  root_env = str "../../.env";
  early = none;
  marshal = λ url. ok url;
  post = λ url body. ok 200;
}

abbrev empty : Environ
empty name = none

abbrev exported : Environ
exported =
    setenv (setenv empty (str "INITIAL_OWNER") (str "0x05")) (str "EXTENSION_ID") (str "0x51")

starts : start_tee crypto machine (str "0x51") empty ≡ ok exported
unfolding start_tee load_env export_owner export_extension_id run_extension set_owner_address
    default_private_key set_proxy_url str
starts = refl

some_text : str "0x05" ≢ []
unfolding str
some_text e = cc

start_tee-Exported_example : Exported (str "0x51") empty exported
start_tee-Exported_example =
    start_tee-Exported crypto machine (str "0x51") empty exported (λ path env env' k v e h. cc)
      (λ a. some_text) starts
