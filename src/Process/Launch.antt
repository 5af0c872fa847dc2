-- ===== src/Process/Launch.antt =====
-- go/pkg/server/server.go, and the two commands that start the extension's server with it:
-- go/cmd/docker/main.go and go/cmd/start-tee/main.go. The error of ListenAndServe goes through a
-- channel that holds one value.
pub mod Reported
pub mod Late
use fce_extension_scaffold.Base.{Bytes, str, Option, none, some, ◌≡◌, ◌++◌}

pub data Command : Type 0 where
  docker start_tee : Command

-- The goroutine of `StartExtension`.
pub data ServerPc : Type 0 where
  listening : ServerPc
  sending : (error : Bytes) → ServerPc  -- before errCh <- err
  sent : (error : Bytes) → ServerPc

-- The goroutine of main.
pub data MainPc : Type 0 where
  sleeping : MainPc  -- before the select that has a default
  configuring : MainPc  -- in setProxyURL, of start-tee only
  waiting : MainPc  -- for a signal, and in docker for an error too
  ended : (error : Option Bytes) → MainPc  -- `none` is the end by a signal

pub record Launch : Type 0 where
  pub server : ServerPc
  pub channel : Option Bytes
  pub main : MainPc

abbrev pub launched : Launch
launched = record { server = listening; channel = none; main = sleeping }

-- Where main goes when the channel was empty.
abbrev pub after_poll : Command → MainPc
after_poll docker = waiting
after_poll start_tee = configuring

pub data Step (c : Command) (l : Launch) : Launch → Type 0 where
  fail : (error : Bytes) → l.server ≡ listening → Step c l (record l { server = sending error })
  send :
      (error : Bytes)
      → l.server ≡ sending error
      → l.channel ≡ none
      → Step c l (record l { server = sent error; channel = some error })
  early :
      (error : Bytes)
      → l.main ≡ sleeping
      → l.channel ≡ some error
      → Step c l (record l {
        channel = none;
        main = ended (some (str "extension server failed to start: " ++ error));
      })
  poll : l.main ≡ sleeping → l.channel ≡ none → Step c l (record l { main = after_poll c })
  configured : l.main ≡ configuring → Step c l (record l { main = waiting })
  not_configured :
      (error : Bytes)
      → l.main ≡ configuring
      → Step c l (record l { main = ended (some (str "Error: " ++ error)) })
  late :
      (error : Bytes)
      → c ≡ docker
      → l.main ≡ waiting
      → l.channel ≡ some error
      → Step c l (record l {
        channel = none;
        main = ended (some (str "extension server error: " ++ error));
      })
  signal : l.main ≡ waiting → Step c l (record l { main = ended none })

pub data Reach (c : Command) (l : Launch) : Launch → Type 0 where
  here : Reach c l l
  next : {m n : Launch} → Reach c l m → Step c m n → Reach c l n
