-- ===== src/Process/Launch/Reported.antt =====
-- What becomes of an error of the extension's server.
use fce_extension_scaffold.Base.{
  Bytes, str, subst, Option, none, some, ◌≡◌, ◌≢◌, refl, ◌⊎◌, inl, inr, ◌++◌, arith,
}
use fce_extension_scaffold.Process.Launch.{
  Command, docker, start_tee, ServerPc, listening, sending, sent, MainPc, sleeping, configuring,
  waiting, ended, Launch, launched, Step, fail, send, early, poll, configured, not_configured, late,
  signal, Reach, here, next,
}

-- The command has taken the error from the channel and ended with its text.
abbrev pub EndedWith : Command → Launch → Bytes → Type 0
EndedWith c l e =
    (l.channel ≡ none)
    × ((l.main ≡ ended (some (str "extension server failed to start: " ++ e)))
        ⊎ ((c ≡ docker) × (l.main ≡ ended (some (str "extension server error: " ++ e)))))

-- Where the error of the server is: on its way to a channel that is free, in the channel, or in the
-- text with which the command has ended.
pub record Reported (c : Command) (l : Launch) : Type 0 where
  pub none_yet : l.server ≡ listening → l.channel ≡ none
  pub on_its_way : (e : Bytes) → l.server ≡ sending e → l.channel ≡ none
  pub kept : (e : Bytes) → l.server ≡ sent e → (l.channel ≡ some e) ⊎ EndedWith c l e

-- A channel that holds an error holds the one that was sent.
held :
    {c : Command} {l : Launch} (e : Bytes) → Reported c l → l.channel ≡ some e → l.server ≡ sent e
held {l = l} e r h = from l.server refl
  where
    from : (s : ServerPc) → l.server ≡ s → l.server ≡ sent e
    from listening p = cc (r.none_yet p)
    from (sending x) p = cc (r.on_its_way x p)
    from (sent x) p = elim (r.kept x p) [ inl q ↦ cc | inr q ↦ cc (q.0) ]

-- A step of main that leaves the channel alone and does not come from an end.
moves :
    {c : Command} {l : Launch} (pc : MainPc)
    → ((x : Option Bytes) → l.main ≢ ended x)
    → Reported c l
    → Reported c (record l { main = pc })
moves pc open_ended r = record {
  none_yet = r.none_yet;
  on_its_way = r.on_its_way;
  kept = λ e p. elim (r.kept e p) [
    | inl q ↦ inl q
    | inr q ↦ elim (q.1) [ inl x ↦ absurd (open_ended _ x) | inr x ↦ absurd (open_ended _ (x.1)) ]
  ];
}

-- A step of main that takes the error from the channel.
takes :
    {c : Command} {l : Launch} (pc : MainPc) (e : Bytes)
    → Reported c l
    → l.channel ≡ some e
    → EndedWith c (record l { channel = none; main = pc }) e
    → Reported c (record l { channel = none; main = pc })
takes {c} {l} pc e r h done =
    let s : l.server ≡ sent e = held e r h in
    record {
      none_yet = λ p. refl;
      on_its_way = λ x p. refl;
      kept = λ x p. let same : e ≡ x = ground arith in inr (rw (← same) done);
    }

Step-Reported : {c : Command} {l m : Launch} → Reported c l → Step c l m → Reported c m
Step-Reported r (fail error p) = record {
  none_yet = λ q. r.none_yet p;
  on_its_way = λ e q. r.none_yet p;
  kept = λ e q. cc;
}
Step-Reported r (send error p h) = record {
  none_yet = λ q. cc;
  on_its_way = λ e q. cc;
  kept = λ e q. inl (ground arith);
}
Step-Reported r (early error p h) = takes _ error r h (refl, inl refl)
Step-Reported r (poll p h) = moves _ (λ x e. cc) r
Step-Reported r (configured p) = moves _ (λ x e. cc) r
Step-Reported r (not_configured error p) = moves _ (λ x e. cc) r
Step-Reported r (late error d p h) = takes _ error r h (refl, inr (d, refl))
Step-Reported r (signal p) = moves _ (λ x e. cc) r

-- In every run of docker and of start-tee, as long as the goroutine of the extension's server has its
-- error, the channel is free to take it, and after that the error is in the channel, where start-tee may
-- leave it, or in the text with which the command has ended.
pub Reach-Reported : {c : Command} {l : Launch} → Reach c launched l → Reported c l
Reach-Reported here = record { none_yet = λ p. refl; on_its_way = λ e p. refl; kept = λ e p. cc }
Reach-Reported (next r s) = Step-Reported (Reach-Reported r) s

-- What start-tee can still come to after its one look at the channel.
abbrev pub Unaware : MainPc → Type 0
Unaware sleeping = ⊥
Unaware configuring = Unit
Unaware waiting = Unit
Unaware (ended none) = Unit
Unaware (ended (some text)) = (e : Bytes) × (text ≡ str "Error: " ++ e)

Step-Unaware : {l m : Launch} → Step start_tee l m → Unaware l.main → Unaware m.main
Step-Unaware (fail error p) u = u
Step-Unaware (send error p h) u = u
Step-Unaware (early error p h) u = absurd (subst Unaware p u)
Step-Unaware (poll p h) u = tt
Step-Unaware (configured p) u = tt
Step-Unaware (not_configured error p) u = (error, refl)
Step-Unaware (late error d p h) u = cc
Step-Unaware (signal p) u = tt

-- Once start-tee has found the channel empty, it never ends with an error of the extension's server,
-- even if one comes.
pub Reach-Unaware : {l m : Launch} → Unaware l.main → Reach start_tee l m → Unaware m.main
Reach-Unaware u here = u
Reach-Unaware u (next r s) = Step-Unaware s (Reach-Unaware u r)
