-- ===== src/Process/Launch/Late.antt =====
-- What docker and start-tee can still make of an error of the extension's server: docker looks at the
-- channel of StartExtension a second time, start-tee does not.
use fce_extension_scaffold.Base.{
  Bytes, str, subst, Bool, true, false, some, ◌≡◌, refl, ap, sym, ◌⊎◌, inl, inr, ◌++◌,
}
use fce_extension_scaffold.Process.Launch.{
  Command, docker, start_tee, sending, sent, MainPc, sleeping, configuring, waiting, ended, Launch,
  launched, send, early, configured, late, Reach, here, next,
}
use fce_extension_scaffold.Process.Launch.Reported.{
  EndedWith, Reported, Reach-Reported, Unaware, Reach-Unaware,
}

-- The goroutine of the server has an error, which it has sent or is about to send.
abbrev pub HasError : Launch → Bytes → Type 0
HasError l e = (l.server ≡ sending e) ⊎ (l.server ≡ sent e)

abbrev pub is_running : MainPc → Bool
is_running (ended x) = false
is_running _ = true

-- A look at the channel is still to come.
abbrev will_look : Command → MainPc → Bool
will_look docker pc = is_running pc
will_look start_tee sleeping = true
will_look start_tee _ = false

-- Some further steps end the command with the error in its text.
abbrev pub CanReport : Command → Launch → Bytes → Type 0
CanReport c l e = (m : Launch) × Reach c l m × EndedWith c m e

Reach-trans : {c : Command} {l m n : Launch} → Reach c l m → Reach c m n → Reach c l n
Reach-trans r here = r
Reach-trans r (next q s) = next (Reach-trans r q) s

report :
    (c : Command) (pc : MainPc) (l : Launch) (e : Bytes)
    → l.main ≡ pc
    → l.channel ≡ some e
    → will_look c pc ≡ true
    → CanReport c l e
report docker sleeping l e at held looks = (_, next here (early e at held), (refl, inl refl))
report docker configuring l e at held looks =
    (_, next (next here (configured at)) (late e refl refl held), (refl, inr (refl, refl)))
report docker waiting l e at held looks =
    (_, next here (late e refl at held), (refl, inr (refl, refl)))
report docker (ended x) l e at held looks = cc
report start_tee sleeping l e at held looks = (_, next here (early e at held), (refl, inl refl))
report start_tee configuring l e at held looks = cc
report start_tee waiting l e at held looks = cc
report start_tee (ended x) l e at held looks = cc

-- An error that has been reported has ended the command.
EndedWith-ended :
    (c : Command) (l : Launch) (e : Bytes) → EndedWith c l e → is_running l.main ≡ false
EndedWith-ended c l e (empty, inl at) = ap is_running at
EndedWith-ended c l e (empty, inr (d, at)) = ap is_running at

-- The channel has the error, at once or after the server's next step.
offered :
    {c : Command} (l : Launch) (e : Bytes)
    → Reported c l
    → HasError l e
    → is_running l.main ≡ true
    → (m : Launch) × Reach c l m × (m.main ≡ l.main) × (m.channel ≡ some e)
offered l e r (inl p) open_ended = (_, next here (send e p (r.on_its_way e p)), refl, refl)
offered {c} l e r (inr p) open_ended = elim (r.kept e p) [
  | inl held ↦ (l, here, refl, held)
  | inr done ↦ cc (EndedWith-ended c l e done)
]

looking :
    {c : Command} (l : Launch) (e : Bytes)
    → Reported c l
    → HasError l e
    → is_running l.main ≡ true
    → will_look c l.main ≡ true
    → CanReport c l e
looking {c} l e r has running looks =
    let (m, reach, same, held) = offered l e r has running in
    let (n, further, done) = report c l.main m e same held looks in
    (n, Reach-trans reach further, done)

texts_differ :
    (e x : Bytes) → ¬ (str "extension server failed to start: " ++ e ≡ str "Error: " ++ x)
unfolding str
texts_differ e x h = cc

Unaware-EndedWith : (m : Launch) (e : Bytes) → Unaware m.main → ¬ EndedWith start_tee m e
Unaware-EndedWith m e u (empty, inl at) =
    let (x, same) = subst Unaware at u in texts_differ e x same
Unaware-EndedWith m e u (empty, inr (d, at)) = cc

-- In a run of docker or of start-tee whose command has not ended, an error that the goroutine of the
-- extension's server has can still end the command with the error in its text; the one exception is
-- start-tee after its look at the channel, and from there no run ends in this way.
pub late_error :
    (c : Command) (e : Bytes) {l : Launch}
    → Reach c launched l
    → HasError l e
    → is_running l.main ≡ true
    → CanReport c l e
      ⊎ ((c ≡ start_tee) × Unaware l.main × ((m : Launch) → Reach c l m → ¬ EndedWith c m e))
late_error docker e {l} r has running = inl (looking l e (Reach-Reported r) has running running)
late_error start_tee e {l} r has running = by_place l.main refl
  where
    missed :
        Unaware l.main
        → (start_tee ≡ start_tee)
          × Unaware l.main
          × ((m : Launch) → Reach start_tee l m → ¬ EndedWith start_tee m e)
    missed u = (refl, u, λ m q. Unaware-EndedWith m e (Reach-Unaware u q))

    by_place :
        (pc : MainPc)
        → l.main ≡ pc
        → CanReport start_tee l e
          ⊎ ((start_tee ≡ start_tee)
              × Unaware l.main
              × ((m : Launch) → Reach start_tee l m → ¬ EndedWith start_tee m e))
    by_place sleeping at =
        inl (looking l e (Reach-Reported r) has running (ap (will_look start_tee) at))
    by_place configuring at = inr (missed (subst Unaware (sym at) tt))
    by_place waiting at = inr (missed (subst Unaware (sym at) tt))
    by_place (ended x) at = cc (ap is_running at)
