-- ===== src/Standby/History.antt =====
-- Which calls return, told by the calls that have returned before: the states are not named.
use phantasm.Base.{
  ℕ, suc, arith, Bool, true, false, ◌&&◌, ◌==◌, List, [], ◌∷◌, ◌≡◌, refl, ◌⊎◌, inl, inr,
  if◌then◌else◌,
}
use phantasm.Base.Except.{Result, ok, err}
use phantasm.Standby.{
  StandbyState, active, standby, sealed, dummy_disclosure, InvalidTransitionError,
  invalid_transition, StandbyStateMachine, initial, trigger_standby, recover,
  enter_dummy_disclosure, seal_dummy,
}
use phantasm.Standby.Trace.{Call, trigger, recovery, dummy, seal, call, at}

-- A machine, and the calls that have returned, the last one first
abbrev pub Played : Type 0
Played = StandbyStateMachine × List Call

abbrev noted : Call → Result InvalidTransitionError (Unit {0}) → List Call → List Call
noted c (ok u) done = c ∷ done
noted c (err e) done = done

abbrev pub play : List Call → Played → Played
play [] (m, done) = (m, done)
play (c ∷ cs) (m, done) = play cs ((call c m).1, noted c (call c m).0 done)

abbrev code : Call → ℕ
code trigger = 0
code recovery = 1
code dummy = 2
code seal = 3

abbrev pub count : Call → List Call → ℕ
count c [] = 0
count c (d ∷ ds) = if code c == code d then suc (count c ds) else count c ds

-- The screens are away if they were put away once more than they were brought back, and the dummy is shown if
-- it was entered once more than it was sealed.
abbrev pub is_allowed : Call → List Call → Bool
is_allowed trigger done = count trigger done == count recovery done
is_allowed recovery done =
    count trigger done == suc (count recovery done) && count dummy done == count seal done
is_allowed dummy done =
    count trigger done == suc (count recovery done) && count dummy done == count seal done
is_allowed seal done = count dummy done == suc (count seal done)

-- What the counts are in a state
abbrev Counted : StandbyState → List Call → Type 0
Counted active done =
    (count trigger done ≡ count recovery done) × (count dummy done ≡ count seal done)
Counted standby done = ⊥
Counted sealed done =
    (count trigger done ≡ suc (count recovery done)) × (count dummy done ≡ count seal done)
Counted dummy_disclosure done =
    (count trigger done ≡ suc (count recovery done)) × (count dummy done ≡ suc (count seal done))

call-Counted :
    (c : Call) (s : StandbyState) (done : List Call)
    → Counted s done
    → Counted (call c (at s)).1.state (noted c (call c (at s)).0 done)
unfolding trigger_standby recover enter_dummy_disclosure seal_dummy
call-Counted trigger active done counted = (omega (arith, counted), omega (arith, counted))
call-Counted trigger standby done counted = absurd counted
call-Counted trigger sealed done counted = counted
call-Counted trigger dummy_disclosure done counted = counted
call-Counted recovery active done counted = counted
call-Counted recovery standby done counted = absurd counted
call-Counted recovery sealed done counted = (omega (arith, counted), omega (arith, counted))
call-Counted recovery dummy_disclosure done counted = counted
call-Counted dummy active done counted = counted
call-Counted dummy standby done counted = absurd counted
call-Counted dummy sealed done counted = (omega (arith, counted), omega (arith, counted))
call-Counted dummy dummy_disclosure done counted = counted
call-Counted seal active done counted = counted
call-Counted seal standby done counted = absurd counted
call-Counted seal sealed done counted = counted
call-Counted seal dummy_disclosure done counted = (omega (arith, counted), omega (arith, counted))

play-Counted :
    (cs : List Call) (m : StandbyStateMachine) (done : List Call)
    → Counted m.state done
    → Counted (play cs (m, done)).0.state (play cs (m, done)).1
play-Counted [] m done counted = counted
play-Counted (c ∷ cs) m done counted =
    play-Counted cs (call c m).1 (noted c (call c m).0 done) (call-Counted c m.state done counted)

answered :
    (c : Call) (s : StandbyState) (done : List Call)
    → Counted s done
    → (((call c (at s)).0 ≡ ok tt) × (is_allowed c done ≡ true))
      ⊎ (((call c (at s)).0 ≡ err (invalid_transition s))
          × ((call c (at s)).1 ≡ at s)
          × (is_allowed c done ≡ false))
unfolding trigger_standby recover enter_dummy_disclosure seal_dummy
answered trigger active done counted = inl (refl, ground (arith, counted.0, counted.1))
answered trigger standby done counted = absurd counted
answered trigger sealed done counted = inr (refl, refl, ground (arith, counted.0, counted.1))
answered trigger dummy_disclosure done counted =
    inr (refl, refl, ground (arith, counted.0, counted.1))
answered recovery active done counted = inr (refl, refl, ground (arith, counted.0, counted.1))
answered recovery standby done counted = absurd counted
answered recovery sealed done counted = inl (refl, ground (arith, counted.0, counted.1))
answered recovery dummy_disclosure done counted =
    inr (refl, refl, ground (arith, counted.0, counted.1))
answered dummy active done counted = inr (refl, refl, ground (arith, counted.0, counted.1))
answered dummy standby done counted = absurd counted
answered dummy sealed done counted = inl (refl, ground (arith, counted.0, counted.1))
answered dummy dummy_disclosure done counted =
    inr (refl, refl, ground (arith, counted.0, counted.1))
answered seal active done counted = inr (refl, refl, ground (arith, counted.0, counted.1))
answered seal standby done counted = absurd counted
answered seal sealed done counted = inr (refl, refl, ground (arith, counted.0, counted.1))
answered seal dummy_disclosure done counted = inl (refl, ground (arith, counted.0, counted.1))

-- After any calls on a new machine, whether they returned or raised, the calls that have returned decide what the next
-- call does. It returns if it may: the screens may be put away if they were put away as often as they were
-- brought back; they may be brought back, and the dummy entered, if they were put away once more and the dummy
-- was entered as often as it was sealed; and the dummy may be sealed if it was entered once more. Otherwise the call
-- raises with the state of the machine, and leaves it.
pub call_returns_by_history :
    (cs : List Call) (c : Call)
    → let (m, done) = play cs (initial, []) in
      (((call c m).0 ≡ ok tt) × (is_allowed c done ≡ true))
      ⊎ (((call c m).0 ≡ err (invalid_transition m.state))
          × ((call c m).1 ≡ m)
          × (is_allowed c done ≡ false))
unfolding initial
call_returns_by_history cs c =
    let (m, done) = play cs (initial, []) in
    answered c m.state done (play-Counted cs initial [] (refl, refl))
