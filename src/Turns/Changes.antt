-- ===== src/Turns/Changes.antt =====
-- core/turns.py: the changes that moves are made of keep what holds of a thread and take on no more.
use kinby.Turns.Local.{
  IsSound, Keeps, is_turn_claim, parked_on-none, live_back, same, live_stopped, live_cong,
  claimed_still, inactive_none, waiting_claimed, live_free, not_routine_mono, parked_origin-emit,
  parked_origin-asked, not_routine-some,
}
use kinby.Turns.Parked.{event, turn_origin-emit, turn_origin-append}
use kinby.Turns.Moves.{may_emit, claim_meets, release_from, claim_closing, append}
use kinby.Turns.Thread.{
  Origin, Thread, Claim, Payload, Starting, parks, is_active, asked, RunningTurn, ClaimKind,
  running_origin, interrupting, Closing,
}
use mathlib.Core.Path.{subst}
use kinby.Common.{
  ℕ, Bool, true, false, ◌&&◌, Option, none, some, List, ◌==◌, nat_eq, ◌≡◌, refl, sym, ◌∙◌, inl, inr,
  arith, Bool-cases,
}

module _ (t : Thread) (s : IsSound t) where
  -- A claim that is no turn's takes the place of the thread's, where no turn is starting.
  pub unclaim-Keeps :
      (c : Option Claim)
      → claim_meets is_turn_claim c ≡ false
      → ((start : Starting) → t.starting ≡ some start → ⊥)
      → Keeps t (record t { claim = c })
  unclaim-Keeps c no_turn none_starts = record {
    sound = record {
      waits = λ start h. absurd (none_starts start h);
      still = λ h. absurd (ground (arith, h, no_turn));
      known = s.known;
      resumed = λ id turn origin h. absurd (ground (arith, h, no_turn));
    };
    fewer = λ origin w. elim w [
      | inl live ↦ inl (live_back t origin s (sym (live_free c t.running no_turn) ∙ live))
      | inr parked ↦ inr parked
    ];
  }

  pub release-Keeps :
      (own : ClaimKind → Bool) (id : ℕ) (c : Option Claim)
      → ((kind : ClaimKind) → own kind ≡ true → is_turn_claim kind ≡ false)
      → t.claim ≡ c
      → Keeps t (record t { claim = release_from own id c })
  release-Keeps own id none no_turn e =
      unclaim-Keeps none refl (λ start h. absurd (ground (arith, (s.waits start h).0, e)))
  release-Keeps own id (some claim) no_turn e =
      elim (Bool-cases (own claim.kind && claim.claim_id == id)) [
        | inl mine ↦ rw mine (
            unclaim-Keeps none refl (λ start h.
              absurd (ground (arith, (s.waits start h).0, e, mine, no_turn claim.kind))))
        | inr other ↦ rw other (subst (λ c. Keeps t (record t { claim = c })) e (same s))
      ]

  -- An event that neither starts nor parks a turn.
  pub append-Keeps :
      (id : ℕ) (payload : Payload)
      → may_emit payload ≡ true
      → parks payload ≡ false
      → Keeps t (append id payload t)
  append-Keeps id payload may e = record {
    sound = record {
      waits = λ start h.
          let (claimed, free, fresh) = s.waits start h in
          (
            claimed,
            parked_on-none id payload t.events e free,
            turn_origin-emit t.events id payload start.turn_id may ∙ fresh,
          );
      still = s.still;
      known = λ turn h d.
          turn_origin-append t.events (event id payload) turn.turn_id turn.origin
            (s.known turn h d);
      resumed = λ c turn origin h.
          turn_origin-append t.events (event id payload) turn origin (s.resumed c turn origin h);
    };
    fewer = λ origin w. elim w [
      | inl live ↦ inl live
      | inr parked ↦
          inr (
            not_routine_mono _ _ (λ o. parked_origin-emit id payload t.events o may e) origin
              parked)
    ];
  }

  running_some :
      (turn : RunningTurn) (origin : Origin)
      → t.running ≡ some turn
      → turn.done ≡ false
      → ◌≡◌ {A = Option Origin} (some turn.origin) (some origin)
      → running_origin t.running ≡ some origin
  running_some turn origin runs d e = rw runs (ground (arith, d, e))

  -- The turn that runs parks.
  pub ask-Keeps :
      (turn : RunningTurn)
      → t.running ≡ some turn
      → turn.done ≡ false
      → Keeps t (append turn.turn_id asked t)
  ask-Keeps turn runs d = record {
    sound = record {
      waits = λ start h.
          absurd (ground (arith, claimed_still t s (waiting_claimed t start s h), runs, d));
      still = s.still;
      known = λ turn' h d'.
          turn_origin-append t.events (event turn.turn_id asked) turn'.turn_id turn'.origin
            (s.known turn' h d');
      resumed = λ c turn' origin h.
          turn_origin-append t.events (event turn.turn_id asked) turn' origin
            (s.resumed c turn' origin h);
    };
    fewer = λ origin w. elim w [
      | inl live ↦ inl live
      | inr parked ↦ inl (
          live_back t origin s (
            running_some turn origin runs d (
              sym (s.known turn runs d)
              ∙ sym (parked_origin-asked turn.turn_id t.events)
              ∙ not_routine-some _ origin parked)))
    ];
  }

  -- The turn that runs is changed in what no claim depends on.
  pub turn-Keeps :
      (turn changed : RunningTurn)
      → t.running ≡ some turn
      → changed.turn_id ≡ turn.turn_id
      → changed.origin ≡ turn.origin
      → changed.done ≡ turn.done
      → Keeps t (record t { running = some changed })
  turn-Keeps turn changed runs same_id same_origin same_done = record {
    sound = record {
      waits = s.waits;
      still = λ h. ground (arith, s.still h, runs, same_done);
      known = λ turn' h d. ground (arith, h, d, same_done, same_id, same_origin, s.known turn runs);
      resumed = s.resumed;
    };
    fewer = λ origin w. elim w [
      | inl live ↦ inl (
          live_cong t.claim t.running (some changed)
            (rw runs (ground (arith, same_done, same_origin)))
          ∙ live)
      | inr parked ↦ inr parked
    ];
  }

  -- No turn is running any more.
  pub stop-Keeps :
      (running : Option RunningTurn)
      → is_active running ≡ false
      → Keeps t (record t { running = running })
  stop-Keeps running e = record {
    sound = record {
      waits = s.waits;
      still = λ h. e;
      known = λ turn h d. absurd (ground (arith, h, d, e));
      resumed = s.resumed;
    };
    fewer = λ origin w. elim w [
      | inl live ↦
          inl (live_stopped t.claim t.running running origin (inactive_none running e) live)
      | inr parked ↦ inr parked
    ];
  }

  -- The list of closing turns is not looked at.
  pub closing_too :
      {u : Thread} (closing : List Closing) → Keeps t u → Keeps t (record u { closing = closing })
  closing_too closing k = record {
    sound = record {
      waits = k.sound.waits;
      still = k.sound.still;
      known = k.sound.known;
      resumed = k.sound.resumed;
    };
    fewer = k.fewer;
  }

  -- A claim of an interrupt, where no turn is starting.
  pub claim_closing-Keeps :
      (id turn : ℕ)
      → ((start : Starting) → t.starting ≡ some start → ⊥)
      → Keeps t (claim_closing id turn t)
  claim_closing-Keeps id turn none_starts =
      closing_too _
        (unclaim-Keeps (some (record { claim_id = id; kind = interrupting })) refl none_starts)
