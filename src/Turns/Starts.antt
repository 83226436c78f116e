-- ===== src/Turns/Starts.antt =====
-- core/turns.py: the ends of a wake and of a resume keep what holds of their thread and take on no more.
use kinby.Turns.Parked.{turn_origin-start, event}
use kinby.Turns.Moves.{
  release, start_turn, drop_turn, resume_turn, drop_from, release_from, start_from, is_waking,
  resume_kind, resume_by,
}
use kinby.Turns.Local.{IsSound, Keeps, same, live_back, parked_on-none}
use kinby.Turns.Thread.{
  started, Thread, parked_on, Starting, waking, resuming, interrupting, reverting, Claim, ClaimKind,
  parked_origin, Event, Origin, not_routine,
}
use kinby.Common.{
  ℕ, Bool, true, false, Option, none, some, List, ◌∷◌, ◌==◌, nat_eq, ◌≡◌, refl, inl, inr, arith,
  Bool-cases, beq_refl,
}

pub parked_origin-none :
    (events : List Event) → parked_on events ≡ none → parked_origin events ≡ none
unfolding parked_origin
parked_origin-none events free = rw free refl

module _ (t : Thread) (s : IsSound t) where
  released_own :
      (start : Starting)
      → t.starting ≡ some start
      → release_from is_waking start.claim_id t.claim ≡ none
  released_own start e = rw ((s.waits start e).0) (rw (beq_refl start.claim_id) refl)

  started_nothing :
      (start : Starting)
      → parked_on t.events ≡ none
      → (origin : Origin)
      → not_routine (parked_origin (event start.turn_id (started start.origin) ∷ t.events))
        ≡ some origin
      → ⊥
  started_nothing start free origin h =
      let none_parked =
        parked_origin-none (event start.turn_id (started start.origin) ∷ t.events)
          (parked_on-none start.turn_id (started start.origin) t.events refl free) in
      absurd (ground (arith, h, none_parked))

  start_from-Keeps :
      (starting : Option Starting) → t.starting ≡ starting → Keeps t (start_from t starting)
  unfolding release
  start_from-Keeps none e = same s
  start_from-Keeps (some start) e = rw (released_own start e) (record {
    sound = record {
      waits = λ start' h. absurd (ground (arith, h));
      still = λ h. absurd (ground (arith, h));
      known = λ turn h d.
          ground
            (arith, h, turn_origin-start t.events start.turn_id start.origin ((s.waits start e).2));
      resumed = λ id turn origin h. absurd (ground (arith, h));
    };
    fewer = λ origin w. elim w [
      | inl live ↦ inl (rw ((s.waits start e).0) live)
      | inr parked ↦ absurd (started_nothing start (s.waits start e).1 origin parked)
    ];
  })

  pub start_turn-Keeps : Keeps t (start_turn t)
  unfolding start_turn
  start_turn-Keeps = start_from-Keeps t.starting refl

  drop_from-Keeps :
      (starting : Option Starting) → t.starting ≡ starting → Keeps t (drop_from t starting)
  unfolding release
  drop_from-Keeps none e = same s
  drop_from-Keeps (some start) e = rw (released_own start e) (record {
    sound = record {
      waits = λ start' h. absurd (ground (arith, h));
      still = λ h. absurd (ground (arith, h));
      known = s.known;
      resumed = λ id turn origin h. absurd (ground (arith, h));
    };
    fewer =
        λ origin w. elim w [ inl live ↦ inl (live_back t origin s live) | inr parked ↦ inr parked ];
  })

  pub drop_turn-Keeps : Keeps t (drop_turn t)
  unfolding drop_turn
  drop_turn-Keeps = drop_from-Keeps t.starting refl

  resume_kind-Keeps :
      (id : ℕ) (restored : Bool) (kind : ClaimKind)
      → t.claim ≡ some (record { claim_id = id; kind = kind })
      → Keeps t (resume_kind restored t kind)
  resume_kind-Keeps id restored (waking turn origin) e = same s
  resume_kind-Keeps id restored interrupting e = same s
  resume_kind-Keeps id restored reverting e = same s
  resume_kind-Keeps id false (resuming turn origin) e = record {
    sound = record {
      waits = λ start h. absurd (ground (arith, (s.waits start h).0, e));
      still = λ h. absurd (ground (arith, h));
      known = s.known;
      resumed = λ id turn origin h. absurd (ground (arith, h));
    };
    fewer =
        λ origin w. elim w [ inl live ↦ inl (live_back t origin s live) | inr parked ↦ inr parked ];
  }
  resume_kind-Keeps id true (resuming turn origin) e = record {
    sound = record {
      waits = λ start h. absurd (ground (arith, (s.waits start h).0, e));
      still = λ h. absurd (ground (arith, h));
      known = λ running h d. ground (arith, h, s.resumed id turn origin e);
      resumed = λ id turn origin h. absurd (ground (arith, h));
    };
    fewer = λ other w. elim w [ inl live ↦ inl (rw e live) | inr parked ↦ inr parked ];
  }

  resume_by-Keeps :
      (id : ℕ) (restored : Bool) (claim : Option Claim)
      → t.claim ≡ claim
      → Keeps t (resume_by id restored t claim)
  resume_by-Keeps id restored none e = same s
  resume_by-Keeps id restored (some claim) e = elim (Bool-cases (claim.claim_id == id)) [
    | inl own ↦ rw own (resume_kind-Keeps claim.claim_id restored claim.kind e)
    | inr other ↦ rw other (same s)
  ]

  pub resume_turn-Keeps : (id : ℕ) (restored : Bool) → Keeps t (resume_turn id restored t)
  unfolding resume_turn
  resume_turn-Keeps id restored = resume_by-Keeps id restored t.claim refl
