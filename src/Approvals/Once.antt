-- ===== src/Approvals/Once.antt =====
-- What HomeApprovals of hub/approvals.py lets a client use: what the user approved, and that once.
use kinby.Common.{
  ℕ, Bool, true, false, not, ◌≡◌, refl, none, some, List, [], ◌∷◌, ◌==◌, ◌&&◌, nat_eq, keep, any,
  all, arith, inl, inr, Bool-cases, Option-cases, eq_of_beq,
}
use kinby.Common.Keyed.{Dict, get, put, remove}
use kinby.Approvals.{
  Request, Witnessed, HomeApprovals, is_used, witness, set_approved, requested, of_other_turn,
  turn_closed, answered, approve, usable, approved, use_approval,
}

pub data Event : Type 0 where
  requests : ℕ → Request → Event
  closes : ℕ → Event
  answers : ℕ → Bool → Event
  approves : ℕ → Request → Event
  uses : ℕ → Event

abbrev pub happens : Event → HomeApprovals → HomeApprovals
happens (requests turn request) s = requested turn request s
happens (closes turn) s = turn_closed turn s
happens (answers id yes_it_is) s = answered id yes_it_is s
happens (approves turn request) s = approve turn request s
happens (uses id) s = use_approval id s

abbrev pub all_happen : List Event → HomeApprovals → HomeApprovals
all_happen [] s = s
all_happen (event ∷ events) s = all_happen events (happens event s)

module _ (id : ℕ) (p : Witnessed → Bool) where
  abbrev is_other : ℕ × Witnessed → Bool
  is_other (j, w) = not (j == id && p w)

  -- Nothing under the id is so.
  abbrev Lacks : Dict ℕ Witnessed → Type 0
  Lacks d = all is_other d ≡ true

  Lacks-put :
      (j : ℕ) (w : Witnessed) (d : Dict ℕ Witnessed)
      → is_other (j, w) ≡ true
      → Lacks d
      → Lacks (put j w d)
  unfolding put
  Lacks-put j w [] o h = ground (arith, o)
  Lacks-put j w ((i, v) ∷ d) o h = ground (arith, o, h, Lacks-put j w d o, eq_of_beq i j)

  Lacks-keep : (q : ℕ × Witnessed → Bool) (d : Dict ℕ Witnessed) → Lacks d → Lacks (keep q d)
  Lacks-keep q [] h = refl
  Lacks-keep q ((i, v) ∷ d) h = ground (arith, h, Lacks-keep q d)

  Lacks-remove : (j : ℕ) (d : Dict ℕ Witnessed) → Lacks d → Lacks (remove j d)
  unfolding remove
  Lacks-remove j [] h = refl
  Lacks-remove j ((i, v) ∷ d) h = ground (arith, h, Lacks-remove j d)

  Lacks-removed : (d : Dict ℕ Witnessed) → Lacks (remove id d)
  unfolding remove
  Lacks-removed [] = refl
  Lacks-removed ((i, v) ∷ d) = ground (arith, Lacks-removed d)

  Lacks-get : (d : Dict ℕ Witnessed) (w : Witnessed) → Lacks d → get id d ≡ some w → p w ≡ false
  unfolding get
  Lacks-get [] w h e = absurd (cc e)
  Lacks-get ((i, v) ∷ d) w h e = grind (arith, h, e, Lacks-get d w)

  Lacks-witness :
      (j : ℕ) (w : Witnessed) (d : Dict ℕ Witnessed)
      → is_other (j, w) ≡ true
      → Lacks d
      → Lacks (witness j w d)
  unfolding witness
  Lacks-witness j w d o h = ground (arith, h, Lacks-put j w d o h, Option-cases (get j d))

  Lacks-set_approved :
      (j : ℕ) (d : Dict ℕ Witnessed) → (j == id) ≡ false → Lacks d → Lacks (set_approved j d)
  unfolding set_approved
  Lacks-set_approved j d ne h = elim (Option-cases (get j d)) [
    | inl gone ↦ rw (gone, set_approved) h
    | inr (w, found) ↦ rw (found, set_approved) (Lacks-put j _ d (rw ne refl) h)
  ]

-- The id was used, and what was known of it is gone.
pub record IsGone (id : ℕ) (s : HomeApprovals) : Type 0 where
  pub gone : Lacks id (λ w. true) s.witnessed
  pub kept_used : is_used id s ≡ true

not_used :
    (id other : ℕ) (s : HomeApprovals)
    → is_used id s ≡ true
    → is_used other s ≡ false
    → not ((other == id) && true) ≡ true
not_used id other s u f = elim (Bool-cases (other == id)) [
  | inl same ↦ absurd (cc (eq_of_beq other id same, u, f))
  | inr ne ↦ rw ne refl
]

Gone-set_approved :
    (id other : ℕ) (d : Dict ℕ Witnessed)
    → Lacks id (λ w. true) d
    → Lacks id (λ w. true) (set_approved other d)
unfolding set_approved
Gone-set_approved id other d h = elim (Option-cases (get other d)) [
  | inl none_there ↦ rw (none_there, set_approved) h
  | inr (w, found) ↦ elim (Bool-cases (other == id)) [
    | inl same ↦ absurd (cc (Lacks-get id (λ w. true) d w h (rw (← eq_of_beq other id same) found)))
    | inr ne ↦ Lacks-set_approved id (λ w. true) other d ne h
  ]
]

IsGone-happens :
    (id : ℕ) (event : Event) (s : HomeApprovals) → IsGone id s → IsGone id (happens event s)
unfolding requested turn_closed answered approve use_approval
IsGone-happens id (requests turn request) s g = elim (Bool-cases (is_used request.approval_id s)) [
  | inl used ↦ rw used g
  | inr fresh ↦ rw fresh (record {
    gone =
        Lacks-witness id (λ w. true) request.approval_id _ s.witnessed
          (not_used id request.approval_id s g.kept_used fresh) g.gone;
    kept_used = g.kept_used;
  })
]
IsGone-happens id (closes turn) s g = record {
  gone = Lacks-keep id (λ w. true) (of_other_turn turn) s.witnessed g.gone;
  kept_used = g.kept_used;
}
IsGone-happens id (answers other false) s g = g
IsGone-happens id (answers other true) s g = record {
  gone = Gone-set_approved id other s.witnessed g.gone;
  kept_used = g.kept_used;
}
IsGone-happens id (approves turn request) s g = elim (Bool-cases (is_used request.approval_id s)) [
  | inl used ↦ rw used g
  | inr fresh ↦ rw fresh (record {
    gone = Gone-set_approved id request.approval_id _ (
        Lacks-witness id (λ w. true) request.approval_id _ s.witnessed
          (not_used id request.approval_id s g.kept_used fresh) g.gone);
    kept_used = g.kept_used;
  })
]
IsGone-happens id (uses other) s g = record {
  gone = Lacks-remove id (λ w. true) other s.witnessed g.gone;
  kept_used = ground (arith, g.kept_used);
}

-- Whether the user approves the id by the event.
abbrev pub is_approval : ℕ → Event → Bool
is_approval id (answers other approves_it) = approves_it && (other == id)
is_approval id (approves turn request) = request.approval_id == id
is_approval id _ = false

Unapproved-happens :
    (id : ℕ) (event : Event) (s : HomeApprovals)
    → is_approval id event ≡ false
    → Lacks id (λ w. w.approved) s.witnessed
    → Lacks id (λ w. w.approved) (happens event s).witnessed
unfolding requested turn_closed answered approve use_approval
Unapproved-happens id (requests turn request) s n h =
    elim (Bool-cases (is_used request.approval_id s)) [
      | inl used ↦ rw used h
      | inr fresh ↦
          rw fresh
            (Lacks-witness id (λ w. w.approved) request.approval_id _ s.witnessed (ground arith) h)
    ]
Unapproved-happens id (closes turn) s n h =
    Lacks-keep id (λ w. w.approved) (of_other_turn turn) s.witnessed h
Unapproved-happens id (answers other false) s n h = h
Unapproved-happens id (answers other true) s n h =
    Lacks-set_approved id (λ w. w.approved) other s.witnessed (ground (arith, n)) h
Unapproved-happens id (approves turn request) s n h =
    elim (Bool-cases (is_used request.approval_id s)) [
      | inl used ↦ rw used h
      | inr fresh ↦ rw fresh (
          Lacks-set_approved id (λ w. w.approved) request.approval_id _ n
            (Lacks-witness id (λ w. w.approved) request.approval_id _ s.witnessed (ground arith) h))
    ]
Unapproved-happens id (uses other) s n h = Lacks-remove id (λ w. w.approved) other s.witnessed h

usable-Lacks :
    (id : ℕ) (d : Dict ℕ Witnessed) → Lacks id (λ w. w.approved) d → usable (get id d) ≡ none
unfolding usable
usable-Lacks id d h = elim (Option-cases (get id d)) [
  | inl gone ↦ rw gone refl
  | inr (w, found) ↦ rw (found, Lacks-get id (λ w. w.approved) d w h found) refl
]

Gone-approved : (id : ℕ) (d : Dict ℕ Witnessed) → Lacks id (λ w. true) d → get id d ≡ none
Gone-approved id d h = elim (Option-cases (get id d)) [
  | inl gone ↦ gone
  | inr (w, found) ↦ absurd (cc (Lacks-get id (λ w. true) d w h found))
]

IsGone-all_happen :
    (id : ℕ) (events : List Event) (s : HomeApprovals)
    → IsGone id s
    → IsGone id (all_happen events s)
IsGone-all_happen id [] s g = g
IsGone-all_happen id (event ∷ events) s g =
    IsGone-all_happen id events (happens event s) (IsGone-happens id event s g)

Unapproved-all_happen :
    (id : ℕ) (events : List Event) (s : HomeApprovals)
    → any (is_approval id) events ≡ false
    → Lacks id (λ w. w.approved) s.witnessed
    → Lacks id (λ w. w.approved) (all_happen events s).witnessed
Unapproved-all_happen id [] s n h = h
Unapproved-all_happen id (event ∷ events) s n h =
    Unapproved-all_happen id events (happens event s) (ground (arith, n))
      (Unapproved-happens id event s (ground (arith, n)) h)

-- What HomeApprovals starts with.
abbrev pub no_approvals : HomeApprovals
no_approvals = record { witnessed = []; used = [] }

-- An approval that was used can never be used again, whatever the instance and the client send
-- after.
pub approved-used :
    (id : ℕ) (events : List Event) (s : HomeApprovals)
    → approved id (all_happen events (use_approval id s)) ≡ none
unfolding approved usable use_approval
approved-used id events s =
    let g =
      IsGone-all_happen id events (use_approval id s)
        (record { gone = Lacks-removed id (λ w. true) s.witnessed; kept_used = ground arith }) in
    rw (Gone-approved id _ g.gone) refl

-- From the start of the hub, an approval can be used only if the user approved that id, in an
-- answer or a reply that the hub relayed.
pub approved-needs_user :
    (id : ℕ) (events : List Event) (request : Request)
    → approved id (all_happen events no_approvals) ≡ some request
    → any (is_approval id) events ≡ true
unfolding approved
approved-needs_user id events request e = elim (Bool-cases (any (is_approval id) events)) [
  | inl by_user ↦ by_user
  | inr never ↦
      absurd (cc (usable-Lacks id _ (Unapproved-all_happen id events no_approvals never refl), e))
]
