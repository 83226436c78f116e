-- ===== src/Examples/Approved.antt =====
-- An approval of the home instance, asked for, approved, read and used.
use kinby.Common.{true, false, any, ◌≡◌, refl, none, some, List, [], ◌∷◌, nat_eq}
use kinby.Common.Keyed.{get, put}
use kinby.Approvals.{Request, requested, answered, approved, use_approval}
use kinby.Approvals.Once.{
  Event, requests, answers, all_happen, is_approval, no_approvals, approved-used,
  approved-needs_user,
}

abbrev request : Request
request = record {
  approval_id = 7;
  call = record { call_id = "c1"; name = "hub_create_instance"; arguments = [] };
}

abbrev events : List Event
events = requests 3 request ∷ answers 7 false ∷ requests 3 request ∷ answers 7 true ∷ []

request_is_approved : approved 7 (all_happen events no_approvals) ≡ some request
unfolding approved get answered requested put
request_is_approved = refl

approved-needs_user_example : any (is_approval 7) events ≡ true
approved-needs_user_example = approved-needs_user 7 events request request_is_approved

approved-used_example :
    approved 7 (all_happen events (use_approval 7 (all_happen events no_approvals))) ≡ none
approved-used_example = approved-used 7 events (all_happen events no_approvals)
