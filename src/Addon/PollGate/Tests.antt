-- ===== src/Addon/PollGate/Tests.antt =====
-- StatusPollGate: a reply that is accepted, and one that is old.
use fcitx5_vinput.Base.{◌≡◌, refl, true, false, List, [], ◌∷◌}
use fcitx5_vinput.Addon.PollGate.{
  Ticket, StatusPollGate, increment, try_begin, is_active, complete, invalidate, Call, begin_call,
  invalidate_call, complete_call, perform, perform_all,
}
use fcitx5_vinput.Addon.PollGate.Freshness.{is_fresh, try_begin-complete}

abbrev quiet : StatusPollGate
quiet = record { generation = 4; request_id = 7; active = false }

abbrev ticket : Ticket
ticket = record { id = 8; generation = 4 }

abbrev busy : List Call
busy = begin_call ∷ complete_call (record { id = 7; generation = 4 }) ∷ []

accepted : (complete ticket (perform_all busy (try_begin quiet).0)).1 ≡ true
unfolding perform_all perform complete is_active try_begin increment
accepted = refl

outdated : (complete ticket (perform_all (invalidate_call ∷ busy) (try_begin quiet).0)).1 ≡ false
unfolding perform_all perform complete is_active try_begin increment invalidate
outdated = refl

try_begin-complete_example :
    (complete ticket (perform_all busy (try_begin quiet).0)).1 ≡ is_fresh ticket busy
unfolding try_begin increment
try_begin-complete_example = try_begin-complete quiet ticket busy refl refl refl
