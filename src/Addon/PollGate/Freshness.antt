-- ===== src/Addon/PollGate/Freshness.antt =====
-- StatusPollGate accepts a reply exactly when nothing has made it old.
use Prim.Native.Nat.{ℕ, suc, ◌+◌}
use fcitx5_vinput.Base.{
  ◌≡◌, Bool, true, false, not, ◌&&◌, List, [], ◌∷◌, some, arith, ◌⊎◌, length, ltb, leb, ◌==◌,
}
use fcitx5_vinput.Addon.PollGate.{
  Ticket, StatusPollGate, max_counter, increment, try_begin, invalidate, is_active, complete,
  cancel, Call, begin_call, invalidate_call, cancel_call, complete_call, perform, perform_all,
}

-- Whether a call makes the reply to a ticket old.
unfoldable pub outdates : Ticket → Call → Bool
outdates t begin_call = false
outdates t invalidate_call = true
outdates t cancel_call = true
outdates t (complete_call u) = u.id == t.id

unfoldable pub is_fresh : Ticket → List Call → Bool
is_fresh t [] = true
is_fresh t (c ∷ cs) = not (outdates t c) && is_fresh t cs

-- The request of the ticket runs, and no newer status is known.
record IsRunning (t : Ticket) (g : StatusPollGate) : Type 0 where
  on : g.active ≡ true
  same_id : g.request_id ≡ t.id
  same_generation : g.generation ≡ t.generation

-- The reply to the ticket is old.
record IsOld (t : Ticket) (g : StatusPollGate) : Type 0 where
  later_id : leb t.id g.request_id ≡ true
  later_generation : leb t.generation g.generation ≡ true
  gone :
      (g.active ≡ false) ⊎ ((ltb t.id g.request_id ≡ true) ⊎ (ltb t.generation g.generation ≡ true))

-- No counter wraps in `n` calls.
record IsLow (n : ℕ) (g : StatusPollGate) : Type 0 where
  low_id : leb (g.request_id + n) max_counter ≡ true
  low_generation : leb (g.generation + n) max_counter ≡ true

perform-IsLow : (n : ℕ) (c : Call) (g : StatusPollGate) → IsLow (suc n) g → IsLow n (perform c g)
unfolding perform try_begin invalidate cancel complete increment
perform-IsLow n begin_call g l = ground (arith, l.low_id, l.low_generation)
perform-IsLow n invalidate_call g l = ground (arith, l.low_id, l.low_generation)
perform-IsLow n cancel_call g l = ground (arith, l.low_id, l.low_generation)
perform-IsLow n (complete_call u) g l = ground (arith, l.low_id, l.low_generation)

perform-IsOld :
    (n : ℕ) (t : Ticket) (c : Call) (g : StatusPollGate)
    → IsLow (suc n) g
    → IsOld t g
    → IsOld t (perform c g)
unfolding perform try_begin invalidate cancel complete is_active increment
perform-IsOld n t begin_call g l o = ground (arith, l.low_id, o)
perform-IsOld n t invalidate_call g l o = ground (arith, l.low_generation, o)
perform-IsOld n t cancel_call g l o = ground (arith, l.low_id, l.low_generation, o)
perform-IsOld n t (complete_call u) g l o = ground (arith, o)

outdated-IsOld :
    (n : ℕ) (t : Ticket) (c : Call) (g : StatusPollGate)
    → IsLow (suc n) g
    → IsRunning t g
    → outdates t c ≡ true
    → IsOld t (perform c g)
unfolding perform invalidate cancel complete is_active increment outdates
outdated-IsOld n t begin_call g l r e = ground (arith, e)
outdated-IsOld n t invalidate_call g l r e = ground (arith, l.low_generation, r)
outdated-IsOld n t cancel_call g l r e = ground (arith, l.low_id, l.low_generation, r)
outdated-IsOld n t (complete_call u) g l r e = ground (arith, e, r)

kept-IsRunning :
    (t : Ticket) (c : Call) (g : StatusPollGate)
    → IsRunning t g
    → outdates t c ≡ false
    → IsRunning t (perform c g)
unfolding perform try_begin complete is_active outdates
kept-IsRunning t begin_call g r e = ground (arith, r)
kept-IsRunning t invalidate_call g r e = ground (arith, e)
kept-IsRunning t cancel_call g r e = ground (arith, e)
kept-IsRunning t (complete_call u) g r e = ground (arith, r, e)

old-complete :
    (t : Ticket) (cs : List Call) (g : StatusPollGate)
    → IsLow (length cs) g
    → IsOld t g
    → (complete t (perform_all cs g)).1 ≡ false
unfolding perform_all complete is_active
old-complete t [] g l o = ground (arith, o)
old-complete t (c ∷ cs) g l o =
    old-complete t cs (perform c g) (perform-IsLow (length cs) c g l)
      (perform-IsOld (length cs) t c g l o)

running-complete :
    (t : Ticket) (cs : List Call) (g : StatusPollGate)
    → IsLow (length cs) g
    → IsRunning t g
    → (complete t (perform_all cs g)).1 ≡ is_fresh t cs
unfolding perform_all complete is_active is_fresh
running-complete t [] g l r = ground (arith, r)
running-complete t (c ∷ cs) g l r =
    let l' = perform-IsLow (length cs) c g l in
    ground (
      arith,
      λ (e : outdates t c ≡ true).
          old-complete t cs (perform c g) l' (outdated-IsOld (length cs) t c g l r e),
      λ (e : outdates t c ≡ false).
          running-complete t cs (perform c g) l' (kept-IsRunning t c g r e),
    )

begun-IsRunning :
    (g : StatusPollGate) (t : Ticket) → (try_begin g).1 ≡ some t → IsRunning t (try_begin g).0
unfolding try_begin
begun-IsRunning g t e = ground (arith, e)

-- While neither counter can wrap, the reply to a request that has begun is accepted exactly when,
-- since then, the gate was neither invalidated nor cancelled and no reply to this request came.
pub try_begin-complete :
    (g : StatusPollGate) (t : Ticket) (cs : List Call)
    → leb (g.request_id + suc (length cs)) max_counter ≡ true
    → leb (g.generation + suc (length cs)) max_counter ≡ true
    → (try_begin g).1 ≡ some t
    → (complete t (perform_all cs (try_begin g).0)).1 ≡ is_fresh t cs
unfolding perform
try_begin-complete g t cs i n e =
    running-complete t cs (try_begin g).0
      (perform-IsLow (length cs) begin_call g (record { low_id = i; low_generation = n }))
      (begun-IsRunning g t e)
