-- ===== src/Addon/PollGate.antt =====
-- StatusPollGate (src/addon/dbus/status_poll_gate.h). The two counters are 64 bits wide.
pub mod Freshness
pub mod Tests
use Prim.Native.Nat.{ℕ, suc}
use fcitx5_vinput.Base.{
  Bool, true, false, ◌&&◌, List, [], ◌∷◌, Option, none, some, if◌then◌else◌, ◌==◌,
}

pub record Ticket : Type 0 where
  pub id : ℕ
  pub generation : ℕ

pub record StatusPollGate : Type 0 where
  pub generation : ℕ
  pub request_id : ℕ
  pub active : Bool

-- 2 ^ 64 - 1
abbrev pub max_counter : ℕ
max_counter = 18446744073709551615

-- `++` on a 64-bit counter.
unfoldable pub increment : ℕ → ℕ
increment n = if n == max_counter then 0 else suc n

unfoldable pub try_begin : StatusPollGate → StatusPollGate × Option Ticket
try_begin g = if g.active then (g, none) else (
  record g { active = true; request_id = increment g.request_id },
  some (record { id = increment g.request_id; generation = g.generation }),
)

unfoldable pub invalidate : StatusPollGate → StatusPollGate
invalidate g = record g { generation = increment g.generation }

unfoldable pub is_active : Ticket → StatusPollGate → Bool
is_active t g = g.active && (g.request_id == t.id)

unfoldable pub complete : Ticket → StatusPollGate → StatusPollGate × Bool
unfolding is_active
complete t g =
    if is_active t g
    then (record g { active = false }, t.generation == g.generation)
    else (g, false)

unfoldable pub cancel : StatusPollGate → StatusPollGate
cancel g = record g {
  active = false;
  generation = increment g.generation;
  request_id = increment g.request_id;
}

pub data Call : Type 0 where
  begin_call invalidate_call cancel_call : Call
  complete_call : Ticket → Call

unfoldable pub perform : Call → StatusPollGate → StatusPollGate
perform begin_call g = (try_begin g).0
perform invalidate_call g = invalidate g
perform cancel_call g = cancel g
perform (complete_call t) g = (complete t g).0

unfoldable pub perform_all : List Call → StatusPollGate → StatusPollGate
perform_all [] g = g
perform_all (c ∷ cs) g = perform_all cs (perform c g)
