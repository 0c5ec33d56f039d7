-- ===== src/Client/Framer.antt =====
-- StdoutFramer (src/common/client/client_manager.cpp). A byte is a natural number. Feed returns the
-- lines that it hands to `handler`, in order.
pub mod Lines
pub mod Tests
use Prim.Native.Nat.{ℕ}
use fcitx5_vinput.Base.{
  Bool, true, false, not, List, [], ◌∷◌, ◌++◌, if◌then◌else◌, length, leb, ◌==◌,
}

abbrev pub Bytes : Type 0
Bytes = List ℕ

abbrev pub newline : ℕ
newline = 10

abbrev pub carriage_return : ℕ
carriage_return = 13

-- 64 KiB
abbrev pub max_command_line_bytes : ℕ
max_command_line_bytes = 65536

pub record StdoutFramer : Type 0 where
  pub pending : Bytes
  pub overflow : Bool

abbrev pub new_framer : StdoutFramer
new_framer = record { pending = []; overflow = false }

-- One byte: the state after it, and the line that it completes, if any.
unfoldable pub feed_byte : StdoutFramer → ℕ → StdoutFramer × List Bytes
feed_byte f c =
    if c == newline
    then (new_framer, if not f.overflow then f.pending ∷ [] else [])
    else if not (c == carriage_return)
    then (if leb max_command_line_bytes (length f.pending)
        then (record f { overflow = true }, [])
        else (record f { pending = f.pending ++ c ∷ [] }, []))
    else (f, [])

unfoldable pub feed : StdoutFramer → Bytes → StdoutFramer × List Bytes
feed f [] = (f, [])
feed f (c ∷ bytes) =
    let (f', line) = feed_byte f c in let (f'', lines) = feed f' bytes in (f'', line ++ lines)
