-- ===== src/Client/Framer/Tests.antt =====
-- StdoutFramer on a small output.
use fcitx5_vinput.Base.{◌≡◌, refl, true, [], ◌∷◌, ◌++◌, length, leb}
use fcitx5_vinput.Client.Framer.{Bytes, max_command_line_bytes, new_framer, feed_byte, feed}
use fcitx5_vinput.Client.Framer.Lines.{
  lines_of, feed-lines_of, joined, feed_chunks, feed_chunks-lines_of,
}

abbrev head_bytes : Bytes
head_bytes = 65 ∷ 13 ∷ 10 ∷ 66 ∷ []

abbrev tail_bytes : Bytes
tail_bytes = 67 ∷ 10 ∷ 68 ∷ []

two_lines : (feed new_framer (head_bytes ++ tail_bytes)).1 ≡ (65 ∷ []) ∷ (66 ∷ 67 ∷ []) ∷ []
unfolding feed feed_byte
two_lines = refl

feed_chunks-lines_of_example :
    let r = feed_chunks new_framer (head_bytes ∷ tail_bytes ∷ []) in
    (r.1 ≡ lines_of [] (joined (head_bytes ∷ tail_bytes ∷ [])))
    × (leb (length r.0.pending) max_command_line_bytes ≡ true)
feed_chunks-lines_of_example = feed_chunks-lines_of (head_bytes ∷ tail_bytes ∷ [])

feed-lines_of_example : (feed new_framer head_bytes).1 ≡ lines_of [] head_bytes
feed-lines_of_example = feed-lines_of head_bytes
