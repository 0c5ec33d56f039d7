-- ===== src/Runtime/AudioBuffer/Tests.antt =====
-- AudioRecordingBuffer with whole gains, and its theorem on a recording in chunks.
use Prim.Native.Nat.{ℕ, ◌*◌}
use fcitx5_vinput.Base.{
  ◌≡◌, refl, true, false, List, [], ◌∷◌, ◌++◌, map, length, ◌==◌, ℤ, pos, negsuc,
}
use fcitx5_vinput.Runtime.AudioBuffer.{
  Gains, Buffer, apply_gain, prepare_gain_adjusted_input, reset, append_activated, append_pending,
  append_startup, append, activate, pop_streaming_chunk,
}
use fcitx5_vinput.Runtime.AudioBuffer.Gain.{gained_sample}
use fcitx5_vinput.Runtime.AudioBuffer.Conservation.{
  Use, feed_startup, feed, start, pop_chunk, fed, use_once, use_all, waiting_samples, use_all-reset,
}

times : ℕ → ℤ → ℤ
times n (pos m) = pos (n * m)
times n (negsuc m) = negsuc m

abbrev whole : Gains
whole = record { Float = ℕ; one = 1; is_one = λ g. g == 1; scale_sample = times }

abbrev old : Buffer whole
old = record {
  gain = 5;
  is_buffered = true;
  is_activated = true;
  startup_pcm = [];
  buffered_pcm = pos 9 ∷ [];
  streaming_pcm = [];
  total_samples = 1;
}

abbrev recording : List Use
recording =
    feed_startup (pos 1 ∷ pos 2 ∷ [])
    ∷ start
    ∷ feed (pos 3 ∷ [])
    ∷ pop_chunk 2
    ∷ feed (pos 4 ∷ [])
    ∷ []

returned : (use_all whole false recording (reset whole 2 old)).1 ≡ pos 2 ∷ pos 4 ∷ []
unfolding use_all use_once apply_gain prepare_gain_adjusted_input reset append_activated
    append_pending append_startup append activate pop_streaming_chunk times
returned = refl

use_all-reset_example :
    ((use_all whole false recording (reset whole 2 old)).1
        ++ waiting_samples whole (use_all whole false recording (reset whole 2 old)).0
      ≡ map (gained_sample whole 2) (fed recording))
    × ((use_all whole false recording (reset whole 2 old)).0.total_samples ≡ length (fed recording))
use_all-reset_example = use_all-reset whole false recording 2 old
