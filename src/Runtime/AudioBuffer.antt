-- ===== src/Runtime/AudioBuffer.antt =====
-- AudioRecordingBuffer (src/daemon/runtime/audio_recording_buffer.h and .cpp), with the gain of
-- src/daemon/audio/audio_utils.cpp. Floating-point numbers are a parameter: their type, the test
-- for 1.0 and the scaling of one sample (multiplied, clamped to 16 bits and truncated).
pub mod Gain
pub mod Conservation
pub mod Tests
use Prim.Native.Nat.{ℕ, ◌+◌}
use fcitx5_vinput.Base.{
  Bool, true, false, not, ◌&&◌, ◌||◌, List, [], ◌∷◌, ◌++◌, map, Option, none, some, if◌then◌else◌,
  length, take, drop, is_empty, ltb, ◌==◌, ℤ,
}

pub record Gains : Type 1 where
  pub Float : Type 0
  pub one : Float
  pub is_one : Float → Bool
  pub scale_sample : Float → ℤ → ℤ

-- `kStreamingChunkSamples`
abbrev pub streaming_chunk_samples : ℕ
streaming_chunk_samples = 800

pub record AudioRecordingBuffer (Float : Type 0) : Type 0 where
  pub gain : Float
  pub is_buffered : Bool
  pub is_activated : Bool
  pub startup_pcm : List ℤ
  pub buffered_pcm : List ℤ
  pub streaming_pcm : List ℤ
  pub total_samples : ℕ

module _ (G : Gains) where
  open G use {Float}

  abbrev pub Buffer : Type 0
  Buffer = AudioRecordingBuffer Float

  -- The member initialisers of the class, the gain 1 being the first.
  abbrev pub new_buffer : Buffer
  new_buffer = record {
    gain = G.one;
    is_buffered = false;
    is_activated = false;
    startup_pcm = [];
    buffered_pcm = [];
    streaming_pcm = [];
    total_samples = 0;
  }

  -- ApplyGainI16
  unfoldable pub apply_gain : List ℤ → Float → List ℤ
  apply_gain pcm gain = if is_empty pcm || G.is_one gain then pcm else map (G.scale_sample gain) pcm

  -- PrepareGainAdjustedInput
  unfoldable pub prepare_gain_adjusted_input : List ℤ → Float → List ℤ
  prepare_gain_adjusted_input pcm gain =
      if G.is_one gain || is_empty pcm then pcm else apply_gain pcm gain

  unfoldable pub reset : Float → Buffer → Buffer
  reset gain b = record {
    gain = gain;
    is_buffered = false;
    is_activated = false;
    startup_pcm = [];
    buffered_pcm = [];
    streaming_pcm = [];
    total_samples = 0;
  }

  unfoldable pub set_gain : Float → Buffer → Buffer
  set_gain gain b = record b { gain = gain }

  unfoldable pub append_activated : List ℤ → Buffer → Buffer
  append_activated pcm b =
      let counted : Buffer = record b { total_samples = b.total_samples + length pcm } in
      let gained = prepare_gain_adjusted_input pcm b.gain in
      if b.is_buffered
      then record counted { buffered_pcm = b.buffered_pcm ++ gained }
      else record counted { streaming_pcm = b.streaming_pcm ++ gained }

  unfoldable pub append_pending : List ℤ → Buffer → Buffer
  append_pending pcm b = record b {
    startup_pcm = b.startup_pcm ++ pcm;
    total_samples = b.total_samples + length pcm;
  }

  -- AppendStartup and Append call each other; both come to this.
  unfoldable pub append_startup : List ℤ → Buffer → Buffer
  append_startup pcm b =
      if is_empty pcm
      then b
      else if b.is_activated
      then append_activated pcm b
      else append_pending pcm b

  unfoldable pub append : List ℤ → Buffer → Buffer
  append pcm b =
      if is_empty pcm
      then b
      else if not b.is_activated
      then append_startup pcm b
      else append_activated pcm b

  unfoldable pub activate : Bool → Buffer → Buffer
  activate is_buffered b =
      let gained = apply_gain b.startup_pcm b.gain in
      let c : Buffer = record b { is_activated = true; is_buffered = is_buffered } in
      if is_empty b.startup_pcm
      then c
      else if is_buffered
      then record c { buffered_pcm = gained; startup_pcm = [] }
      else record c { streaming_pcm = gained; startup_pcm = [] }

  unfoldable pub pop_streaming_chunk : ℕ → Buffer → Buffer × Option (List ℤ)
  pop_streaming_chunk n b =
      if (n == 0) || ltb (length b.streaming_pcm) n
      then (b, none)
      else (record b { streaming_pcm = drop n b.streaming_pcm }, some (take n b.streaming_pcm))

  unfoldable pub drain_streaming_tail : Buffer → Buffer × List ℤ
  drain_streaming_tail b = (record b { streaming_pcm = [] }, b.streaming_pcm)

  unfoldable pub take_buffered_pcm : Buffer → Buffer × List ℤ
  take_buffered_pcm b = (record b { buffered_pcm = [] }, b.buffered_pcm)

  unfoldable pub clear : Buffer → Buffer
  unfolding reset
  clear b = reset G.one b
