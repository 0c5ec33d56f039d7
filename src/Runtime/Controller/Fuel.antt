-- ===== src/Runtime/Controller/Fuel.antt =====
-- DaemonRuntimeController: the turns of the loop in HandleIncomingAudio.
use Prim.Native.Nat.{ℕ, zero, suc, ◌<◌, ◌+◌}
use fcitx5_vinput.Base.{
  ◌≡◌, refl, sym, ap, subst, ◌∙◌, Option-cases, inl, inr, List, Option, none, some, arith, length,
  length-drop, ℤ,
}
use fcitx5_vinput.Asr.Contract.{SessionApi, Outcome}
use fcitx5_vinput.Runtime.Lifecycle
use fcitx5_vinput.Runtime.AudioBuffer
use fcitx5_vinput.Runtime.Controller.{Controller}
use fcitx5_vinput.Runtime.Controller.Audio.{pop_chunk, pushed, push_chunks}

module _ (G : AudioBuffer.Gains) where
  -- A chunk that is popped leaves fewer samples.
  popped_fewer :
      (n : ℕ) (b : AudioBuffer.Buffer G) (pcm : List ℤ)
      → (AudioBuffer.pop_streaming_chunk G n b).1 ≡ some pcm
      → length (AudioBuffer.pop_streaming_chunk G n b).0.streaming_pcm < length b.streaming_pcm
  unfolding AudioBuffer.pop_streaming_chunk
  popped_fewer n b pcm e = ground (arith, e, length-drop n b.streaming_pcm)

module _ (api : SessionApi) (G : AudioBuffer.Gains) (to_chunk : List ℤ → api.Chunk) where
  pushed_fewer :
      (s : Option ℕ) (r : Lifecycle.Manager api × Outcome) (c : Controller api G) (pcm : List ℤ)
      → (pushed api G to_chunk s r c).1 ≡ some pcm
      → length (pushed api G to_chunk s r c).0.buffer.streaming_pcm < length c.buffer.streaming_pcm
  unfolding pushed pop_chunk
  pushed_fewer s (m, o) c pcm e =
      ground (arith, e, popped_fewer G AudioBuffer.streaming_chunk_samples c.buffer pcm)

  ended :
      (fuel : ℕ) (s : Option ℕ) (c : Controller api G)
      → push_chunks api G to_chunk fuel s none c ≡ c
  unfolding push_chunks
  ended zero s c = refl
  ended (suc fuel) s c = refl

  one_turn_more :
      (fuel : ℕ) (s : Option ℕ) (chunk : Option (List ℤ)) (c : Controller api G)
      → length c.buffer.streaming_pcm < fuel
      → push_chunks api G to_chunk (suc fuel) s chunk c ≡ push_chunks api G to_chunk fuel s chunk c
  unfolding push_chunks
  one_turn_more zero s chunk c l = ground (arith, l)
  one_turn_more (suc fuel) s none c l = refl
  one_turn_more (suc fuel) s (some pcm) c l =
      let r =
        pushed api G to_chunk s (Lifecycle.push_audio api s (to_chunk pcm) "" c.lifecycle) c in
      elim (Option-cases r.1) [
        | inl e ↦
            subst
              (λ o.
                push_chunks api G to_chunk (suc fuel) s o r.0
                ≡ push_chunks api G to_chunk fuel s o r.0)
              (sym e) (ended (suc fuel) s r.0 ∙ sym (ended fuel s r.0))
        | inr (q, e) ↦ one_turn_more fuel s r.1 r.0 (
            omega (
              arith,
              l,
              pushed_fewer s (Lifecycle.push_audio api s (to_chunk pcm) "" c.lifecycle) c q e,
            ))
      ]

  -- With one turn more than there are samples, or with any more, the loop ends in the same state.
  enough_turns :
      (more fuel : ℕ) (s : Option ℕ) (chunk : Option (List ℤ)) (c : Controller api G)
      → length c.buffer.streaming_pcm < fuel
      → push_chunks api G to_chunk (more + fuel) s chunk c
        ≡ push_chunks api G to_chunk fuel s chunk c
  enough_turns zero fuel s chunk c l =
      let e : 0 + fuel ≡ fuel = omega arith in ap (λ n. push_chunks api G to_chunk n s chunk c) e
  enough_turns (suc more) fuel s chunk c l =
      let e : suc more + fuel ≡ suc (more + fuel) = omega arith in
      ap (λ n. push_chunks api G to_chunk n s chunk c) e
      ∙ one_turn_more (more + fuel) s chunk c (omega (arith, l))
      ∙ enough_turns more fuel s chunk c l
