-- ===== src/Lib.antt =====
-- fcitx5-vinput, a voice input method for fcitx5: the core of its daemon and of its configuration.
--
-- The daemon (src/daemon) records speech, hands the samples to a recognition session, and returns the
-- text, after a language model has worked on it where the active scene asks for that. Configuration
-- (src/common/config, src/common/scene) says which recognizer and which scenes there are. The files:
--
-- Base       lists, texts, integers, Boolean tests and sets of texts that the rest shares.
-- Text       src/common/utils/string_utils.h: trimming, splitting and joining, on lists of bytes.
-- Asr        src/daemon/asr.
--   Contract         runtime/recognition_contract.h: events, results, descriptors; the virtual methods
--                    of a session are the record `SessionApi`.
--   AsyncSession     runtime/async_recognition_session.cpp: the bounded queue between the capture
--                    callback (push_audio) and the worker thread (run_worker is one section of Run).
--   Reload           runtime/recognition_session_manager.cpp: the backend in effect, the requests to
--                    change it (initialize, synchronize_backend) and the thread that does (run_worker).
--   Vad              vad_segmentation.cpp: CoalesceAndSliceSegments.
-- Runtime    src/daemon/runtime.
--   Machine          runtime_state_machine.cpp: what is accepted in which phase.
--   Lifecycle        session_lifecycle_manager.cpp: who holds a session, and when it is released.
--   AudioBuffer      audio_recording_buffer.cpp, with the gain of ../audio/audio_utils.cpp.
--   Pipeline         recognition_pipeline.cpp: Process, over both calls of PostProcessor.
--   Controller       daemon_runtime_controller.cpp, over the four others: Recording (start, stop and
--                    cancel), Audio (the capture queue, events, FlushDeferredActions), Worker (the
--                    sections of WorkerMain, InjectText), Steps (the thread and its callers).
-- Scene      src/common/scene/postprocess_scene.cpp: the scenes and the operations on them.
-- Config     src/common/config: Types (core_config_types.h), View (core_config_view.cpp), Normalize
--            (core_config_normalize.cpp), Validate (core_config_validate.cpp).
-- Client     src/common/client/client_manager.cpp: Framer is StdoutFramer.
-- Postprocess  src/daemon/postprocess: Candidates is candidate_parser.cpp.
-- Addon      src/addon.
--   PollGate         dbus/status_poll_gate.h.
--   Engine           VinputEngine (core/vinput.h): Presentation (what is shown), Context (the buffer of
--                    committed text), Frontend (the session's states), Daemon (the calls, start and
--                    stop), Replies (calls answered, polls, StatusChanged) and Results (texts: all of
--                    dbus/vinput_dbus.cpp), Keyboard, Releases and KeyEvents
--                    (input/vinput_keyevent.cpp), MenuKeys and Menus (the key handlers of the result
--                    menu and of the command palette), PaletteItems and Palette (the palette's items,
--                    and what a choice does: menu/vinput_menu.cpp), Events (one step for each event).
--   Panel            the items of the palette (menu/palette_command.h) and fcitx' candidate lists.
--
-- A method of a class is a function from the state before to the state after, named as in the source
-- in lower case. A null `shared_ptr` is `none`, an error pointer is part of the result. Threads are
-- schedules: lists of steps, of which each is one critical section, with the calls before it that
-- only its own thread makes; a thread of the program has its position in the state (`worker`).
-- Theorems about schedules hold for all that they do not exclude by a hypothesis. In
-- Runtime.Controller an operation of a caller is one step, and the sections of the worker come
-- between the operations.
--
-- Code outside the repository is a parameter: floating-point numbers (Platform, Gains, Durations,
-- Outside), JSON values, the JSON reader and the JSON printer, the backends behind SessionApi, Backend
-- and Backends, the methods of fcitx keys (Keys), and what the clock, the bus and fcitx with its
-- candidate lists answer during an event (World). So are the calls of PostProcessor, and the models
-- and running adapters that the command palette lists. Nothing is assumed of them. Samples and bytes
-- are integers; `int` values are unbounded integers, which the operations modelled only compare and
-- clamp; the counters of dropped audio stop at 2 ^ 64 - 1 as in the source, and those of PollGate
-- wrap there. Fuel occurs in Asr.Vad.push_slices (the length of the segment, which is enough because
-- each turn takes at least one sample), in Runtime.Controller.Audio.push_chunks (one more than the
-- samples that wait), and in Text.split (one more than the length of the text, which is enough
-- because each turn takes a delimiter away).
--
-- Not modelled: D-Bus, fcitx5 and its candidate lists, the filter and the texts of the command
-- palette, Qt, PipeWire, child processes, networking, logging, translation of messages (a message is
-- its English text), the command-line client, the download of models, the requests to language
-- models, and callers of DaemonRuntimeController on two threads at once.
pub mod Base
pub mod Text
pub mod Asr
pub mod Runtime
pub mod Scene
pub mod Config
pub mod Addon
pub mod Client
pub mod Postprocess
