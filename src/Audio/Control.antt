-- ===== src/Audio/Control.antt =====
-- upil_audio/upil_audio.cpp: the functions that start and stop the threads. `pthread_create`,
-- `pthread_kill` and what the threads do to the flags meanwhile are parameters.
use upil.Common.{
  ℕ, zero, suc, ◌+◌, Bool, true, false, not, ◌&&◌, Option, none, some, ltb, if◌then◌else◌, length,
}
use upil.Common.Memory.{Bytes}
use upil.Phone.Defs.{text_of}

-- The variables of the file: `s_audio_running`, `s_track_ready`, the four threads, `none` for NULL,
-- and what the two files are. The functions to call at the end are those of upil_sm.c.
pub record Audio : Type 0 where
  pub running : Bool
  pub track_ready : Bool
  pub audio_in : Option ℕ
  pub audio_out : Option ℕ
  pub audio_play : Option ℕ
  pub audio_record : Option ℕ
  pub play_filename : Bytes
  pub record_filename : Bytes
  pub record_timeout : ℕ

-- What `pthread_create` returns, and stores.
pub record Created : Type 0 where
  pub negative : Bool
  pub tid : ℕ

-- `start_sound_in_thread` and the three like it: the result, true for 0.
abbrev pub start_sound_in_thread : Created → Audio → Bool × Audio
start_sound_in_thread c a = (not c.negative, record a { audio_in = some c.tid })

abbrev pub start_sound_out_thread : Created → Audio → Bool × Audio
start_sound_out_thread c a = (not c.negative, record a { audio_out = some c.tid })

abbrev pub start_play_thread : Created → Audio → Bool × Audio
start_play_thread c a = (not c.negative, record a { audio_play = some c.tid })

abbrev pub start_record_thread : Created → Audio → Bool × Audio
start_record_thread c a = (not c.negative, record a { audio_record = some c.tid })

-- `!tid || pthread_kill(tid,0)`; `alive i tid` tells whether that thread is there at try `i`.
abbrev pub is_ended : (ℕ → ℕ → Bool) → ℕ → Option ℕ → Bool
is_ended alive i thread = elim thread [ none ↦ true | some tid ↦ not (alive i tid) ]

-- The loop of `upil_audio_stop`, from try `i` on, by the tries left: how often it sleeps.
unfoldable pub stop_naps : (ℕ → ℕ → Bool) → Audio → ℕ → ℕ → ℕ
stop_naps alive a zero i = i
stop_naps alive a (suc k) i =
    let next = stop_naps alive a k (i + 1) in
    if is_ended alive i a.audio_in
      && (is_ended alive i a.audio_out
          && (is_ended alive i a.audio_play && is_ended alive i a.audio_record))
    then i
    else next

-- `upil_audio_stop`, which returns 0.
unfoldable pub upil_audio_stop : (ℕ → ℕ → Bool) → Audio → ℕ × Audio
unfolding stop_naps
upil_audio_stop alive a = (
  stop_naps alive a 30 0,
  record a {
    running = false;
    audio_in = none;
    audio_out = none;
    audio_play = none;
    audio_record = none;
  },
)

-- The wait of `upil_audio_start`: how often it sleeps, and what `s_track_ready` was found to be then.
unfoldable pub start_naps : (ℕ → Bool) → ℕ → ℕ → ℕ × Bool
start_naps ready zero i = (i, false)
start_naps ready (suc k) i =
    let next = start_naps ready k (i + 1) in if ready i then (i + 1, true) else next

-- `upil_audio_start`: the result, true for 0.
unfoldable pub upil_audio_start :
    Created → Created → (ℕ → Bool) → (ℕ → ℕ → Bool) → Audio → Bool × Audio
unfolding start_naps upil_audio_stop
upil_audio_start created_in created_out ready alive a =
    let (heard, a1) =
      start_sound_in_thread created_in (record a { running = true; track_ready = false }) in
    let waited = start_naps ready 20 0 in
    let (spoken, a2) = start_sound_out_thread created_out (record a1 { track_ready = waited.1 }) in
    if a.running
    then (true, a)
    else if heard
    then (if spoken then (true, a2) else (false, (upil_audio_stop alive a2).1))
    else (false, record a1 { running = false })

-- `upil_audio_play_file`; `none` if the name does not fit the 2048 bytes.
unfoldable pub upil_audio_play_file : Created → Bytes → Audio → Option (Bool × Audio)
upil_audio_play_file created filename a =
    let name = text_of filename in
    let (played, a') =
      start_play_thread created (record a { running = true; play_filename = name }) in
    if a.running
    then some (true, a)
    else if ltb (length name) 2048
    then some (if played then (true, a') else (false, record a' { running = false }))
    else none

unfoldable pub upil_audio_record_file : Created → Bytes → ℕ → Audio → Option (Bool × Audio)
upil_audio_record_file created filename timeout a =
    let name = text_of filename in
    let (recorded, a') =
      start_record_thread created
        (record a { running = true; record_timeout = timeout; record_filename = name }) in
    if a.running
    then some (true, a)
    else if ltb (length name) 2048
    then some (if recorded then (true, a') else (false, record a' { running = false }))
    else none
