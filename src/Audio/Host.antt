-- ===== src/Audio/Host.antt =====
-- upil_audio/upil_audio.cpp: `hosta_write_data` and `hosta_read_data`, which move the frames of a
-- buffer to and from the sound of the host. What `obtainBuffer` gives is a parameter.
use upil.Common.{
  ℕ, zero, suc, ◌-◌, ◌*◌, ◌/◌, Bool, true, false, Option, some, [], ◌++◌, ◌==◌, if◌then◌else◌,
}
use upil.Common.Memory.{Bytes, ◌>>=◌, read_n, write_n}

-- What `obtainBuffer` gives of a track: room for some frames, TIMED_OUT or WOULD_BLOCK, or an error.
pub data Room : Type 0 where
  room : ℕ → Room
  full broken : Room

-- What it gives of a record: some frames and their bytes, none yet, or an error.
pub data Sound : Type 0 where
  sound : ℕ → Bytes → Sound
  silent failed : Sound

-- The loop of `hosta_write_data`, by what is left of `chances`: the result, true for 0, and the bytes
-- that the track was given. `obtain c n` is what there is for `n` frames with `c` chances left.
unfoldable pub write_loop : (ℕ → ℕ → Room) → ℕ → Bytes → ℕ → ℕ → ℕ → Bytes → Option (Bool × Bytes)
write_loop obtain frame_size bytes frames zero remain out = some (false, out)
write_loop obtain frame_size bytes frames (suc zero) remain out = some (false, out)
write_loop obtain frame_size bytes frames (suc (suc c)) zero out = some (true, out)
write_loop obtain frame_size bytes frames (suc (suc c)) (suc m) out =
    elim (obtain (suc c) (suc m)) [
      | room k ↦ read_n bytes ((frames - suc m) * frame_size) (k * frame_size) >>= λ copied.
          write_loop obtain frame_size bytes frames (suc c) (suc m - k) (out ++ copied)
      | full ↦ write_loop obtain frame_size bytes frames (suc c) (suc m) out
      | broken ↦ some (true, out)
    ]

unfoldable pub hosta_write_data : (ℕ → ℕ → Room) → ℕ → Bytes → ℕ → Option (Bool × Bytes)
unfolding write_loop
hosta_write_data obtain frame_size bytes count =
    let frames = count / frame_size in
    if frames == 0 then some (true, []) else write_loop obtain frame_size bytes frames 100 frames []

-- The loop of `hosta_read_data`: the result, and the buffer.
unfoldable pub read_loop : (ℕ → ℕ → Sound) → ℕ → ℕ → ℕ → ℕ → Bytes → Option (Bool × Bytes)
read_loop obtain frame_size frames zero remain buf = some (false, buf)
read_loop obtain frame_size frames (suc zero) remain buf = some (false, buf)
read_loop obtain frame_size frames (suc (suc c)) zero buf = some (true, buf)
read_loop obtain frame_size frames (suc (suc c)) (suc m) buf = elim (obtain (suc c) (suc m)) [
  | sound k bytes ↦ write_n buf ((frames - suc m) * frame_size) bytes >>= λ buf'.
      read_loop obtain frame_size frames (suc c) (suc m - k) buf'
  | silent ↦ read_loop obtain frame_size frames (suc c) (suc m) buf
  | failed ↦ some (false, buf)
]

unfoldable pub hosta_read_data : (ℕ → ℕ → Sound) → ℕ → Bytes → ℕ → Option (Bool × Bytes)
unfolding read_loop
hosta_read_data obtain frame_size buf count =
    let frames = count / frame_size in
    if frames == 0 then some (true, buf) else read_loop obtain frame_size frames 100 frames buf
