-- ===== src/Audio/Sizes.antt =====
-- upil_audio/upil_audio.cpp: the size that the header of a recorded file tells.
use upil.Common.{
  ℕ, ◌+◌, ◌*◌, ◌/◌, ◌%◌, ◌≤◌, ◌<◌, ◌≡◌, refl, ap, inl, inr, Bool, true, false, ◌&&◌, Option, none,
  some, List, [], ◌∷◌, ◌++◌, ltb, leb, ◌==◌, if◌then◌else◌, length, take, arith, Bool-cases,
  Option-cases, length-append,
}
use upil.Common.Memory.{Bytes}
use upil.Loop.Time.{Timeval}
use upil.Audio.Defs.{Turn, Recorded, Recording, kept, record_loop, file_setup_track, usba_to_file}

abbrev pub read_size : Option Bytes → ℕ
read_size none = 0
read_size (some bytes) = length bytes

-- How many bytes the device gives.
abbrev pub total : List Turn → ℕ
total [] = 0
total (t ∷ turns) = read_size t.read + total turns

-- Each `fwrite` writes all that was read.
abbrev pub all_whole : List Turn → Bool
all_whole [] = true
all_whole (t ∷ turns) = read_size t.read == t.written && all_whole turns

-- `bytes_read` counts the data up to the last that was written whole.
record IsCounted (whole : Bool) (r : Recorded) : Type 0 where
  pub within : r.bytes_read ≤ length r.contents
  pub narrow : r.bytes_read < 4294967296
  pub all : whole ≡ true → r.bytes_read ≡ length r.contents

kept-IsCounted :
    (w : Bool) (timeout : ℕ) (start now : Timeval) (bytes : Bytes) (r : Recorded)
    → length r.contents + length bytes < 4294967296
    → IsCounted w r
    → IsCounted w (kept timeout start bytes now r)
unfolding kept
kept-IsCounted w timeout start now bytes r small c = record {
  within = omega (arith, small, c.within, length-append r.contents bytes);
  narrow = omega arith;
  all = λ e. omega (arith, small, c.all e, length-append r.contents bytes);
}

IsCounted-if :
    (w t : Bool) {a b : Recorded} → IsCounted w a → IsCounted w b → IsCounted w (if t then a else b)
IsCounted-if w true p q = p
IsCounted-if w false p q = q

-- A write that was cut off ends the recording.
cut-IsCounted :
    (w : Bool) (bytes : Bytes) (n : ℕ) (r : Recorded)
    → w ≡ false
    → IsCounted w r
    → IsCounted w (record r { contents = r.contents ++ take n bytes })
cut-IsCounted w bytes n r cut c = record {
  within = omega (arith, c.within, length-append r.contents (take n bytes));
  narrow = c.narrow;
  all = λ e. absurd (ground (arith, e, cut));
}

loop-IsCounted :
    (w : Bool) (timeout : ℕ) (start : Timeval) (turns : List Turn) (r : Recorded)
    → length r.contents + total turns < 4294967296
    → (w ≡ true → all_whole turns ≡ true)
    → IsCounted w r
    → IsCounted w (record_loop timeout start turns r)
unfolding record_loop
loop-IsCounted w timeout start [] r small whole c = c
loop-IsCounted w timeout start (t ∷ turns) r small whole c = elim (Option-cases t.read) [
  | inl failed ↦ rw failed c
  | inr (bytes, e) ↦
      let size : read_size t.read ≡ length bytes = ap read_size e in
      let r' : Recorded = kept timeout start bytes t.now r in
      let c' : IsCounted w r' =
        kept-IsCounted w timeout start t.now bytes r (omega (arith, small, size)) c in
      let small' : length r'.contents + total turns < 4294967296 =
        unfold kept in omega (arith, small, size, length-append r.contents bytes) in
      let rest : IsCounted w (record_loop timeout start turns r') =
        loop-IsCounted w timeout start turns r' small' (λ x. ground (arith, whole x)) c' in
      rw e (elim (Bool-cases (length bytes == t.written)) [
        | inl complete ↦
            rw complete (IsCounted-if w (ltb 0 timeout && leb timeout r'.diff.tv_sec) c' rest)
        | inr cut ↦
            let not_whole : w ≡ false = ground (arith, whole, size, cut) in
            rw cut (cut-IsCounted w bytes t.written r not_whole c)
      ])
]

-- The size in the header.
size_le : (n len : ℕ) → n < 4294967296 → n ≤ len → n / 4 * 4 % 4294967296 ≤ len
size_le n len h le = omega (arith, h, le)

size_covers :
    (w : Bool) (n len : ℕ)
    → n < 4294967296
    → (w ≡ true → n ≡ len)
    → (w && leb (n / 4 * 4 % 4294967296 + 4) len) ≡ false
size_covers false n len h e = refl
size_covers true n len h e =
    let more : len < n / 4 * 4 % 4294967296 + 4 = omega (arith, h, e refl) in ground (arith, more)

-- A recording of less than 4 GiB, with the device and the file opened, ends with a file whose header
-- tells no more data than there is behind it; and if each fwrite wrote all that was read, it leaves
-- out at most three bytes. The audio is not running then.
pub usba_to_file-data_sz :
    (garbage : ℕ) (diff : Timeval) (timeout : ℕ) (start : Timeval) (turns : List Turn)
    → total turns < 4294967296
    → (f : Recording) × (usba_to_file true true garbage diff timeout start turns ≡ (false, some f))
      × (f.header.data_sz ≤ length f.contents)
      × ((all_whole turns && leb (f.header.data_sz + 4) (length f.contents)) ≡ false)
unfolding usba_to_file file_setup_track
usba_to_file-data_sz garbage diff timeout start turns small =
    let begun : Recorded = record { contents = []; bytes_read = 0; diff = diff } in
    let c : IsCounted (all_whole turns) (record_loop timeout start turns begun) =
      loop-IsCounted (all_whole turns) timeout start turns begun (omega (arith, small)) (λ x. x)
        (record { within = omega arith; narrow = omega arith; all = λ x. refl }) in
    (_, refl, size_le _ _ c.narrow c.within, size_covers (all_whole turns) _ _ c.narrow c.all)
