-- ===== src/Audio/Frames.antt =====
-- upil_audio/upil_audio.cpp: the frames that come to the host's track.
use upil.Common.{
  ℕ, zero, suc, ◌+◌, ◌-◌, ◌*◌, ◌/◌, ◌≤◌, ◌≡◌, ◌≢◌, refl, ap, ◌∙◌, inl, inr, Bool, true, false, not,
  ◌&&◌, Option, some, [], ◌∷◌, ◌++◌, leb, ◌==◌, if◌then◌else◌, length, take, drop, arith,
  Bool-cases,
}
use upil.Common.Memory.{Bytes, read_n}
use native.Mathlib.Nat.{div-add-mod'}
use upil.Audio.Host.{Room, room, full, broken, write_loop, hosta_write_data}

-- The documented behaviour of `obtainBuffer`: no more frames than were asked for.
abbrev pub IsFair : (ℕ → ℕ → Room) → Type 0
IsFair obtain = (c n k : ℕ) → obtain c n ≡ room k → k ≤ n

-- It reports no error.
abbrev pub IsWorking : (ℕ → ℕ → Room) → Type 0
IsWorking obtain = (c n : ℕ) → obtain c n ≢ broken

-- The track was given the first `sent` frames.
record IsPrefix (obtain : ℕ → ℕ → Room) (fs frames : ℕ) (bytes : Bytes) (r : Option (Bool × Bytes))
    : Type 0 where
  pub ok : Bool
  pub sent : ℕ
  pub same : r ≡ some (ok, take (sent * fs) bytes)
  pub within : sent ≤ frames
  pub complete : IsWorking obtain → (ok && not (sent == frames)) ≡ false

take-take-drop : (n m : ℕ) (xs : Bytes) → take n xs ++ take m (drop n xs) ≡ take (n + m) xs
take-take-drop zero m xs = ap (λ k. take k xs) (omega arith)
take-take-drop (suc n) zero [] = let e : suc n ≡ suc n + 0 = omega arith in ap (λ k. take k []) e
take-take-drop (suc n) (suc m) [] =
    let e : suc (n + suc m) ≡ suc n + suc m = omega arith in ap (λ k. take k []) e
take-take-drop (suc n) m (x ∷ xs) =
    let e : suc n + m ≡ suc (n + m) = omega arith in rw e (ap (◌∷◌ x) (take-take-drop n m xs))

-- Frames that are asked for lie within the bytes.
frames_within :
    (fs frames sent k len : ℕ) → sent + k ≤ frames → frames * fs ≤ len → sent * fs + k * fs ≤ len
frames_within fs frames sent k len le enough =
    let rest = frames - (sent + k) in
    let all : frames ≡ sent + k + rest = omega (arith, le) in
    omega (arith, enough, ap (λ (n : ℕ). n * fs) all)

write_loop-IsPrefix :
    (obtain : ℕ → ℕ → Room) (fs : ℕ) (bytes : Bytes) (frames c sent remain : ℕ)
    → IsFair obtain
    → sent + remain ≡ frames
    → frames * fs ≤ length bytes
    → IsPrefix obtain fs frames bytes
        (write_loop obtain fs bytes frames c remain (take (sent * fs) bytes))
unfolding write_loop
write_loop-IsPrefix obtain fs bytes frames zero sent remain fair e enough = record {
  ok = false;
  sent = sent;
  same = refl;
  within = omega (arith, e);
  complete = λ w. refl;
}
write_loop-IsPrefix obtain fs bytes frames (suc zero) sent remain fair e enough = record {
  ok = false;
  sent = sent;
  same = refl;
  within = omega (arith, e);
  complete = λ w. refl;
}
write_loop-IsPrefix obtain fs bytes frames (suc (suc c)) sent zero fair e enough = record {
  ok = true;
  sent = sent;
  same = refl;
  within = omega (arith, e);
  complete = λ w. ground (arith, e);
}
write_loop-IsPrefix obtain fs bytes frames (suc (suc c)) sent (suc m) fair e enough =
    go (obtain (suc c) (suc m)) refl
      (write_loop-IsPrefix obtain fs bytes frames (suc c) sent (suc m) fair e enough)
      (λ k le.
        write_loop-IsPrefix obtain fs bytes frames (suc c) (sent + k) (suc m - k) fair
          (omega (arith, le, e)) enough)
  where
    go :
        (r : Room)
        → obtain (suc c) (suc m) ≡ r
        → IsPrefix obtain fs frames bytes
            (write_loop obtain fs bytes frames (suc c) (suc m) (take (sent * fs) bytes))
        → ((k : ℕ)
            → k ≤ suc m
            → IsPrefix obtain fs frames bytes (
                write_loop obtain fs bytes frames
                  (suc c)
                  (suc m - k)
                  (take ((sent + k) * fs) bytes)))
        → IsPrefix obtain fs frames bytes
            (write_loop obtain fs bytes frames (suc (suc c)) (suc m) (take (sent * fs) bytes))
    go full is_full again more = rw (is_full, write_loop) again
    go broken is_broken again more =
        rw (is_broken, write_loop)
          (record {
            ok = true;
            sent = sent;
            same = refl;
            within = omega (arith, e);
            complete = λ w. absurd (w (suc c) (suc m) is_broken);
          })
    go (room k) has again more =
        let le : k ≤ suc m = fair (suc c) (suc m) k has in
        let at_sent : frames - suc m ≡ sent = omega (arith, e) in
        let inside : leb (sent * fs + k * fs) (length bytes) ≡ true =
          ground
            (arith, frames_within fs frames sent k (length bytes) (omega (arith, le, e)) enough) in
        let joined : take (sent * fs) bytes ++ take (k * fs) (drop (sent * fs) bytes)
            ≡ take ((sent + k) * fs) bytes =
          take-take-drop (sent * fs) (k * fs) bytes ∙ ap (λ n. take n bytes) (omega arith) in
        rw (has, write_loop) (rw at_sent (unfold read_n in rw inside (rw joined (more k le))))

-- From the first frame on.
all-IsPrefix :
    (obtain : ℕ → ℕ → Room) (fs : ℕ) (bytes : Bytes) (frames c : ℕ)
    → IsFair obtain
    → frames * fs ≤ length bytes
    → IsPrefix obtain fs frames bytes (write_loop obtain fs bytes frames c frames [])
all-IsPrefix obtain fs bytes frames c fair enough =
    let none_yet : take (0 * fs) bytes ≡ [] =
      let e : 0 * fs ≡ 0 = omega arith in ap (λ n. take n bytes) e in
    rw none_yet at (write_loop-IsPrefix obtain fs bytes frames c 0 frames fair (omega arith) enough)

hosta_write_data-IsPrefix :
    (obtain : ℕ → ℕ → Room) (fs : ℕ) (bytes : Bytes) (count c : ℕ)
    → IsFair obtain
    → count ≤ length bytes
    → IsPrefix obtain fs (count / fs) bytes (
        if count / fs == 0
        then some (true, [])
        else write_loop obtain fs bytes (count / fs) c (count / fs) [])
hosta_write_data-IsPrefix obtain fs bytes count c fair enough =
    elim (Bool-cases (count / fs == 0)) [
      | inl nothing ↦
          let none_yet : take (0 * fs) bytes ≡ [] =
            let e : 0 * fs ≡ 0 = omega arith in ap (λ n. take n bytes) e in
          rw nothing (record {
            ok = true;
            sent = 0;
            same = rw none_yet refl;
            within = omega arith;
            complete = λ w. ground (arith, nothing);
          })
      | inr frames ↦ rw frames (
          all-IsPrefix obtain fs bytes (count / fs) c fair
            (omega (arith, enough, div-add-mod' count fs)))
    ]

-- `hosta_write_data` on a buffer that holds the bytes it is told to write: it ends inside the buffer,
-- and the track was given a number of frames from its beginning, in order; if the result is 0, these
-- are all whole frames. This holds for a track that gives no more room than was asked for and reports
-- no error.
pub hosta_write_data_lem :
    (obtain : ℕ → ℕ → Room) (fs : ℕ) (bytes : Bytes) (count : ℕ)
    → IsFair obtain
    → IsWorking obtain
    → count ≤ length bytes
    → (ok : Bool) × (sent : ℕ) × (hosta_write_data obtain fs bytes count
        ≡ some (ok, take (sent * fs) bytes))
      × (sent ≤ count / fs)
      × ((ok && not (sent == count / fs)) ≡ false)
unfolding hosta_write_data
hosta_write_data_lem obtain fs bytes count fair works enough =
    let r = hosta_write_data-IsPrefix obtain fs bytes count 100 fair enough in
    (r.ok, r.sent, r.same, r.within, r.complete works)
