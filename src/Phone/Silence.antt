-- ===== src/Phone/Silence.antt =====
-- upil_sm.c with upil_audio/upil_audio.cpp: what an idle telephone has done to the audio.
use upil.Common.{
  ℕ, ◌+◌, ◌≡◌, refl, ap, ◌∙◌, sym, inl, inr, Bool, true, false, Option, none, some, List, [], ◌∷◌,
  Option-cases, arith, if◌then◌else◌,
}
use upil.Codes.SmState
use upil.StateMachine.Defs.{
  Effect, command, notice, audio_start, audio_stop, audio_play_file, audio_record_file, Fsm,
}
use upil.Phone.Defs.{text_of}
use upil.Phone.Hushed.{last_of}
use upil.Phone.Lasting.{right_at}
use upil.Phone.Reached.{Reachable}
use upil.Phone.Sounds.{is_sound, is_right, Reachable-audio_right}
use upil.Audio.Control.{
  Audio, Created, upil_audio_stop, upil_audio_play_file, upil_audio_record_file,
}
use upil.Audio.Uses.{welcome, recording, World, perform, ended, replay}

-- What `upil_audio_stop` leaves: `s_audio_running` is cleared, and none of the four threads is recorded.
-- A thread that has not ended within its 30 tries may still be there.
pub record IsCleared (a : Audio) : Type 0 where
  pub not_running : a.running ≡ false
  pub no_threads :
      (a.audio_in ≡ none) × (a.audio_out ≡ none) × (a.audio_play ≡ none) × (a.audio_record ≡ none)

either_returns :
    (t : Bool) (x y : Bool × Audio) → (r : Bool × Audio) × ((if t then some x else some y) ≡ some r)
either_returns true x y = (x, refl)
either_returns false x y = (y, refl)

play_returns :
    (created : Created) (a : Audio)
    → (r : Bool × Audio) × (upil_audio_play_file created welcome a ≡ some r)
unfolding upil_audio_play_file text_of
play_returns created a = either_returns a.running _ _

record_returns :
    (created : Created) (a : Audio)
    → (r : Bool × Audio) × (upil_audio_record_file created recording 30 a ≡ some r)
unfolding upil_audio_record_file text_of
record_returns created a = either_returns a.running _ _

-- An effect is done; a stop stops the audio, and what is no sound leaves it.
record IsPerformed (e : Effect) (a : Audio) (m : Option Audio) : Type 0 where
  pub done : Audio
  pub same : m ≡ some done
  pub stops : e ≡ audio_stop → IsCleared done
  pub leaves : is_sound e ≡ false → done ≡ a

performed : (w : World) (e : Effect) (a : Audio) → IsPerformed e a (perform w e a)
unfolding perform upil_audio_stop
performed w (command req payload) a = record {
  done = a;
  same = refl;
  stops = λ h. absurd (ground (arith, h));
  leaves = λ h. refl;
}
performed w (notice what payload) a = record {
  done = a;
  same = refl;
  stops = λ h. absurd (ground (arith, h));
  leaves = λ h. refl;
}
performed w audio_start a = record {
  done = _;
  same = refl;
  stops = λ h. absurd (ground (arith, h));
  leaves = λ h. absurd (ground (arith, h));
}
performed w audio_stop a = record {
  done = _;
  same = refl;
  stops = λ h. record { not_running = refl; no_threads = (refl, refl, refl, refl) };
  leaves = λ h. absurd (ground (arith, h));
}
performed w audio_play_file a =
    let (r, e) = play_returns w.first a in
    record {
      done = r.1;
      same = rw e refl;
      stops = λ h. absurd (ground (arith, h));
      leaves = λ h. absurd (ground (arith, h));
    }
performed w audio_record_file a =
    let (r, e) = record_returns w.first a in
    record {
      done = r.1;
      same = rw e refl;
      stops = λ h. absurd (ground (arith, h));
      leaves = λ h. absurd (ground (arith, h));
    }

-- The effects are all done; if the last on the audio is a stop, or there is none and the variables were
-- cleared before, they are cleared afterwards.
record IsReplayed (o : Option Effect) (a : Audio) (m : Option Audio) : Type 0 where
  pub done : Audio
  pub same : m ≡ some done
  pub stops : o ≡ some audio_stop → IsCleared done
  pub leaves : o ≡ none → IsCleared a → IsCleared done

ended-IsCleared : (cleared : Bool) (a : Audio) → IsCleared a → IsCleared (ended cleared a)
unfolding ended
ended-IsCleared cleared a s = record {
  not_running = ground (arith, s.not_running);
  no_threads = s.no_threads;
}

replayed :
    (w : ℕ → World) (i : ℕ) (es : List Effect) (a : Audio)
    → IsReplayed (last_of is_sound es) a (replay w i es a)
unfolding last_of replay
replayed w i [] a = record {
  done = a;
  same = refl;
  stops = λ h. absurd (ground (arith, h));
  leaves = λ h s. s;
}
replayed w i (e ∷ es) a =
    let first = performed (w i) e a in
    let rest = replayed w (i + 1) es (ended (w i).cleared first.done) in
    rw first.same (elim (Option-cases (last_of is_sound es)) [
      | inr (x, later) ↦ rw later (record {
        done = rest.done;
        same = rest.same;
        stops = λ h. rest.stops (later ∙ h);
        leaves = λ h s. absurd (ground (arith, h));
      })
      | inl nothing ↦ rw nothing (own first rest nothing (is_sound e) refl)
    ])
  where
    own :
        (first : IsPerformed e a (perform (w i) e a))
        (rest : IsReplayed
          (last_of is_sound es)
          (ended (w i).cleared first.done)
          (replay w (i + 1) es (ended (w i).cleared first.done)))
        → last_of is_sound es ≡ none
        → (t : Bool) → is_sound e ≡ t
        → IsReplayed
            (if t then some e else none)
            a
            (replay w (i + 1) es (ended (w i).cleared first.done))
    own first rest nothing true is = record {
      done = rest.done;
      same = rest.same;
      stops = λ h.
          rest.leaves nothing
            (ended-IsCleared (w i).cleared first.done (first.stops (ground (arith, h))));
      leaves = λ h s. absurd (ground (arith, h));
    }
    own first rest nothing false is = record {
      done = rest.done;
      same = rest.same;
      stops = λ h. absurd (ground (arith, h));
      leaves = λ h s.
          rest.leaves nothing (ended-IsCleared (w i).cleared first.done (rw (first.leaves is) s));
    }

-- In every machine that a telephone comes to be, if it is idle, then all that its states have done to
-- the audio so far, whatever the system's threads did in between, returns inside its buffers and ends
-- with `s_audio_running` cleared and none of the four threads recorded, so that the next start, play or
-- record is not refused for a sound that was running. Whether each thread has ended is not said.
pub replay-idle :
    (w : ℕ → World) (a : Audio) (fsm : Fsm)
    → Reachable fsm
    → fsm.cur_state ≡ some SmState.idle
    → (a' : Audio) × (replay w 0 fsm.effects a ≡ some a') × IsCleared a'
unfolding is_right
replay-idle w a fsm r e =
    let right : right_at is_sound is_right (some SmState.idle) (last_of is_sound fsm.effects)
        ≡ true =
      ap (λ c. right_at is_sound is_right c (last_of is_sound fsm.effects)) (sym e)
      ∙ Reachable-audio_right fsm r in
    let all = replayed w 0 fsm.effects a in
    (all.done, all.same, all.stops (stopped (last_of is_sound fsm.effects) right))
  where
    stopped : (o : Option Effect) → is_right SmState.idle o ≡ true → o ≡ some audio_stop
    stopped none h = absurd (ground (arith, h))
    stopped (some (command req payload)) h = absurd (ground (arith, h))
    stopped (some (notice what payload)) h = absurd (ground (arith, h))
    stopped (some audio_start) h = absurd (ground (arith, h))
    stopped (some audio_stop) h = refl
    stopped (some audio_play_file) h = absurd (ground (arith, h))
    stopped (some audio_record_file) h = absurd (ground (arith, h))
