-- ===== src/Scheduler/Cadence.antt =====
-- LsfgOutputCadenceTracker: the output rate over the last 0.4 s, and whether it misses or meets
-- the target.
pub mod Confirmed
use lsfg_vk_android.Common.{
  same_bool, ℕ, zero, suc, ◌+◌, ◌-◌, ◌%◌, ◌^◌, Bool, true, false, not, ◌&&◌, ◌||◌, if◌then◌else◌,
  ltb, leb, ◌==◌, min, List, [], ◌∷◌, repeat, get_or, set,
}
use lsfg_vk_android.Common.Int.{ℤ}
use lsfg_vk_android.Float
use lsfg_vk_android.Float.{Floats}

pub record Snapshot (D : Type 0) : Type 0 where
  pub valid : Bool
  pub targeted : Bool
  pub output_fps : D
  pub coverage_seconds : D
  pub deficit_confirmed : Bool
  pub target_satisfied_confirmed : Bool

pub record Sample (D : Type 0) : Type 0 where
  pub seconds : D
  pub frames : ℕ

-- `samples` stands for an array of 128.
pub record Tracker (D : Type 0) : Type 0 where
  pub samples : List (Sample D)
  pub sample_count : ℕ
  pub next_sample : ℕ
  pub targeted : Bool
  pub target_fps : ℕ
  pub deficit_seconds : D
  pub satisfied_seconds : D
  pub snapshot : Snapshot D

abbrev pub sample_capacity : ℕ
sample_capacity = 128

-- The sum of two size_t.
abbrev pub add_size : ℕ → ℕ → ℕ
add_size a b = (a + b) % 2 ^ 64

module _ {S D : Type 0} (fp : Floats S D) where
  open fp.double use {add, mul, div, lt, le, is_finite, decimal}

  abbrev pub origin : D
  origin = decimal 0 0

  abbrev pub no_sample : Sample D
  no_sample = record { seconds = origin; frames = 0 }

  abbrev pub no_snapshot : Snapshot D
  no_snapshot = record {
    valid = false;
    targeted = false;
    output_fps = origin;
    coverage_seconds = origin;
    deficit_confirmed = false;
    target_satisfied_confirmed = false;
  }

  abbrev pub new : Tracker D
  new = record {
    samples = repeat no_sample sample_capacity;
    sample_count = 0;
    next_sample = 0;
    targeted = false;
    target_fps = 0;
    deficit_seconds = origin;
    satisfied_seconds = origin;
    snapshot = no_snapshot;
  }

  unfoldable pub clear_window : Tracker D → Tracker D
  clear_window s = record s {
    sample_count = 0;
    next_sample = 0;
    deficit_seconds = origin;
    satisfied_seconds = origin;
    snapshot = record no_snapshot {
      targeted = s.targeted;
      target_satisfied_confirmed = not s.targeted;
    };
  }

  unfoldable pub begin_transition : Tracker D → Tracker D
  unfolding clear_window
  begin_transition s = clear_window s

  unfoldable pub reset : Tracker D → Tracker D
  unfolding clear_window
  reset s = clear_window (record s { targeted = false; target_fps = 0 })

  unfoldable pub configure : Tracker D → Bool → ℕ → Tracker D
  unfolding reset
  configure s targeted target_fps =
      let t = reset s in
      if same_bool s.targeted targeted && s.target_fps == target_fps then s else record t {
        targeted = targeted;
        target_fps = target_fps;
        snapshot = record (t.snapshot) {
          targeted = targeted;
          target_satisfied_confirmed =
              if not targeted then true else t.snapshot.target_satisfied_confirmed;
        };
      }

  -- The sample `offset` places before the last one.
  abbrev pub recent : Tracker D → ℕ → Sample D
  recent s offset =
      get_or s.samples ((s.next_sample + sample_capacity - 1 - offset) % sample_capacity) no_sample

  -- The loop: `left` samples from `offset` on, until 0.4 s are covered.
  unfoldable pub gather : Tracker D → ℕ → ℕ → D → ℕ → D × ℕ
  gather s zero offset seconds frames = (seconds, frames)
  gather s (suc left) offset seconds frames =
      let rest =
        gather s left (offset + 1) (add seconds (recent s offset).seconds)
          (add_size frames (recent s offset).frames) in
      if lt seconds (decimal 40 2) then rest else (seconds, frames)

  -- The rate over the window.
  unfoldable pub measure : Tracker D → Tracker D
  measure s =
      let (seconds, frames) = gather s s.sample_count 0 origin 0 in
      let valid = le (decimal 25 2) seconds && ltb 0 frames in
      record s {
        snapshot = record (s.snapshot) {
          targeted = s.targeted;
          coverage_seconds = seconds;
          valid = valid;
          output_fps = if valid then div (fp.of_nat frames) seconds else origin;
        };
      }

  abbrev pub is_deficit : Tracker D → Bool
  is_deficit s = lt s.snapshot.output_fps (mul (fp.of_nat s.target_fps) (decimal 97 2))

  abbrev pub is_satisfied : Tracker D → Bool
  is_satisfied s = le (mul (fp.of_nat s.target_fps) (decimal 985 3)) s.snapshot.output_fps

  -- Evidence for one side clears the other.
  unfoldable pub accumulate : Tracker D → D → Tracker D
  accumulate s evidence = record s {
    deficit_seconds = if is_deficit s then add s.deficit_seconds evidence else origin;
    satisfied_seconds =
        if is_deficit s
        then origin
        else if is_satisfied s
        then add s.satisfied_seconds evidence
        else origin;
  }

  abbrev pub confirm : Tracker D → Bool → Bool → Tracker D
  confirm s deficit satisfied = record s {
    snapshot = record (s.snapshot) {
      deficit_confirmed = deficit;
      target_satisfied_confirmed = satisfied;
    };
  }

  unfoldable pub rebuild_snapshot : Tracker D → D → Tracker D
  unfolding accumulate
  rebuild_snapshot s evidence =
      let t = measure s in
      let u = accumulate t evidence in
      if not t.targeted
      then confirm t false true
      else if not t.snapshot.valid || t.target_fps == 0
      then confirm t false false
      else confirm u (le (decimal 30 2) u.deficit_seconds) (le (decimal 50 2) u.satisfied_seconds)

  unfoldable pub push_sample : Tracker D → D → ℕ → Tracker D
  push_sample s seconds frames = record s {
    samples = set s.samples s.next_sample (record { seconds = seconds; frames = frames });
    next_sample = (s.next_sample + 1) % sample_capacity;
    sample_count = min (s.sample_count + 1) sample_capacity;
  }

  unfoldable pub observe : Tracker D → ℤ → ℕ → ℕ → Tracker D
  unfolding clear_window
  observe s elapsed source_frames generated_frames =
      let seconds = fp.seconds elapsed in
      let t = push_sample s seconds (add_size source_frames generated_frames) in
      if not (lt origin seconds) || not (is_finite seconds)
      then s
      else if le (decimal 250 3) seconds
      then clear_window s
      else rebuild_snapshot t (Float.min fp.double seconds (decimal 50 3))
