-- ===== src/Buffer/Clock.antt =====
-- src/buffer/clock_replacer.cpp, src/include/buffer/clock_replacer.h: the second-chance clock.
-- The vector of `capacity_` entries is a function of which only the indices below `capacity` are
-- read or written.
use franco_db.Prelude.{
  ℕ, zero, suc, ◌+◌, ◌*◌, Bool, true, false, Option, none, some, ltb, leb, ◌==◌, if◌then◌else◌,
}
pub mod Progress
pub mod Chance

pub record FrameInfo : Type 0 where
  pub is_valid : Bool
  pub ref_bit : Bool

pub record Clock : Type 0 where
  pub capacity : ℕ
  pub clock_hand : ℕ
  pub frames : ℕ → FrameInfo

-- `frames_[i] = e`
abbrev pub store : (ℕ → FrameInfo) → ℕ → FrameInfo → ℕ → FrameInfo
store frames i e j = if j == i then e else frames j

unfoldable pub init : ℕ → Clock
init num_pages = record {
  capacity = num_pages;
  clock_hand = 0;
  frames = λ i. record { is_valid = false; ref_bit = false };
}

-- The scan of the first `n` entries for one that may go.
unfoldable pub any_valid : ℕ → (ℕ → FrameInfo) → Bool
any_valid zero frames = false
any_valid (suc n) frames = if (frames n).is_valid then true else any_valid n frames

abbrev empty : FrameInfo
empty = record { is_valid = false; ref_bit = false }

-- `if (clock_hand_ >= capacity_) clock_hand_ = 0;`
unfoldable pub wrap : Clock → Clock
wrap s = if leb s.capacity s.clock_hand then record s { clock_hand = 0 } else s

-- The entry under the hand is given up, ...
unfoldable pub take_victim : Clock → Option ℕ × Clock
take_victim s = (
  some s.clock_hand,
  record s { frames = store s.frames s.clock_hand empty; clock_hand = s.clock_hand + 1 },
)

-- ... or loses its reference bit if it had one, and the hand moves on.
unfoldable pub pass_over : Clock → Clock
pass_over s =
    let e = s.frames s.clock_hand in
    if e.is_valid
    then record s {
      frames = store s.frames s.clock_hand (record e { ref_bit = false });
      clock_hand = s.clock_hand + 1;
    }
    else record s { clock_hand = s.clock_hand + 1 }

abbrev pub stops : FrameInfo → Bool
stops e = if e.is_valid then (if e.ref_bit then false else true) else false

-- The `while (true)` loop, for at most that many rounds.
unfoldable pub spin : ℕ → Clock → Option ℕ × Clock
spin zero s = (none, s)
spin (suc k) s =
    let h = wrap s in
    let more = spin k (pass_over h) in if stops (h.frames h.clock_hand) then take_victim h else more

-- Two turns of the hand and one round are enough (`victim-some`).
unfoldable pub victim : Clock → Option ℕ × Clock
victim s = if any_valid s.capacity s.frames then spin (2 * s.capacity + 1) s else (none, s)

unfoldable pub pin : Clock → ℕ → Clock
pin s f = if ltb f s.capacity then record s { frames = store s.frames f empty } else s

unfoldable pub unpin : Clock → ℕ → Clock
unpin s f =
    if ltb f s.capacity
    then (if (s.frames f).is_valid
        then s
        else record s { frames = store s.frames f (record { is_valid = true; ref_bit = true }) })
    else s

unfoldable pub count_valid : ℕ → (ℕ → FrameInfo) → ℕ
count_valid zero frames = 0
count_valid (suc n) frames =
    if (frames n).is_valid then count_valid n frames + 1 else count_valid n frames

unfoldable pub size : Clock → ℕ
unfolding count_valid
size s = count_valid s.capacity s.frames
