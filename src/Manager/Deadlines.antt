-- ===== src/Manager/Deadlines.antt =====
-- Deadlines of checkpoints: `rollback_deadline_millis`, `checkpoint_rollback_timeout` and
-- `CheckpointAdjustRollbackTimeout`.
use nm_dbus_proxy_rs.Prelude.{
  refl, ◌≡◌, ◌↔◌, ◌⊎◌, ◌+◌, ◌*◌, ◌<◌, ◌≤◌, ℕ, some, arith, if◌then◌else◌,
}
use nm_dbus_proxy_rs.Prelude.Int.{
  ℤ, pos, pos_part, neg_part, ◌≤ℤ◌, ltb_ℤ, ◌-ℤ◌, ◌+ℤ◌, -ℤ_parts, +ℤ_parts,
}
use nm_dbus_proxy_rs.Connection.{unwrap_or}
use nm_dbus_proxy_rs.Runtime.State.{CheckpointRecord}
use nm_dbus_proxy_rs.Runtime.Checkpoints.{seconds_between, remaining, u32_max}
use nm_dbus_proxy_rs.Manager.Checkpoints.{
  extend_deadline, first_deadline, add_seconds, max_ℤ, i64_max,
}

seconds_between_past : (now later : ℤ) → later ≤ℤ now → seconds_between now later ≡ 0
unfolding seconds_between
seconds_between_past now later h = ground (arith, -ℤ_parts later now)

-- A whole number of seconds before the deadline is counted exactly.
seconds_between_exact :
    (now later : ℤ) (seconds : ℕ)
    → pos_part later + neg_part now ≡ pos_part now + neg_part later + seconds * 1000
    → seconds ≤ u32_max
    → seconds_between now later ≡ seconds
unfolding seconds_between
seconds_between_exact now later seconds e h = ground (arith, -ℤ_parts later now)

add_seconds-later :
    (time : ℤ) (seconds : ℕ) → time ≤ℤ pos i64_max → time ≤ℤ add_seconds time seconds
unfolding add_seconds
add_seconds-later time seconds h = ground (arith, +ℤ_parts time (pos (seconds * 1000)))

add_seconds-exact :
    (time : ℤ) (seconds : ℕ)
    → time +ℤ pos (seconds * 1000) ≤ℤ pos i64_max
    → pos_part (add_seconds time seconds) + neg_part time
      ≡ pos_part time + neg_part (add_seconds time seconds) + seconds * 1000
unfolding add_seconds
add_seconds-exact time seconds h = ground (arith, +ℤ_parts time (pos (seconds * 1000)))

max-bounds :
    (a b bound : ℤ)
    → a ≤ℤ bound
    → b ≤ℤ bound
    → (a ≤ℤ max_ℤ a b) × (b ≤ℤ max_ℤ a b) × (max_ℤ a b ≤ℤ bound)
unfolding max_ℤ
max-bounds a b bound h k = ground arith

-- `seconds` behind the later one of two times, or the greatest `i64` where that is less.
abbrev pub moved : ℤ → ℤ → ℕ → ℤ
moved start now seconds =
    let asked = (if ltb_ℤ start now then now else start) +ℤ pos (seconds * 1000) in
    if ltb_ℤ (pos i64_max) asked then pos i64_max else asked

moved_lem :
    (start now : ℤ) (seconds : ℕ) → add_seconds (max_ℤ start now) seconds ≡ moved start now seconds
unfolding add_seconds max_ℤ
moved_lem start now seconds = refl

module _ {Value : Type 0} where
  -- A checkpoint with a deadline has no seconds left exactly from its deadline on; before it, the
  -- seconds left cover the milliseconds left, one second less does not, and they stop at the
  -- greatest `u32`.
  pub remaining-deadline :
      (r : CheckpointRecord Value) (now deadline : ℤ)
      → r.rollback_deadline_millis ≡ some deadline
      → ((remaining r now ≡ 0) ↔ (deadline ≤ℤ now))
        × (let ms = pos_part (deadline -ℤ now) in
            ((ms ≤ remaining r now * 1000) ⊎ (remaining r now ≡ u32_max))
            × (remaining r now * 1000 < ms + 1000)
            × (remaining r now ≤ u32_max))
  unfolding remaining seconds_between
  remaining-deadline r now deadline e = rw e (ground (arith, -ℤ_parts deadline now))

  -- `CheckpointAdjustRollbackTimeout`: the new deadline is the later one of the present deadline and
  -- now (now where the record has no deadline), moved on by exactly the seconds that are asked for,
  -- or the greatest `i64` where that is less. The record's timeout is then the one that the property
  -- reports at the same time. The present deadline and the time fit an `i64`.
  pub extend_deadline-remaining :
      (r : CheckpointRecord Value) (now : ℤ) (seconds : ℕ)
      → unwrap_or r.rollback_deadline_millis now ≤ℤ pos i64_max
      → now ≤ℤ pos i64_max
      → let start = unwrap_or r.rollback_deadline_millis now in
        let extended = extend_deadline now seconds r in
        let deadline = unwrap_or extended.rollback_deadline_millis now in
        (remaining extended now ≡ extended.rollback_timeout) × (deadline ≡ moved start now seconds)
  unfolding remaining extend_deadline
  extend_deadline-remaining r now seconds h k =
      let start = unwrap_or r.rollback_deadline_millis now in
      let m = max-bounds start now (pos i64_max) h k in
      let x = add_seconds-later (max_ℤ start now) seconds m.2 in
      let z = seconds_between_past now (add_seconds (max_ℤ start now) seconds) in
      (ground (arith, m, x, z), moved_lem start now seconds)

  -- A new checkpoint has the seconds left that it was made with, where these fit an `u32` and the
  -- deadline an `i64`; one without a timeout keeps reporting 0.
  pub first_deadline-remaining :
      (r : CheckpointRecord Value) (created : ℤ) (seconds : ℕ)
      → r.rollback_timeout ≡ seconds
      → r.rollback_deadline_millis ≡ first_deadline created seconds
      → seconds ≤ u32_max
      → created +ℤ pos (seconds * 1000) ≤ℤ pos i64_max
      → remaining r created ≡ seconds
  unfolding remaining first_deadline
  first_deadline-remaining r created seconds t e h k =
      let x = add_seconds-exact created seconds k in
      let y = seconds_between_exact created (add_seconds created seconds) seconds in
      ground (arith, e, x, y, t)
