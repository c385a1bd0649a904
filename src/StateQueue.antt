-- ===== src/StateQueue.antt =====
-- src/server/proto_handler.rs: `LatestStateQueue`, which keeps the latest frame of each subscription
-- until the writer takes it. The size of a frame, its subscription and the maximal size of a frame
-- are parameters; the notification between the two tasks is left out.
pub mod Coalescing
mod Examples
use arcrelay_protocol.Prelude.{
  ℕ, Option, none, some, List, [], ◌∷◌, ltb, nat_eq, if◌then◌else◌, Map, get, remove, insert,
}

-- What the queue uses of a frame; `event` is the subscription of an `Event`, and `none` for others.
pub record FrameApi (Frame : Type 0) : Type 0 where
  pub encoded_len : Frame → ℕ
  pub event : Frame → Option ℕ
  pub max_control_frame_size : ℕ

pub record LatestStateQueue (Frame : Type 0) : Type 0 where
  pub frames : Map ℕ Frame

module _ {Frame : Type 0} where
  abbrev pub empty : LatestStateQueue Frame
  empty = record { frames = [] }

  pub replace : FrameApi Frame → Frame → LatestStateQueue Frame → LatestStateQueue Frame
  replace api frame q =
      if ltb api.max_control_frame_size (api.encoded_len frame) then q else elim (api.event frame) [
        | none ↦ q
        | some subscription_id ↦ record { frames = insert subscription_id frame q.frames }
      ]

  -- One round of `recv`. The map's iterator comes first to one of its entries, under the key
  -- `first`; `none` if there is no frame under it, and `recv` waits.
  pub recv : ℕ → LatestStateQueue Frame → LatestStateQueue Frame × Option Frame
  recv first q = elim (get first q.frames) [
    | none ↦ (q, none)
    | some frame ↦ (record { frames = remove first q.frames }, some frame)
  ]
