-- ===== src/StateQueue/Examples.antt =====
-- Frames that are a subscription and a size.
use arcrelay_protocol.Prelude.{ℕ, ◌≡◌, refl, some, List, [], ◌∷◌, nat_eq, ℕ_discrete}
use arcrelay_protocol.StateQueue.{FrameApi, recv}
use arcrelay_protocol.StateQueue.Coalescing.{Action, replaced, received, run, pending, recv-pending}
use arcrelay_protocol.Prelude.{IsDistinct}

abbrev api : FrameApi (ℕ × ℕ)
api = record { encoded_len = λ f. f.1; event = λ f. some f.0; max_control_frame_size = 100 }

abbrev calls : List (Action (ℕ × ℕ))
calls = replaced (7, 500) ∷ replaced (7, 30) ∷ received 8 ∷ replaced (7, 20) ∷ replaced (8, 10) ∷ []

latest_of_seven : pending api calls 7 ≡ some (7, 30)
unfolding pending ℕ_discrete
latest_of_seven = refl

recv-pending_example :
    IsDistinct (run api calls).frames × ((recv 7 (run api calls)).1 ≡ pending api calls 7)
recv-pending_example = recv-pending api calls 7
