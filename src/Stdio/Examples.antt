-- ===== src/Stdio/Examples.antt =====
-- Runs of `_StdoutWriter` on small inputs.
use wire_rpc.Prelude.{ℕ, ◌≡◌, nat_eq, refl, true, false, none, some, [], ◌∷◌}
use wire_rpc.Stdio.{
  Writer, new, write, close, run_step, run_callback, drain, connection_error, os_error, returned,
  waits, Step, Reach, here, next,
}
use wire_rpc.Stdio.Parts.{Flushed}
use wire_rpc.Stdio.Flushed.{IsOut, Reach-Flushed}

abbrev two : Writer
two = (write (3 ∷ []) (write (1 ∷ 2 ∷ []) new).1).1

-- The thread has the first in hand, and has written a byte of it; then it fails.
abbrev half : Writer
half = run_step (some 1) (run_step none two)

abbrev broken : Writer
broken = run_step none half

-- Both are settled, after the rest of the first and the second, and after the failure.
abbrev both_out : Writer
both_out = run_callback (
    run_callback
      (run_step none (run_step (some 1) (run_step none (run_step none (run_step (some 1) half))))))

abbrev both_lost : Writer
both_lost = run_callback (run_callback (run_step none (run_step none (run_step none broken))))

Reach-half : Reach new half
unfolding write run_step
Reach-half =
    next
      (next (next (next here (Step.writes new (1 ∷ 2 ∷ []))) (Step.writes _ (3 ∷ [])))
        (Step.runs two none refl))
      (Step.runs (run_step none two) (some 1) refl)

Reach-Flushed_example : Flushed half × ((n : ℕ) → (drain (some n) half).0 ≡ returned → IsOut n half)
Reach-Flushed_example = Reach-Flushed Reach-half

runs :
    (half.output ≡ 1 ∷ [])
    × (broken.output ≡ 1 ∷ [])
    × (both_out.output ≡ 1 ∷ 2 ∷ 3 ∷ [])
    × ((drain two.last two).0 ≡ waits)
    × ((drain (some 0) half).0 ≡ waits)
    × ((drain two.last both_out).0 ≡ returned)
    × ((drain two.last both_lost).0 ≡ os_error)
    × (both_lost.output ≡ 1 ∷ [])
    × ((write [] (close two)).0 ≡ connection_error)
    × ((run_step none (close both_out)).finished ≡ true)
unfolding write close run_step run_callback drain
runs = (refl, refl, refl, refl, refl, refl, refl, refl, refl, refl)

-- After a drain that failed, `close` queues nothing, and the thread waits on its empty queue.
never_closed :
    ((close (drain two.last both_lost).1).queue ≡ [])
    × ((close (drain two.last both_lost).1).hand ≡ none)
    × ((close (drain two.last both_lost).1).finished ≡ false)
unfolding write close run_step run_callback drain
never_closed = (refl, refl, refl)
