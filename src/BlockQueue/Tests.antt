-- ===== src/BlockQueue/Tests.antt =====
-- Runs of the queue, and the theorems at concrete inputs.
use tiny_http.Prelude.{ℕ, ◌≡◌, refl, true, false, List, [], ◌∷◌, some, none, done, arith}
use tiny_http.Prelude.Int.{pos, negsuc}
use tiny_http.BlockQueue.{BlockQueue, block_queue, step}
use tiny_http.BlockQueue.Refine.{
  Op, put, get, count, reset, stored, got, sized, cleared, answers, run, Holds, block_queue_refines,
}

abbrev two : BlockQueue ℕ
two = record { array = 0 ∷ 0 ∷ []; size = 0; max_size = 2; front = negsuc 0; back = negsuc 0 }

block_queue-two : block_queue 0 (pos 2) ≡ some two
unfolding block_queue
block_queue-two = refl

abbrev ops : List (Op ℕ)
ops = put 7 ∷ put 8 ∷ put 9 ∷ get ∷ put 9 ∷ get ∷ count ∷ reset ∷ get ∷ []

block_queue_refines_example : run two ops ≡ done (answers 2 [] ops)
block_queue_refines_example = block_queue_refines 0 2 ops block_queue-two

-- What these calls are told.
told :
    answers 2 [] ops
    ≡ stored true
      ∷ stored true
      ∷ stored false
      ∷ got (some 7)
      ∷ stored true
      ∷ got (some 8)
      ∷ sized 1
      ∷ cleared
      ∷ got none
      ∷ []
told = refl

abbrev filled : BlockQueue ℕ
filled = record { array = 7 ∷ 8 ∷ []; size = 2; max_size = 2; front = negsuc 0; back = pos 1 }

filled-Holds : Holds 2 filled (7 ∷ 8 ∷ [])
unfolding step
filled-Holds = record {
  bound = refl;
  positive = omega arith;
  room = refl;
  size = refl;
  fits = omega arith;
  start = 0;
  start_in = omega arith;
  front_at = refl;
  back_at = refl;
  cells = (refl, (refl, tt));
}
