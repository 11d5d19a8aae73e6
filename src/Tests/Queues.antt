-- ===== src/Tests/Queues.antt =====
-- A queue that receives the parts of an allocation, some of them adjacent.
use timely_mirror.Prelude.{ℕ, ◌≡◌, refl, Option, none, some, List, [], ◌∷◌, ◌++◌}
use timely_mirror.Bytes.{Memory, Bytes, try_merge}
use timely_mirror.MergeQueue.{MergeQueue, new, Call, run, call_extend, call_drain}
use timely_mirror.MergeQueue.Stream.{all_extended, run-streams}
use timely_mirror.MergeQueue.Contents.{stream, HaveSame}

abbrev memory : Memory
memory = record { contents = 0 ∷ 1 ∷ 2 ∷ 3 ∷ 4 ∷ 5 ∷ []; type_id = 0; count = 4 } ∷ []

abbrev part : ℕ → ℕ → Bytes
part i n = record { ptr = i; len = n; sequestered = 0 }

abbrev calls : List Call
calls =
    call_extend (part 0 2 ∷ part 2 1 ∷ [])
    ∷ call_extend (part 4 2 ∷ [])
    ∷ call_drain
    ∷ call_extend (part 3 1 ∷ [])
    ∷ []

run-streams_example :
    (n : Memory) × (after : MergeQueue) × (drained : List Bytes) × (run calls memory new []
      ≡ some (n, after, drained))
    × HaveSame memory n
    × (stream n (drained ++ after.queue) ≡ stream memory (all_extended calls))
run-streams_example = run-streams calls memory

abbrev drained_by : Option (Memory × MergeQueue × List Bytes) → List Bytes
drained_by none = []
drained_by (some r) = r.2

-- Adjacent parts arrive as one.
queue_run : drained_by (run calls memory new []) ≡ part 0 3 ∷ part 4 2 ∷ []
unfolding run try_merge
queue_run = refl
