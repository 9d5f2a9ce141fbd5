-- ===== src/LruReplacer/Tests.antt =====
-- The replacer on concrete inputs.
use disk_oriented_concurrenc.Base.{◌≡◌, refl, none, some, List, [], ◌∷◌}
use disk_oriented_concurrenc.LruReplacer.{init, pin, unpin, victim}
use disk_oriented_concurrenc.LruReplacer.Refines
use disk_oriented_concurrenc.LruReplacer.Refines.{
  Call, victims, pins, unpins, run, spec_run, run-refines,
}

-- The calls of the repository's own test of the replacer.
abbrev calls : List Call
calls =
    unpins 1
    ∷ unpins 2
    ∷ unpins 3
    ∷ unpins 4
    ∷ unpins 1
    ∷ victims
    ∷ victims
    ∷ pins 3
    ∷ pins 4
    ∷ unpins 4
    ∷ victims
    ∷ victims
    ∷ []

sample_trace :
    run (init 7) calls
    ≡ none ∷ none ∷ none ∷ none ∷ none ∷ some 1 ∷ some 2 ∷ none ∷ none ∷ none ∷ some 4 ∷ none ∷ []
unfolding run Refines.step init victim pin unpin
sample_trace = refl

run-refines_example : run (init 7) calls ≡ spec_run 7 [] calls
run-refines_example = run-refines 7 calls
