-- ===== src/Stream/Tests.antt =====
-- The properties of the loops of the stream at a few answers.
use routn.Base.{◌≡◌, List, [], ◌∷◌, take, drop, arith}
use routn.Stream.{ok, overrun, Answer, got, read_fails, Accept, took, int, read_fix_size}
use routn.Stream.Whole.{bytes, IsOpen, read_fix_size_whole, read_fix_size_overruns}

abbrev pieces : List Answer
pieces = got (1 ∷ 2 ∷ []) ∷ got (3 ∷ 4 ∷ 5 ∷ []) ∷ []

read_fix_size_whole_example :
    (input' : List Answer) × (read_fix_size pieces 4 ≡ ok (int 4, take 4 (bytes pieces), input'))
    × (bytes input' ≡ drop 4 (bytes pieces))
    × IsOpen input'
read_fix_size_whole_example = read_fix_size_whole 4 pieces tt (omega arith)

read_fix_size_overruns_example : read_fix_size (read_fails ∷ got (7 ∷ []) ∷ []) 2 ≡ overrun
read_fix_size_overruns_example = read_fix_size_overruns 2 7 [] [] (omega arith) (omega arith)

abbrev calls : List Accept
calls = took 2 ∷ took 1 ∷ took 5 ∷ []
