-- ===== src/Persistence/Examples.antt =====
-- Two keys, one of them written twice, with a cleanup in between.
use reinforce_spec.Prelude.{◌≡◌, List, [], ◌∷◌, some, arith}
use reinforce_spec.Persistence.Defs.{created, get_idempotent_response}
use reinforce_spec.Persistence.Keys.{KeyWrite, write_keys, keys-promised}

abbrev writes : List KeyWrite
writes =
    KeyWrite.put 10 "a" "old" 1
    ∷ KeyWrite.put 20 "b" "other" 2
    ∷ KeyWrite.cleanup 4000
    ∷ KeyWrite.put 4100 "a" "new" 1
    ∷ []

keys-promised_example : get_idempotent_response 5000 "a" (write_keys writes created) ≡ some "new"
keys-promised_example =
    keys-promised "a" 5000 writes (omega arith, (omega arith, (omega arith, (omega arith, tt))))
