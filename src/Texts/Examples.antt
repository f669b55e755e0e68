-- ===== src/Texts/Examples.antt =====
-- A buffer that grows, with an allocator that moves it or not.
use cml.Prelude.{◌≡◌, refl, inr, pos, Bool, true, false, some, List, [], ◌∷◌, ◌>>=◌, arith}
use cml.Texts.Str.{Str, Allocator, inside, has_room, str_insert_len, str_new}
use cml.Texts.Own.{str_insert_len-inside}
use cml.Texts.Insert.{Holds}
use cml.Texts.Calls.{Edit, append, insert, insert_len, truncate, assign_len, c_text, run}
use cml.Texts.Runs.{run-Holds}

abbrev old_bytes : Bool → Allocator
old_bytes moves = record { held = λ n. n; moves = moves }

abbrev calls : List (Allocator × Edit)
calls =
    (old_bytes true, append (4 ∷ 5 ∷ []))
    ∷ (old_bytes false, insert (pos 1) (6 ∷ []))
    ∷ (old_bytes false, truncate (pos 2))
    ∷ (old_bytes true, insert (pos 9) (7 ∷ []))
    ∷ (old_bytes true, assign_len (8 ∷ 9 ∷ 0 ∷ []) 2)
    ∷ (old_bytes true, insert_len (pos 1) (3 ∷ 6 ∷ 4 ∷ []) 2)
    ∷ []

run-Holds_example :
    (s : Str) × ((str_new (old_bytes false) (c_text (3 ∷ [])) >>= λ made. run calls made) ≡ some s)
    × Holds s (8 ∷ 3 ∷ 6 ∷ 9 ∷ [])
run-Holds_example =
    run-Holds (old_bytes false) (3 ∷ []) calls (omega arith, tt)
      (
        (omega arith, (omega arith, tt)),
        ((omega arith, tt), (refl, ((omega arith, tt), (omega arith, (omega arith, tt))))),
      )

-- The text 1 2 3 in nine bytes
abbrev digits_held : Str
digits_held = record { buf = 1 ∷ 2 ∷ 3 ∷ 0 ∷ 9 ∷ 9 ∷ 9 ∷ 9 ∷ 9 ∷ []; len = 3 }

room_for_two : has_room digits_held 2 ≡ true
unfolding has_room
room_for_two = refl

-- 2 3 is inserted into itself.
str_insert_len-inside_example :
    (s : Str) × (str_insert_len (old_bytes true) digits_held (pos 2) (inside 1) (pos 2) ≡ some s)
    × Holds s (1 ∷ 2 ∷ 2 ∷ 3 ∷ 3 ∷ [])
str_insert_len-inside_example =
    str_insert_len-inside (old_bytes true) digits_held (1 ∷ 2 ∷ []) (3 ∷ []) (1 ∷ []) (2 ∷ 3 ∷ [])
      [] (record { rest = 9 ∷ 9 ∷ 9 ∷ 9 ∷ 9 ∷ []; begins = refl; long = refl }) refl
      (inr room_for_two)
