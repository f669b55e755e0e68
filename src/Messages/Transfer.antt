-- ===== src/Messages/Transfer.antt =====
-- A transfer that goes on moves all that it is asked for (common/fd.c).
use cml.Prelude.{
  ℕ, zero, suc, ◌+◌, ◌-◌, ◌≤◌, ◌≡◌, refl, sym, ap, ap₂, ◌∙◌, false, some, List, [], ◌∷◌, ◌++◌,
  length, drop, arith, append_assoc, append-nil, length-append, ◌==◌,
}
use cml.Messages.Fd.{Answer, blocked, failed, moved, done, take, min, read_loop, write_loop}

-- Answers that are no error and move at least a byte each
abbrev pub Moves : List Answer → Type 0
Moves [] = Unit
Moves (blocked ∷ answers) = Moves answers
Moves (failed e ∷ answers) = ⊥
Moves (moved n ∷ answers) = (1 ≤ n) × Moves answers

-- How many answers move bytes
abbrev pub moving : List Answer → ℕ
moving [] = 0
moving (moved n ∷ answers) = suc (moving answers)
moving (_ ∷ answers) = moving answers

take-drop : (n : ℕ) (xs : List ℕ) → take n xs ++ drop n xs ≡ xs
take-drop zero xs = refl
take-drop (suc n) [] = refl
take-drop (suc n) (x ∷ xs) = ap (λ l. x ∷ l) (take-drop n xs)

length-take : (n : ℕ) (xs : List ℕ) → n ≤ length xs → length (take n xs) ≡ n
length-take zero xs h = refl
length-take (suc n) [] h = absurd (omega arith)
length-take (suc n) (x ∷ xs) h = ap suc (length-take n xs (omega arith))

length-drop : (n : ℕ) (xs : List ℕ) → n ≤ length xs → length (drop n xs) ≡ length xs - n
length-drop zero xs h = omega arith
length-drop (suc n) [] h = absurd (omega arith)
length-drop (suc n) (x ∷ xs) h = length-drop n xs (omega arith) ∙ omega arith

take-append : (n : ℕ) (xs ys : List ℕ) → n ≤ length xs → take n (xs ++ ys) ≡ take n xs
take-append zero xs ys h = refl
take-append (suc n) [] ys h = absurd (omega arith)
take-append (suc n) (x ∷ xs) ys h = ap (λ l. x ∷ l) (take-append n xs ys (omega arith))

drop-within : (n : ℕ) (xs ys : List ℕ) → n ≤ length xs → drop n (xs ++ ys) ≡ drop n xs ++ ys
drop-within zero xs ys h = refl
drop-within (suc n) [] ys h = absurd (omega arith)
drop-within (suc n) (x ∷ xs) ys h = drop-within n xs ys (omega arith)

-- What one call of read moves, when there is at least a byte to move
moved_bounds :
    (n r l : ℕ)
    → 1 ≤ n
    → suc r ≤ l
    → let ret = min n (min (suc r) l) in (1 ≤ ret) × (ret ≤ suc r) × ((ret == 0) ≡ false)
moved_bounds n r l p h = ground arith

moved_bounds' :
    (n r : ℕ) → 1 ≤ n → let ret = min n (suc r) in (1 ≤ ret) × (ret ≤ suc r) × ((ret == 0) ≡ false)
moved_bounds' n r p = ground arith

-- With answers enough the loop of fd_read gets all that it is asked for, if there is as much.
pub read_lem :
    (answers : List Answer) (remain : ℕ) (got bytes rest : List ℕ)
    → Moves answers
    → remain ≤ moving answers
    → length bytes ≡ remain
    → (later : List Answer) × (read_loop answers remain got (bytes ++ rest)
        ≡ some (done (length (got ++ bytes)), got ++ bytes, rest, later))
      × Moves later
      × (moving answers ≤ moving later + remain)
unfolding read_loop
read_lem answers zero got [] rest m h l = (
  answers,
  ap (λ w. some (done (length w), w, rest, answers)) (sym (append-nil got)),
  m,
  omega arith,
)
read_lem answers zero got (b ∷ bytes) rest m h l = absurd (omega arith)
read_lem [] (suc remain) got bytes rest m h l = absurd (omega arith)
read_lem (blocked ∷ answers) (suc remain) got bytes rest m h l =
    read_lem answers (suc remain) got bytes rest m h l
read_lem (failed e ∷ answers) (suc remain) got bytes rest m h l = absurd m
read_lem (moved n ∷ answers) (suc remain) got bytes rest (p, m) h l =
    let there = length-append bytes rest in
    let ret = min n (min (suc remain) (length (bytes ++ rest))) in
    let (one, most, not_zero) =
      moved_bounds n remain (length (bytes ++ rest)) p (omega (arith, there, l)) in
    let within : ret ≤ length bytes = omega (arith, most, l) in
    let (later, e, m', c) =
      read_lem answers (suc remain - ret) (got ++ take ret bytes) (drop ret bytes) rest m
        (omega (arith, one, h)) (length-drop ret bytes within ∙ ap (λ x. x - ret) l) in
    let whole =
      append_assoc got (take ret bytes) (drop ret bytes)
      ∙ ap (λ w. got ++ w) (take-drop ret bytes) in
    (
      later,
      rw not_zero (
          ap₂ (λ t d. read_loop answers (suc remain - ret) (got ++ t) d)
            (take-append ret bytes rest within) (drop-within ret bytes rest within)
          ∙ e
          ∙ ap (λ w. some (done (length w), w, rest, later)) whole),
      m',
      omega (arith, c, one, most),
    )

-- Likewise for the loop of fd_write
pub write_lem :
    (answers : List Answer) (n : ℕ) (buf sent : List ℕ)
    → Moves answers
    → length buf ≤ n
    → n ≤ moving answers
    → (later : List Answer) × (write_loop answers buf sent
        ≡ some (done (length (sent ++ buf)), sent ++ buf, later))
      × Moves later
      × (moving answers ≤ moving later + length buf)
unfolding write_loop
write_lem answers n [] sent m l h =
    (answers, ap (λ w. some (done (length w), w, answers)) (sym (append-nil sent)), m, omega arith)
write_lem [] n (b ∷ buf) sent m l h = absurd (omega arith)
write_lem (blocked ∷ answers) n (b ∷ buf) sent m l h = write_lem answers n (b ∷ buf) sent m l h
write_lem (failed e ∷ answers) n (b ∷ buf) sent m l h = absurd m
write_lem (moved k ∷ answers) zero (b ∷ buf) sent (p, m) l h = absurd (omega arith)
write_lem (moved k ∷ answers) (suc n) (b ∷ buf) sent (p, m) l h =
    let all = b ∷ buf in
    let ret = min k (length all) in
    let (one, within, not_zero) = moved_bounds' k (length buf) p in
    let shorter = length-drop ret all within in
    let (later, e, m', c) =
      write_lem answers n (drop ret all) (sent ++ take ret all) m (omega (arith, shorter, one, l))
        (omega arith) in
    let whole =
      append_assoc sent (take ret all) (drop ret all) ∙ ap (λ w. sent ++ w) (take-drop ret all) in
    (
      later,
      rw not_zero (e ∙ ap (λ w. some (done (length w), w, later)) whole),
      m',
      omega (arith, c, one, within, shorter),
    )
