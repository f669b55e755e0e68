-- ===== src/Texts/Own.antt =====
-- Insertion of a part of the buffer's own text (common/str.c).
use cml.Prelude.{
  ◌+◌, ◌≡◌, refl, sym, ap, subst, ◌∙◌, ◌⊎◌, inl, inr, pos, Bool, true, false, ◌&&◌, some, ◌∷◌, ◌++◌,
  length, ltb, arith, append_assoc, length-append, if◌then◌else◌,
}
use cml.Attest.Bytes.{Bytes}
use cml.Texts.Str.{
  str_insert_len, text_len, Str, Allocator, inside, has_room, make_room, copy_own, insert_at,
}
use cml.Texts.Insert.{Holds, expanded, roomy, ended}
use cml.Texts.Copies.{Place, left, right, around, Place-of, copy_left, copy_right, copy_around}

-- The insertion behind the tests of the arguments
insert_at_own :
    (a : Allocator) (s : Str) (before behind head text tail : Bytes)
    → Holds s (before ++ behind)
    → before ++ behind ≡ head ++ (text ++ tail)
    → (a.moves ≡ false) ⊎ (has_room s (length text) ≡ true)
    → (s' : Str) × (insert_at a s (length before) (inside (length head)) (length text) ≡ some s')
      × Holds s' (before ++ (text ++ behind))
unfolding insert_at
insert_at_own a s before behind head text tail h part stays =
    let (first, z, more, buf, l) = expanded a s (before ++ behind) (length text) h in
    let (x, room, lx) = roomy before behind first more z in
    let room' =
      subst
        (λ n.
          make_room (length before) n (length (before ++ behind))
            ((before ++ behind) ++ (first ++ z ∷ more))
          ≡ some (before ++ (x ++ (behind ++ z ∷ more))))
        l room in
    let room'' =
      subst
        (λ k.
          make_room (length before) (length text) k ((before ++ behind) ++ (first ++ z ∷ more))
          ≡ some (before ++ (x ++ (behind ++ z ∷ more))))
        (sym h.long) room' in
    let copy =
      own x (z ∷ more) before behind head text tail (Place-of before behind head text tail part)
        (lx ∙ l) in
    let whole : before ++ (text ++ (behind ++ z ∷ more))
        ≡ (before ++ (text ++ behind)) ++ z ∷ more =
      simp append_assoc in
    let long = h.long in
    let parts = length-append before behind in
    let parts' = length-append before (text ++ behind) in
    let parts'' = length-append text behind in
    let head_parts = ap length part ∙ length-append head (text ++ tail) in
    let (s', e, holds) =
      ended (before ++ (text ++ behind)) more z (s.len + length text) (omega arith) in
    let in_text : ltb s.len (length head) ≡ false = ground arith in
    (
      s',
      rw (kept a.moves (has_room s (length text)) stays, in_text, buf)
          (rw room'' (rw copy (rw whole e))),
      holds,
    )
  where
    kept : (m r : Bool) → (m ≡ false) ⊎ (r ≡ true) → (m && (if r then false else true)) ≡ false
    kept m r (inl e) = rw e refl
    kept true r (inr e) = rw e refl
    kept false r (inr e) = refl

    own :
        (x end before behind head text tail : Bytes)
        → Place before behind head text tail
        → length x ≡ length text
        → copy_own (length before) (length text) (length head) (before ++ (x ++ (behind ++ end)))
          ≡ some (before ++ (text ++ (behind ++ end)))
    own x end before behind head text tail (left mid e) l =
        subst
          (λ w.
            copy_own (length w) (length text) (length head) (w ++ (x ++ (behind ++ end)))
            ≡ some (w ++ (text ++ (behind ++ end))))
          (sym e) (copy_left x end head text mid behind l)
    own x end before behind head text tail (right mid e f) l =
        rw (e, f) (copy_right x end before mid text tail l)
    own x end before behind head text tail (around t1 t2 t e f) l =
        rw (t, e, f) (copy_around x end head t1 t2 tail (l ∙ ap length t))

-- A part of the buffer's own text is inserted at any place in it as it stood before the call, be it before
-- the place, behind it or around it, when realloc does not move the buffer or need not be called.
pub str_insert_len-inside :
    (a : Allocator) (s : Str) (before behind head text tail : Bytes)
    → Holds s (before ++ behind)
    → before ++ behind ≡ head ++ (text ++ tail)
    → (a.moves ≡ false) ⊎ (has_room s (length text) ≡ true)
    → (s' : Str) × (str_insert_len a s
          (pos (length before))
          (inside (length head))
          (pos (length text))
        ≡ some s')
      × Holds s' (before ++ (text ++ behind))
unfolding str_insert_len text_len
str_insert_len-inside a s before behind head text tail h part stays =
    let (s', e, g) = insert_at_own a s before behind head text tail h part stays in
    let within : ltb s.len (length before) ≡ false =
      ground (arith, h.long, length-append before behind) in
    (s', rw within e, g)
