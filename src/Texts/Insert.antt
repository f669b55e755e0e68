-- ===== src/Texts/Insert.antt =====
-- Insertion into a text buffer (common/str.c).
use cml.Prelude.{
  ℕ, zero, suc, ◌+◌, ◌-◌, ◌≤◌, ◌<◌, ◌≡◌, refl, sym, ap, subst, ◌∙◌, inl, inr, Bool-cases, some, [],
  ◌∷◌, ◌++◌, length, drop-append, ltb, arith, append_assoc, append-nil, length-append, ◌>>=◌,
}
use cml.Attest.Bytes.{Bytes, read_bytes-append}
use cml.Attest.Ima.{slice}
use cml.Texts.Str.{
  Str, Allocator, outside, unwritten, has_room, str_expand, write, make_room, insert_at,
}

-- The buffer begins with a text and a 0 behind it.
pub record Holds (s : Str) (c : Bytes) : Type 0 where
  pub rest : Bytes
  pub begins : s.buf ≡ c ++ 0 ∷ rest
  pub long : s.len ≡ length c

pub split_at :
    (n : ℕ) (xs : Bytes)
    → n ≤ length xs
    → (ys : Bytes) × (zs : Bytes) × (xs ≡ ys ++ zs) × (length ys ≡ n)
split_at zero xs h = ([], xs, refl, refl)
split_at (suc n) [] h = absurd (omega arith)
split_at (suc n) (x ∷ xs) h =
    let (ys, zs, e, l) = split_at n xs (omega arith) in (x ∷ ys, zs, ap (λ l. x ∷ l) e, ap suc l)

write-over : (ts old ys : Bytes) → length ts ≡ length old → write 0 ts (old ++ ys) ≡ some (ts ++ ys)
unfolding write
write-over [] [] ys l = refl
write-over [] (o ∷ old) ys l = absurd (omega arith)
write-over (t ∷ ts) [] ys l = absurd (omega arith)
write-over (t ∷ ts) (o ∷ old) ys l = rw (write-over ts old ys (omega arith)) refl

pub write_lem :
    (xs ts old ys : Bytes)
    → length ts ≡ length old
    → write (length xs) ts (xs ++ (old ++ ys)) ≡ some (xs ++ (ts ++ ys))
unfolding write
write_lem [] ts old ys l = write-over ts old ys l
write_lem (x ∷ xs) ts old ys l = rw (write_lem xs ts old ys l) refl

length-unwritten : (a : Allocator) (n : ℕ) → length (unwritten a n) ≡ n
unfolding unwritten
length-unwritten a zero = refl
length-unwritten a (suc n) = ap suc (length-unwritten a n)

-- Behind the text there is place for n bytes and a 0.
pub expanded :
    (a : Allocator) (s : Str) (c : Bytes) (n : ℕ)
    → Holds s c
    → (first : Bytes) × (z : ℕ) × (after : Bytes) × ((str_expand a s n).buf
        ≡ c ++ (first ++ z ∷ after))
      × (length first ≡ n)
unfolding str_expand has_room
expanded a s c n h =
    let all = ap length h.begins ∙ length-append c (0 ∷ h.rest) in
    let long = h.long in
    elim (Bool-cases (ltb (s.len + n) (length s.buf))) [
      | inl e ↦
          let fits : n < length (0 ∷ h.rest) = ground (arith, e, all, long) in
          let (first, rest', split, l) = split_at n (0 ∷ h.rest) (omega arith) in
          let (z, after, r) =
            nonempty first rest' (sym (ap length split ∙ length-append first rest')) l fits in
          (first, z, after, rw e (h.begins ∙ ap (λ x. c ++ x) (split ∙ ap (λ x. first ++ x) r)), l)
      | inr e ↦
          let k = s.len + n + 1 - length s.buf in
          let more = (0 ∷ h.rest) ++ unwritten a k in
          let long_more = length-append (0 ∷ h.rest) (unwritten a k) in
          let long_new = length-unwritten a k in
          let short : length s.buf ≤ s.len + n = ground (arith, e) in
          let fits : n < length more = omega arith in
          let (first, rest', split, l) = split_at n more (omega arith) in
          let (z, after, r) =
            nonempty first rest' (sym (ap length split ∙ length-append first rest')) l fits in
          (
            first,
            z,
            after,
            rw e (
                ap (λ b. b ++ unwritten a k) h.begins
                ∙ append_assoc c (0 ∷ h.rest) (unwritten a k)
                ∙ ap (λ x. c ++ x) (split ∙ ap (λ x. first ++ x) r)),
            l,
          )
    ]
  where
    nonempty :
        {m n : ℕ} (first rest' : Bytes)
        → length first + length rest' ≡ m
        → length first ≡ n
        → n < m
        → (z : ℕ) × (after : Bytes) × (rest' ≡ z ∷ after)
    nonempty first [] e l h = absurd (omega arith)
    nonempty first (z ∷ after) e l h = (z, after, refl)

length-zero : (xs : Bytes) → length xs ≡ 0 → xs ≡ []
length-zero [] h = refl
length-zero (x ∷ xs) h = absurd (omega arith)

slice_lem : (xs ys zs : Bytes) → slice ((xs ++ ys) ++ zs) (length xs) (length ys) ≡ some ys
unfolding slice
slice_lem xs ys zs = rw (append_assoc xs ys zs, drop-append xs (ys ++ zs)) (read_bytes-append ys zs)

-- Room behind a part of the text, with what was behind it moved
pub roomy :
    (before behind first after : Bytes) (z : ℕ)
    → (x : Bytes) × (make_room
          (length before)
          (length first)
          (length (before ++ behind))
          ((before ++ behind) ++ (first ++ z ∷ after))
        ≡ some (before ++ (x ++ (behind ++ z ∷ after))))
      × (length x ≡ length first)
unfolding make_room
roomy before behind first after z =
    let long = length-append before behind in
    let n = length first in
    let moved = length-append behind first in
    let (x, y, split, l) = split_at n (behind ++ first) (omega arith) in
    let parts = sym moved ∙ ap length split ∙ length-append x y in
    let view : (before ++ behind) ++ (first ++ z ∷ after) ≡ (before ++ x) ++ (y ++ z ∷ after) =
      append_assoc before behind (first ++ z ∷ after)
      ∙ ap (λ w. before ++ w)
          (sym (append_assoc behind first (z ∷ after))
            ∙ ap (λ w. w ++ z ∷ after) split
            ∙ append_assoc x y (z ∷ after))
      ∙ sym (append_assoc before x (y ++ z ∷ after)) in
    let place : length (before ++ x) ≡ length before + n =
      length-append before x ∙ ap (λ k. length before + k) l in
    let put = write_lem (before ++ x) behind y (z ∷ after) (omega arith) in
    let put' =
      subst
        (λ k.
          write k behind ((before ++ x) ++ (y ++ z ∷ after))
          ≡ some ((before ++ x) ++ (behind ++ z ∷ after)))
        place put in
    elim (Bool-cases (ltb (length before) (length (before ++ behind)))) [
      | inl e ↦
          let size : length (before ++ behind) - length before ≡ length behind = omega arith in
          let tail : slice ((before ++ behind) ++ (first ++ z ∷ after)) (length before)
                (length behind)
              ≡ some behind =
            slice_lem before behind (first ++ z ∷ after) in
          (
            x,
            rw (e, size)
                (rw tail
                  (rw view (rw put' (ap some (append_assoc before x (behind ++ z ∷ after)))))),
            l,
          )
      | inr e ↦
          let empty : length behind ≡ 0 = ground (arith, e, long) in
          let none_behind = length-zero behind empty in
          (
            first,
            rw e (
                rw none_behind (ap some (ap (λ w. w ++ (first ++ z ∷ after)) (append-nil before)))),
            refl,
          )
    ]

-- The 0 behind the text
pub ended :
    (c after : Bytes) (z : ℕ) (k : ℕ)
    → length c ≡ k
    → (s' : Str) × ((write k (0 ∷ []) (c ++ z ∷ after) >>= λ done.
          some (record { buf = done; len = k }))
        ≡ some s')
      × Holds s' c
ended c after z k l =
    let put = write_lem c (0 ∷ []) (z ∷ []) after refl in
    let put' = subst (λ m. write m (0 ∷ []) (c ++ z ∷ after) ≡ some (c ++ 0 ∷ after)) l put in
    (
      record { buf = c ++ 0 ∷ after; len = k },
      rw put' refl,
      record { rest = after; begins = refl; long = sym l },
    )

-- Text from outside is inserted between two parts of the text of the buffer.
pub insert_at-Holds :
    (a : Allocator) (s : Str) (before behind text after : Bytes)
    → Holds s (before ++ behind)
    → (s' : Str) × (insert_at a s (length before) (outside (text ++ after)) (length text) ≡ some s')
      × Holds s' (before ++ (text ++ behind))
unfolding insert_at
insert_at-Holds a s before behind text after h =
    let (first, z, more, buf, l) = expanded a s (before ++ behind) (length text) h in
    let (x, room, lx) = roomy before behind first more z in
    let room' =
      subst
        (λ n.
          make_room (length before) n (length (before ++ behind))
            ((before ++ behind) ++ (first ++ z ∷ more))
          ≡ some (before ++ (x ++ (behind ++ z ∷ more))))
        l room in
    let room'' =
      subst
        (λ k.
          make_room (length before) (length text) k ((before ++ behind) ++ (first ++ z ∷ more))
          ≡ some (before ++ (x ++ (behind ++ z ∷ more))))
        (sym h.long) room' in
    let put = write_lem before text x (behind ++ z ∷ more) (sym (lx ∙ l)) in
    let whole : before ++ (text ++ (behind ++ z ∷ more))
        ≡ (before ++ (text ++ behind)) ++ z ∷ more =
      simp append_assoc in
    let long = h.long in
    let parts = length-append before behind in
    let parts' = length-append before (text ++ behind) in
    let parts'' = length-append text behind in
    let (s', e, holds) =
      ended (before ++ (text ++ behind)) more z (s.len + length text) (omega arith) in
    (s', rw (read_bytes-append text after, buf) (rw room'' (rw put (rw whole e))), holds)
