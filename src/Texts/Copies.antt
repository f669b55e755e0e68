-- ===== src/Texts/Copies.antt =====
-- The copy of a part of a buffer into the room made in it (common/str.c).
use cml.Prelude.{
  ℕ, ◌+◌, ◌-◌, ◌≤◌, ◌<◌, ◌≡◌, refl, sym, ap, ap₂, subst, ◌∙◌, ◌⊎◌, inl, inr, Bool-cases, true,
  false, some, [], ◌∷◌, ◌++◌, length, drop, drop-append, ltb, arith, append_assoc, length-append,
  if◌then◌else◌,
}
use cml.Attest.Bytes.{Bytes, read_bytes, read_bytes-append}
use cml.Attest.Ima.{slice}
use cml.Texts.Str.{write, copy_own}
use cml.Texts.Insert.{split_at, write_lem}

slice-mid :
    (xs ys zs : Bytes) (n m : ℕ)
    → length xs ≡ n
    → length ys ≡ m
    → slice (xs ++ (ys ++ zs)) n m ≡ some ys
unfolding slice
slice-mid xs ys zs n m l k =
    let d = ap (λ j. drop j (xs ++ (ys ++ zs))) (sym l) ∙ drop-append xs (ys ++ zs) in
    rw d (ap (λ j. read_bytes j (ys ++ zs)) (sym k) ∙ read_bytes-append ys zs)

write-mid :
    (xs ts old ys : Bytes) (n : ℕ)
    → length xs ≡ n
    → length ts ≡ length old
    → write n ts (xs ++ (old ++ ys)) ≡ some (xs ++ (ts ++ ys))
write-mid xs ts old ys n l k =
    subst (λ j. write j ts (xs ++ (old ++ ys)) ≡ some (xs ++ (ts ++ ys))) l
      (write_lem xs ts old ys k)

-- Where a part of a text stands to a place in it: before it, behind it, or around it
pub data Place (before behind head text tail : Bytes) : Type 0 where
  left : (mid : Bytes) → before ≡ head ++ (text ++ mid) → Place before behind head text tail
  right :
      (mid : Bytes)
      → behind ≡ mid ++ (text ++ tail)
      → head ≡ before ++ mid
      → Place before behind head text tail
  around :
      (t1 t2 : Bytes)
      → text ≡ t1 ++ t2
      → before ≡ head ++ t1
      → behind ≡ t2 ++ tail
      → Place before behind head text tail

-- Two ways to divide a list
divide :
    (xs ys zs ws : Bytes)
    → xs ++ ys ≡ zs ++ ws
    → ((m : Bytes) × (xs ≡ zs ++ m) × (ws ≡ m ++ ys))
      ⊎ ((m : Bytes) × (zs ≡ xs ++ m) × (ys ≡ m ++ ws))
divide [] ys zs ws e = inr (zs, refl, e)
divide (x ∷ xs) ys [] ws e = inl (x ∷ xs, refl, sym e)
divide (x ∷ xs) ys (z ∷ zs) ws e =
    let head : x ≡ z = cc in
    let tail : xs ++ ys ≡ zs ++ ws = cc in
    elim (divide xs ys zs ws tail) [
      | inl (m, a, b) ↦ inl (m, ap₂ (λ h t. h ∷ t) head a, b)
      | inr (m, a, b) ↦ inr (m, ap₂ (λ h t. h ∷ t) (sym head) a, b)
    ]

pub Place-of :
    (before behind head text tail : Bytes)
    → before ++ behind ≡ head ++ (text ++ tail)
    → Place before behind head text tail
Place-of before behind head text tail e = elim (divide before behind head (text ++ tail) e) [
  | inl (m, a, b) ↦ elim (divide m behind text tail (sym b)) [
    | inl (k, c, d) ↦ left k (a ∙ ap (λ l. head ++ l) c)
    | inr (k, c, d) ↦ around m k c a d
  ]
  | inr (m, a, b) ↦ right m b a
]

-- What copy_own does, from what its steps do
copied :
    (p n off u : ℕ) (b b' t1 : Bytes)
    → (if ltb off p then (if ltb n (p - off) then n else p - off) else 0) ≡ u
    → slice b off u ≡ some t1
    → write p t1 b ≡ some b'
    → u < n
    → (t2 r : Bytes) → slice b' (off + u + n) (n - u) ≡ some t2
    → write (p + u) t2 b' ≡ some r
    → copy_own p n off b ≡ some r
unfolding copy_own
copied p n off u b b' t1 e s w l t2 r s' w' =
    let more : ltb u n ≡ true = ground arith in rw e (rw s (rw w (rw more (rw s' w'))))

copied_once :
    (p n off : ℕ) (b b' t1 : Bytes)
    → (if ltb off p then (if ltb n (p - off) then n else p - off) else 0) ≡ n
    → slice b off n ≡ some t1
    → write p t1 b ≡ some b'
    → copy_own p n off b ≡ some b'
unfolding copy_own
copied_once p n off b b' t1 e s w =
    let done : ltb n n ≡ false = ground arith in rw e (rw s (rw w (rw done refl)))

until_left :
    (p n off : ℕ)
    → off + n ≤ p
    → (if ltb off p then (if ltb n (p - off) then n else p - off) else 0) ≡ n
until_left p n off h = ground arith

until_around :
    (p n off : ℕ)
    → off ≤ p
    → p ≤ off + n
    → (if ltb off p then (if ltb n (p - off) then n else p - off) else 0) ≡ p - off
until_around p n off h k = ground arith

until_right :
    (p n off : ℕ)
    → p ≤ off
    → (if ltb off p then (if ltb n (p - off) then n else p - off) else 0) ≡ 0
until_right p n off h = ground arith

length-zero : (xs : Bytes) → length xs ≡ 0 → xs ≡ []
length-zero [] h = refl
length-zero (x ∷ xs) h = absurd (omega arith)

-- The copy into the room that was made
module _ (x end : Bytes) where
  pub copy_left :
      (head text mid behind : Bytes)
      → length x ≡ length text
      → (let before = head ++ (text ++ mid) in
          copy_own (length before) (length text) (length head) (before ++ (x ++ (behind ++ end)))
          ≡ some (before ++ (text ++ (behind ++ end))))
  copy_left head text mid behind l =
      let before = head ++ (text ++ mid) in
      let parts = length-append head (text ++ mid) in
      let parts' = length-append text mid in
      let room = x ++ (behind ++ end) in
      let view : before ++ room ≡ head ++ (text ++ (mid ++ room)) = simp append_assoc in
      let read =
        subst (λ b. slice b (length head) (length text) ≡ some text) (sym view)
          (slice-mid head text (mid ++ room) (length head) (length text) refl refl) in
      copied_once (length before) (length text) (length head) (before ++ room) _ text
        (until_left (length before) (length text) (length head) (omega arith)) read
        (write_lem before text x (behind ++ end) (sym l))

  pub copy_right :
      (before mid text tail : Bytes)
      → length x ≡ length text
      → copy_own
          (length before)
          (length text)
          (length (before ++ mid))
          (before ++ (x ++ ((mid ++ (text ++ tail)) ++ end)))
        ≡ some (before ++ (text ++ ((mid ++ (text ++ tail)) ++ end)))
  unfolding slice read_bytes
  copy_right before mid text tail l =
      let p = length before in
      let n = length text in
      let off = length (before ++ mid) in
      let parts = length-append before mid in
      let behind = mid ++ (text ++ tail) in
      let b = before ++ (x ++ (behind ++ end)) in
      let until = until_right p n off (omega arith) in
      let w0 : write p [] b ≡ some b = write_lem before [] [] (x ++ (behind ++ end)) refl in
      elim (Bool-cases (ltb 0 n)) [
        | inl y ↦
            let view : b ≡ (before ++ (x ++ mid)) ++ (text ++ (tail ++ end)) = simp append_assoc in
            let at : length (before ++ (x ++ mid)) ≡ off + 0 + n =
              omega (arith, length-append before (x ++ mid), length-append x mid, parts, l) in
            let read =
              subst (λ w. slice w (off + 0 + n) (n - 0) ≡ some text) (sym view)
                (slice-mid (before ++ (x ++ mid)) text (tail ++ end) (off + 0 + n) (n - 0) at
                  (omega arith)) in
            copied p n off 0 b b [] until refl w0 (ground (arith, y)) text _ read
              (write-mid before text x (behind ++ end) (p + 0) (omega arith) (sym l))
        | inr y ↦
            let empty : n ≡ 0 = ground (arith, y) in
            let no_text = length-zero text empty in
            let no_x = length-zero x (l ∙ empty) in
            copied_once p n off b _ [] (until ∙ sym empty) (ap (slice b off) empty)
              (w0 ∙ ap (λ r. some (before ++ (r ++ (behind ++ end)))) (no_x ∙ sym no_text))
      ]

  pub copy_around :
      (head t1 t2 tail : Bytes)
      → length x ≡ length (t1 ++ t2)
      → copy_own
          (length (head ++ t1))
          (length (t1 ++ t2))
          (length head)
          ((head ++ t1) ++ (x ++ ((t2 ++ tail) ++ end)))
        ≡ some ((head ++ t1) ++ ((t1 ++ t2) ++ ((t2 ++ tail) ++ end)))
  copy_around head t1 t2 tail l =
      let before = head ++ t1 in
      let behind = t2 ++ tail in
      let p = length before in
      let n = length (t1 ++ t2) in
      let off = length head in
      let b = before ++ (x ++ (behind ++ end)) in
      let parts = length-append head t1 in
      let parts' = length-append t1 t2 in
      let (x1, x2, split, l1) = split_at (length t1) x (omega arith) in
      let lx = ap length split ∙ length-append x1 x2 in
      let until : (if ltb off p then (if ltb n (p - off) then n else p - off) else 0) ≡ length t1 =
        until_around p n off (omega arith) (omega arith) ∙ size p off (length t1) parts in
      let view : b ≡ head ++ (t1 ++ (x ++ (behind ++ end))) =
        append_assoc head t1 (x ++ (behind ++ end)) in
      let read =
        subst (λ w. slice w off (length t1) ≡ some t1) (sym view)
          (slice-mid head t1 (x ++ (behind ++ end)) off (length t1) refl refl) in
      let b' = before ++ (t1 ++ (x2 ++ (behind ++ end))) in
      let view' : before ++ (x1 ++ (x2 ++ (behind ++ end))) ≡ b =
        ap (λ w. before ++ w)
          (sym (append_assoc x1 x2 (behind ++ end)) ∙ ap (λ w. w ++ (behind ++ end)) (sym split)) in
      let w1 =
        subst (λ w. write p t1 w ≡ some b') view'
          (write_lem before t1 x1 (x2 ++ (behind ++ end)) (sym l1)) in
      let result = before ++ ((t1 ++ t2) ++ (behind ++ end)) in
      elim (Bool-cases (ltb (length t1) n)) [
        | inl y ↦
            let view2 : b' ≡ (before ++ (t1 ++ x2)) ++ (t2 ++ (tail ++ end)) = simp append_assoc in
            let at : length (before ++ (t1 ++ x2)) ≡ off + length t1 + n = omega (
              arith,
              length-append before (t1 ++ x2),
              length-append t1 x2,
              parts,
              parts',
              l,
              lx,
              l1,
            ) in
            let rest : length t2 ≡ n - length t1 = omega (arith, parts') in
            let read2 =
              subst (λ w. slice w (off + length t1 + n) (n - length t1) ≡ some t2) (sym view2)
                (slice-mid (before ++ (t1 ++ x2)) t2 (tail ++ end) (off + length t1 + n)
                  (n - length t1) at rest) in
            let view3 : b' ≡ (before ++ t1) ++ (x2 ++ (behind ++ end)) =
              sym (append_assoc before t1 (x2 ++ (behind ++ end))) in
            let back : (before ++ t1) ++ (t2 ++ (behind ++ end)) ≡ result = simp append_assoc in
            let w2 =
              write-mid (before ++ t1) t2 x2 (behind ++ end) (p + length t1)
                (length-append before t1) (omega (arith, parts', l, lx, l1)) in
            let w2' =
              subst
                (λ w. write (p + length t1) t2 w ≡ some ((before ++ t1) ++ (t2 ++ (behind ++ end))))
                (sym view3) w2 in
            copied p n off (length t1) b b' t1 until read w1 (ground (arith, y)) t2 result read2
              (w2' ∙ ap some back)
        | inr y ↦
            let t2_empty : length t2 ≡ 0 = ground (arith, y, parts') in
            let no_t2 = length-zero t2 t2_empty in
            let no_x2 = length-zero x2 (omega (arith, parts', l, lx, l1, t2_empty)) in
            let whole : n ≡ length t1 = omega (arith, parts', t2_empty) in
            let same_result : b' ≡ result =
              ap (λ w. before ++ w)
                (ap (λ r. t1 ++ (r ++ (behind ++ end))) (no_x2 ∙ sym no_t2)
                  ∙ sym (append_assoc t1 t2 (behind ++ end))) in
            copied_once p n off b result t1 (until ∙ sym whole) (ap (slice b off) whole ∙ read)
              (w1 ∙ ap some same_result)
      ]
    where
      size : (p off k : ℕ) → p ≡ off + k → p - off ≡ k
      size p off k h = omega arith
