-- ===== src/Texts/Runs.antt =====
-- Sequences of operations on a text buffer (common/str.c).
use cml.Prelude.{
  ℕ, zero, suc, ◌+◌, ◌-◌, ◌≤◌, ◌<◌, ◌≡◌, refl, sym, ap, ap₂, subst, ◌∙◌, inl, inr, Bool-cases, ℤ,
  pos, negsuc, minus_one, true, false, some, List, [], ◌∷◌, ◌++◌, All, length, ltb, ◌==◌, arith,
  append_assoc, append-nil, length-append, if◌then◌else◌, ◌>>=◌,
}
use cml.Attest.Bytes.{Bytes}
use cml.Attest.Ima.{strlen}
use cml.Texts.Str.{
  Str, Allocator, outside, unwritten, has_room, str_expand, write, insert_at, text_len,
  str_insert_len, str_insert, str_append, str_append_len, str_truncate, str_assign, str_assign_len,
  str_new_len, str_new,
}
use cml.Texts.Insert.{Holds, split_at, ended, insert_at-Holds}
use cml.Texts.Calls.{
  Edit, append, append_len, insert, insert_len, truncate, assign, assign_len, c_text, run_one, run,
  inserted, truncated, put_in, edited, edited_all, Text, Proper,
}

strlen_lem : (text : Bytes) → Text text → strlen (c_text text) ≡ some (length text)
unfolding strlen
strlen_lem [] h = refl
strlen_lem (x ∷ text) (n, h) =
    let other : (x == 0) ≡ false = ground arith in rw other (rw (strlen_lem text h) refl)

inserted-split :
    (before text behind : Bytes)
    → inserted (length before) text (before ++ behind) ≡ before ++ (text ++ behind)
inserted-split [] text behind = refl
inserted-split (x ∷ before) text behind = ap (λ l. x ∷ l) (inserted-split before text behind)

inserted_beyond : (p : ℕ) (text c : Bytes) → length c < p → inserted p text c ≡ c
inserted_beyond zero text c h = absurd (omega arith)
inserted_beyond (suc p) text [] h = refl
inserted_beyond (suc p) text (x ∷ c) h = ap (λ l. x ∷ l) (inserted_beyond p text c (omega arith))

truncated-split : (before behind : Bytes) → truncated (length before) (before ++ behind) ≡ before
truncated-split [] behind = refl
truncated-split (x ∷ before) behind = ap (λ l. x ∷ l) (truncated-split before behind)

truncated_all : (n : ℕ) (c : Bytes) → length c ≤ n → truncated n c ≡ c
truncated_all zero [] h = refl
truncated_all zero (x ∷ c) h = absurd (omega arith)
truncated_all (suc n) [] h = refl
truncated_all (suc n) (x ∷ c) h = ap (λ l. x ∷ l) (truncated_all n c (omega arith))

module _ (a : Allocator) (s : Str) (c : Bytes) (h : Holds s c) where
  append_len_lem :
      (text after : Bytes)
      → (s' : Str) × (insert_at a s s.len (outside (text ++ after)) (length text) ≡ some s')
        × Holds s' (c ++ text)
  append_len_lem text after =
      let whole : Holds s (c ++ []) = subst (Holds s) (sym (append-nil c)) h in
      let (s', e, g) = insert_at-Holds a s c [] text after whole in
      let e' =
        subst (λ k. insert_at a s k (outside (text ++ after)) (length text) ≡ some s') (sym h.long)
          e in
      (s', e', subst (λ t. Holds s' (c ++ t)) (append-nil text) g)

  -- The insertion of n bytes at any place
  place_lem :
      (p : ℤ) (text after : Bytes)
      → (s' : Str) × (str_insert_len a s p (outside (text ++ after)) (pos (length text)) ≡ some s')
        × Holds s' (put_in p text c)
  unfolding str_insert_len text_len
  place_lem (negsuc _) text after = append_len_lem text after
  place_lem (pos p) text after = elim (Bool-cases (ltb s.len p)) [
    | inl y ↦
        let beyond : length c < p = ground (arith, y, h.long) in
        (s, rw y refl, subst (Holds s) (sym (inserted_beyond p text c beyond)) h)
    | inr y ↦
        let within : p ≤ length c = ground (arith, y, h.long) in
        let (before, behind, split, l) = split_at p c within in
        let whole : Holds s (before ++ behind) = subst (Holds s) split h in
        let (s', e, g) = insert_at-Holds a s before behind text after whole in
        let e' =
          subst (λ k. insert_at a s k (outside (text ++ after)) (length text) ≡ some s') l e in
        let result : before ++ (text ++ behind) ≡ inserted p text c =
          sym (inserted-split before text behind) ∙ ap₂ (λ k x. inserted k text x) l (sym split) in
        (s', rw y e', subst (Holds s') result g)
  ]

  -- The length is measured when it is negative.
  measured :
      (p : ℤ) (text : Bytes)
      → Text text
      → str_insert_len a s p (outside (c_text text)) minus_one
        ≡ str_insert_len a s p (outside (c_text text)) (pos (length text))
  unfolding str_insert_len text_len
  measured (pos p) text t = rw (strlen_lem text t) refl
  measured (negsuc p) text t = rw (strlen_lem text t) refl

  insert_lem :
      (p : ℤ) (text : Bytes)
      → Text text
      → (s' : Str) × (str_insert a s p (outside (c_text text)) ≡ some s')
        × Holds s' (put_in p text c)
  unfolding str_insert
  insert_lem p text t = let (s', e, g) = place_lem p text (0 ∷ []) in (s', measured p text t ∙ e, g)

  insert_len_lem :
      (p : ℤ) (memory : Bytes) (n : ℕ)
      → n ≤ length memory
      → (s' : Str) × (str_insert_len a s p (outside memory) (pos n) ≡ some s')
        × Holds s' (put_in p (truncated n memory) c)
  insert_len_lem p memory n l =
      let (text, after, split, k) = split_at n memory l in
      let (s', e, g) = place_lem p text after in
      let same_text : text ≡ truncated n memory =
        sym (truncated-split text after) ∙ ap₂ truncated k (sym split) in
      (
        s',
        subst (λ m. str_insert_len a s p (outside memory) (pos m) ≡ some s') k
            (subst (λ m. str_insert_len a s p (outside m) (pos (length text)) ≡ some s') (sym split)
              e),
        subst (λ t. Holds s' (put_in p t c)) same_text g,
      )

  append_lem :
      (text : Bytes)
      → Text text
      → (s' : Str) × (str_append a s (outside (c_text text)) ≡ some s') × Holds s' (c ++ text)
  unfolding str_append str_insert_len text_len
  append_lem text t =
      let (s', e, g) = append_len_lem text (0 ∷ []) in (s', rw (strlen_lem text t) e, g)

  truncate_lem :
      (n : ℕ) → (s' : Str) × (str_truncate s (pos n) ≡ some s') × Holds s' (truncated n c)
  unfolding str_truncate
  truncate_lem n = elim (Bool-cases (ltb n s.len)) [
    | inl y ↦
        let less : n < length c = ground (arith, y, h.long) in
        let (before, behind, split, l) = split_at n c (omega arith) in
        cut y less before behind split l
    | inr y ↦
        let (s', e, g) = ended c h.rest 0 s.len (sym h.long) in
        let all : length c ≤ n = ground (arith, y, h.long) in
        (s', rw (y, h.begins) e, subst (Holds s') (sym (truncated_all n c all)) g)
  ]
    where
      cut :
          {n : ℕ}
          → ltb n s.len ≡ true
          → n < length c
          → (before behind : Bytes) → c ≡ before ++ behind
          → length before ≡ n
          → (s' : Str) × ((write (if ltb n s.len then n else s.len) (0 ∷ []) s.buf >>= λ buf.
                some (record { buf = buf; len = if ltb n s.len then n else s.len }))
              ≡ some s')
            × Holds s' (truncated n c)
      cut y less before [] split l =
          absurd (omega (arith, ap length split ∙ length-append before []))
      cut {n = n} y less before (z ∷ behind) split l =
          let (s', e, g) = ended before (behind ++ 0 ∷ h.rest) z n l in
          let view : s.buf ≡ before ++ z ∷ (behind ++ 0 ∷ h.rest) =
            h.begins
            ∙ ap (λ x. x ++ 0 ∷ h.rest) split
            ∙ append_assoc before (z ∷ behind) (0 ∷ h.rest) in
          let result : before ≡ truncated n c =
            sym (truncated-split before (z ∷ behind)) ∙ ap₂ truncated l (sym split) in
          (s', rw (y, view) e, subst (Holds s') result g)

run_one_lem :
    (a : Allocator) (e : Edit) (s : Str) (c : Bytes)
    → Holds s c
    → Proper e
    → (s' : Str) × (run_one a e s ≡ some s') × Holds s' (edited e c)
unfolding run_one str_assign str_assign_len str_append_len
run_one_lem a (append text) s c h t = append_lem a s c h text t
run_one_lem a (append_len memory n) s c h t = insert_len_lem a s c h minus_one memory n t
run_one_lem a (insert p text) s c h t = insert_lem a s c h p text t
run_one_lem a (insert_len p memory n) s c h t = insert_len_lem a s c h p memory n t
run_one_lem a (truncate (pos n)) s c h t = truncate_lem a s c h n
run_one_lem a (truncate (negsuc n)) s c h t = cc
run_one_lem a (assign text) s c h t =
    let (s1, e1, g1) = truncate_lem a s c h 0 in
    let (s2, e2, g2) = append_lem a s1 [] g1 text t in (s2, rw e1 e2, g2)
run_one_lem a (assign_len memory n) s c h t =
    let (s1, e1, g1) = truncate_lem a s c h 0 in
    let (s2, e2, g2) = insert_len_lem a s1 [] g1 minus_one memory n t in (s2, rw e1 e2, g2)

run_lem :
    (es : List (Allocator × Edit)) (s : Str) (c : Bytes)
    → Holds s c
    → All (λ e. Proper e.1) es
    → (s' : Str) × (run es s ≡ some s') × Holds s' (edited_all es c)
unfolding run
run_lem [] s c h t = (s, refl, h)
run_lem ((a, e) ∷ es) s c h (t, ts) =
    let (s1, e1, g1) = run_one_lem a e s c h t in
    let (s2, e2, g2) = run_lem es s1 (edited e c) g1 ts in (s2, rw e1 e2, g2)

unfolded : (a : Allocator) (k : ℕ) → unwritten a (suc k) ≡ a.held k ∷ unwritten a k
unfolding unwritten
unfolded a k = refl

first_room :
    (a : Allocator) (k : ℕ)
    → (z : ℕ) × (after : Bytes) × ((str_expand a (record { buf = []; len = 0 }) k).buf ≡ z ∷ after)
unfolding str_expand has_room
first_room a k =
    let no_room : ltb (0 + k) 0 ≡ false = ground arith in
    let some_room : 0 + k + 1 - 0 ≡ suc k = omega arith in
    (a.held k, unwritten a k, rw no_room (rw some_room (unfolded a k)))

str_new_len_lem : (a : Allocator) (n : ℕ) → (s : Str) × (str_new_len a n ≡ some s) × Holds s []
unfolding str_new_len
str_new_len_lem a n = made a (if ltb 2 n then n else 2)
  where
    made :
        (a : Allocator) (k : ℕ)
        → (s : Str) × ((write 0 (0 ∷ []) (str_expand a (record { buf = []; len = 0 }) k).buf
              >>= λ buf. some (record { buf = buf; len = 0 }))
            ≡ some s)
          × Holds s []
    made a k =
        let (z, after, e) = first_room a k in
        let (s, w, h) = ended [] after z 0 refl in (s, rw e w, h)

str_new_lem :
    (a : Allocator) (init : Bytes)
    → Text init
    → (s : Str) × (str_new a (c_text init) ≡ some s) × Holds s init
unfolding str_new str_append_len str_insert_len text_len
str_new_lem a [] t = let (s, e, h) = str_new_len_lem a 2 in (s, rw (strlen_lem [] t) e, h)
str_new_lem a (x ∷ init) t =
    let (s, e, h) = str_new_len_lem a (length (x ∷ init) + 2) in
    let (s', e', h') = append_len_lem a s [] h (x ∷ init) (0 ∷ []) in
    let some_text : ltb 0 (length (x ∷ init)) ≡ true = ground arith in
    (s', rw (strlen_lem (x ∷ init) t) (rw (some_text, e) e'), h')

-- A new buffer on which any sequence of calls is carried out, with texts from outside, with no more bytes
-- asked for than the text has and with no truncation to a negative length, holds the text that the calls
-- mean, ended by a 0, and its length, whatever the allocator does: no access is outside of a buffer.
pub run-Holds :
    (a : Allocator) (init : Bytes) (es : List (Allocator × Edit))
    → Text init
    → All (λ e. Proper e.1) es
    → (s : Str) × ((str_new a (c_text init) >>= λ made. run es made) ≡ some s)
      × Holds s (edited_all es init)
run-Holds a init es t ts =
    let (s1, e1, g1) = str_new_lem a init t in
    let (s2, e2, g2) = run_lem es s1 init g1 ts in (s2, rw e1 e2, g2)
