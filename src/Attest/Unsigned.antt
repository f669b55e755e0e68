-- ===== src/Attest/Unsigned.antt =====
-- Logs of events that bear the template name `ima-ng` (rattestation/ima_verify.c).
use cml.Prelude.{
  ℕ, zero, suc, ◌+◌, ◌≤◌, ◌<◌, ◌%◌, ◌^◌, ◌≡◌, refl, sym, ap, ap₂, subst, ◌∙◌, pos, true, false,
  Option, none, some, List, [], ◌∷◌, ◌++◌, All, map, length, drop, drop-append, arith, codes,
  append_assoc, append-nil, ltb, length-append,
}
use cml.Attest.Bytes.{
  Bytes, zeros, read_bytes, same, memcmp, same_refl, read_bytes-append, memcmp-same,
}
use cml.Attest.Hash.{sha256, Digests, hash_algo_to_size}
use cml.Attest.Containers.{compare_pcr}
use cml.Attest.Binding.{extend_all, length-extend_all, length-zeros}
use cml.Attest.Ima.{
  Env, le32, slice, has_prefix, split_bar, template_fmt, field_len, field, next, fields_loop,
}
use cml.Attest.Log.{
  buf_read, buf_read_into, buf_read_int, buf_read_number, c_string, read_other_data,
  read_template_data, verify_template_hash, verify_template_data, extend_pcr, Header, header_of,
  Loop, verify_event, ended, events_loop, compare_ending, ima_verify,
}

-- What an event holds: the number of the register, the digest and the path of a file, with the bytes that
-- tell their lengths
pub record Event : Type 0 where
  pub register : Bytes
  pub data_len : Bytes
  pub digest_len : Bytes
  pub digest : Bytes
  pub path_len : Bytes
  pub path : Bytes

abbrev pub template_data : Event → Bytes
template_data u = u.digest_len ++ (u.digest ++ (u.path_len ++ u.path))

-- Numbers have four bytes, and lengths are those of what follows.
pub record Coherent (u : Event) : Type 0 where
  pub four_register : length u.register ≡ 4
  pub four_data : length u.data_len ≡ 4
  pub four_digest : length u.digest_len ≡ 4
  pub four_path : length u.path_len ≡ 4
  pub data_fits : le32 u.data_len ≡ length (template_data u)
  pub digest_fits : le32 u.digest_len ≡ length u.digest
  pub path_fits : le32 u.path_len ≡ length u.path
  pub small : length (template_data u) < 2 ^ 31

abbrev header_bytes : Digests → Event → Bytes
header_bytes c u = u.register ++ (c.hash1 (template_data u) ++ 6 ∷ 0 ∷ 0 ∷ 0 ∷ [])

-- The log of a sequence of events
abbrev pub log : Digests → List Event → Bytes
log c [] = []
log c (u ∷ us) =
    header_bytes c u ++ (codes "ima-ng" ++ (u.data_len ++ (template_data u ++ log c us)))

drop-at : (n : ℕ) (xs ys : Bytes) → length xs ≡ n → drop n (xs ++ ys) ≡ ys
drop-at n xs ys l = ap (λ k. drop k (xs ++ ys)) (sym l) ∙ drop-append xs ys

read_bytes-at : (n : ℕ) (xs ys : Bytes) → length xs ≡ n → read_bytes n (xs ++ ys) ≡ some xs
read_bytes-at n xs ys l = ap (λ k. read_bytes k (xs ++ ys)) (sym l) ∙ read_bytes-append xs ys

pub buf_read-at : (n : ℕ) (xs ys : Bytes) → length xs ≡ n → buf_read n (xs ++ ys) ≡ some (xs, ys)
unfolding buf_read
buf_read-at n xs ys l = rw (read_bytes-at n xs ys l, drop-at n xs ys l) refl

slice-at :
    (n m : ℕ) (before xs after : Bytes)
    → length before ≡ n
    → length xs ≡ m
    → slice (before ++ (xs ++ after)) n m ≡ some xs
unfolding slice
slice-at n m before xs after l k =
    rw (drop-at n before (xs ++ after) l, read_bytes-at m xs after k) refl

pub buf_read_number-at :
    (kept : ℕ) (xs ys : Bytes) → length xs ≡ 4 → buf_read_number kept (xs ++ ys) ≡ (le32 xs, ys)
unfolding buf_read_number
buf_read_number-at kept xs ys l = rw (buf_read_number, buf_read-at 4 xs ys l) refl

pub buf_read_int-at :
    (dest xs ys : Bytes) (n : ℕ)
    → length xs ≡ n
    → length dest ≡ n
    → n < 2 ^ 31
    → buf_read_int dest n (xs ++ ys) ≡ (xs, ys)
unfolding buf_read_int buf_read_into
buf_read_int-at dest xs ys n l d s =
    let int : ltb n (2 ^ 31) ≡ true = ground arith in
    let none_left : drop n dest ≡ [] = ap (drop n) (sym (append-nil dest)) ∙ drop-at n dest [] d in
    rw (int, buf_read_into, buf_read-at n xs ys l) (rw (none_left, append-nil xs) refl)

module _ (env : Env) (room : (n : ℕ) → env.can_alloc n ≡ true) (u : Event) (w : Coherent u) where
  -- The name is neither `ima-sig` nor `ima-modsig`, so no field is looked at.
  plain_field :
      (f text : Bytes) (off len : ℕ) (dg : Option (ℕ × ℕ))
      → field env (codes "ima-ng") f text off len dg ≡ some (next ((off + len) % 2 ^ 32) dg)
  unfolding field has_prefix
  plain_field f text off len dg = refl

  behind_digest : (4 + length u.digest) % 2 ^ 32 ≡ 4 + length u.digest
  behind_digest =
      let parts = length-append u.digest_len (u.digest ++ (u.path_len ++ u.path)) in
      let parts' = length-append u.digest (u.path_len ++ u.path) in
      let small = w.small in let four = w.four_digest in omega arith

  first_len :
      (f : Bytes) → field_len (codes "ima-ng") f (template_data u) 0 ≡ some (length u.digest, 4)
  unfolding field_len same
  first_len f =
      rw
        (
          slice-at 0 4 [] u.digest_len (u.digest ++ (u.path_len ++ u.path)) refl w.four_digest,
          w.digest_fits,
        )
        refl

  second_len :
      (f : Bytes)
      → field_len (codes "ima-ng") f (template_data u) (4 + length u.digest)
        ≡ some (length u.path, (4 + length u.digest + 4) % 2 ^ 32)
  unfolding field_len same
  second_len f =
      let before = u.digest_len ++ u.digest in
      let long : length before ≡ 4 + length u.digest =
        length-append u.digest_len u.digest ∙ ap (λ n. n + length u.digest) w.four_digest in
      let read = slice-at (4 + length u.digest) 4 before u.path_len u.path long w.four_path in
      let whole : before ++ (u.path_len ++ u.path) ≡ template_data u =
        append_assoc u.digest_len u.digest (u.path_len ++ u.path) in
      let read' = subst (λ l. slice l (4 + length u.digest) 4 ≡ some u.path_len) whole read in
      rw (read', w.path_fits) refl

  verified : verify_template_data env false (codes "ima-ng") (template_data u) ≡ some (true, false)
  unfolding verify_template_data template_fmt same split_bar fields_loop
  verified =
      rw
        (
          first_len (codes "d-ng"),
          plain_field (codes "d-ng") (template_data u) 4 (length u.digest) none,
        )
        (rw behind_digest (
          rw
            (
              second_len (codes "n-ng"),
              plain_field (codes "n-ng") (template_data u) ((4 + length u.digest + 4) % 2 ^ 32)
                  (length u.path) none,
            )
            refl))

  read_data :
      (stale : ℕ) (rest : Bytes)
      → read_template_data env stale (codes "ima-ng") (u.data_len ++ (template_data u ++ rest))
        ≡ some (some (template_data u, rest))
  unfolding read_template_data read_other_data same
  read_data stale rest =
      let n = length (template_data u) in
      rw (buf_read_number-at stale u.data_len (template_data u ++ rest) w.four_data, w.data_fits)
        (rw
          (room n, buf_read_int-at (zeros n) (template_data u) rest n refl (length-zeros n) w.small)
          refl)

  header :
      header_of (header_bytes env.digests u)
      ≡ some (record { digest = env.digests.hash1 (template_data u); name_len = 6 })
  unfolding le32 header_of
  header =
      let hash = env.digests.hash1 (template_data u) in
      let len : Bytes = 6 ∷ 0 ∷ 0 ∷ 0 ∷ [] in
      let l = env.digests.length-hash1 (template_data u) in
      let both : length (u.register ++ hash) ≡ 24 =
        length-append u.register hash ∙ ap₂ (λ a b. a + b) w.four_register l in
      let name_len : drop 24 (header_bytes env.digests u) ≡ len =
        ap (drop 24) (sym (append_assoc u.register hash len))
        ∙ drop-at 24 (u.register ++ hash) len both in
      rw
        (
          header_of,
          drop-at 4 u.register (hash ++ len) w.four_register,
          read_bytes-at 20 hash len l,
          name_len,
        )
        refl

  named :
      (rest : Bytes)
      → (array : Bytes) × (buf_read_into (zeros 256) 6 (codes "ima-ng" ++ rest) ≡ (array, rest))
        × (c_string array ≡ codes "ima-ng")
  unfolding buf_read_into buf_read read_bytes c_string
  named rest = (codes "ima-ng" ++ zeros 250, refl, refl)

  event_lem :
      (stale : ℕ) (pcr rest : Bytes)
      → verify_event env sha256
          (record { digest = env.digests.hash1 (template_data u); name_len = 6 })
          (record {
            buf = codes "ima-ng" ++ (u.data_len ++ (template_data u ++ rest));
            pcr = pcr;
            stale = stale;
            lost = false;
          })
        ≡ some (
            some (record {
              buf = rest;
              pcr = env.digests.hash256 (pcr ++ env.digests.hash256 (template_data u));
              stale = length (template_data u);
              lost = false;
            }))
  unfolding verify_event extend_pcr verify_template_hash
  event_lem stale pcr rest =
      let (array, read, name) = named (u.data_len ++ (template_data u ++ rest)) in
      rw (verify_event, read)
        (rw (name, read_data stale rest)
          (rw (verify_template_hash, same_refl (env.digests.hash1 (template_data u)), read)
            (rw name (rw verified refl))))

length-header_bytes : (c : Digests) (u : Event) → Coherent u → length (header_bytes c u) ≡ 28
length-header_bytes c u w =
    let hash = c.hash1 (template_data u) in
    let len : Bytes = 6 ∷ 0 ∷ 0 ∷ 0 ∷ [] in
    length-append u.register (hash ++ len)
    ∙ ap₂ (λ a b. a + b) w.four_register
        (length-append hash len ∙ ap (λ n. n + 4) (c.length-hash1 (template_data u)))

abbrev pub template_hashes : Digests → List Event → List Bytes
template_hashes c us = map (λ u. c.hash256 (template_data u)) us

module _ (env : Env) (room : (n : ℕ) → env.can_alloc n ≡ true) where
  at_end :
      (fuel stale : ℕ) (pcr : Bytes)
      → events_loop env sha256
          (suc fuel)
          (record { buf = []; pcr = pcr; stale = stale; lost = false })
        ≡ ended pcr
  unfolding events_loop buf_read read_bytes
  at_end fuel stale pcr = refl

  pass :
      (fuel : ℕ) (s s' : Loop) (bytes rest : Bytes) (h : Header)
      → buf_read 28 s.buf ≡ some (bytes, rest)
      → header_of bytes ≡ some h
      → verify_event env sha256 h
          (record { buf = rest; pcr = s.pcr; stale = s.stale; lost = s.lost })
        ≡ some (some s')
      → events_loop env sha256 (suc fuel) s ≡ events_loop env sha256 fuel s'
  unfolding events_loop
  pass fuel s s' bytes rest h read head event = rw (events_loop, read) (rw head (rw event refl))

  events_loop_lem :
      (us : List Event) (fuel stale : ℕ) (pcr : Bytes)
      → All Coherent us
      → length us < fuel
      → events_loop env sha256 fuel
          (record { buf = log env.digests us; pcr = pcr; stale = stale; lost = false })
        ≡ ended (extend_all env.digests.hash256 pcr (template_hashes env.digests us))
  events_loop_lem us zero stale pcr ws f = absurd (omega arith)
  events_loop_lem [] (suc fuel) stale pcr ws f = at_end fuel stale pcr
  events_loop_lem (u ∷ us) (suc fuel) stale pcr (w, ws) f =
      let rest = log env.digests us in
      let body = codes "ima-ng" ++ (u.data_len ++ (template_data u ++ rest)) in
      let pcr' = env.digests.hash256 (pcr ++ env.digests.hash256 (template_data u)) in
      let read =
        buf_read-at 28 (header_bytes env.digests u) body (length-header_bytes env.digests u w) in
      let later = events_loop_lem us fuel (length (template_data u)) pcr' ws (omega arith) in
      let hash = env.digests.hash1 (template_data u) in
      pass fuel _ _ (header_bytes env.digests u) body (record { digest = hash; name_len = 6 }) read
        (header env room u w) (event_lem env room u w stale pcr rest)
      ∙ later

  length-log : (us : List Event) → All Coherent us → length us ≤ length (log env.digests us)
  length-log [] ws = omega arith
  length-log (u ∷ us) (w, ws) =
      let rest = log env.digests us in
      let body = u.data_len ++ (template_data u ++ rest) in
      let parts = length-append (header_bytes env.digests u) (codes "ima-ng" ++ body) in
      let head = length-header_bytes env.digests u w in
      let parts' = length-append u.data_len (template_data u ++ rest) in
      let parts'' = length-append (template_data u) rest in
      let later = length-log us ws in omega arith

  -- A log of events under the name `ima-ng` is accepted for the register that it leads to, whatever the
  -- check of signatures answers: while there is memory, no signature is needed for any file.
  pub ima_verify-unsigned :
      (us : List Event) (stale : ℕ)
      → All Coherent us
      → ima_verify env stale sha256
          (log env.digests us)
          (extend_all env.digests.hash256 (zeros 32) (template_hashes env.digests us))
        ≡ some (pos 0)
  unfolding ima_verify hash_algo_to_size compare_pcr compare_ending
  ima_verify-unsigned us stale ws =
      let fits = length-log us ws in
      let run =
        events_loop_lem us (suc (length (log env.digests us))) stale (zeros 32) ws (omega arith) in
      let pcr = extend_all env.digests.hash256 (zeros 32) (template_hashes env.digests us) in
      let long : length pcr ≡ 32 =
        length-extend_all env.digests.hash256 32 (zeros 32) (template_hashes env.digests us)
          env.digests.length-hash256 (length-zeros 32) in
      let self : memcmp pcr pcr 32 ≡ some true =
        subst (λ n. memcmp pcr pcr n ≡ some true) long
          (memcmp-same pcr pcr refl ∙ ap some (same_refl pcr)) in
      rw run (rw self refl)
