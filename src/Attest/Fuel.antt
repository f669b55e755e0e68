-- ===== src/Attest/Fuel.antt =====
-- The fuel of the loop over the measurement log (rattestation/ima_verify.c).
use cml.Prelude.{ℕ, zero, suc, ◌<◌, ◌≡◌, refl, Bool, true, false, Option, none, some, length, arith}
use cml.Attest.Bytes.{Bytes}
use cml.Attest.Hash.{HashAlgo}
use cml.Attest.Ima.{Env}
use cml.Attest.Log.{
  buf_read, Header, header_of, Loop, verify_event, Ending, ended, failed, undefined, starved,
  events_loop,
}
use cml.Attest.Remains.{header_bound, event_bound}

-- Whether the loop has run out of fuel
abbrev pub is_starved : Ending → Bool
is_starved (ended pcr) = false
is_starved failed = false
is_starved undefined = false
is_starved starved = true

-- Two runs that are not cut off, with one result
abbrev pub Settled : Ending → Ending → Type 0
Settled e e' = (is_starved e ≡ false) × (e ≡ e')

module _ (env : Env) (algo : HashAlgo) (n m : ℕ) (s : Loop)
    (later : (s' : Loop)
      → length s'.buf < length s.buf
      → Settled (events_loop env algo n s') (events_loop env algo m s')) where
  behind : Bytes → Loop
  behind rest = record { buf = rest; pcr = s.pcr; stale = s.stale; lost = s.lost }

  event_step :
      (bytes rest : Bytes) (hd : Header) (o : Option (Option Loop))
      → buf_read 28 s.buf ≡ some (bytes, rest)
      → header_of bytes ≡ some hd
      → verify_event env algo hd (behind rest) ≡ o
      → Settled (events_loop env algo (suc n) s) (events_loop env algo (suc m) s)
  unfolding events_loop behind
  event_step bytes rest hd none r h e = rw (events_loop, r) (rw h (rw e (refl, refl)))
  event_step bytes rest hd (some none) r h e = rw (events_loop, r) (rw h (rw e (refl, refl)))
  event_step bytes rest hd (some (some s')) r h e =
      let shorter = event_bound env algo hd (behind rest) s' e in
      let less = header_bound s.buf bytes rest r in
      rw (events_loop, r) (rw h (rw e (later s' (omega arith))))

  header_step :
      (bytes rest : Bytes) (o : Option Header)
      → buf_read 28 s.buf ≡ some (bytes, rest)
      → header_of bytes ≡ o
      → Settled (events_loop env algo (suc n) s) (events_loop env algo (suc m) s)
  unfolding events_loop
  header_step bytes rest none r e = rw (events_loop, r) (rw e (refl, refl))
  header_step bytes rest (some hd) r e =
      event_step bytes rest hd (verify_event env algo hd (behind rest)) r e refl

  read_step :
      (o : Option (Bytes × Bytes))
      → buf_read 28 s.buf ≡ o
      → Settled (events_loop env algo (suc n) s) (events_loop env algo (suc m) s)
  unfolding events_loop
  read_step none e = rw (events_loop, e) (refl, refl)
  read_step (some (bytes, rest)) e = header_step bytes rest (header_of bytes) e refl

-- Whatever the log holds, the loop over it ends: with a step of fuel for each byte of the log and one
-- more, it does not run out of fuel, and more fuel gives the same result.
pub events_loop-Settled :
    (env : Env) (algo : HashAlgo) (n m : ℕ) (s : Loop)
    → length s.buf < n
    → length s.buf < m
    → Settled (events_loop env algo n s) (events_loop env algo m s)
events_loop-Settled env algo zero m s h k = absurd (omega arith)
events_loop-Settled env algo (suc n) zero s h k = absurd (omega arith)
events_loop-Settled env algo (suc n) (suc m) s h k =
    read_step env algo n m s
      (λ s' less. events_loop-Settled env algo n m s' (omega arith) (omega arith))
      (buf_read 28 s.buf) refl
