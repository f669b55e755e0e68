-- ===== src/Attest/Led.antt =====
-- How verified measurements lead to a register (rattestation/ima_verify.c and
-- rattestation/container_verify.c).
use cml.Prelude.{
  ℕ, zero, false, suc, ◌≡◌, refl, subst, ℤ, pos, negsuc, minus_one, true, some, List, map, length,
}
use cml.Attest.Bytes.{Bytes, zeros, memcmp}
use cml.Attest.Hash.{HashAlgo, sha256, hash_algo_to_size}
use cml.Attest.Measure.{Entry}
use cml.Attest.Containers.{container_verify}
use cml.Attest.Binding.{heads, extend_all, compare_pcr_lem, accepted_lem}
use cml.Attest.Ima.{Env}
use cml.Attest.Log.{
  Ending, ended, failed, undefined, starved, events_loop, compare_ending, ima_verify,
}

-- The loop over the events of a log comes to its end, with the value of a register.
abbrev pub Ended : Env → ℕ → HashAlgo → Bytes → Bytes → Type 0
Ended env stale algo log register =
    (n : ℕ) × (pcr : Bytes) × (hash_algo_to_size algo ≡ pos (suc n))
    × (events_loop env algo (suc (length log))
          (record { buf = log; pcr = zeros (suc n); stale = stale; lost = false })
        ≡ ended pcr)
    × (memcmp pcr register (suc n) ≡ some true)

-- The digests that the verification reads from the entries lead from zeros to a register.
abbrev pub Extended : Env → List Entry → Bytes → Type 0
Extended env entries register =
    (ds : List Bytes) × (heads entries ≡ map some ds)
    × (memcmp (extend_all env.digests.hash256 (zeros 32) ds) register 32 ≡ some true)

compare_ending_lem :
    (e : Ending) (register : Bytes) (n : ℕ)
    → compare_ending e register n ≡ some (pos 0)
    → (pcr : Bytes) × (e ≡ ended pcr) × (memcmp pcr register n ≡ some true)
unfolding compare_ending
compare_ending_lem (ended pcr) register n h = (pcr, refl, compare_pcr_lem pcr register n h)
compare_ending_lem failed register n h = cc
compare_ending_lem undefined register n h = cc
compare_ending_lem starved register n h = cc

sized_lem :
    (z : ℤ) (loop : ℕ → Ending) (register : Bytes)
    → elim z [
      | negsuc n ↦ some minus_one
      | pos zero ↦ some minus_one
      | pos (suc n) ↦ compare_ending (loop n) register (suc n)
    ]
      ≡ some (pos 0)
    → (n : ℕ) × (pcr : Bytes) × (z ≡ pos (suc n))
      × (loop n ≡ ended pcr)
      × (memcmp pcr register (suc n) ≡ some true)
sized_lem (negsuc n) loop register h = cc
sized_lem (pos zero) loop register h = cc
sized_lem (pos (suc n)) loop register h =
    let (pcr, e, m) = compare_ending_lem (loop n) register (suc n) h in (n, pcr, refl, e, m)

pub ima_verify-Ended :
    (env : Env) (stale : ℕ) (algo : HashAlgo) (log register : Bytes)
    → ima_verify env stale algo log register ≡ some (pos 0)
    → Ended env stale algo log register
unfolding ima_verify
ima_verify-Ended env stale algo log register h =
    sized_lem (hash_algo_to_size algo)
      (λ n.
        events_loop env algo (suc (length log))
          (record { buf = log; pcr = zeros (suc n); stale = stale; lost = false }))
      register h

pub container_verify-Extended :
    (env : Env) (entries : List Entry) (algo : HashAlgo) (register : Bytes)
    → container_verify env.digests entries algo register ≡ some (pos 0)
    → algo ≡ sha256
    → Extended env entries register
container_verify-Extended env entries algo register h e =
    accepted_lem env.digests entries register
      (subst (λ x. container_verify env.digests entries x register ≡ some (pos 0)) e h)
