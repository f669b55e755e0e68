-- ===== src/Attest/Examples.antt =====
-- A log, and responses of one container image. A digest tells the length of the message.
use cml.Prelude.{
  map, inr, ℕ, zero, suc, ◌%◌, ◌≡◌, refl, ◌⊎◌, pos, true, false, none, some, List, [], ◌∷◌, ◌++◌,
  length, arith, codes,
}
use cml.Hex.Convert.{is_refused, digit, scan_of, scan, to_bin, strip_prefix, convert_hex_to_bin}
use cml.Attest.Bytes.{Bytes, zeros, read_bytes, same, memcmp}
use cml.Attest.Hash.{sha256, Digests, hash_algo_to_size, size_to_hash_algo, hash_algo_to_string}
use cml.Attest.Measure.{halg_id_to_ima_string, alg_sha256, Ml, Tpm, Entry, get_container_list}
use cml.Attest.Containers.{extend_entry, replay, compare_pcr, container_verify}
use cml.Attest.Binding.{Collision, Preimage, heads, extend_all}
use cml.Attest.Agreement.{entry_label, Measurement, append_all, empty, append_all-verified}
use cml.Attest.Ima.{has_prefix, Env, le32}
use cml.Attest.Fuel.{Settled, events_loop-Settled}
use cml.Attest.Log.{Loop, events_loop, verify_event, ima_verify}
use cml.Attest.Unsigned.{Event, log, template_hashes, ima_verify-unsigned}
use cml.Attest.Overflow.{verify_event-overflow}
use cml.Attest.Quote.{
  Tss, Response, Config, and_then, same_number, check_pcr, check_pcrs, aggregated, check_aggregated,
  find_pcr, check_ima, check_containers, check_signature, check_quote, attestation_verify_resp,
}
use cml.Attest.Accepted.{Sound, attestation_verify_resp-Sound, heads-attestation_verify_resp}

abbrev lengths : Digests
lengths = record {
  hash1 = λ m. length m % 256 ∷ zeros 19;
  hash256 = λ m. length m % 256 ∷ zeros 31;
  length-hash1 = λ m. refl;
  length-hash256 = λ m. refl;
}

-- The check of signatures accepts nothing.
abbrev env : Env
env = record {
  digests = lengths;
  verify = λ sig digest. false;
  modsig = λ text. none;
  can_alloc = λ n. true;
}

abbrev up : Tpm
up = record { extends = true; reads = true }

abbrev image : Bytes → Measurement
image name = record { tpm = up; filename = name; algid = alg_sha256; datahash = 7 ∷ zeros 31 }

-- The second is listed under the longer name of the first.
abbrev images : List Measurement
images = image (1 ∷ 9 ∷ []) ∷ image (1 ∷ []) ∷ image (2 ∷ []) ∷ []

append_all-verified_example :
    (s : Ml) × (entries : List Entry) × (append_all lengths images empty ≡ some s)
    × (get_container_list s.list ≡ some entries)
    × (map entry_label entries
        ≡ (1 ∷ 9 ∷ [], (codes "sha256", 7 ∷ zeros 31))
          ∷ (2 ∷ [], (codes "sha256", 7 ∷ zeros 31))
          ∷ [])
    × (container_verify lengths entries sha256 s.pcr ≡ some (pos 0))
unfolding same has_prefix halg_id_to_ima_string
append_all-verified_example =
    append_all-verified lengths images
      (
        record {
          digest = refl;
          name = (omega arith, (omega arith, tt));
          extended = refl;
          answered = refl;
        },
        (
          record { digest = refl; name = (omega arith, tt); extended = refl; answered = refl },
          (
            record { digest = refl; name = (omega arith, tt); extended = refl; answered = refl },
            tt,
          ),
        ),
      )
      (tt, ((inr (omega arith), tt), ((inr (omega arith), tt), tt)))

-- A module with a path of two characters
abbrev event : Event
event = record {
  register = 10 ∷ zeros 3;
  data_len = 15 ∷ zeros 3;
  digest_len = 5 ∷ zeros 3;
  digest = 1 ∷ 2 ∷ 3 ∷ 4 ∷ 5 ∷ [];
  path_len = 2 ∷ zeros 3;
  path = 47 ∷ 97 ∷ [];
}

ima_verify-unsigned_example :
    ima_verify env 0 sha256
      (log lengths (event ∷ []))
      (extend_all lengths.hash256 (zeros 32) (template_hashes lengths (event ∷ [])))
    ≡ some (pos 0)
unfolding le32
ima_verify-unsigned_example =
    ima_verify-unsigned env (λ n. refl) (event ∷ []) 0
      (
        record {
          four_register = refl;
          four_data = refl;
          four_digest = refl;
          four_path = refl;
          data_fits = refl;
          digest_fits = refl;
          path_fits = refl;
          small = omega arith;
        },
        tt,
      )

verify_event-overflow_example :
    verify_event env sha256
      (record { digest = zeros 20; name_len = 3 })
      (record {
        buf = codes "ima" ++ (zeros 20 ++ ((1 ∷ 1 ∷ 0 ∷ 0 ∷ []) ++ (zeros 257 ++ [])));
        pcr = zeros 32;
        stale = 0;
        lost = false;
      })
    ≡ none
unfolding le32
verify_event-overflow_example =
    verify_event-overflow env (zeros 20) (1 ∷ 1 ∷ 0 ∷ 0 ∷ []) (zeros 257) [] refl refl refl
      (omega arith) refl sha256 (zeros 20) (zeros 32) 0

-- A certificate accepts the signature that is the same.
abbrev tss : Tss
tss = record {
  unmarshal_attest = λ quote. some (record { extra_data = quote; pcr_digest = 32 ∷ zeros 31 });
  unmarshal_signature = λ sig. some sig;
  verify_quote = λ cert sig quote. same cert sig;
  stack = zeros;
}

abbrev digits : ℕ → Bytes
digits zero = []
digits (suc n) = 48 ∷ digits n

abbrev config : Config
config = record {
  halg = 32;
  pcr_values = record { number = some (pos 11); value = 52 ∷ 48 ∷ digits 62 } ∷ [];
  verify_ima = false;
  ima_pcr = pos 10;
  verify_containers = true;
  container_pcr = pos 11;
}

abbrev entry : Bytes → Entry
entry name = record {
  filename = name;
  template_hash_alg = codes "sha256";
  template_hash = zeros 32;
  data_hash_alg = codes "sha256";
  data_hash = 7 ∷ zeros 31;
}

abbrev response : Bytes → Bytes → Response
response nonce name = record {
  quoted = some nonce;
  signature = some (9 ∷ []);
  certificate = 9 ∷ [];
  pcr_values = record { number = some (pos 11); value = 64 ∷ zeros 31 } ∷ [];
  halg = pos 32;
  ml_ima_entry = none;
  ml_container_entry = entry name ∷ [];
}

accepted_one :
    attestation_verify_resp env 0 tss config (1 ∷ 2 ∷ []) (response (1 ∷ 2 ∷ []) (5 ∷ []))
    ≡ some true
unfolding attestation_verify_resp check_pcrs check_pcr check_quote check_signature check_aggregated
    aggregated check_ima check_containers find_pcr and_then same_number convert_hex_to_bin
    strip_prefix to_bin is_refused scan scan_of digit memcmp read_bytes same hash_algo_to_size
    size_to_hash_algo hash_algo_to_string container_verify replay extend_entry compare_pcr
accepted_one = refl

accepted_other :
    attestation_verify_resp env 0 tss config (3 ∷ []) (response (3 ∷ []) (6 ∷ [])) ≡ some true
unfolding attestation_verify_resp check_pcrs check_pcr check_quote check_signature check_aggregated
    aggregated check_ima check_containers find_pcr and_then same_number convert_hex_to_bin
    strip_prefix to_bin is_refused scan scan_of digit memcmp read_bytes same hash_algo_to_size
    size_to_hash_algo hash_algo_to_string container_verify replay extend_entry compare_pcr
accepted_other = refl

same_algo : size_to_hash_algo (pos 32) ≡ sha256
unfolding size_to_hash_algo
same_algo = refl

attestation_verify_resp-Sound_example :
    Sound env 0 tss config (1 ∷ 2 ∷ []) (response (1 ∷ 2 ∷ []) (5 ∷ []))
attestation_verify_resp-Sound_example =
    attestation_verify_resp-Sound env 0 tss config (1 ∷ 2 ∷ []) (response (1 ∷ 2 ∷ []) (5 ∷ []))
      accepted_one

heads-attestation_verify_resp_example :
    (heads (entry (5 ∷ []) ∷ []) ≡ heads (entry (6 ∷ []) ∷ []))
    ⊎ (Collision lengths.hash256 ⊎ Preimage lengths.hash256 (zeros 32))
heads-attestation_verify_resp_example =
    heads-attestation_verify_resp env 0 tss config (1 ∷ 2 ∷ []) (3 ∷ [])
      (response (1 ∷ 2 ∷ []) (5 ∷ [])) (response (3 ∷ []) (6 ∷ [])) refl same_algo same_algo
      accepted_one accepted_other

-- A log of one event that is cut off
abbrev short_log : Loop
short_log = record { buf = zeros 30; pcr = zeros 32; stale = 0; lost = false }

events_loop-Settled_example :
    Settled (events_loop env sha256 31 short_log) (events_loop env sha256 1000 short_log)
events_loop-Settled_example =
    events_loop-Settled env sha256 31 1000 short_log (omega arith) (omega arith)
