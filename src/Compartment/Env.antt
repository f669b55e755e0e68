-- ===== src/Compartment/Env.antt =====
-- The environment of a compartment's init process: compartment_init_env_prepend of
-- daemon/compartment.c. A buffer is a list of pointers to strings, none for NULL.
use cml.Prelude.{
  ℕ, zero, suc, ◌+◌, ◌^◌, ◌<◌, ◌≡◌, refl, false, Option, none, some, List, [], ◌∷◌, ◌++◌, map,
  length, if◌then◌else◌, leb, ◌>>=◌, arith, subst, sym,
}

abbrev pub Strings : Type 0
Strings = List (List ℕ)

pub record Env : Type 0 where
  pub init_env : List (Option (List ℕ))
  pub init_env_len : ℕ

-- Of a new compartment
abbrev pub new_env : Env
new_env = record { init_env = []; init_env_len = 0 }

-- The copies of the first strings of a buffer; to copy NULL, or beyond the buffer, is a fault.
unfoldable pub copy_old : ℕ → List (Option (List ℕ)) → Option (List (Option (List ℕ)))
copy_old zero buffer = some []
copy_old (suc n) [] = none
copy_old (suc n) (none ∷ buffer) = none
copy_old (suc n) (some s ∷ buffer) = copy_old n buffer >>= λ copies. some (some s ∷ copies)

-- compartment_init_env_prepend; a size_t has 64 bits.
unfoldable pub init_env_prepend : Env → Strings → Option Env
unfolding copy_old
init_env_prepend e [] = some e
init_env_prepend e (s ∷ strings) =
    let total_len = e.init_env_len + length (s ∷ strings) + 1 in
    let copied = copy_old e.init_env_len e.init_env >>= λ copies. some (record {
      init_env = map some (s ∷ strings) ++ (copies ++ none ∷ []);
      init_env_len = total_len;
    }) in
    if leb (2 ^ 64) total_len then some e else copied

copy_old-terminated :
    (n : ℕ) (strings : Strings)
    → n ≡ length strings
    → copy_old (suc n) (map some strings ++ none ∷ []) ≡ none
unfolding copy_old
copy_old-terminated n [] e = refl
copy_old-terminated zero (s ∷ strings) e = absurd (omega (arith, e))
copy_old-terminated (suc n) (s ∷ strings) e =
    rw (copy_old-terminated n strings (omega (arith, e))) refl

first_prepend :
    (a : List ℕ) (ss : Strings)
    → length ss + 2 < 2 ^ 64
    → init_env_prepend new_env (a ∷ ss)
      ≡ some (record {
        init_env = map some (a ∷ ss) ++ none ∷ [];
        init_env_len = 0 + length (a ∷ ss) + 1;
      })
unfolding init_env_prepend copy_old
first_prepend a ss h = ground arith

-- A second prepend, of at least one string onto at least one, is a fault: it copies the NULL that
-- ends the first buffer; the sizes stay below that of size_t.
pub init_env_prepend-twice :
    (a b : List ℕ) (ss ts : Strings)
    → length ss + length ts + 4 < 2 ^ 64
    → (init_env_prepend new_env (a ∷ ss) >>= λ e. init_env_prepend e (b ∷ ts)) ≡ none
unfolding init_env_prepend copy_old
init_env_prepend-twice a b ss ts h =
    let k = copy_old-terminated (suc (length ss)) (a ∷ ss) refl in
    rw (first_prepend a ss (omega (arith, h))) (
      let small : leb (2 ^ 64) (0 + suc (length ss) + 1 + suc (length ts) + 1) ≡ false =
        ground arith in
      let size : 0 + suc (length ss) + 1 ≡ suc (suc (length ss)) = omega arith in
      let fault : copy_old (0 + suc (length ss) + 1) (map some (a ∷ ss) ++ none ∷ []) ≡ none =
        subst (λ n. copy_old n (map some (a ∷ ss) ++ none ∷ []) ≡ none) (sym size) k in
      rw (small, fault) refl)
