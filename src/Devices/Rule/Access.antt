-- ===== src/Devices/Rule/Access.antt =====
-- The access letters of a rule never reach the parser's result.
use cml.Prelude.{
  ℕ, ◌≡◌, refl, false, Option, none, some, subst, [], ◌∷◌, ◌==◌, arith, All, >>=-eq-some,
}
use cml.Devices.Item.{Item, acc_all}
use cml.Devices.Rule.{
  Text, skip_delims, take_token, next_token, strtok_r, parse_type, parse_access, from_device,
  from_rule_new,
}

-- No byte of the text is `d`.
abbrev Free : ℕ → Text → Type 0
Free d = All (λ c. (c == d) ≡ false)

take_token-Free : (d : ℕ) (s : Text) → Free d (take_token d s).0
unfolding take_token
take_token-Free d [] = tt
take_token-Free d (c ∷ s) = ground (arith, take_token-Free d s)

-- What is left of a text that is free of `d` is free of it.
rest-Free : (d k : ℕ) (s : Text) → Free d s → Free d (take_token k s).1
unfolding take_token
rest-Free d k [] h = tt
rest-Free d k (c ∷ s) h = ground (arith, rest-Free d k s h.1)

skip_delims-Free : (d k : ℕ) (s : Text) → Free d s → Free d (skip_delims k s)
unfolding skip_delims
skip_delims-Free d k [] h = tt
skip_delims-Free d k (c ∷ s) h = ground (arith, skip_delims-Free d k s h.1)

-- A token up to a delimiter that does not occur leaves nothing behind it.
take_token_all : (d : ℕ) (s : Text) → Free d s → (take_token d s).1 ≡ []
unfolding take_token
take_token_all d [] h = refl
take_token_all d (c ∷ s) h = ground (arith, take_token_all d s h.1)

next_token-Free : (d k : ℕ) (s : Text) → Free d s → Free d (next_token k s).1
next_token-Free d k [] h = tt
next_token-Free d k (c ∷ s) h = rest-Free d k (c ∷ s) h

strtok_r-Free : (d k : ℕ) (s : Text) → Free d s → Free d (strtok_r k s).1
unfolding strtok_r
strtok_r-Free d k s h = next_token-Free d k (skip_delims k s) (skip_delims-Free d k s h)

next_token_token : (d : ℕ) (s : Text) {t : Text} → (next_token d s).0 ≡ some t → Free d t
next_token_token d [] e = cc
next_token_token d (c ∷ s) e = subst (λ o. FreeToken o) e (take_token-Free d (c ∷ s))
  where
    FreeToken : Option Text → Type 0
    FreeToken none = Unit
    FreeToken (some u) = Free d u

strtok_r_token : (d : ℕ) (s : Text) {t : Text} → (strtok_r d s).0 ≡ some t → Free d t
unfolding strtok_r
strtok_r_token d s e = next_token_token d (skip_delims d s) e

next_token_all : (d : ℕ) (s : Text) → Free d s → (next_token d s).1 ≡ []
next_token_all d [] h = refl
next_token_all d (c ∷ s) h = take_token_all d (c ∷ s) h

strtok_r_all : (d : ℕ) (s : Text) → Free d s → (strtok_r d s).1 ≡ []
unfolding strtok_r
strtok_r_all d s h = next_token_all d (skip_delims d s) (skip_delims-Free d d s h)

parse_access_absent : (s : Text) → s ≡ [] → parse_access (strtok_r b':' s).0 ≡ some acc_all
unfolding parse_access strtok_r
parse_access_absent s e = rw e refl

-- A device token with no space in it gives every access, whatever letters follow it in the rule.
from_device_access :
    (type : ℕ) (dev : Text) (i : Item)
    → Free b' ' dev
    → from_device type dev ≡ some i
    → (i.access ≡ acc_all) × (i.type ≡ type)
unfolding from_device
from_device_access type dev i h e = ground (
  arith,
  parse_access_absent (strtok_r b' ' (strtok_r b':' dev).1).1
      (strtok_r_all b' ' (strtok_r b':' dev).1 (strtok_r-Free b' ' b':' dev h)),
)

-- Whatever access letters a rule holds, the parser's result grants reading, writing and mknod: of
-- all rules that are accepted, none restricts the access.
pub from_rule_new-access :
    (rule : Text) (i : Item) → from_rule_new rule ≡ some i → i.access ≡ acc_all
unfolding from_rule_new
from_rule_new-access rule i e =
    let (type_str, _, e1) = >>=-eq-some (strtok_r b' ' rule).0 _ e in
    let (type, _, e2) = >>=-eq-some (parse_type type_str) _ e1 in
    let (dev, token, e3) = >>=-eq-some (strtok_r b' ' (strtok_r b' ' rule).1).0 _ e2 in
    (from_device_access type dev i (strtok_r_token b' ' (strtok_r b' ' rule).1 token) e3).0
