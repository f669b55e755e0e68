-- ===== src/Scd/Examples.antt =====
-- A software token and a USB token at concrete files and devices.
use cml.Prelude.{
  ℤ, pos, negsuc, minus_one, ◌≡◌, refl, Bool, true, false, some, none, List, [], ◌∷◌, ◌++◌, map,
  ◌==◌, if◌then◌else◌,
}
use cml.Scd.Soft
use cml.Scd.Soft.{Passphrase, File, Softtoken, new_from_p12}
use cml.Scd.Usb.{Device}
use cml.Scd.Token.{
  soft, Outside, is_locked_till_reboot, unlock_token, lock_token, wrap, unlock_successful,
  unlock_failed, lock_successful, wrapped_key, change_pin_successful, change_pin_failed,
  handle_message, unlock_reply, unlock, lock, wrap_key,
}
use cml.Scd.Lockout.{Request, handle_all}
use cml.Scd.Refused.{Guess}
use cml.Scd.Store.{
  kind_soft, token_add, token_remove, about_token, added, removed, replied, token_new, add_new,
  handle_command, Event, handle_commands,
}
use cml.Scd.Stored.{SoundStore, handle_commands-Sound}
use cml.Scd.Guessing.{change_from, guesses-Unlimited}

-- The passphrase is 7; a file that opens with it, and a device that takes its code
abbrev only_seven : Passphrase → ℤ
only_seven (n ∷ []) = if n == 7 then pos 0 else minus_one
only_seven _ = minus_one

abbrev is_seven : Passphrase → Bool
is_seven (n ∷ []) = n == 7
is_seven _ = false

abbrev seven_file : File
seven_file = record { exists = true; read = only_seven; newpass = λ old. λ new. only_seven old }

abbrev broken_file : File
broken_file = record { exists = true; read = λ p. negsuc 1; newpass = λ old. λ new. minus_one }

abbrev seven_device : Device
seven_device = record {
  auth_code = λ p. some p;
  verify = is_seven;
  derives = pos 0;
  reset = pos 0;
  change = λ old. λ new. λ provisioning. only_seven old;
}

abbrev outside : Outside
outside = record { file = seven_file; device = seven_device; crypto = pos 0 }

abbrev broken : Outside
broken = record { file = broken_file; device = seven_device; crypto = pos 0 }

-- A wrong guess, the passphrase, a key and the lock
abbrev session : List Request
session =
    (outside, unlock_token (some (6 ∷ [])))
    ∷ (outside, unlock_token (some (7 ∷ [])))
    ∷ (outside, wrap true)
    ∷ (outside, lock_token)
    ∷ (outside, wrap true)
    ∷ []

session-replies :
    (handle_all session (soft new_from_p12)).0
    ≡ unlock_failed
      ∷ unlock_successful
      ∷ wrapped_key true
      ∷ lock_successful
      ∷ wrapped_key false
      ∷ []
unfolding handle_all handle_message new_from_p12 unlock_reply unlock lock wrap_key Soft.unlock
    Soft.lock Soft.free_secrets Soft.wrap_key Soft.is_locked_till_reboot
session-replies = refl

-- A token is added, is offered a wrong passphrase, and is removed and added anew.
abbrev commands : List Event
commands =
    ((outside, true), token_add)
    ∷ ((outside, true), about_token (unlock_token (some (6 ∷ []))))
    ∷ ((outside, true), token_remove)
    ∷ ((outside, true), token_add)
    ∷ []

handle_commands-Sound_example : SoundStore (handle_commands kind_soft commands none).1
handle_commands-Sound_example = handle_commands-Sound kind_soft commands

-- The token that is added anew counts from 0.
commands_end : handle_commands kind_soft commands none ≡ (
  added true ∷ replied unlock_failed ∷ removed true ∷ added true ∷ [],
  some (soft (record { locked = true; wrong_unlock_attempts = 0; secrets = false })),
)
unfolding handle_commands handle_command token_new add_new handle_message new_from_p12 unlock_reply
    unlock Soft.unlock Soft.free_secrets Soft.is_locked_till_reboot is_locked_till_reboot
commands_end = refl

abbrev three_guesses : List Guess
three_guesses = (outside, 1 ∷ []) ∷ (outside, 2 ∷ []) ∷ (outside, 3 ∷ []) ∷ []

-- A further guess, the passphrase, and an attempt to add the token
abbrev later : List Event
later =
    ((outside, true), about_token (unlock_token (some (6 ∷ []))))
    ∷ ((outside, true), about_token (unlock_token (some (7 ∷ []))))
    ∷ ((outside, true), token_add)
    ∷ []

guesses-Unlimited_example :
    handle_all
      (map (change_from outside (9 ∷ [])) ((1 ∷ []) ∷ (2 ∷ []) ∷ (3 ∷ []) ∷ (4 ∷ []) ∷ [])
        ++ change_from outside (9 ∷ []) (7 ∷ []) ∷ [])
      (soft new_from_p12)
    ≡ (
      change_pin_failed ∷ change_pin_failed ∷ change_pin_failed ∷ change_pin_failed
          ∷ change_pin_successful ∷ [],
      soft new_from_p12,
    )
unfolding new_from_p12 is_locked_till_reboot Soft.is_locked_till_reboot
guesses-Unlimited_example =
    guesses-Unlimited outside (9 ∷ []) (7 ∷ []) ((1 ∷ []) ∷ (2 ∷ []) ∷ (3 ∷ []) ∷ (4 ∷ []) ∷ [])
      new_from_p12 refl (refl, (refl, (refl, (refl, tt)))) refl
