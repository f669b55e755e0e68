-- ===== src/Scd/Guessing.antt =====
-- What the limit does not cover, and what a wrong passphrase is answered (scd/).
use cml.Prelude.{
  pos, negsuc, ◌<◌, ◌≡◌, refl, ◌⊎◌, true, false, some, List, [], ◌∷◌, ◌++◌, All, map, ◌==ℤ◌, arith,
}
use cml.Scd.Soft
use cml.Scd.Soft.{Passphrase, File, Softtoken}
use cml.Scd.Usb
use cml.Scd.Usb.{Device, Usbtoken}
use cml.Scd.Token.{
  soft, usb, Outside, is_locked_till_reboot, unlock_token, change_pin, unlock_failed, passwd_wrong,
  locked_till_reboot, change_pin_successful, change_pin_failed, unlock, change_passphrase,
  unlock_reply, handle_message,
}
use cml.Scd.Lockout.{Request, handle_all}
use cml.Scd.Refused.{is_wrong}

-- A message that changes the passphrase from a guess
abbrev pub change_from : Outside → Passphrase → Passphrase → Request
change_from o newpin guess = (o, change_pin (some guess) (some newpin) true)

-- While a software token is not locked till reboot, a run of guesses at its passphrase by messages that
-- change it, with one set of answers of the file by which all are wrong but the last, is tried to its
-- end, however long it is: each wrong one is answered with a failure, the last one succeeds, and the token
-- has counted none of them.
pub guesses-Unlimited :
    (o : Outside) (newpin last : Passphrase) (guesses : List Passphrase) (t : Softtoken)
    → is_locked_till_reboot (soft t) ≡ false
    → All (λ g. (o.file.newpass g newpin ==ℤ pos 0) ≡ false) guesses
    → o.file.newpass last newpin ≡ pos 0
    → handle_all (map (change_from o newpin) guesses ++ change_from o newpin last ∷ []) (soft t)
      ≡ (map (λ _. change_pin_failed) guesses ++ change_pin_successful ∷ [], soft t)
unfolding handle_all handle_message change_passphrase Soft.change_passphrase
guesses-Unlimited o newpin last [] t h hs e = rw (h, e) refl
guesses-Unlimited o newpin last (g ∷ guesses) t h (k, hs) e =
    rw (h, k) (rw (guesses-Unlimited o newpin last guesses t h hs e) refl)

-- While a token is locked and below its limit, a wrong passphrase is answered with UNLOCK_FAILED by
-- a software token, and with PASSWD_WRONG or LOCKED_TILL_REBOOT by a USB token; a software token
-- answers PASSWD_WRONG when its file cannot be read as one (-2).
pub wrong-replies :
    (o o' o'' : Outside) (p : Passphrase) (s : Softtoken) (u : Usbtoken)
    → s.locked ≡ true
    → u.locked ≡ true
    → s.wrong_unlock_attempts < 3
    → u.wrong_unlock_attempts < 3
    → is_wrong o p (soft s) ≡ true
    → is_wrong o' p (usb u) ≡ true
    → o''.file.exists ≡ true
    → o''.file.read p ≡ negsuc 1
    → ((handle_message o (unlock_token (some p)) (soft s)).0 ≡ unlock_failed)
      × (((handle_message o' (unlock_token (some p)) (usb u)).0 ≡ passwd_wrong)
          ⊎ ((handle_message o' (unlock_token (some p)) (usb u)).0 ≡ locked_till_reboot))
      × ((handle_message o'' (unlock_token (some p)) (soft s)).0 ≡ passwd_wrong)
unfolding handle_message unlock unlock_reply is_locked_till_reboot Soft.unlock Soft.free_secrets
    Soft.is_locked_till_reboot Usb.unlock Usb.unlock_with Usb.authenticate_user
    Usb.is_locked_till_reboot
wrong-replies o o' o'' p s u h1 h2 h3 h4 h5 h6 h7 h8 = (ground arith, ground arith, ground arith)
