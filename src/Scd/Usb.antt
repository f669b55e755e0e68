-- ===== src/Scd/Usb.antt =====
-- USB tokens (scd/usbtoken.c). The device's answers, and the derivation of an authentication code
-- from passphrase and pairing secret, are arguments.
use cml.Prelude.{
  ℕ, ℤ, pos, negsuc, minus_one, ◌+◌, leb, ◌==ℤ◌, Bool, true, false, Option, none, some, List,
  if◌then◌else◌, not, is_negative,
}
use cml.Scd.Soft.{Passphrase}

abbrev pub Code : Type 0
Code = List ℕ

-- get_auth_code, authenticateUser with 0 or -2, deriveKey, usbtoken_reset_schsm_sess and changePIN
-- with what goes with it
pub record Device : Type 0 where
  pub auth_code : Passphrase → Option Code
  pub verify : Code → Bool
  pub derives : ℤ
  pub reset : ℤ
  pub change : Passphrase → Passphrase → Bool → ℤ

pub record Usbtoken : Type 0 where
  pub locked : Bool
  pub wrong_unlock_attempts : ℕ
  pub auth_code : Option Code

-- usbtoken_new
unfoldable pub usbtoken_new : Usbtoken
usbtoken_new = record { locked = true; wrong_unlock_attempts = 0; auth_code = none }

-- authenticateUser
unfoldable pub authenticate_user : Device → Code → ℤ
authenticate_user d code = if d.verify code then pos 0 else negsuc 1

-- usbtoken_is_locked_till_reboot
unfoldable pub is_locked_till_reboot : Usbtoken → Bool
is_locked_till_reboot t = leb 3 t.wrong_unlock_attempts

-- The part of usbtoken_unlock behind the derivation of the code
unfoldable pub unlock_with : Device → Code → Usbtoken → ℤ × Usbtoken
unfolding authenticate_user
unlock_with d code t =
    let rc = authenticate_user d code in
    if rc ==ℤ negsuc 1
    then (rc, record t { wrong_unlock_attempts = t.wrong_unlock_attempts + 1; auth_code = none })
    else if rc ==ℤ pos 0
    then (rc, record { locked = false; wrong_unlock_attempts = 0; auth_code = some code })
    else (rc, record t { auth_code = none })

-- usbtoken_unlock
unfoldable pub unlock : Device → Passphrase → Usbtoken → ℤ × Usbtoken
unfolding is_locked_till_reboot unlock_with
unlock d passwd t =
    if not t.locked
    then (pos 0, t)
    else if is_locked_till_reboot t
    then (minus_one, t)
    else elim (d.auth_code passwd) [ none ↦ (minus_one, t) | some code ↦ unlock_with d code t ]

-- usbtoken_lock, which leaves the code in memory
unfoldable pub lock : Usbtoken → ℤ × Usbtoken
lock t = (pos 0, record t { locked = true })

-- produceKey; without a code the device is asked about nothing.
unfoldable pub produce_key : Device → Usbtoken → ℤ
unfolding authenticate_user
produce_key d t = elim t.auth_code [
  | none ↦ negsuc 1
  | some code ↦
      if is_negative (authenticate_user d code)
      then authenticate_user d code
      else if is_negative d.derives
      then minus_one
      else pos 0
]

-- usbtoken_wrap_key and usbtoken_unwrap_key, with what OpenSSL answers
unfoldable pub wrap_key : Device → ℤ → Usbtoken → ℤ
unfolding produce_key
wrap_key d answer t =
    if t.locked
    then minus_one
    else if is_negative (produce_key d t)
    then minus_one
    else if answer ==ℤ pos 0
    then pos 0
    else minus_one

unfoldable pub unwrap_key : Device → ℤ → Usbtoken → ℤ
unfolding produce_key
unwrap_key d answer t =
    if t.locked
    then minus_one
    else if is_negative (produce_key d t)
    then produce_key d t
    else if answer ==ℤ pos 0
    then pos 0
    else minus_one

-- usbtoken_change_passphrase
unfoldable pub change_passphrase : Device → Passphrase → Passphrase → Bool → Usbtoken → ℤ × Usbtoken
change_passphrase d oldpass newpass is_provisioning t =
    (d.change oldpass newpass is_provisioning, t)

-- usbtoken_reset_auth, whose second answer is only logged
unfoldable pub reset_auth : Device → Usbtoken → ℤ
unfolding is_locked_till_reboot
reset_auth d t =
    if is_locked_till_reboot t
    then minus_one
    else elim t.auth_code [ none ↦ minus_one | some code ↦ d.reset ]
