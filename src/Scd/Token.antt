-- ===== src/Scd/Token.antt =====
-- The two kinds of token behind one interface (scd/token.c), and the messages of the daemon that use
-- it (scd/control.c).
use cml.Prelude.{
  ℤ, pos, negsuc, ◌==ℤ◌, Bool, true, false, Option, none, some, if◌then◌else◌, not, ◌&&◌,
}
use cml.Scd.Soft
use cml.Scd.Soft.{Passphrase, File, Softtoken}
use cml.Scd.Usb
use cml.Scd.Usb.{Device, Usbtoken}

-- What token_new fills in for SOFT and for USB
pub data Token : Type 0 where
  soft : Softtoken → Token
  usb : Usbtoken → Token

-- Everything outside: the token's file, the device, and OpenSSL's answer to a wrapping.
pub record Outside : Type 0 where
  pub file : File
  pub device : Device
  pub crypto : ℤ

abbrev pub is_locked : Token → Bool
is_locked (soft t) = t.locked
is_locked (usb t) = t.locked

unfoldable pub is_locked_till_reboot : Token → Bool
unfolding Soft.is_locked_till_reboot Usb.is_locked_till_reboot
is_locked_till_reboot (soft t) = Soft.is_locked_till_reboot t
is_locked_till_reboot (usb t) = Usb.is_locked_till_reboot t

unfoldable pub unlock : Outside → Passphrase → Token → ℤ × Token
unfolding Soft.unlock Usb.unlock
unlock o pin (soft t) = let (code, u) = Soft.unlock o.file pin t in (code, soft u)
unlock o pin (usb t) = let (code, u) = Usb.unlock o.device pin t in (code, usb u)

unfoldable pub lock : Token → ℤ × Token
unfolding Soft.lock Usb.lock
lock (soft t) = let (code, u) = Soft.lock t in (code, soft u)
lock (usb t) = let (code, u) = Usb.lock t in (code, usb u)

unfoldable pub wrap_key : Outside → Token → ℤ
unfolding Soft.wrap_key Usb.wrap_key
wrap_key o (soft t) = Soft.wrap_key o.crypto t
wrap_key o (usb t) = Usb.wrap_key o.device o.crypto t

unfoldable pub unwrap_key : Outside → Token → ℤ
unfolding Soft.unwrap_key Usb.unwrap_key
unwrap_key o (soft t) = Soft.unwrap_key o.crypto t
unwrap_key o (usb t) = Usb.unwrap_key o.device o.crypto t

unfoldable pub change_passphrase : Outside → Passphrase → Passphrase → Bool → Token → ℤ × Token
unfolding Soft.change_passphrase Usb.change_passphrase
change_passphrase o oldpass newpass provisioning (soft t) =
    let (code, u) = Soft.change_passphrase o.file oldpass newpass t in (code, soft u)
change_passphrase o oldpass newpass provisioning (usb t) =
    let (code, u) = Usb.change_passphrase o.device oldpass newpass provisioning t in (code, usb u)

-- DaemonToToken: the messages about the lock, the keys and the passphrase; PROVISION_PIN always has
-- a new passphrase. A key message says
-- whether it holds a key; a null passphrase is none.
pub data Message : Type 0 where
  unlock_token : Option Passphrase → Message
  lock_token : Message
  wrap unwrap : Bool → Message
  change_pin : Option Passphrase → Option Passphrase → Bool → Message
  provision_pin : Option Passphrase → Passphrase → Message

-- The codes of TokenToDaemon; the two key replies say whether they hold a key.
pub data Reply : Type 0 where
  unlock_successful unlock_failed passwd_wrong locked_till_reboot : Reply
  lock_successful lock_failed : Reply
  wrapped_key unwrapped_key : Bool → Reply
  change_pin_successful change_pin_failed provision_pin_successful provision_pin_failed : Reply

-- What UNLOCK answers to the token's return code
unfoldable pub unlock_reply : ℤ → Token → Reply
unfolding is_locked_till_reboot
unlock_reply ret t =
    if ret ==ℤ pos 0
    then unlock_successful
    else if ret ==ℤ negsuc 1
    then (if is_locked_till_reboot t then locked_till_reboot else passwd_wrong)
    else unlock_failed

-- The message handler scd_control_handle_message on the token that the message names
unfoldable pub handle_message : Outside → Message → Token → Reply × Token
unfolding is_locked_till_reboot unlock unlock_reply lock wrap_key unwrap_key change_passphrase
handle_message o (unlock_token none) t = (unlock_failed, t)
handle_message o (unlock_token (some pin)) t =
    if is_locked_till_reboot t
    then (locked_till_reboot, t)
    else (let (ret, u) = unlock o pin t in (unlock_reply ret u, u))
handle_message o lock_token t =
    let (ret, u) = lock t in ((if ret ==ℤ pos 0 then lock_successful else lock_failed), u)
handle_message o (wrap has_key) t =
    (wrapped_key (not (is_locked t) && (has_key && (wrap_key o t ==ℤ pos 0))), t)
handle_message o (unwrap has_key) t =
    (unwrapped_key (not (is_locked t) && (has_key && (unwrap_key o t ==ℤ pos 0))), t)
handle_message o (change_pin none _ _) t = (change_pin_failed, t)
handle_message o (change_pin (some pin) none _) t = (change_pin_failed, t)
handle_message o (change_pin (some pin) (some newpin) has_secret) t =
    if not has_secret
    then (change_pin_failed, t)
    else if is_locked_till_reboot t
    then (locked_till_reboot, t)
    else (let (ret, u) = change_passphrase o pin newpin false t in
        ((if ret ==ℤ pos 0 then change_pin_successful else change_pin_failed), u))
handle_message o (provision_pin none _) t = (change_pin_failed, t)
handle_message o (provision_pin (some pin) newpin) t =
    if is_locked_till_reboot t
    then (locked_till_reboot, t)
    else (let (ret, u) = change_passphrase o pin newpin true t in
        ((if ret ==ℤ pos 0 then provision_pin_successful else provision_pin_failed), u))

-- A message for which there is no token
unfoldable pub no_token : Message → Reply
no_token (unlock_token _) = unlock_failed
no_token lock_token = lock_failed
no_token (wrap _) = wrapped_key false
no_token (unwrap _) = unwrapped_key false
no_token (change_pin _ _ _) = change_pin_failed
no_token (provision_pin _ _) = change_pin_failed
