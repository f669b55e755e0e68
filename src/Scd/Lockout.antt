-- ===== src/Scd/Lockout.antt =====
-- The limit of wrong passphrases (scd/).
use cml.Prelude.{
  ◌≤◌, ◌≡◌, refl, Bool, true, false, none, some, List, [], ◌∷◌, not, arith, is_some, ◌⊎◌, inl, inr,
  Bool-cases,
}
use cml.Scd.Soft
use cml.Scd.Soft.{Passphrase, File, Softtoken, new_from_p12}
use cml.Scd.Usb
use cml.Scd.Usb.{Device, Usbtoken}
use cml.Scd.Token.{
  Token, soft, usb, Outside, is_locked_till_reboot, Message, unlock_token, lock_token, wrap, unwrap,
  change_pin, provision_pin, Reply, unlock, lock, change_passphrase, handle_message,
}

abbrev pub Request : Type 0
Request = Outside × Message

-- The messages one after the other, each with what is outside at that time.
unfoldable pub handle_all : List Request → Token → List Reply × Token
unfolding handle_message
handle_all [] t = ([], t)
handle_all ((o, m) ∷ rest) t =
    let (reply, u) = handle_message o m t in
    let (replies, v) = handle_all rest u in (reply ∷ replies, v)

-- A token holds its secrets exactly while it is unlocked; its count of wrong passphrases is three at most,
-- and 0 while it is unlocked.
pub record SoundSoft (t : Softtoken) : Type 0 where
  pub secrets : t.secrets ≡ not t.locked
  pub limit : t.wrong_unlock_attempts ≤ 3
  pub none_open : t.locked ≡ false → t.wrong_unlock_attempts ≡ 0

-- The code of a USB token stays in memory when it is locked.
pub record SoundUsb (t : Usbtoken) : Type 0 where
  pub code : t.locked ≡ false → is_some t.auth_code ≡ true
  pub limit : t.wrong_unlock_attempts ≤ 3
  pub none_open : t.locked ≡ false → t.wrong_unlock_attempts ≡ 0

abbrev pub Sound : Token → Type 0
Sound (soft t) = SoundSoft t
Sound (usb t) = SoundUsb t

soft_unlock-Sound :
    (f : File) (p : Passphrase) (t : Softtoken) → SoundSoft t → SoundSoft (Soft.unlock f p t).1
unfolding Soft.unlock Soft.is_locked_till_reboot Soft.free_secrets
soft_unlock-Sound f p t h = ground arith

usb_unlock-Sound :
    (d : Device) (p : Passphrase) (t : Usbtoken) → SoundUsb t → SoundUsb (Usb.unlock d p t).1
unfolding Usb.unlock Usb.unlock_with Usb.authenticate_user Usb.is_locked_till_reboot
usb_unlock-Sound d p t h = ground arith

unlock-Sound : (o : Outside) (p : Passphrase) (t : Token) → Sound t → Sound (unlock o p t).1
unfolding unlock
unlock-Sound o p (soft t) h = soft_unlock-Sound o.file p t h
unlock-Sound o p (usb t) h = usb_unlock-Sound o.device p t h

lock-Sound : (t : Token) → Sound t → Sound (lock t).1
unfolding lock Soft.lock Soft.free_secrets Usb.lock
lock-Sound (soft t) h = ground arith
lock-Sound (usb t) h = record { code = λ e. cc; limit = h.limit; none_open = λ e. cc }

change-same :
    (o : Outside) (p q : Passphrase) (b : Bool) (t : Token) → (change_passphrase o p q b t).1 ≡ t
unfolding change_passphrase Soft.change_passphrase Usb.change_passphrase
change-same o p q b (soft t) = refl
change-same o p q b (usb t) = refl

-- The token behind each message
handle_message-token :
    (o : Outside) (m : Message) (t : Token)
    → ((handle_message o m t).1 ≡ t)
      ⊎ (((is_locked_till_reboot t ≡ false)
            × (p : Passphrase) × ((handle_message o m t).1 ≡ (unlock o p t).1))
          ⊎ ((handle_message o m t).1 ≡ (lock t).1))
unfolding handle_message
handle_message-token o (unlock_token none) t = inl refl
handle_message-token o (unlock_token (some pin)) t = elim (Bool-cases (is_locked_till_reboot t)) [
  | inl e ↦ inl (rw e refl)
  | inr e ↦ inr (inl (e, pin, rw e refl))
]
handle_message-token o lock_token t = inr (inr refl)
handle_message-token o (wrap b) t = inl refl
handle_message-token o (unwrap b) t = inl refl
handle_message-token o (change_pin none q b) t = inl refl
handle_message-token o (change_pin (some p) none b) t = inl refl
handle_message-token o (change_pin (some p) (some q) false) t = inl refl
handle_message-token o (change_pin (some p) (some q) true) t =
    elim (Bool-cases (is_locked_till_reboot t)) [
      | inl e ↦ inl (rw e refl)
      | inr e ↦ inl (rw e (change-same o p q false t))
    ]
handle_message-token o (provision_pin none q) t = inl refl
handle_message-token o (provision_pin (some p) q) t = elim (Bool-cases (is_locked_till_reboot t)) [
  | inl e ↦ inl (rw e refl)
  | inr e ↦ inl (rw e (change-same o p q true t))
]

pub handle_message-Sound :
    (o : Outside) (m : Message) (t : Token) → Sound t → Sound (handle_message o m t).1
handle_message-Sound o m t h = elim (handle_message-token o m t) [
  | inl e ↦ rw e h
  | inr (inl (k, p, e)) ↦ rw e (unlock-Sound o p t h)
  | inr (inr e) ↦ rw e (lock-Sound t h)
]

-- Whatever messages about its lock, keys and passphrase come to a token that is sound, and whatever the
-- file, the device and OpenSSL answer: its count of wrong passphrases is three at most, and 0 while it is
-- unlocked; a software token holds its key and certificates exactly while it is unlocked, and a USB token
-- has its code while it is unlocked.
pub handle_all-Sound : (rs : List Request) (t : Token) → Sound t → Sound (handle_all rs t).1
unfolding handle_all
handle_all-Sound [] t h = h
handle_all-Sound ((o, m) ∷ rs) t h =
    handle_all-Sound rs (handle_message o m t).1 (handle_message-Sound o m t h)
